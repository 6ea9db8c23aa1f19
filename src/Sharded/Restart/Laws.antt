-- ===== src/Sharded/Restart/Laws.antt =====
-- A shard whose store holds its log is rebuilt as it was.
use matching_engine_cpp.Base.{
  ℕ, ◌<◌, ◌≡◌, ap, ◌∙◌, false, ◌||◌, none, List, [], append-nil, arith, pos, ltb_ℤ, leb_ℤ, All,
  Text, Result, ok,
}
use matching_engine_cpp.Json.{Json, Double}
use matching_engine_cpp.Json.RoundTrip.{IsPlain}
use matching_engine_cpp.Recovery.{Disk, WalStore, replay_commands, contents}
use matching_engine_cpp.Recovery
use matching_engine_cpp.Recovery.Replayed.{Holds, append_all, replay-append_all}
use matching_engine_cpp.Sharded.{Shard, Sharded}
use matching_engine_cpp.Sharded.Replay.Laws.{Replays}
use matching_engine_cpp.Sharded.Restart.{Files, rebuild, replay_shard}

-- The files of a shard hold its log and no snapshot.
pub record HoldsLog (sh : Shard) (store : WalStore) (disk : Disk) : Type 0 where
  pub log : Holds sh.wal store disk
  pub plain : All IsPlain sh.wal
  pub no_snapshot : disk.snapshot ≡ none

module _ (stod : Text → Result Double) where
  load_snapshot-none :
      (disk : Disk) → disk.snapshot ≡ none → Recovery.load_snapshot stod disk ≡ ok none
  unfolding Recovery.load_snapshot
  load_snapshot-none disk h = ap (λ s. Recovery.snapshot_of stod (contents s)) h

  replay_commands-log :
      (js : List Json) (store : WalStore) (disk : Disk)
      → Holds js store disk
      → All IsPlain js
      → (replay_commands stod store disk).2 ≡ ok js
  unfolding append_all
  replay_commands-log js store disk h p =
      (replay-append_all stod js [] store disk h p tt).0 ∙ ap ok (append-nil js)

  rebuild-engine :
      (sh : Shard) (store : WalStore) (disk : Disk)
      → Replays sh
      → HoldsLog sh store disk
      → rebuild stod (store, disk) ≡ ok sh.engine
  unfolding rebuild
  rebuild-engine sh store disk replays h =
      rw
        (load_snapshot-none disk h.no_snapshot, replay_commands-log sh.wal store disk h.log h.plain)
        replays

  -- Where a shard's engine is what its log gives, its store holds that log, as plain records, and
  -- there is no snapshot of it, `replay_shard` of its number rebuilds the engine as it was.
  pub replay_shard-engine :
      (m : Sharded) (files : Files) (i : ℕ)
      → i < m.shard_count
      → Replays (m.shards i)
      → HoldsLog (m.shards i) (files i).0 (files i).1
      → replay_shard stod m files (pos i) ≡ ok (m.shards i).engine
  unfolding replay_shard
  replay_shard-engine m files i small v h =
      let inside : (ltb_ℤ (pos i) (pos 0) || leb_ℤ (pos m.shard_count) (pos i)) ≡ false =
        ground arith in
      rw inside (rebuild-engine (m.shards i) (files i).0 (files i).1 v h)
