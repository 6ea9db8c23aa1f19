-- ===== src/Sharded/Restart.antt =====
-- src/sharded.cpp: the shards with their files, their snapshots, and the rebuilding of an engine.
pub mod Laws
pub mod Snapshots
mod Tests
use matching_engine_cpp.Base.{
  ℕ, zero, suc, true, ◌||◌, Option, none, some, ◌∷◌, ◌==◌, if◌then◌else◌, ℤ, pos, pos_part, ltb_ℤ,
  leb_ℤ, Text, codes, threw, Result, ok, err, ◌>>=◌, ◌>>◌,
}
use matching_engine_cpp.Json.{Json, Double}
use matching_engine_cpp.Engine.{Engine, initial}
use matching_engine_cpp.Engine.Snapshot.{snapshot, load_snapshot}
use matching_engine_cpp.Recovery.{Disk, WalStore, replay_commands, save_snapshot}
use matching_engine_cpp.Recovery
use matching_engine_cpp.Sharded.{Shard, Sharded, put_shard}
use matching_engine_cpp.Sharded.Replay.{replay}

-- The store and the files of each shard.
abbrev pub Files : Type 0
Files = ℕ → WalStore × Disk

abbrev pub put_files : ℕ → WalStore × Disk → Files → Files
put_files s file files = λ i. if i == s then file else files i

-- `save_snapshot` of one shard, its files opening and renaming without an error.
unfoldable pub snapshot_shard : Shard → WalStore × Disk → Result (WalStore × Disk)
unfolding snapshot save_snapshot
snapshot_shard sh (store, disk) = save_snapshot true true true (snapshot sh.engine) store disk

-- The loop of `snapshot_all` from the shard `i`, with `left` shards to go.
unfoldable pub snapshot_from : ℕ → ℕ → Sharded → Files → Result Files
unfolding snapshot_shard
snapshot_from zero i m files = ok files
snapshot_from (suc left) i m files = snapshot_shard (m.shards i) (files i) >>= λ file.
    snapshot_from left (suc i) m (put_files i file files)

unfoldable pub snapshot_all : Sharded → Files → Result Files
unfolding snapshot_from
snapshot_all m files = snapshot_from m.shard_count 0 m files

abbrev pub loaded : Engine → Option Json → Result Engine
loaded e none = ok e
loaded e (some snap) = load_snapshot e snap

module _ (stod : Text → Result Double) where
  -- The loop of `restore_from_snapshots`.
  unfoldable pub restore_from : ℕ → ℕ → Files → Sharded → Result Sharded
  unfolding load_snapshot
  restore_from zero i files m = ok m
  restore_from (suc left) i files m = do
    snap ← Recovery.load_snapshot stod (files i).1
    e ← loaded (m.shards i).engine snap
    restore_from left (suc i) files (put_shard i (record (m.shards i) { engine = e }) m)

  unfoldable pub restore_from_snapshots : Files → Sharded → Result Sharded
  unfolding restore_from
  restore_from_snapshots files m = restore_from m.shard_count 0 files m

  -- The engine that a shard's files give. The replay writes what was pending first.
  unfoldable pub rebuild : WalStore × Disk → Result Engine
  rebuild (store, disk) = do
    snap ← Recovery.load_snapshot stod disk
    e ← loaded initial snap
    rs ← (replay_commands stod store disk).2
    replay e rs

  unfoldable pub replay_shard : Sharded → Files → ℤ → Result Engine
  unfolding rebuild
  replay_shard m files shard_id =
      if ltb_ℤ shard_id (pos 0) || leb_ℤ (pos m.shard_count) shard_id
      then err (threw (codes "invalid shard id"))
      else rebuild (files (pos_part shard_id))
