-- ===== src/Sharded/Restart/Snapshots.antt =====
-- A shard that was saved is rebuilt from its snapshot and what was logged since.
use matching_engine_cpp.Base.{
  ◌+◌, ◌≡◌, refl, sym, ap, ◌∙◌, inl, inr, true, none, some, List, [], ◌∷◌, arith, leb, Bool-cases,
  ℤ, All, Text, Result, ok,
}
use matching_engine_cpp.Types.{Side}
use matching_engine_cpp.Json.{Json, Double}
use matching_engine_cpp.Json.Dump.{dump_value}
use matching_engine_cpp.Json.Parse.{parse}
use matching_engine_cpp.Json.RoundTrip.{IsPlain, dump-cons}
use matching_engine_cpp.Json.RoundTrip.Values.{parse-dump}
use matching_engine_cpp.Engine.{Engine, initial}
use matching_engine_cpp.Engine.Invariant.{IsValid}
use matching_engine_cpp.Engine.Snapshot.{snapshot}
use matching_engine_cpp.Engine.Snapshot.Again.{seen_at}
use matching_engine_cpp.Engine.Snapshot.Books.{Distinct}
use matching_engine_cpp.Engine.Snapshot.Restored.{load_snapshot-snapshot}
use matching_engine_cpp.Recovery.{
  parsed, Disk, WalStore, append, flush, replay_commands, save_snapshot, commit_snapshot,
  truncate_wal, contents, snapshot_of, commit_batch, line_of,
}
use matching_engine_cpp.Recovery
use matching_engine_cpp.Recovery.Replayed.{Holds, append_all, log_text, replay-append_all}
use matching_engine_cpp.Sharded.{Shard}
use matching_engine_cpp.Sharded.Replay.{replay}
use matching_engine_cpp.Sharded.Restart.{rebuild, snapshot_shard}

-- A store and its files right after a snapshot.
abbrev saved_store : WalStore → WalStore
saved_store store = record store { is_open = true; pending = []; batch_count = 0 }

abbrev saved_disk : Json → Disk
saved_disk snap = record { wal = some []; snapshot = some (dump_value snap); snapshot_tmp = none }

save_snapshot_lem :
    (snap : Json) (store : WalStore) (disk : Disk)
    → store.is_open ≡ true
    → save_snapshot true true true snap store disk ≡ ok (saved_store store, saved_disk snap)
unfolding save_snapshot commit_snapshot truncate_wal flush
save_snapshot_lem snap store disk h = ground arith

saved-Holds : (snap : Json) (store : WalStore) → Holds [] (saved_store store) (saved_disk snap)
unfolding log_text
saved-Holds snap store = record { open_file = refl; text = refl }

flush-snapshot : (store : WalStore) (disk : Disk) → (flush store disk).1.snapshot ≡ disk.snapshot
unfolding flush
flush-snapshot store disk = ground arith

append-snapshot :
    (j : Json) (store : WalStore) (disk : Disk) → (append j store disk).1.snapshot ≡ disk.snapshot
unfolding append
append-snapshot j store disk = elim (Bool-cases (leb commit_batch (store.batch_count + 1))) [
  | inl full ↦ rw full (flush-snapshot _ disk)
  | inr room ↦ rw room refl
]

append_all-snapshot :
    (js : List Json) (store : WalStore) (disk : Disk)
    → (append_all js store disk).1.snapshot ≡ disk.snapshot
unfolding append_all
append_all-snapshot [] store disk = refl
append_all-snapshot (j ∷ js) store disk =
    append_all-snapshot js (append j store disk).0 (append j store disk).1
    ∙ append-snapshot j store disk

module _ (stod : Text → Result Double) where
  load_snapshot-dump :
      (snap : Json) (disk : Disk)
      → IsPlain snap
      → disk.snapshot ≡ some (dump_value snap)
      → Recovery.load_snapshot stod disk ≡ ok (some snap)
  unfolding Recovery.load_snapshot
  load_snapshot-dump snap disk p h =
      let (c, t, e, first) = dump-cons snap p in
      let read : parse stod (c ∷ t) ≡ ok snap = ap (parse stod) (sym e) ∙ parse-dump stod snap p in
      ap (λ x. snapshot_of stod (contents x)) h ∙ ap (snapshot_of stod) e ∙ rw read refl

  -- A shard whose engine is in order, with one book for a symbol at most, and whose snapshot's
  -- integers fit a `long long`, is saved by an open store. However many plain records are appended
  -- then, rebuilding it from its files gives what the replay of exactly these records makes of an
  -- engine that counts its events from the same number on and holds the same orders in the same order.
  pub rebuild-snapshot_shard :
      (sh : Shard) (store : WalStore) (disk : Disk) (js : List Json) (s : Text) (d : Side) (p : ℤ)
      → store.is_open ≡ true
      → IsValid sh.engine
      → Distinct sh.engine.books
      → IsPlain (snapshot sh.engine)
      → All IsPlain js
      → (file : WalStore × Disk) × (e : Engine) × (snapshot_shard sh (store, disk) ≡ ok file)
        × (e.sequence ≡ sh.engine.sequence)
        × (seen_at e.books s d p ≡ seen_at sh.engine.books s d p)
        × (rebuild stod (append_all js file.0 file.1) ≡ replay e js)
  unfolding snapshot_shard rebuild
  rebuild-snapshot_shard sh store disk js s d p open_store v h plain records =
      let snap = snapshot sh.engine in
      let (e, ran, count, same) = load_snapshot-snapshot sh.engine initial s d p v h in
      let (store', disk') = append_all js (saved_store store) (saved_disk snap) in
      let kept = append_all-snapshot js (saved_store store) (saved_disk snap) in
      let replayed =
        replay-append_all stod [] js (saved_store store) (saved_disk snap) (saved-Holds snap store)
          tt records in
      (
        (saved_store store, saved_disk snap),
        e,
        save_snapshot_lem snap store disk open_store,
        count,
        same,
        rw (load_snapshot-dump snap disk' plain kept, ran, replayed.0) refl,
      )
