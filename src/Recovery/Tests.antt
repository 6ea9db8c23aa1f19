-- ===== src/Recovery/Tests.antt =====
-- A log that is written and replayed, and one that was cut off.
use matching_engine_cpp.Base.{
  ℕ, zero, suc, ◌+◌, ◌<◌, ◌≡◌, refl, sym, subst, ◌∙◌, ◌≢◌, true, false, none, some, List, [], ◌∷◌,
  ◌++◌, arith, ◌==◌, if◌then◌else◌, length, take, All, Text, codes, text_eq, text_eq_iff, threw,
  Result, ok, err,
}
use matching_engine_cpp.Json.{Json, Double, string, null}
use matching_engine_cpp.Json.Dump.{dump_value, dump_string, dump_chars, dump_char}
use matching_engine_cpp.Json.RoundTrip.{IsPlain}
use matching_engine_cpp.Protocol.Frames.{crc32}
use matching_engine_cpp.Recovery.{Disk, WalStore, contents, line_of, replay_file, replay_commands}
use matching_engine_cpp.Recovery.Replayed.{Holds, append_all, log_text, replay-append_all}
use matching_engine_cpp.Recovery.Torn.{replay-torn}
use matching_engine_cpp.Recovery.{append, flush, async, fsync, ensure_directory}
use matching_engine_cpp.Recovery.Moved.{move_assign, move_assign-Holds, close_at}
use matching_engine_cpp.Recovery.Replayed.{append_all-Holds}

abbrev no_stod : Text → Result Double
no_stod token = err (threw token)

abbrev empty_disk : Disk
empty_disk = record { wal = some []; snapshot = none; snapshot_tmp = none }

abbrev new_store : WalStore
new_store = record {
  wal_path = codes "data/shard_0.wal.jsonl";
  snapshot_path = codes "data/shard_0.snapshot.json";
  ack_policy = async;
  is_open = true;
  pending = [];
  batch_count = 0;
}

new_store-Holds : Holds [] new_store empty_disk
unfolding log_text
new_store-Holds = record { open_file = refl; text = refl }

abbrev two_records : List Json
two_records = string (codes "a") ∷ null ∷ []

two_records-IsPlain : All IsPlain two_records
unfolding IsPlain
two_records-IsPlain = (tt, (tt, tt))

replay-append_all_example :
    let (store', disk') = append_all two_records new_store empty_disk in
    let (store'', disk'', records) = replay_commands no_stod store' disk' in
    (records ≡ ok two_records) × (contents disk''.wal ≡ log_text two_records)
replay-append_all_example =
    replay-append_all no_stod [] two_records new_store empty_disk new_store-Holds tt
      two_records-IsPlain

-- `"ab"` without its last character has another checksum.
cut_crc :
    (crc32 (take 3 (dump_value (string (codes "ab")))) == crc32 (dump_value (string (codes "ab"))))
    ≡ false
unfolding crc32 dump_value dump_string dump_chars dump_char codes
cut_crc = refl

cut_differs :
    crc32 (take 3 (dump_value (string (codes "ab")))) ≢ crc32 (dump_value (string (codes "ab")))
cut_differs e = ground (arith, cut_crc)

short_enough : 12 < length (dump_value (string (codes "ab"))) + 9
unfolding dump_value dump_string dump_chars dump_char codes
short_enough = omega arith

replay-torn_example :
    replay_file no_stod
      (some (log_text two_records ++ take 12 (line_of (dump_value (string (codes "ab"))))))
    ≡ ok two_records
replay-torn_example =
    replay-torn no_stod two_records (string (codes "ab")) 12 two_records-IsPlain
      (unfold IsPlain in tt) short_enough (λ _. cut_differs)

-- The store with the two records.
abbrev two_store : WalStore × Disk
two_store = append_all two_records new_store empty_disk

abbrev other_store : WalStore
other_store = record new_store {
  wal_path = codes "data/shard_1.wal.jsonl";
  snapshot_path = codes "data/shard_1.snapshot.json";
  ack_policy = fsync;
}

abbrev stores : ℕ → WalStore
stores zero = two_store.0
stores (suc n) = other_store

abbrev disks : Text → Disk
disks path = if text_eq path new_store.wal_path then two_store.1 else empty_disk

two_store-path : (two_store.0).wal_path ≡ new_store.wal_path
unfolding append_all append flush
two_store-path = refl

two_paths : (two_store.0).wal_path ≢ other_store.wal_path
unfolding codes text_eq
two_paths e =
    let same : text_eq new_store.wal_path other_store.wal_path ≡ true =
      (text_eq_iff new_store.wal_path other_store.wal_path).1 (sym two_store-path ∙ e) in
    ground (arith, same)

first_disk : disks (two_store.0).wal_path ≡ two_store.1
unfolding codes text_eq
first_disk = rw two_store-path refl

second_disk : disks other_store.wal_path ≡ empty_disk
unfolding codes text_eq
second_disk = refl

move_assign-Holds_example :
    let (stores', disks') = move_assign (λ text. []) 0 1 stores disks in
    (contents (disks' (stores 0).wal_path).wal ≡ log_text two_records)
    × ((stores' 0).wal_path ≡ other_store.wal_path)
    × ((stores' 0).snapshot_path ≡ other_store.snapshot_path)
    × ((stores' 0).ack_policy ≡ fsync)
    × Holds [] (stores' 0) (disks' (stores' 0).wal_path)
    × ((path : Text) → (close_at 1 stores' disks').1 path ≡ disks' path)
    × (move_assign (λ text. []) 0 0 stores disks ≡ (stores, disks))
move_assign-Holds_example =
    move_assign-Holds (λ text. []) two_records [] 0 1 stores disks (λ e. ground (arith, e))
      two_paths
      (subst (λ d. Holds two_records two_store.0 d) (sym first_disk)
        (append_all-Holds [] two_records new_store empty_disk new_store-Holds))
      (subst (λ d. Holds [] other_store d) (sym second_disk)
        (record { open_file = refl; text = unfold log_text in refl }))

-- `data/a` is made after `data`, and a slash in front makes nothing.
ensure_directory_example :
    (ensure_directory (codes "data/a") ≡ codes "data" ∷ codes "data/a" ∷ [])
    × (ensure_directory (codes "/tmp") ≡ codes "/tmp" ∷ [])
unfolding ensure_directory codes
ensure_directory_example = (refl, refl)
