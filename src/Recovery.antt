-- ===== src/Recovery.antt =====
-- include/recovery.hpp and src/recovery.cpp: the log and the snapshot of a shard, over the contents
-- of their files. Whether a file can be opened or renamed is the system's answer, an argument.
-- A write that was flushed is in the file: what a crash of the machine loses is not modelled. The
-- messages of exceptions stand without the path at their end.
pub mod Line
pub mod Moved
pub mod Replayed
pub mod Torn
mod Tests
use matching_engine_cpp.Base.{
  ℕ, ◌+◌, Bool, true, false, ◌&&◌, Option, none, some, List, [], ◌∷◌, ◌++◌, leb, ◌==◌,
  if◌then◌else◌, ℤ, length, is_empty, get_elem?, take, drop, Text, codes, threw, Result, ok, err,
  ◌>>=◌, guard, ◌>>◌,
}
use matching_engine_cpp.Json.{Json, Double}
use matching_engine_cpp.Json.Numbers.{to_string, hex, strtoul_hex}
use matching_engine_cpp.Json.Dump.{dump_value}
use matching_engine_cpp.Json.Parse.{parse}
use matching_engine_cpp.Protocol.Frames.{crc32}

-- The files, where they exist: the log, the snapshot, and the snapshot that is being written.
pub record Disk : Type 0 where
  pub wal : Option Text
  pub snapshot : Option Text
  pub snapshot_tmp : Option Text

pub data AckPolicy : Type 0 where
  async : AckPolicy
  fsync : AckPolicy

-- `is_open` says that `handle_` is no null pointer; it is then the file at `wal_path`.
pub record WalStore : Type 0 where
  pub wal_path : Text
  pub snapshot_path : Text
  pub ack_policy : AckPolicy
  pub is_open : Bool
  pub pending : Text
  pub batch_count : ℕ

abbrev pub commit_batch : ℕ
commit_batch = 64

abbrev pub contents : Option Text → Text
contents none = []
contents (some text) = text

-- The loop of `ensure_directory`, with what it has accumulated: the paths given to `mkdir`, in order.
unfoldable pub directories_from : Text → Text → List Text
directories_from accumulated [] = if is_empty accumulated then [] else accumulated ∷ []
directories_from accumulated (c ∷ root) =
    let at_slash = directories_from (accumulated ++ (b'/' ∷ [])) root in
    let inside = directories_from (accumulated ++ (c ∷ [])) root in
    if c == b'/'
    then (if is_empty accumulated then at_slash else accumulated ∷ at_slash)
    else inside

unfoldable pub ensure_directory : Text → List Text
unfolding directories_from
ensure_directory root = directories_from [] root

abbrev pub shard_path : Text → ℤ → Text → Text
shard_path root shard_id ending = root ++ (codes "/shard_" ++ (to_string shard_id ++ ending))

-- The constructor: the directories it makes, and the store with its files. `fopen(wal_path_, "ab")`
-- makes the file if there is none.
unfoldable pub open_store :
    Bool → Text → ℤ → AckPolicy → Disk → List Text × Result (WalStore × Disk)
unfolding ensure_directory to_string codes
open_store opens root shard_id policy disk = (
  ensure_directory root,
  if opens
      then ok (
        record {
          wal_path = shard_path root shard_id (codes ".wal.jsonl");
          snapshot_path = shard_path root shard_id (codes ".snapshot.json");
          ack_policy = policy;
          is_open = true;
          pending = [];
          batch_count = 0;
        },
        record disk { wal = some (contents disk.wal) },
      )
      else err (threw (codes "failed to open WAL: ")),
)

-- Under `fsync` a flush also asks the system to write the file to the device, which changes none of
-- its contents.
unfoldable pub flush : WalStore → Disk → WalStore × Disk
flush store disk =
    if store.is_open
    then (
      record store { pending = []; batch_count = 0 },
      record disk { wal = some (contents disk.wal ++ store.pending) },
    )
    else (store, disk)

-- `<crc32:8hex> <json>\n`
unfoldable pub line_of : Text → Text
unfolding hex
line_of json = hex 8 (crc32 json) ++ (b' ' ∷ (json ++ (10 ∷ [])))

unfoldable pub append : Json → WalStore → Disk → WalStore × Disk
append command store disk =
    let store' = record store {
      pending = store.pending ++ line_of (dump_value command);
      batch_count = store.batch_count + 1;
    } in
    if leb commit_batch store'.batch_count then flush store' disk else (store', disk)

abbrev pub cons_head : ℕ → List Text → List Text
cons_head c [] = (c ∷ []) ∷ []
cons_head c (l ∷ ls) = (c ∷ l) ∷ ls

-- The lines that `std::getline` gives, the last with or without its end.
unfoldable pub lines : Text → List Text
lines [] = []
lines (c ∷ ts) = if c == 10 then [] ∷ lines ts else cons_head c (lines ts)

-- `if (line.back() == '\r') line.pop_back();`
unfoldable pub drop_return : Text → Text
drop_return [] = []
drop_return (c ∷ []) = if c == 13 then [] else c ∷ []
drop_return (c ∷ d ∷ ts) = c ∷ drop_return (d ∷ ts)

abbrev pub has_space_at : Option ℕ → Bool
has_space_at none = false
has_space_at (some c) = c == b' '

-- `line.size() >= 9 && line[8] == ' '`
abbrev pub is_record : Text → Bool
is_record line = leb 9 (length line) && has_space_at (get_elem? line 8)

abbrev pub cons_ok : Json → Result (List Json) → Result (List Json)
cons_ok j (err why) = err why
cons_ok j (ok js) = ok (j ∷ js)

abbrev pub parsed : Result Json → Result (List Json) → Result (List Json)
parsed (err why) rest = err why
parsed (ok j) rest = cons_ok j rest

module _ (stod : Text → Result Double) where
  -- The loop of `replay_commands`, at the text of a line and what the lines behind it give. A line
  -- that is no record is passed over; the first whose checksum is wrong ends the log.
  unfoldable pub replay_line : Text → Result (List Json) → Result (List Json)
  replay_line line rest =
      let json = drop 9 line in
      if is_record line
      then if crc32 json == strtoul_hex (take 8 line) then parsed (parse stod json) rest else ok []
      else rest

  unfoldable pub replay_lines : List Text → Result (List Json)
  replay_lines [] = ok []
  replay_lines (l ∷ ls) = replay_line (drop_return l) (replay_lines ls)

  unfoldable pub replay_file : Option Text → Result (List Json)
  unfolding replay_lines lines
  replay_file none = ok []
  replay_file (some text) = replay_lines (lines text)

  unfoldable pub replay_commands : WalStore → Disk → WalStore × Disk × Result (List Json)
  unfolding replay_file flush
  replay_commands store disk =
      let (store', disk') = flush store disk in (store', disk', replay_file disk'.wal)

  abbrev pub snapshot_of : Text → Result (Option Json)
  snapshot_of [] = ok none
  snapshot_of (c ∷ text) = parse stod (c ∷ text) >>= λ j. ok (some j)

  unfoldable pub load_snapshot : Disk → Result (Option Json)
  unfolding parse
  load_snapshot disk = snapshot_of (contents disk.snapshot)

-- `fopen(wal_path_, "wb")` empties the file.
unfoldable pub truncate_wal : Bool → WalStore → Disk → Result (WalStore × Disk)
truncate_wal opens store disk =
    if opens
    then ok (
      record store { is_open = true; pending = []; batch_count = 0 },
      record disk { wal = some [] },
    )
    else err (threw (codes "failed to truncate WAL: "))

-- The snapshot is written to the temporary file, which then takes the snapshot's name.
unfoldable pub commit_snapshot : Bool → Bool → Json → Disk → Result Disk
unfolding dump_value
commit_snapshot opens renames snapshot disk = do
  guard opens (threw (codes "failed to open snapshot temp: "))
  guard renames (threw (codes "failed to commit snapshot: "))
  ok (record disk { snapshot = some (dump_value snapshot); snapshot_tmp = none })

unfoldable pub save_snapshot :
    Bool → Bool → Bool → Json → WalStore → Disk → Result (WalStore × Disk)
unfolding flush commit_snapshot truncate_wal
save_snapshot tmp_opens renames wal_opens snapshot store disk =
    let (store', disk') = flush store disk in
    commit_snapshot tmp_opens renames snapshot disk' >>= truncate_wal wal_opens store'

unfoldable pub close : WalStore → Disk → WalStore × Disk
unfolding flush
close store disk =
    let (store', disk') = flush store disk in (record store' { is_open = false }, disk')
