-- ===== src/Recovery/Replayed.antt =====
-- What was appended is replayed.
use matching_engine_cpp.Base.{
  ℕ, ◌+◌, ◌^◌, ◌<◌, ◌≡◌, refl, sym, ap, subst, ◌∙◌, inl, inr, true, Option, none, some, List, [],
  ◌∷◌, ◌++◌, append-nil, append_assoc, arith, leb, ◌==◌, if◌then◌else◌, ==_iff, Bool-cases, drop,
  All, All-append, Text, Result, ok,
}
use matching_engine_cpp.Json.{Json, Double}
use matching_engine_cpp.Json.Numbers.{hex}
use matching_engine_cpp.Json.Dump.{dump_value}
use matching_engine_cpp.Json.Dump.Printed.{IsPrinted, hex-IsPrinted, dump_value-IsPrinted}
use matching_engine_cpp.Json.Parse.{parse}
use matching_engine_cpp.Json.RoundTrip.{IsPlain}
use matching_engine_cpp.Json.RoundTrip.Values.{parse-dump}
use matching_engine_cpp.Protocol.Frames.{crc32}
use matching_engine_cpp.Recovery.{
  Disk, WalStore, contents, flush, line_of, append, lines, is_record, parsed, replay_line,
  replay_lines, replay_file, replay_commands, cons_ok, commit_batch,
}
use matching_engine_cpp.Recovery.Line.{
  strtoul-hex, crc32-lt, lines-line, drop_return-IsPrinted, hex_eight,
}

-- A line without its end.
abbrev pub record_of : Text → Text
record_of json = hex 8 (crc32 json) ++ (b' ' ∷ json)

pub record_of-line : (json : Text) → line_of json ≡ record_of json ++ (10 ∷ [])
unfolding line_of
record_of-line json = sym (append_assoc (hex 8 (crc32 json)) (b' ' ∷ json) (10 ∷ []))

pub record_of-IsPrinted : (json : Text) → All IsPrinted json → All IsPrinted (record_of json)
record_of-IsPrinted json h =
    All-append IsPrinted (hex 8 (crc32 json)) (b' ' ∷ json) (hex-IsPrinted 8 (crc32 json))
      (omega arith, h)

hex_record : (v : ℕ) (json : Text) → is_record (hex 8 v ++ (b' ' ∷ json)) ≡ true
unfolding hex
hex_record v json = ground arith

drop_nine : (v : ℕ) (json : Text) → drop 9 (hex 8 v ++ (b' ' ∷ json)) ≡ json
unfolding hex
drop_nine v json = refl

module _ (stod : Text → Result Double) where
  -- A line with the checksum `v` in front.
  pub replay-checked :
      (v : ℕ) (json : Text) (rest : Result (List Json))
      → v < 2 ^ 32
      → replay_line stod (hex 8 v ++ (b' ' ∷ json)) rest
        ≡ (if crc32 json == v then parsed (parse stod json) rest else ok [])
  unfolding replay_line
  replay-checked v json rest h =
      rw (hex_record v json, (hex_eight v (b' ' ∷ json)).0, drop_nine v json, strtoul-hex v h)

  replay-line_of :
      (j : Json) (ts : Text)
      → IsPlain j
      → replay_lines stod (lines (line_of (dump_value j) ++ ts))
        ≡ cons_ok j (replay_lines stod (lines ts))
  unfolding replay_lines
  replay-line_of j ts p =
      let json = dump_value j in
      let printed = record_of-IsPrinted json (dump_value-IsPrinted j p) in
      let same : (crc32 json == crc32 json) ≡ true = (==_iff (crc32 json) (crc32 json)).1 refl in
      let shape : line_of json ++ ts ≡ record_of json ++ (10 ∷ ts) =
        ap (λ l. l ++ ts) (record_of-line json) ∙ append_assoc (record_of json) (10 ∷ []) ts in
      rw (
        shape,
        lines-line (record_of json) ts printed,
        drop_return-IsPrinted (record_of json) printed,
        replay-checked (crc32 json) json (replay_lines stod (lines ts)) (crc32-lt json),
        same,
        parse-dump stod j p,
      )

-- The text of a log.
unfoldable pub log_text : List Json → Text
unfolding line_of
log_text [] = []
log_text (j ∷ js) = line_of (dump_value j) ++ log_text js

log_text-append : (js ks : List Json) → log_text (js ++ ks) ≡ log_text js ++ log_text ks
unfolding log_text
log_text-append [] ks = refl
log_text-append (j ∷ js) ks =
    ap (λ t. line_of (dump_value j) ++ t) (log_text-append js ks)
    ∙ sym (append_assoc (line_of (dump_value j)) (log_text js) (log_text ks))

pub log_text_single : (j : Json) → log_text (j ∷ []) ≡ line_of (dump_value j)
unfolding log_text
log_text_single j = append-nil (line_of (dump_value j))

-- The store holds the records `js`, in its file and behind it in its buffer.
pub record Holds (js : List Json) (store : WalStore) (disk : Disk) : Type 0 where
  pub open_file : store.is_open ≡ true
  pub text : contents disk.wal ++ store.pending ≡ log_text js

pub flush-Holds :
    (js : List Json) (store : WalStore) (disk : Disk)
    → Holds js store disk
    → Holds js (flush store disk).0 (flush store disk).1
      × (contents (flush store disk).1.wal ≡ log_text js)
unfolding flush
flush-Holds js store disk h =
    rw h.open_file (record { open_file = refl; text = append-nil _ ∙ h.text }, h.text)

pub append-Holds :
    (js : List Json) (j : Json) (store : WalStore) (disk : Disk)
    → Holds js store disk
    → Holds (js ++ (j ∷ [])) (append j store disk).0 (append j store disk).1
unfolding append
append-Holds js j store disk h =
    let line = line_of (dump_value j) in
    let store' = record store {
      pending = store.pending ++ line;
      batch_count = store.batch_count + 1;
    } in
    let more : log_text (js ++ (j ∷ [])) ≡ log_text js ++ line =
      log_text-append js (j ∷ []) ∙ ap (λ t. log_text js ++ t) (log_text_single j) in
    let h' : Holds (js ++ (j ∷ [])) store' disk = record {
      open_file = h.open_file;
      text =
          sym (append_assoc (contents disk.wal) store.pending line)
          ∙ ap (λ t. t ++ line) h.text
          ∙ sym more;
    } in
    elim (Bool-cases (leb commit_batch (store.batch_count + 1))) [
      | inl full ↦ rw full (flush-Holds (js ++ (j ∷ [])) store' disk h').0
      | inr room ↦ rw room h'
    ]

unfoldable pub append_all : List Json → WalStore → Disk → WalStore × Disk
unfolding append
append_all [] store disk = (store, disk)
append_all (j ∷ js) store disk =
    let (store', disk') = append j store disk in append_all js store' disk'

pub append_all-Holds :
    (js ks : List Json) (store : WalStore) (disk : Disk)
    → Holds js store disk
    → Holds (js ++ ks) (append_all ks store disk).0 (append_all ks store disk).1
unfolding append_all
append_all-Holds js [] store disk h = subst (λ l. Holds l store disk) (sym (append-nil js)) h
append_all-Holds js (k ∷ ks) store disk h =
    let (store', disk') = append k store disk in
    subst (λ l. Holds l (append_all ks store' disk').0 (append_all ks store' disk').1)
      (append_assoc js (k ∷ []) ks)
      (append_all-Holds (js ++ (k ∷ [])) ks store' disk' (append-Holds js k store disk h))

module _ (stod : Text → Result Double) where
  pub replay-log_text :
      (js ks : List Json) (ts : Text)
      → All IsPlain js
      → replay_lines stod (lines ts) ≡ ok ks
      → replay_lines stod (lines (log_text js ++ ts)) ≡ ok (js ++ ks)
  unfolding log_text
  replay-log_text [] ks ts p h = h
  replay-log_text (j ∷ js) ks ts p h = rw (
    append_assoc (line_of (dump_value j)) (log_text js) ts,
    replay-line_of stod j (log_text js ++ ts) p.0,
    replay-log_text js ks ts p.1 h,
  )

  replay_whole : (js : List Json) → All IsPlain js → replay_lines stod (lines (log_text js)) ≡ ok js
  unfolding replay_lines lines
  replay_whole js p =
      let read = replay-log_text js [] [] p refl in
      rw (append-nil (log_text js), append-nil js) at read

  pub replay_file-contents :
      (wal : Option Text) → replay_file stod wal ≡ replay_lines stod (lines (contents wal))
  unfolding replay_file replay_lines lines
  replay_file-contents none = refl
  replay_file-contents (some text) = refl

  -- Where the store holds the plain records `js` and the plain records `ks` are appended, in as many
  -- batches as it takes, `replay_commands` gives exactly these records, in order, and afterwards all
  -- of them are in the file.
  pub replay-append_all :
      (js ks : List Json) (store : WalStore) (disk : Disk)
      → Holds js store disk
      → All IsPlain js
      → All IsPlain ks
      → let (store', disk') = append_all ks store disk in
        let (store'', disk'', records) = replay_commands stod store' disk' in
        (records ≡ ok (js ++ ks)) × (contents disk''.wal ≡ log_text (js ++ ks))
  unfolding replay_commands
  replay-append_all js ks store disk h p q =
      let (store', disk') = append_all ks store disk in
      let whole = flush-Holds (js ++ ks) store' disk' (append_all-Holds js ks store disk h) in
      let file = (flush store' disk').1.wal in
      let text : contents file ≡ log_text (js ++ ks) = whole.1 in
      (
        replay_file-contents file
            ∙ ap (λ t. replay_lines stod (lines t)) text
            ∙ replay_whole (js ++ ks) (All-append IsPlain js ks p q),
        text,
      )
