-- ===== src/Recovery/Torn.antt =====
-- A log whose last line was cut off.
use matching_engine_cpp.Base.{
  ℕ, zero, suc, ◌+◌, ◌-◌, ◌≤◌, ◌<◌, ◌≡◌, refl, ap, ◌∙◌, ◌≢◌, inl, inr, false, some, List, [], ◌∷◌,
  ◌++◌, append-nil, arith, ltb, leb, ◌==◌, ltb→lt, Bool-cases, length, take, length-take-le, All,
  Text, Result, ok,
}
use matching_engine_cpp.Json.{Json, Double}
use matching_engine_cpp.Json.Numbers.{hex}
use matching_engine_cpp.Json.Dump.{dump_value}
use matching_engine_cpp.Json.Dump.Printed.{IsPrinted, dump_value-IsPrinted}
use matching_engine_cpp.Json.RoundTrip.{IsPlain}
use matching_engine_cpp.Protocol.Frames.{crc32}
use matching_engine_cpp.Recovery.{line_of, lines, replay_line, replay_lines, replay_file}
use matching_engine_cpp.Recovery.Line.{crc32-lt, lines_last, drop_return-IsPrinted}
use matching_engine_cpp.Recovery.Replayed.{
  replay_file-contents, record_of, record_of-line, record_of-IsPrinted, replay-checked,
  replay-log_text, log_text,
}

All-take {ℓ κ} : {A : Type ℓ} (P : A → Type κ) (k : ℕ) (l : List A) → All P l → All P (take k l)
All-take P zero l h = tt
All-take P (suc k) [] h = tt
All-take P (suc k) (x ∷ l) h = (h.0, All-take P k l h.1)

take-le {ℓ} : {A : Type ℓ} (k : ℕ) (l r : List A) → k ≤ length l → take k (l ++ r) ≡ take k l
take-le zero l r h = refl
take-le (suc k) [] r h = absurd (omega arith)
take-le (suc k) (x ∷ l) r h = ap (λ t. x ∷ t) (take-le k l r (omega arith))

take_nine :
    (m v : ℕ) (json : Text)
    → take (suc (suc (suc (suc (suc (suc (suc (suc (suc m))))))))) (hex 8 v ++ (b' ' ∷ json))
      ≡ hex 8 v ++ (b' ' ∷ take m json)
unfolding hex
take_nine m v json = refl

length-record_of : (json : Text) → length (record_of json) ≡ length json + 9
unfolding hex
length-record_of json = omega arith

module _ (stod : Text → Result Double) where
  -- A printed text without a line end is one line, if it is any.
  replay_last :
      (t : Text)
      → All IsPrinted t
      → replay_line stod t (ok []) ≡ ok []
      → replay_lines stod (lines t) ≡ ok []
  unfolding replay_lines lines
  replay_last [] h e = refl
  replay_last (c ∷ t) h e = rw (lines_last c t h, drop_return-IsPrinted (c ∷ t) h) e

  replay_short : (t : Text) → length t < 9 → replay_line stod t (ok []) ≡ ok []
  unfolding replay_line
  replay_short t h = let few : leb 9 (length t) ≡ false = ground arith in rw few

  replay_torn_line :
      (json : Text) (k : ℕ)
      → k < length json + 9
      → (9 ≤ k → crc32 (take (k - 9) json) ≢ crc32 json)
      → replay_line stod (take k (record_of json)) (ok []) ≡ ok []
  replay_torn_line json k h differs = elim (Bool-cases (ltb k 9)) [
    | inl few ↦ replay_short _ (omega (arith, length-take-le k (record_of json), ltb→lt k 9 few))
    | inr more ↦
        let m = k - 9 in
        let e : k ≡ suc (suc (suc (suc (suc (suc (suc (suc (suc (k - 9))))))))) = ground arith in
        let other : (crc32 (take (k - 9) json) == crc32 json) ≡ false =
          ground (arith, differs (ground arith)) in
        let cut : take k (record_of json) ≡ hex 8 (crc32 json) ++ (b' ' ∷ take (k - 9) json) =
          ap (λ i. take i (record_of json)) e ∙ take_nine (k - 9) (crc32 json) json in
        rw
          (cut, replay-checked stod (crc32 json) (take (k - 9) json) (ok []) (crc32-lt json), other)
  ]

  -- Where the log holds plain records and, after them, a line that was cut off before its last
  -- character, its checksum not that of the characters left of its value, the replay gives exactly
  -- the records before it.
  pub replay-torn :
      (js : List Json) (j : Json) (k : ℕ)
      → All IsPlain js
      → IsPlain j
      → k < length (dump_value j) + 9
      → (9 ≤ k → crc32 (take (k - 9) (dump_value j)) ≢ crc32 (dump_value j))
      → replay_file stod (some (log_text js ++ take k (line_of (dump_value j)))) ≡ ok js
  replay-torn js j k p q h differs =
      let json = dump_value j in
      let printed = record_of-IsPrinted json (dump_value-IsPrinted j q) in
      let cut : take k (line_of json) ≡ take k (record_of json) =
        ap (take k) (record_of-line json)
        ∙ take-le k (record_of json) (10 ∷ []) (omega (arith, length-record_of json)) in
      let tail =
        replay_last (take k (record_of json)) (All-take IsPrinted k (record_of json) printed)
          (replay_torn_line json k h differs) in
      rw cut (
        replay_file-contents stod (some (log_text js ++ take k (record_of json)))
        ∙ replay-log_text stod js [] (take k (record_of json)) p tail
        ∙ ap ok (append-nil js))
