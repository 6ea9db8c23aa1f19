-- ===== src/Recovery/Line.antt =====
-- The checksum in front of a line reads back.
use matching_engine_cpp.Base.{
  ℕ, zero, suc, ◌+◌, ◌*◌, ◌/◌, ◌%◌, ◌^◌, ◌<◌, ◌≡◌, refl, sym, ap, ◌∙◌, true, false, ◌&&◌, ◌||◌,
  some, [], ◌∷◌, ◌++◌, append-nil, append_assoc, arith, ltb, ◌==◌, pos, take, drop, All, Text,
}
use native.Mathlib.Nat.{pow-zero, pow-succ'}
use matching_engine_cpp.Json.Numbers.{
  hex, hex_digit, digit_value, read_digits, skip_prefix, magnitude, is_space, read_number,
  strtoul_hex,
}
use matching_engine_cpp.Protocol.Frames.{crc32}
use matching_engine_cpp.Json.Dump.Printed.{IsPrinted}
use matching_engine_cpp.Recovery.{lines, cons_head, drop_return}

hex_digit_value : (d : ℕ) → d < 16 → digit_value (hex_digit d) ≡ d
hex_digit_value d h = ground arith

abbrev IsHex : ℕ → Type 0
IsHex c = digit_value c < 16

read_number-hex :
    (a b : ℕ) (ts : Text)
    → IsHex a
    → IsHex b
    → read_number 16 (a ∷ b ∷ ts) ≡ some (pos (read_digits 16 0 (a ∷ b ∷ ts)))
unfolding read_number magnitude skip_prefix
read_number-hex a b ts ha hb =
    let e1 : is_space a ≡ false = ground arith in
    let e2 : (a == b'-') ≡ false = ground arith in
    let e3 : (a == b'+') ≡ false = ground arith in
    let e4 : (b == b'x' || b == b'X') ≡ false = ground arith in
    let e5 : (a == b'0' && false) ≡ false = ground arith in
    let e6 : ltb (digit_value a) 16 ≡ true = ground arith in
    rw (e1, e2, e3, e4) (rw e5 (rw e6 refl))

read_digits-hex :
    (k v : ℕ) (rest : Text)
    → v < 16 ^ k
    → read_digits 16 0 (hex k v ++ rest) ≡ read_digits 16 v rest
unfolding hex read_digits
read_digits-hex zero v rest h = let e : v ≡ 0 = omega (arith, pow-zero 16) in rw e
read_digits-hex (suc k) v rest h =
    let small : v / 16 < 16 ^ k = omega (arith, pow-succ' 16 k) in
    let last : digit_value (hex_digit (v % 16)) ≡ v % 16 = hex_digit_value (v % 16) (omega arith) in
    let in_base : ltb (digit_value (hex_digit (v % 16))) 16 ≡ true = ground (arith, last) in
    let whole : v / 16 * 16 + v % 16 ≡ v = omega arith in
    rw (append_assoc (hex k (v / 16)) (hex_digit (v % 16) ∷ []) rest) (
      read_digits-hex k (v / 16) (hex_digit (v % 16) ∷ rest) small
      ∙ rw in_base (rw (last, whole) refl))

hex_digit-IsHex : (d : ℕ) → IsHex (hex_digit (d % 16))
hex_digit-IsHex d = omega (arith, hex_digit_value (d % 16))

hex_two : (v : ℕ) → (a b : ℕ) × (ts : Text) × (hex 8 v ≡ a ∷ b ∷ ts) × IsHex a × IsHex b
unfolding hex
hex_two v = (
  _,
  _,
  _,
  refl,
  hex_digit-IsHex (v / 16 / 16 / 16 / 16 / 16 / 16 / 16),
  hex_digit-IsHex (v / 16 / 16 / 16 / 16 / 16 / 16),
)

pub strtoul-hex : (v : ℕ) → v < 2 ^ 32 → strtoul_hex (hex 8 v) ≡ v
unfolding strtoul_hex read_digits
strtoul-hex v h =
    let (a, b, ts, e, ha, hb) = hex_two v in
    let number : read_number 16 (hex 8 v) ≡ some (pos (read_digits 16 0 (hex 8 v))) =
      rw e (read_number-hex a b ts ha hb) in
    let value : read_digits 16 0 (hex 8 v) ≡ v =
      ap (read_digits 16 0) (sym (append-nil (hex 8 v))) ∙ read_digits-hex 8 v [] (omega arith) in
    rw (number, value) (omega arith)

pub crc32-lt : (s : Text) → crc32 s < 2 ^ 32
unfolding crc32
crc32-lt s = omega arith

pub hex_eight :
    (v : ℕ) (rest : Text) → (take 8 (hex 8 v ++ rest) ≡ hex 8 v) × (drop 8 (hex 8 v ++ rest) ≡ rest)
unfolding hex
hex_eight v rest = (refl, refl)

-- What a text with a line end gives, where no character before it is one.
pub lines-line : (s ts : Text) → All IsPrinted s → lines (s ++ (10 ∷ ts)) ≡ s ∷ lines ts
unfolding lines
lines-line [] ts h = refl
lines-line (c ∷ s) ts h =
    let other : (c == 10) ≡ false = ground (arith, h.0) in
    rw other (ap (cons_head c) (lines-line s ts h.1))

pub lines_last : (c : ℕ) (s : Text) → All IsPrinted (c ∷ s) → lines (c ∷ s) ≡ (c ∷ s) ∷ []
unfolding lines
lines_last c [] h = let other : (c == 10) ≡ false = ground (arith, h.0) in rw other
lines_last c (d ∷ s) h =
    let other : (c == 10) ≡ false = ground (arith, h.0) in
    rw other (ap (cons_head c) (lines_last d s h.1))

pub drop_return-IsPrinted : (s : Text) → All IsPrinted s → drop_return s ≡ s
unfolding drop_return
drop_return-IsPrinted [] h = refl
drop_return-IsPrinted (c ∷ []) h = let other : (c == 13) ≡ false = ground (arith, h.0) in rw other
drop_return-IsPrinted (c ∷ d ∷ s) h = ap (λ t. c ∷ t) (drop_return-IsPrinted (d ∷ s) h.1)
