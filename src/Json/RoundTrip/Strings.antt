-- ===== src/Json/RoundTrip/Strings.antt =====
-- A string that was written is read back.
use matching_engine_cpp.Base.{
  ℕ, zero, suc, ◌/◌, ◌%◌, ◌≤◌, ◌<◌, ◌≡◌, refl, inl, inr, Bool, true, false, ◌&&◌, [], ◌∷◌, ◌++◌,
  append-nil, append_assoc, arith, ltb, ◌==◌, ltb→lt, ==_iff, Bool-cases, ℤ, pos, negsuc, length,
  length-append, Text, Result, ok, err,
}
use matching_engine_cpp.Json.Numbers.{hex, stoi_hex, hex_digit}
use matching_engine_cpp.Json.Dump.{quote, backslash, dump_char, dump_chars}
use matching_engine_cpp.Json.Parse.{read_unicode, read_escape, read_string, parse_raw_string}

all_codes : ℕ → (ℕ → Bool) → Bool
all_codes zero p = true
all_codes (suc n) p = p n && all_codes n p

all_codes_sound : (n : ℕ) (p : ℕ → Bool) (c : ℕ) → all_codes n p ≡ true → c < n → p c ≡ true
unfolding all_codes
all_codes_sound zero p c h lt = absurd (omega arith)
all_codes_sound (suc n) p c h lt = ground (arith, all_codes_sound n p c)

abbrev is_code : ℕ → Result ℤ → Bool
is_code c (ok (pos n)) = n == c
is_code c (ok (negsuc n)) = false
is_code c (err x) = false

is_code-ok : (c : ℕ) (r : Result ℤ) → is_code c r ≡ true → r ≡ ok (pos c)
is_code-ok c (ok (pos n)) h = ground arith
is_code-ok c (ok (negsuc n)) h = absurd (cc)
is_code-ok c (err x) h = absurd (cc)

control_codes : all_codes 32 (λ c. is_code c (stoi_hex (hex 4 c))) ≡ true
unfolding all_codes stoi_hex hex
control_codes = refl

stoi-hex : (c : ℕ) → c < 32 → stoi_hex (hex 4 c) ≡ ok (pos c)
stoi-hex c h = is_code-ok c _ (all_codes_sound 32 _ c control_codes h)

hex_four : (c : ℕ) → (a b d e : ℕ) × (hex 4 c ≡ a ∷ b ∷ d ∷ e ∷ [])
unfolding hex
hex_four c = (
  hex_digit (c / 16 / 16 / 16 % 16),
  hex_digit (c / 16 / 16 % 16),
  hex_digit (c / 16 % 16),
  hex_digit (c % 16),
  refl,
)

long_enough : (n : ℕ) → ltb (suc (suc (suc (suc n)))) 4 ≡ false
long_enough n = ground arith

read_unicode-hex : (c : ℕ) (ts : Text) → c < 32 → read_unicode (hex 4 c ++ ts) ≡ ok (c ∷ [], ts)
unfolding read_unicode
read_unicode-hex c ts h =
    let (a, b, d, e, eq) = hex_four c in
    let value : stoi_hex (a ∷ b ∷ d ∷ e ∷ []) ≡ ok (pos c) = rw eq at (stoi-hex c h) in
    let small : ltb c 0x80 ≡ true = ground arith in rw (eq, long_enough (length ts), value, small)

-- A round of the loop reads one character of the string.
read-dump_char :
    (f : ℕ) (out : Text) (c : ℕ) (ts : Text)
    → read_string (suc f) out (dump_char c ++ ts) ≡ read_string f (out ++ (c ∷ [])) ts
unfolding read_string dump_char read_escape
read-dump_char f out c ts = elim (Bool-cases (c == quote)) [
  | inl same ↦ rw ((==_iff c quote).0 same)
  | inr eq ↦ elim (Bool-cases (c == backslash)) [
    | inl same ↦ rw ((==_iff c backslash).0 same)
    | inr eb ↦ elim (Bool-cases (c == 10)) [
      | inl same ↦ rw ((==_iff c 10).0 same)
      | inr en ↦ elim (Bool-cases (c == 13)) [
        | inl same ↦ rw ((==_iff c 13).0 same)
        | inr er ↦ elim (Bool-cases (c == 9)) [
          | inl same ↦ rw ((==_iff c 9).0 same)
          | inr et ↦ elim (Bool-cases (c == 8)) [
            | inl same ↦ rw ((==_iff c 8).0 same)
            | inr ee ↦ elim (Bool-cases (c == 12)) [
              | inl same ↦ rw ((==_iff c 12).0 same)
              | inr ef ↦ elim (Bool-cases (ltb c 0x20)) [
                | inl low ↦
                    rw (eq, eb, en, er, et, ee, ef, low, read_unicode-hex c ts (ltb→lt c 0x20 low))
                | inr high ↦ rw (eq, eb, en, er, et, ee, ef, high) (rw (eq, eb))
              ]
            ]
          ]
        ]
      ]
    ]
  ]
]

read-dump_chars :
    (f : ℕ) (out s ts : Text)
    → length s < f
    → read_string f out (dump_chars s ++ (quote ∷ ts)) ≡ ok (out ++ s, ts)
unfolding dump_chars
read-dump_chars zero out s ts h = absurd (omega arith)
read-dump_chars (suc f) out [] ts h = unfold read_string in rw (append-nil out)
read-dump_chars (suc f) out (c ∷ s) ts h = rw (
  append_assoc (dump_char c) (dump_chars s) (quote ∷ ts),
  read-dump_char f out c (dump_chars s ++ (quote ∷ ts)),
  read-dump_chars f (out ++ (c ∷ [])) s ts (omega arith),
  append_assoc out (c ∷ []) s,
)

dump_char_pos : (c : ℕ) → 0 < length (dump_char c)
unfolding dump_char
dump_char_pos c = ground arith

le-dump_chars : (s : Text) → length s ≤ length (dump_chars s)
unfolding dump_chars
le-dump_chars [] = omega arith
le-dump_chars (c ∷ s) =
    omega (arith, le-dump_chars s, length-append (dump_char c) (dump_chars s), dump_char_pos c)

-- A written string is read back from behind its opening quote.
pub raw_string-dump :
    (s rest : Text) → parse_raw_string (dump_chars s ++ (quote ∷ rest)) ≡ ok (s, rest)
unfolding parse_raw_string
raw_string-dump s rest =
    read-dump_chars (suc (length (dump_chars s ++ (quote ∷ rest)))) [] s rest
      (omega (arith, le-dump_chars s, length-append (dump_chars s) (quote ∷ rest)))
