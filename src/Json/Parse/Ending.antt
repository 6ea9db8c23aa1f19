-- ===== src/Json/Parse/Ending.antt =====
-- When a step of the parser ends: it fails for a reason of its own, or leaves a shorter text.
use matching_engine_cpp.Base.{
  some, none, some, Option, ℤ, ℕ, zero, suc, ◌≤◌, ◌<◌, inl, inr, Bool, true, false, [], ◌∷◌, ◌++◌,
  arith, ltb, ◌==◌, if◌then◌else◌, Bool-cases, length, take, drop, Text, Error, threw, dangling,
  stuck, Result, ok, err, ◌>>=◌,
}
use matching_engine_cpp.Json.Numbers.{in_range, read_number, stoi_hex, stoll}
use matching_engine_cpp.Json.Dump.{quote, backslash}
use matching_engine_cpp.Json.Parse.{
  skip_ws, is_ws, peek, read_unicode, read_escape, read_string, parse_raw_string,
}

-- The reason is not that a loop ran out.
abbrev pub Ran : Error → Type 0
Ran (threw why) = Unit {0}
Ran dangling = Unit {0}
Ran stuck = ⊥

module _ {A : Type 0} where
  abbrev pub Finishes : Result A → Type 0
  Finishes (err why) = Ran why
  Finishes (ok a) = Unit {0}

  -- What is left is shorter than `n`.
  abbrev pub Ends : ℕ → Result (A × Text) → Type 0
  Ends n (err why) = Ran why
  Ends n (ok (a, rest)) = length rest < n

  pub Ends-le : (n m : ℕ) (r : Result (A × Text)) → n ≤ m → Ends n r → Ends m r
  Ends-le n m (err why) h e = e
  Ends-le n m (ok (a, rest)) h e = omega arith

  pub Ends-if :
      (n : ℕ) (t : Bool) (r s : Result (A × Text))
      → Ends n r
      → Ends n s
      → Ends n (if t then r else s)
  Ends-if n true r s h k = h
  Ends-if n false r s h k = k

module _ {A B : Type 0} where
  pub Ends-bind :
      (n m : ℕ) (r : Result (A × Text)) (f : A × Text → Result (B × Text))
      → Ends n r
      → ((a : A) (rest : Text) → length rest < n → Ends m (f (a, rest)))
      → Ends m (r >>= f)
  Ends-bind n m (err why) f e g = e
  Ends-bind n m (ok (a, rest)) f e g = g a rest e

  pub Finishes-bind :
      (m : ℕ) (r : Result A) (f : A → Result (B × Text))
      → Finishes r
      → ((a : A) → Ends m (f a))
      → Ends m (r >>= f)
  Finishes-bind m (err why) f e g = e
  Finishes-bind m (ok a) f e g = g a

pub skip_ws-le : (ts : Text) → length (skip_ws ts) ≤ length ts
unfolding skip_ws
skip_ws-le [] = omega arith
skip_ws-le (c ∷ ts) = elim (Bool-cases (is_ws c)) [
  | inl space ↦ rw space (omega (arith, skip_ws-le ts))
  | inr other ↦ rw other (omega arith)
]

pub peek-Ends : (ts : Text) → Ends (length ts) (peek ts)
peek-Ends [] = tt
peek-Ends (c ∷ ts) = omega arith

drop-le : (n : ℕ) (ts : Text) → length (drop n ts) ≤ length ts
drop-le zero ts = omega arith
drop-le (suc n) [] = omega arith
drop-le (suc n) (c ∷ ts) = omega (arith, drop-le n ts)

in_range-Finishes : (name : Text) (fits : ℤ → Bool) (o : Option ℤ) → Finishes (in_range name fits o)
in_range-Finishes name fits none = tt
in_range-Finishes name fits (some n) = elim (Bool-cases (fits n)) [
  | inl small ↦ rw small tt
  | inr large ↦ rw large tt
]

stoi_hex-Finishes : (ts : Text) → Finishes (stoi_hex ts)
unfolding stoi_hex
stoi_hex-Finishes ts = in_range-Finishes _ _ (read_number 16 ts)

pub stoll-Finishes : (ts : Text) → Finishes (stoll ts)
unfolding stoll
stoll-Finishes ts = in_range-Finishes _ _ (read_number 10 ts)

read_unicode-Ends : (ts : Text) → Ends (suc (length ts)) (read_unicode ts)
unfolding read_unicode
read_unicode-Ends ts = Ends-if (suc (length ts)) (ltb (length ts) 4) _ _ tt (
    Finishes-bind (suc (length ts)) (stoi_hex (take 4 ts)) _ (stoi_hex-Finishes (take 4 ts))
      (λ n. omega (arith, drop-le 4 ts)))

read_escape-Ends : (ts : Text) → Ends (length ts) (read_escape ts)
unfolding read_escape
read_escape-Ends [] = tt
read_escape-Ends (e ∷ ts) =
    let n = suc (length ts) in
    let one : length ts < n = omega arith in
    Ends-if n (e == quote) _ _ one (
      Ends-if n (e == backslash) _ _ one (
        Ends-if n (e == b'/') _ _ one (
          Ends-if n (e == b'n') _ _ one (
            Ends-if n (e == b'r') _ _ one (
              Ends-if n (e == b't') _ _ one (
                Ends-if n (e == b'b') _ _ one (
                  Ends-if n (e == b'f') _ _ one
                    (Ends-if n (e == b'u') _ _ (read_unicode-Ends ts) tt))))))))

read_string-Ends :
    (fuel : ℕ) (out ts : Text) → length ts < fuel → Ends (length ts) (read_string fuel out ts)
unfolding read_string
read_string-Ends zero out ts h = absurd (omega arith)
read_string-Ends (suc fuel) out [] h = tt
read_string-Ends (suc fuel) out (c ∷ ts) h =
    let n = suc (length ts) in
    Ends-if n (c == quote) _ _ (omega arith) (
      Ends-if n (c == backslash) _ _
        (Ends-bind (length ts) n (read_escape ts) _ (read_escape-Ends ts) (λ bytes after k.
          Ends-le (length after) n _ (omega arith)
            (read_string-Ends fuel (out ++ bytes) after (omega arith))))
        (Ends-le (length ts) n _ (omega arith)
          (read_string-Ends fuel (out ++ (c ∷ [])) ts (omega arith))))

pub parse_raw_string-Ends : (ts : Text) → Ends (length ts) (parse_raw_string ts)
unfolding parse_raw_string
parse_raw_string-Ends ts = read_string-Ends (suc (length ts)) [] ts (omega arith)
