-- ===== src/Engine/Priority/Volume.antt =====
-- `available_volume` is the volume of the queue, where that is a `long long`.
use matching_engine_cpp.Base.{
  add_i64-fits, ℕ, ◌^◌, ◌≡◌, refl, sym, ap, subst, ◌∙◌, inl, inr, List, [], ◌∷◌, ◌++◌, reverse,
  arith, Bool-cases, ℤ, pos, ◌+ℤ◌, ◌≤ℤ◌, ◌<ℤ◌, int_laws, +ℤ_assoc, All, All-append, Text,
}
use mathlib.Core.List.{reverse-cons}
use matching_engine_cpp.Engine.PriceMap.{RestingOrder, Level, Levels, level_volume}
use matching_engine_cpp.Engine.PriceMap.Nodes.{IsSide, IsEntry, Orders}
use matching_engine_cpp.Engine.Commands.{available_volume, volume_within, best_first}
use matching_engine_cpp.Engine.{Book, side_of}
use matching_engine_cpp.Engine.Priority.{
  orders_of, best_first_for, accepts, accepts_limit, within-accepts_limit, crossing, queue,
}
use matching_engine_cpp.Types.{Side, buy, sell, opposite, AddOrder, fok}

unfoldable pub volume : List RestingOrder → ℤ
volume [] = pos 0
volume (o ∷ os) = o.remaining +ℤ volume os

volume-append : (xs ys : List RestingOrder) → volume (xs ++ ys) ≡ volume xs +ℤ volume ys
unfolding volume
volume-append [] ys = omega int_laws
volume-append (x ∷ xs) ys =
    rw (volume-append xs ys) (sym (+ℤ_assoc x.remaining (volume xs) (volume ys)))

abbrev pub NonNegative : List RestingOrder → Type 0
NonNegative = All (λ (o : RestingOrder). pos 0 ≤ℤ o.remaining)

volume-NonNegative : (os : List RestingOrder) → NonNegative os → pos 0 ≤ℤ volume os
unfolding volume
volume-NonNegative [] h = omega arith
volume-NonNegative (o ∷ os) h = let rest = volume-NonNegative os h.1 in omega (int_laws, rest, h.0)

-- The sum over a list of orders, on top of `total`.
level_volume-volume :
    (total : ℤ) (l : Level)
    → pos 0 ≤ℤ total
    → NonNegative (orders_of l)
    → total +ℤ volume (orders_of l) <ℤ pos (2 ^ 63)
    → level_volume total l ≡ total +ℤ volume (orders_of l)
unfolding level_volume volume
level_volume-volume total [] h v k = omega int_laws
level_volume-volume total ((n, o) ∷ l) h v k =
    let rest = volume-NonNegative (orders_of l) v.1 in
    let same = +ℤ_assoc total o.remaining (volume (orders_of l)) in
    let next : pos 0 ≤ℤ total +ℤ o.remaining = omega (int_laws, h, v.0) in
    let fits : (total +ℤ o.remaining) +ℤ volume (orders_of l) <ℤ pos (2 ^ 63) =
      subst (λ x. x <ℤ pos (2 ^ 63)) (sym same) k in
    let small : total +ℤ o.remaining <ℤ pos (2 ^ 63) = omega (int_laws, fits, rest) in
    rw (add_i64-fits total o.remaining next small)
      (level_volume-volume (total +ℤ o.remaining) l next v.1 fits ∙ same)

NonNegative-split :
    (xs ys : List RestingOrder) → NonNegative (xs ++ ys) → NonNegative xs × NonNegative ys
NonNegative-split [] ys h = (tt, h)
NonNegative-split (x ∷ xs) ys h = let (a, b) = NonNegative-split xs ys h.1 in ((h.0, a), b)

volume_within-crossing :
    (cmd : AddOrder) (total : ℤ) (m : Levels)
    → cmd.time_in_force ≡ fok
    → pos 0 ≤ℤ total
    → NonNegative (crossing cmd m)
    → total +ℤ volume (crossing cmd m) <ℤ pos (2 ^ 63)
    → volume_within cmd.side cmd.price_ticks total m ≡ total +ℤ volume (crossing cmd m)
unfolding volume_within crossing volume
volume_within-crossing cmd total [] f h v k = omega int_laws
volume_within-crossing cmd total ((p, l) ∷ m) f h v k =
    elim (Bool-cases (accepts_limit cmd.side cmd.price_ticks p)) [
      | inl within_limit ↦
          let (here, there) =
            NonNegative-split (orders_of l) (crossing cmd m) (rw (f, within_limit) at v) in
          let parts : volume (orders_of l ++ crossing cmd m)
              ≡ volume (orders_of l) +ℤ volume (crossing cmd m) =
            volume-append (orders_of l) (crossing cmd m) in
          let a = volume-NonNegative (orders_of l) here in
          let b = volume-NonNegative (crossing cmd m) there in
          let same = +ℤ_assoc total (volume (orders_of l)) (volume (crossing cmd m)) in
          let whole : total +ℤ volume (orders_of l ++ crossing cmd m) <ℤ pos (2 ^ 63) =
            rw (f, within_limit) at k in
          let fits : (total +ℤ volume (orders_of l)) +ℤ volume (crossing cmd m) <ℤ pos (2 ^ 63) =
            subst (λ x. x <ℤ pos (2 ^ 63)) (ap (λ x. total +ℤ x) parts ∙ sym same) whole in
          let small : total +ℤ volume (orders_of l) <ℤ pos (2 ^ 63) = omega (int_laws, fits, b) in
          let next : pos 0 ≤ℤ total +ℤ volume (orders_of l) = omega (int_laws, h, a) in
          rw
            (
              within-accepts_limit cmd.side cmd.price_ticks p,
              f,
              within_limit,
              level_volume-volume total l h here small,
              parts,
            )
            (volume_within-crossing cmd (total +ℤ volume (orders_of l)) m f next there fits ∙ same)
      | inr beyond ↦
          rw (within-accepts_limit cmd.side cmd.price_ticks p, f, beyond) (omega int_laws)
    ]

within-best_first :
    (d : Side) (limit : ℤ) (m : Levels)
    → volume_within (opposite (opposite d)) limit (pos 0) (best_first (opposite d) m)
      ≡ volume_within d limit (pos 0) (best_first_for d m)
unfolding opposite
within-best_first buy limit m = refl
within-best_first sell limit m = refl

module _ (symbol : Text) (side : Side) (next : ℕ) where
  Orders-NonNegative : (p : ℤ) (l : Level) → Orders symbol side next p l → NonNegative (orders_of l)
  Orders-NonNegative p [] h = tt
  Orders-NonNegative p ((n, o) ∷ l) h = (omega (arith, h.0.positive), Orders-NonNegative p l h.1)

  crossing-NonNegative :
      (cmd : AddOrder) (m : Levels)
      → All (IsEntry symbol side next) m
      → NonNegative (crossing cmd m)
  unfolding crossing
  crossing-NonNegative cmd [] h = tt
  crossing-NonNegative cmd ((p, l) ∷ m) h =
      elim (Bool-cases (accepts cmd.time_in_force cmd.side cmd.price_ticks p)) [
        | inl taken ↦ rw taken (
            All-append _ (orders_of l) (crossing cmd m) (Orders-NonNegative p l h.0.1)
              (crossing-NonNegative cmd m h.1))
        | inr beyond ↦ rw beyond tt
      ]

  reverse-entries :
      (m : Levels) → All (IsEntry symbol side next) m → All (IsEntry symbol side next) (reverse m)
  reverse-entries [] h = tt
  reverse-entries (x ∷ m) h =
      subst (All (IsEntry symbol side next)) (sym (reverse-cons x m))
        (All-append _ (reverse m) (x ∷ []) (reverse-entries m h.1) (h.0, tt))

  queue-NonNegative :
      (cmd : AddOrder) (m : Levels) → All (IsEntry symbol side next) m → NonNegative (queue cmd m)
  unfolding queue
  queue-NonNegative cmd m h =
      crossing-NonNegative cmd (best_first_for cmd.side m) (from_best cmd.side)
    where
      from_best : (d : Side) → All (IsEntry symbol side next) (best_first_for d m)
      from_best buy = h
      from_best sell = reverse-entries m h

-- The volume that `add` finds for a fill-or-kill order is that of its queue, where no sum on the way
-- overflows.
pub available_volume-queue :
    (symbol : Text) (side : Side) (next : ℕ) (cmd : AddOrder) (b : Book)
    → cmd.time_in_force ≡ fok
    → IsSide symbol side next (side_of (opposite cmd.side) b)
    → volume (queue cmd (side_of (opposite cmd.side) b)) <ℤ pos (2 ^ 63)
    → available_volume b (opposite cmd.side) cmd.price_ticks
      ≡ volume (queue cmd (side_of (opposite cmd.side) b))
unfolding available_volume queue
available_volume-queue symbol side next cmd b f v small =
    let m = side_of (opposite cmd.side) b in
    let q = crossing cmd (best_first_for cmd.side m) in
    let zero_sum : pos 0 +ℤ volume q ≡ volume q = omega int_laws in
    within-best_first cmd.side cmd.price_ticks m
    ∙ volume_within-crossing cmd (pos 0) (best_first_for cmd.side m) f (omega arith)
        (queue-NonNegative symbol side next cmd m v.entries)
        (subst (λ x. x <ℤ pos (2 ^ 63)) (sym zero_sum) small)
    ∙ zero_sum
