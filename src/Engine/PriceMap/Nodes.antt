-- ===== src/Engine/PriceMap/Nodes.antt =====
-- Orders in the list of a price: which are well formed there, and what an iterator reads after the
-- list changes.
use matching_engine_cpp.Base.{
  ℕ, ◌≤◌, ◌<◌, ◌==◌, ℤ, pos, ◌<ℤ◌, Text, [], ◌∷◌, ◌++◌, none, some, ◌≡◌, false, if◌then◌else◌,
  is_empty, All, All-mono, arith, ◌⊎◌, inl, inr,
}
use matching_engine_cpp.Types.{Side}
use matching_engine_cpp.Engine.PriceMap.{
  RestingOrder, NodeId, Level, Levels, find_node, erase_node, level_at, put_level,
}
use matching_engine_cpp.Engine.PriceMap.Laws.{
  IsSorted, level_at-All, put_level-All, put_level-IsSorted,
}

-- An order that may rest in the list under `price` on `side` of the book of `symbol`, in a node
-- allocated before `next`.
pub record IsResting (symbol : Text) (side : Side) (price : ℤ) (next : ℕ)
    (x : NodeId × RestingOrder) : Type 0 where
  pub same_symbol : symbol ≡ x.1.symbol
  pub same_side : x.1.side ≡ side
  pub same_price : x.1.price_ticks ≡ price
  pub positive : pos 0 <ℤ x.1.remaining
  pub allocated : x.0 < next

module _ (symbol : Text) (side : Side) (next : ℕ) where
  abbrev pub Orders : ℤ → Level → Type 0
  Orders price = All (IsResting symbol side price next)

  -- An entry of the map: a list that is not empty, of orders that belong there.
  abbrev pub IsEntry : ℤ × Level → Type 0
  IsEntry x = (is_empty x.1 ≡ false) × Orders x.0 x.1

  pub record IsSide (m : Levels) : Type 0 where
    pub entries : All IsEntry m
    pub sorted : IsSorted m

  pub level_at-Orders : (price : ℤ) (m : Levels) → IsSide m → Orders price (level_at price m)
  level_at-Orders price m v = from_cases (level_at price m) (level_at-All IsEntry price m v.entries)
    where
      from_cases : (l : Level) → (l ≡ []) ⊎ IsEntry (price, l) → Orders price l
      from_cases l (inl e) = rw e tt
      from_cases l (inr h) = h.1

  pub put_level-IsSide :
      (price : ℤ) (l : Level) (m : Levels)
      → Orders price l
      → IsSide m
      → IsSide (put_level price l m)
  put_level-IsSide price l m h v = record {
    entries = put_level-All IsEntry price l m (λ e. (e, h)) v.entries;
    sorted = put_level-IsSorted price l m v.sorted;
  }

  pub erase_node-Orders :
      (price : ℤ) (n : NodeId) (l : Level) → Orders price l → Orders price (erase_node n l)
  unfolding erase_node
  erase_node-Orders price n [] h = tt
  erase_node-Orders price n ((m, o) ∷ l) h = ground (arith, erase_node-Orders price n l h.1)

  -- A fresh address is not that of any node in the list.
  pub find_node-allocated :
      (price : ℤ) (j : NodeId) (l : Level) (o : RestingOrder)
      → Orders price l
      → find_node j l ≡ some o
      → j < next
  unfolding find_node
  find_node-allocated price j [] o h e = cc
  find_node-allocated price j ((n, x) ∷ l) o h e =
      ground (arith, h.0.allocated, find_node-allocated price j l o h.1)

-- More nodes may have been allocated since.
pub Orders-mono :
    (symbol : Text) (side : Side) (price : ℤ) (j k : ℕ) (l : Level)
    → j ≤ k
    → Orders symbol side j price l
    → Orders symbol side k price l
Orders-mono symbol side price j k l h =
    All-mono (IsResting symbol side price j) (IsResting symbol side price k) l λ x r. record {
      same_symbol = r.same_symbol;
      same_side = r.same_side;
      same_price = r.same_price;
      positive = r.positive;
      allocated = omega (arith, r.allocated);
    }

pub IsSide-mono :
    (symbol : Text) (side : Side) (j k : ℕ) (m : Levels)
    → j ≤ k
    → IsSide symbol side j m
    → IsSide symbol side k m
IsSide-mono symbol side j k m h v = record {
  entries =
      All-mono (IsEntry symbol side j) (IsEntry symbol side k) m
        (λ x e. (e.0, Orders-mono symbol side x.0 j k x.1 h e.1)) v.entries;
  sorted = v.sorted;
}

pub find_node-erase_node :
    (n j : NodeId) (l : Level)
    → find_node j (erase_node n l) ≡ (if n == j then none else find_node j l)
unfolding find_node erase_node
find_node-erase_node n j [] = ground arith
find_node-erase_node n j ((m, o) ∷ l) = ground (arith, find_node-erase_node n j l)

-- A node that was in the list is still read as before when one is added at the end.
pub find_node-append :
    (j n : NodeId) (o x : RestingOrder) (l : Level)
    → find_node j l ≡ some o
    → find_node j (l ++ ((n, x) ∷ [])) ≡ some o
unfolding find_node
find_node-append j n o x [] e = cc
find_node-append j n o x ((m, y) ∷ l) e = ground (arith, find_node-append j n o x l)

-- The node added at the end is found there, if its address is fresh.
pub find_node-append_self :
    (symbol : Text) (side : Side) (price : ℤ) (n : NodeId) (x : RestingOrder) (l : Level)
    → Orders symbol side n price l
    → find_node n (l ++ ((n, x) ∷ [])) ≡ some x
unfolding find_node
find_node-append_self symbol side price n x [] h = ground arith
find_node-append_self symbol side price n x ((m, y) ∷ l) h =
    ground (arith, h.0.allocated, find_node-append_self symbol side price n x l h.1)
