-- ===== src/Gateway/Tests.antt =====
-- Instances of the theorems on the ingress ring and the sequencer.
use matching_engine_cpp.Base.{ℕ, ◌≡◌, some, List, [], ◌∷◌, arith, ℤ, pos, get_elem?, ok}
use matching_engine_cpp.Gateway.{Command, cancel_order, SequencedCommand, first_sequence}
use matching_engine_cpp.Gateway.Laws.{
  push_all, push_all_newest, push_all_unbounded, assign_all, assign_all_lem,
}

abbrev nth : ℤ → Command
nth n = cancel_order (record { symbol = 65 ∷ []; order_id = n })

abbrev item : ℤ → SequencedCommand
item n = record { ingress_sequence = n; command = nth n }

abbrev item_of : ℕ → ℕ → SequencedCommand
item_of n id = record { ingress_sequence = pos n; command = nth (pos id) }

abbrev three : List SequencedCommand
three = item (pos 1) ∷ item (pos 2) ∷ item (pos 3) ∷ []

push_all_newest_example :
    push_all (record { capacity = 2; queue = [] }) three
    ≡ ok (record { capacity = 2; queue = item (pos 2) ∷ item (pos 3) ∷ [] })
push_all_newest_example = push_all_newest 2 three (omega arith)

push_all_unbounded_example :
    push_all (record { capacity = 0; queue = [] }) three
    ≡ ok (record { capacity = 0; queue = three })
push_all_unbounded_example = push_all_unbounded [] three

assign_all_lem_example :
    (get_elem? (assign_all first_sequence (nth (pos 9) ∷ nth (pos 4) ∷ [])).0 1
      ≡ some (item_of 2 4))
    × ((assign_all first_sequence (nth (pos 9) ∷ nth (pos 4) ∷ [])).1 ≡ pos 3)
assign_all_lem_example = assign_all_lem (nth (pos 9) ∷ nth (pos 4) ∷ []) 1
