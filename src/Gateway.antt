-- ===== src/Gateway.antt =====
-- include/gateway.hpp: the commands, the ingress ring and the sequencer.
mod Laws
mod Tests
use matching_engine_cpp.Base.{
  Result, ok, err, dangling, ◌>>=◌, ℕ, not, ◌&&◌, Option, none, some, List, [], ◌∷◌, ◌++◌, ◌==◌,
  if◌then◌else◌, ℤ, pos, ◌+ℤ◌, length, is_empty,
}
use matching_engine_cpp.Types.{AddOrder, CancelOrder, ReplaceOrder}

-- `std::variant<AddOrder, CancelOrder, ReplaceOrder>`
pub data Command : Type 0 where
  add_order : AddOrder → Command
  cancel_order : CancelOrder → Command
  replace_order : ReplaceOrder → Command

pub record SequencedCommand : Type 0 where
  pub ingress_sequence : ℤ
  pub command : Command

pub record IngressRing : Type 0 where
  pub capacity : ℕ
  pub queue : List SequencedCommand

-- On an empty queue `pop_front` is undefined.
abbrev pub pop_front : List SequencedCommand → Result (List SequencedCommand)
pop_front [] = err dangling
pop_front (x ∷ xs) = ok xs

-- A full ring drops its oldest entry first.
unfoldable pub push : IngressRing → SequencedCommand → Result IngressRing
push r item =
    if length r.queue == r.capacity && not (is_empty r.queue)
    then (pop_front r.queue >>= λ queue. ok (record r { queue = queue ++ (item ∷ []) }))
    else ok (record r { queue = r.queue ++ (item ∷ []) })

abbrev pop_from : List SequencedCommand → IngressRing → Option SequencedCommand × IngressRing
pop_from [] r = (none, r)
pop_from (x ∷ xs) r = (some x, record r { queue = xs })

unfoldable pub pop : IngressRing → Option SequencedCommand × IngressRing
pop r = pop_from r.queue r

unfoldable pub size : IngressRing → ℕ
size r = length r.queue

-- `Sequencer`: its state is `next_`, which is 1 at first.
abbrev pub first_sequence : ℤ
first_sequence = pos 1

unfoldable pub assign : ℤ → Command → SequencedCommand × ℤ
assign next command = (record { ingress_sequence = next; command = command }, next +ℤ pos 1)
