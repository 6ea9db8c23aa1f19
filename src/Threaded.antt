-- ===== src/Threaded.antt =====
-- include/threaded_engine.hpp: its messages, a worker's answer, and how the results are drained from the outbound queues
-- when no worker adds to them meanwhile. Draining goes on while a queue gives items; a round takes one.
pub mod Drained
pub mod Workers
mod Tests
use matching_engine_cpp.Base.{
  ℕ, zero, suc, Option, none, some, List, [], ◌∷◌, ◌++◌, ℤ, stuck, Result, ok, err, ◌>>=◌, ◌>>◌,
}
use matching_engine_cpp.Types.{ExecEvent, Trade}
use matching_engine_cpp.Gateway.{Command}
use matching_engine_cpp.Sharded.{Sharded, dispatch}
use matching_engine_cpp.Spsc.{SpscQueue, pop}

pub record CommandMsg : Type 0 where
  pub command : Command
  pub ingress_sequence : Option ℤ
  pub correlation : ℕ

pub record ResultMsg : Type 0 where
  pub correlation : ℕ
  pub events : List ExecEvent
  pub trades : List Trade

-- What a worker does with a message: the engine's answer under the message's number.
unfoldable pub answer : Sharded → CommandMsg → Result (Sharded × ResultMsg)
unfolding dispatch
answer m msg = dispatch m msg.command msg.ingress_sequence >>= λ (m', events, trades).
    ok (m', record { correlation = msg.correlation; events = events; trades = trades })

module _ {T : Type 0} where
  abbrev pub in_front : T → Result (List T × SpscQueue T) → Result (List T × SpscQueue T)
  in_front x (err why) = err why
  in_front x (ok (xs, q)) = ok (x ∷ xs, q)

  abbrev pub after_pop :
      Option T → SpscQueue T → Result (List T × SpscQueue T) → Result (List T × SpscQueue T)
  after_pop none q rest = ok ([], q)
  after_pop (some x) q rest = in_front x rest

  -- `while (q->pop(msg)) out.push_back(std::move(msg));`
  unfoldable pub drain_queue : ℕ → SpscQueue T → Result (List T × SpscQueue T)
  drain_queue zero q = err stuck
  drain_queue (suc fuel) q = let (q', item) = pop q in after_pop item q' (drain_queue fuel q')

  abbrev pub append_drained :
      List T × SpscQueue T → List T × List (SpscQueue T) → List T × List (SpscQueue T)
  append_drained (xs, q) (out, qs) = (xs ++ out, q ∷ qs)

  -- Each queue in turn, on as much fuel as it may hold items, and one more.
  unfoldable pub drain : List (SpscQueue T) → Result (List T × List (SpscQueue T))
  unfolding drain_queue
  drain [] = ok ([], [])
  drain (q ∷ qs) = do
    drained ← drain_queue (suc q.capacity) q
    rest ← drain qs
    ok (append_drained drained rest)
