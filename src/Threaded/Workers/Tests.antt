-- ===== src/Threaded/Workers/Tests.antt =====
-- Two shards with queues of two, and an order that one of them answers.
use matching_engine_cpp.Base.{
  ℕ, ◌≡◌, refl, false, none, List, [], ◌∷◌, arith, pos, Text, codes, find, ok, int_eq,
  text_eq_instance,
}
use matching_engine_cpp.Gateway.{add_order}
use matching_engine_cpp.Types.{AddOrder, buy, gtc, none_stp}
use matching_engine_cpp.Risk.{mul_i64, default_limits}
use matching_engine_cpp.Engine.{initial}
use matching_engine_cpp.Sharded
use matching_engine_cpp.Sharded.{Sharded, shard, hash}
use matching_engine_cpp.Spsc
use matching_engine_cpp.Spsc.{push, pop, round_up_pow2, grow_pow2}
use matching_engine_cpp.Threaded.{CommandMsg, ResultMsg, answer}
use matching_engine_cpp.Threaded.Workers.{
  Threaded, create, at_start, run, turn, submit_at, work_at, start_all, all_stopped, Turn, submit,
  work, collect, start,
}
use matching_engine_cpp.Threaded.Workers.Lanes.{lane, Flows}
use matching_engine_cpp.Threaded.Workers.Serving.{serve}
use matching_engine_cpp.Threaded.Workers.Started.{run-Flows, run-serve}

abbrev an_order : AddOrder
an_order = record {
  symbol = codes "AAPL";
  order_id = pos 1;
  participant_id = codes "A";
  side = buy;
  price_ticks = pos 100;
  quantity = pos 5;
  time_in_force = gtc;
  stp = none_stp;
}

abbrev blank_command : CommandMsg
blank_command = record { command = add_order an_order; ingress_sequence = none; correlation = 0 }

abbrev blank_result : ResultMsg
blank_result = record { correlation = 0; events = []; trades = [] }

-- A moved string is empty.
abbrev moved_text : Text → Text
moved_text text = []

-- The order is submitted, and each worker has four turns.
abbrev turns : List Turn
turns =
    start
    ∷ submit (add_order an_order) none
    ∷ submit (add_order an_order) none
    ∷ work 0
    ∷ work 1
    ∷ work 0
    ∷ work 1
    ∷ work 0
    ∷ work 1
    ∷ work 0
    ∷ work 1
    ∷ work 0
    ∷ work 1
    ∷ collect 0
    ∷ collect 1
    ∷ []

run-Flows_example :
    (s : Threaded) × (k l : ℕ) × (create (pos 2) default_limits 2 blank_command blank_result ≡ ok s)
    × Flows k l (lane 0 (run moved_text turns s))
run-Flows_example =
    run-Flows moved_text (pos 2) default_limits 2 blank_command blank_result turns 0 refl
      (omega arith)

-- What the constructor makes.
abbrev two_shards : Sharded
two_shards = record { shard_count = 2; shards = λ i. Sharded.fresh_shard; risk = default_limits }

abbrev made : Threaded
made =
    at_start two_shards
      (record { capacity = 2; mask = 1; slots = λ i. blank_command; head = 0; tail = 0 })
      (record { capacity = 2; mask = 1; slots = λ i. blank_result; head = 0; tail = 0 })

made_lem : create (pos 2) default_limits 2 blank_command blank_result ≡ ok made
unfolding create Sharded.create Spsc.create round_up_pow2 grow_pow2
made_lem = refl

never_full : (run moved_text turns made).retried ≡ false
unfolding run turn submit_at work_at start_all all_stopped shard hash push pop answer codes mul_i64
    matching_engine_cpp.Base.find initial
never_full = refl

run-serve_example :
    (alone : Sharded) × (serve made.engine ((run moved_text turns made).handled 0)
      ≡ ok (alone, (run moved_text turns made).answered 0))
    × (alone.shards 0 ≡ (run moved_text turns made).engine.shards 0)
run-serve_example =
    run-serve moved_text (pos 2) default_limits 2 blank_command blank_result made turns 0 refl
      (omega arith) made_lem never_full
