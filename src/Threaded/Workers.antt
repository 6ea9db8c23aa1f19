-- ===== src/Threaded/Workers.antt =====
-- include/threaded_engine.hpp: `submit`, `run_worker`, `drain`, `start` and `stop` as threads that take
-- turns. A turn is one load of `running_`, one call of a queue, or the engine's answer to one message.
-- What is left of a std::string behind a move is an argument; an integer is left as it was, and a
-- vector is left empty. An exception that leaves a thread ends the program.
pub mod Delivered
pub mod AllServed
pub mod Apart
pub mod Conserved
pub mod Lanes
pub mod Served
pub mod Published
pub mod Retried
pub mod Serving
pub mod Started
mod Tests
use matching_engine_cpp.Base.{
  ℕ, zero, suc, ◌+◌, ◌%◌, Bool, true, false, ◌&&◌, Option, none, some, List, [], ◌∷◌, ◌++◌, ltb,
  if◌then◌else◌, ℤ, Text, Result, ok, err, ◌>>=◌, ◌>>◌,
}
use matching_engine_cpp.Types.{AddOrder, CancelOrder, ReplaceOrder}
use matching_engine_cpp.Gateway.{Command, add_order, cancel_order, replace_order}
use matching_engine_cpp.Sharded
use matching_engine_cpp.Spsc
use matching_engine_cpp.Risk.{RiskLimits}
use matching_engine_cpp.Sharded.{Sharded, shard}
use matching_engine_cpp.Sharded.Routing.{symbol_of}
use matching_engine_cpp.Spsc.{SpscQueue, push, pop, store, word_size}
use matching_engine_cpp.Threaded.{CommandMsg, ResultMsg, answer}

-- Where the thread of a shard stands: at the test of the outer loop, at `pop`, at the answer, at the
-- test and at the `push` of the inner loop.
pub data Worker : Type 0 where
  stopped : Worker
  polling : Worker
  popping : Worker
  holding : CommandMsg → Worker
  publishing : ResultMsg → Worker
  pushing : ResultMsg → Worker

-- Where the producing thread stands in `submit`.
pub data Submitter : Type 0 where
  outside : Submitter
  sending : ℕ → CommandMsg → Submitter

-- The engine with its queues and threads, and what they have done: the numbers of the messages that
-- the inbound queues took, the messages that were answered, the answers, and the results that were
-- drained; and whether `submit` ever found its queue full.
pub record Threaded : Type 0 where
  pub engine : Sharded
  pub inbound : ℕ → SpscQueue CommandMsg
  pub outbound : ℕ → SpscQueue ResultMsg
  pub workers : ℕ → Worker
  pub submitter : Submitter
  pub running : Bool
  pub next_correlation : ℕ
  pub terminated : Bool
  pub accepted : ℕ → List ℕ
  pub handled : ℕ → List CommandMsg
  pub answered : ℕ → List ResultMsg
  pub drained : ℕ → List ResultMsg
  pub retried : Bool

pub data Turn : Type 0 where
  submit : Command → Option ℤ → Turn
  work : ℕ → Turn
  collect : ℕ → Turn
  start : Turn
  stop : Turn

-- A result behind a move.
abbrev pub emptied : ResultMsg → ResultMsg
emptied r = record r { events = []; trades = [] }

abbrev pub is_stopped : Worker → Bool
is_stopped stopped = true
is_stopped polling = false
is_stopped popping = false
is_stopped (holding msg) = false
is_stopped (publishing r) = false
is_stopped (pushing r) = false

unfoldable pub all_stopped : ℕ → (ℕ → Worker) → Bool
all_stopped zero workers = true
all_stopped (suc n) workers = is_stopped (workers n) && all_stopped n workers

-- The threads that `start` makes, one for each shard.
abbrev pub started : ℕ → (ℕ → Worker) → ℕ → Worker
started count workers i = if ltb i count then polling else workers i

-- `start` while it runs does nothing; it cannot be called before `stop` has joined the threads.
unfoldable pub start_all : Threaded → Threaded
unfolding all_stopped
start_all s =
    if s.running
    then s
    else if all_stopped s.engine.shard_count s.workers
    then record s { running = true; workers = started s.engine.shard_count s.workers }
    else s

-- `stop` until it waits for the threads.
abbrev pub stop_all : Threaded → Threaded
stop_all s = record s { running = false }

module _ (moved_text : Text → Text) where
  abbrev pub moved_command : Command → Command
  moved_command (add_order cmd) = add_order (record cmd {
    symbol = moved_text cmd.symbol;
    participant_id = moved_text cmd.participant_id;
  })
  moved_command (cancel_order cmd) = cancel_order (record cmd { symbol = moved_text cmd.symbol })
  moved_command (replace_order cmd) = replace_order (record cmd { symbol = moved_text cmd.symbol })

  abbrev pub moved : CommandMsg → CommandMsg
  moved msg = record msg { command = moved_command msg.command }

  -- After a `push` of `submit`: the message is in the queue, or what is left of it is tried again.
  abbrev pub submit_pushed : ℕ → CommandMsg → SpscQueue CommandMsg × Bool → Threaded → Threaded
  submit_pushed i msg (q, true) s = record s {
    inbound = store i q s.inbound;
    submitter = outside;
    accepted = store i (s.accepted i ++ (msg.correlation ∷ [])) s.accepted;
  }
  submit_pushed i msg (q, false) s = record s { submitter = sending i (moved msg); retried = true }

  -- A call of `submit` begins, or goes on with its `push`.
  unfoldable pub submit_at : Submitter → Command → Option ℤ → Threaded → Threaded
  unfolding shard push
  submit_at outside command ingress s =
      let id = (s.next_correlation + 1) % word_size in
      let msg : CommandMsg = record {
        command = command;
        ingress_sequence = ingress;
        correlation = id;
      } in
      record s {
        next_correlation = id;
        submitter = sending (shard s.engine (symbol_of command)) msg;
      }
  submit_at (sending i msg) command ingress s = submit_pushed i msg (push (s.inbound i) msg) s

abbrev pub set_worker : ℕ → Worker → Threaded → Threaded
set_worker i w s = record s { workers = store i w s.workers }

-- After `in.pop(msg)`.
abbrev pub popped : ℕ → SpscQueue CommandMsg × Option CommandMsg → Threaded → Threaded
popped i (q, none) s = set_worker i polling s
popped i (q, some msg) s = set_worker i (holding msg) (record s { inbound = store i q s.inbound })

abbrev pub replied : ℕ → CommandMsg → Result (Sharded × ResultMsg) → Threaded → Threaded
replied i msg (err why) s = record s { terminated = true }
replied i msg (ok (m, r)) s = set_worker i (publishing r) (record s {
  engine = m;
  handled = store i (s.handled i ++ (msg ∷ [])) s.handled;
  answered = store i (s.answered i ++ (r ∷ [])) s.answered;
})

-- After `out.push(std::move(result))`.
abbrev pub published : ℕ → ResultMsg → SpscQueue ResultMsg × Bool → Threaded → Threaded
published i r (q, true) s = set_worker i polling (record s { outbound = store i q s.outbound })
published i r (q, false) s = set_worker i (publishing (emptied r)) s

-- The next turn of a worker.
unfoldable pub work_at : Worker → ℕ → Threaded → Threaded
unfolding push pop answer
work_at stopped i s = s
work_at polling i s = if s.running then set_worker i popping s else set_worker i stopped s
work_at popping i s = popped i (pop (s.inbound i)) s
work_at (holding msg) i s = replied i msg (answer s.engine msg) s
work_at (publishing r) i s =
    if s.running then set_worker i (pushing r) s else set_worker i polling s
work_at (pushing r) i s = published i r (push (s.outbound i) r) s

-- `while (q->pop(msg)) out.push_back(std::move(msg));`, one call of `pop`.
abbrev pub collected : ℕ → SpscQueue ResultMsg × Option ResultMsg → Threaded → Threaded
collected i (q, none) s = s
collected i (q, some r) s = record s {
  outbound = store i q s.outbound;
  drained = store i (s.drained i ++ (r ∷ [])) s.drained;
}

module _ (moved_text : Text → Text) where
  unfoldable pub turn : Turn → Threaded → Threaded
  unfolding submit_at work_at start_all pop
  turn (submit command ingress) s = submit_at moved_text s.submitter command ingress s
  turn (work i) s = work_at (s.workers i) i s
  turn (collect i) s = collected i (pop (s.outbound i)) s
  turn start s = start_all s
  turn stop s = stop_all s

  -- The threads take turns in any order, until the program ends.
  unfoldable pub run : List Turn → Threaded → Threaded
  unfolding turn
  run [] s = s
  run (m ∷ ms) s = let next = run ms (turn m s) in if s.terminated then s else next

abbrev pub at_start : Sharded → SpscQueue CommandMsg → SpscQueue ResultMsg → Threaded
at_start m q r = record {
  engine = m;
  inbound = λ i. q;
  outbound = λ i. r;
  workers = λ i. stopped;
  submitter = outside;
  running = false;
  next_correlation = 0;
  terminated = false;
  accepted = λ i. [];
  handled = λ i. [];
  answered = λ i. [];
  drained = λ i. [];
  retried = false;
}

-- The constructor: the shards, and a queue of each kind for each of them; `command` and `result` are
-- what `CommandMsg()` and `ResultMsg()` are.
unfoldable pub create : ℤ → RiskLimits → ℕ → CommandMsg → ResultMsg → Result Threaded
unfolding matching_engine_cpp.Sharded.create matching_engine_cpp.Spsc.create
create shard_count limits capacity command result = do
  m ← Sharded.create shard_count limits
  q ← Spsc.create capacity command
  r ← Spsc.create capacity result
  ok (at_start m q r)
