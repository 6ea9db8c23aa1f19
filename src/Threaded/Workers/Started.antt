-- ===== src/Threaded/Workers/Started.antt =====
-- A threaded engine from its constructor on, under any turns of its threads.
use matching_engine_cpp.Base.{
  ℕ, ◌^◌, ◌≤◌, ◌<◌, ◌≡◌, refl, sym, ap, subst, ◌∙◌, Bool, true, false, List, [], ◌∷◌, arith,
  if◌then◌else◌, ℤ, pos, negsuc, pos_part, ltb_ℤ, Text, ok, ok-injective,
}
use matching_engine_cpp.Risk.{RiskLimits}
use matching_engine_cpp.Sharded
use matching_engine_cpp.Sharded.{fresh_shard, Sharded}
use matching_engine_cpp.Spsc.{SpscQueue}
use matching_engine_cpp.Spsc.Ring.{create-IsRing}
use matching_engine_cpp.Spsc.Bounded.{Holds}
use matching_engine_cpp.Threaded.{CommandMsg, ResultMsg}
use matching_engine_cpp.Threaded.Workers.{Threaded, create, at_start, run, Turn}
use matching_engine_cpp.Threaded.Workers.Lanes.{lane, Flows}
use matching_engine_cpp.Threaded.Workers.Conserved.{run-Keeps}
use matching_engine_cpp.Threaded.Workers.AllServed.{AllServe, turn-AllServe}
use matching_engine_cpp.Threaded.Workers.Retried.{run-retried}
use matching_engine_cpp.Threaded.Workers.Serving.{serve-none, serve}
use matching_engine_cpp.Threaded.Workers.{turn}

pos_part-positive : (z : ℤ) → ltb_ℤ (pos 0) z ≡ true → 0 < pos_part z
pos_part-positive (pos n) h = ground (arith, h)
pos_part-positive (negsuc n) h = ground (arith, h)

-- What the constructor makes of its arguments.
pub create_lem :
    (shard_count : ℤ) (limits : RiskLimits) (capacity : ℕ) (command : CommandMsg)
    (result : ResultMsg)
    → ltb_ℤ (pos 0) shard_count ≡ true
    → capacity ≤ 2 ^ 63
    → (m : Sharded) × (q : SpscQueue CommandMsg) × (r : SpscQueue ResultMsg) × (k l : ℕ) × (create
          shard_count limits capacity command result
        ≡ ok (at_start m q r))
      × (0 < m.shard_count)
      × Holds k q []
      × Holds l r []
unfolding create Sharded.create
create_lem shard_count limits capacity command result some_shard small =
    let (q, k, made, ring, large) = create-IsRing capacity command small in
    let (r, l, made', ring', large') = create-IsRing capacity result small in
    let m : Sharded = record {
      shard_count = pos_part shard_count;
      shards = λ i. fresh_shard;
      risk = limits;
    } in
    (
      m,
      q,
      r,
      k,
      l,
      rw (some_shard, made, made') refl,
      pos_part-positive shard_count some_shard,
      (0, 0, ring),
      (0, 0, ring'),
    )

-- An engine is made with a queue size of at most 2^63 and at least one shard, and its threads take any
-- turns. For each shard then: the numbers that its inbound queue took are those of the messages that
-- were answered, of the one that the worker has, and of those that wait, in this order; the answers
-- carry the numbers of the messages answered, one each; and what was drained, what waits to be drained
-- and what the worker has ready are results of the answers, in their order, each once at most, and each
-- as it was or with its events and trades gone.
pub run-Flows :
    (moved_text : Text → Text) (shard_count : ℤ) (limits : RiskLimits) (capacity : ℕ)
    (command : CommandMsg) (result : ResultMsg) (ms : List Turn) (i : ℕ)
    → ltb_ℤ (pos 0) shard_count ≡ true
    → capacity ≤ 2 ^ 63
    → (s : Threaded) × (k l : ℕ) × (create shard_count limits capacity command result ≡ ok s)
      × Flows k l (lane i (run moved_text ms s))
run-Flows moved_text shard_count limits capacity command result ms i some_shard small =
    let (m, q, r, k, l, made, sharded, holds, holds') =
      create_lem shard_count limits capacity command result some_shard small in
    let start : Flows k l (lane i (at_start m q r)) = (
      [],
      [],
      record {
        inbound = holds;
        outbound = holds';
        accepted = refl;
        numbered = refl;
        delivered = tt;
      },
    ) in
    (at_start m q r, k, l, made, run-Keeps k l i moved_text ms (at_start m q r) start)

module _ (k : ℕ) (m0 : Sharded) (some_shard : 0 < m0.shard_count) (moved_text : Text → Text) where
  either-AllServe :
      (t : Bool) (s s' : Threaded)
      → AllServe k m0 some_shard s
      → (s'.retried ≡ false → AllServe k m0 some_shard s')
      → (if t then s else s').retried ≡ false
      → AllServe k m0 some_shard (if t then s else s')
  either-AllServe true s s' v w h = v
  either-AllServe false s s' v w h = w h

  run-AllServe :
      (ms : List Turn) (s : Threaded)
      → AllServe k m0 some_shard s
      → (run moved_text ms s).retried ≡ false
      → AllServe k m0 some_shard (run moved_text ms s)
  unfolding run
  run-AllServe [] s v h = v
  run-AllServe (m ∷ ms) s v h =
      either-AllServe s.terminated s _ v
        (λ g.
          run-AllServe ms (turn moved_text m s)
            (turn-AllServe k m0 some_shard moved_text m s v
              (run-retried moved_text ms (turn moved_text m s) g))
            g)
        h

-- An engine is made with a queue size of at most 2^63 and at least one shard, its threads take any
-- turns, and so far no `push` of `submit` has found its queue full. For each shard then: its state, and
-- the answers that its worker has given, are those of an engine made alike that answers the messages of
-- this shard alone, one after the other, however the turns were taken.
pub run-serve :
    (moved_text : Text → Text) (shard_count : ℤ) (limits : RiskLimits) (capacity : ℕ)
    (command : CommandMsg) (result : ResultMsg) (s : Threaded) (ms : List Turn) (i : ℕ)
    → ltb_ℤ (pos 0) shard_count ≡ true
    → capacity ≤ 2 ^ 63
    → create shard_count limits capacity command result ≡ ok s
    → (run moved_text ms s).retried ≡ false
    → (alone : Sharded) × (serve s.engine ((run moved_text ms s).handled i)
        ≡ ok (alone, (run moved_text ms s).answered i))
      × (alone.shards i ≡ (run moved_text ms s).engine.shards i)
run-serve moved_text shard_count limits capacity command result s ms i positive small made_s never =
    let (m, q, r, k, l, made, some_shard, holds, holds') =
      create_lem shard_count limits capacity command result positive small in
    let same : at_start m q r ≡ s = ok-injective (sym made ∙ made_s) in
    let start : AllServe k m some_shard (at_start m q r) = record {
      count = refl;
      each = λ j. record {
        msgs = [];
        inbound = holds;
        routed = tt;
        in_hand = tt;
        alone = m;
        served = serve-none m;
        agree = record { shard_count = refl; risk = refl; at_shard = refl };
      };
      sender = tt;
    } in
    let v =
      run-AllServe k m some_shard moved_text ms s (subst (AllServe k m some_shard) same start)
        never in
    let x = v.each i in
    (
      x.alone,
      subst
          (λ e.
            serve e ((run moved_text ms s).handled i)
            ≡ ok (x.alone, (run moved_text ms s).answered i))
          (ap (λ y. y.engine) same) x.served,
      x.agree.at_shard,
    )
