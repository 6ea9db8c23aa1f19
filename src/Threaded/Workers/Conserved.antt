-- ===== src/Threaded/Workers/Conserved.antt =====
-- Every turn of every thread keeps what each shard's part of the engine is like.
use matching_engine_cpp.Base.{
  ℕ, zero, suc, ◌<◌, ◌≡◌, refl, sym, ap, subst, inl, inr, Bool, true, false, Option, none, some,
  List, [], ◌∷◌, arith, ltb, ◌==◌, if◌then◌else◌, ==_iff, Bool-cases, ℤ, Text, Result, ok, err,
  ok-injective, bind-ok,
}
use matching_engine_cpp.Gateway.{Command}
use matching_engine_cpp.Sharded.{Sharded, dispatch}
use matching_engine_cpp.Spsc.{push, pop}
use matching_engine_cpp.Threaded.{CommandMsg, ResultMsg, answer}
use matching_engine_cpp.Threaded.Workers.{
  Threaded, Worker, stopped, polling, popping, holding, publishing, pushing, Submitter, outside,
  sending, submit_at, submit_pushed, work_at, popped, replied, published, collected, start_all,
  started, is_stopped, all_stopped, turn, run, Turn, submit, work, collect, start, stop,
}
use matching_engine_cpp.Threaded.Workers.Lanes.{
  lane, Flows, accept-Flows, idle-Flows, take-Flows, reply-Flows, held, ready,
}
use matching_engine_cpp.Threaded.Workers.Apart.{work_at-apart, collected-apart, submit_pushed-apart}
use matching_engine_cpp.Threaded.Workers.Published.{
  publish-Flows, empty-Flows, drop-Flows, collect-Flows,
}

answer-number :
    (m : Sharded) (msg : CommandMsg) (m' : Sharded) (r : ResultMsg)
    → answer m msg ≡ ok (m', r)
    → r.correlation ≡ msg.correlation
unfolding answer
answer-number m msg m' r h =
    let (out, ran, last) = bind-ok (dispatch m msg.command msg.ingress_sequence) _ h in
    sym (ap (λ x. x.1.correlation) (ok-injective last))

is_stopped-held :
    (w : Worker) → is_stopped w ≡ true → (held polling ≡ held w) × (ready polling ≡ ready w)
is_stopped-held stopped h = (refl, refl)
is_stopped-held polling h = (refl, refl)
is_stopped-held popping h = (refl, refl)
is_stopped-held (holding msg) h = absurd (cc)
is_stopped-held (publishing r) h = absurd (cc)
is_stopped-held (pushing r) h = absurd (cc)

all_stopped-at :
    (n i : ℕ) (workers : ℕ → Worker)
    → all_stopped n workers ≡ true
    → i < n
    → is_stopped (workers i) ≡ true
unfolding all_stopped
all_stopped-at zero i workers all h = absurd (omega arith)
all_stopped-at (suc n) i workers all h = elim (Bool-cases (is_stopped (workers n))) [
  | inr runs ↦ absurd (cc (rw runs at all))
  | inl idle ↦ elim (Bool-cases (i == n)) [
    | inl last ↦
        let same : i ≡ n = (==_iff i n).0 last in
        subst (λ x. is_stopped (workers x) ≡ true) (sym same) idle
    | inr before ↦ all_stopped-at n i workers (rw idle at all) (ground (arith, before))
  ]
]

module _ (k l i : ℕ) where
  abbrev Keeps : Threaded → Threaded → Type 0
  Keeps s s' = Flows k l (lane i s) → Flows k l (lane i s')

  self : (i == i) ≡ true
  self = (==_iff i i).1 refl

  popped-Keeps :
      (o : Option CommandMsg) (s : Threaded)
      → s.workers i ≡ popping
      → (pop (s.inbound i)).1 ≡ o
      → Keeps s (popped i ((pop (s.inbound i)).0, o) s)
  popped-Keeps none s at got v =
      rw self (idle-Flows k l (lane i s) polling v (rw at refl) (rw at refl))
  popped-Keeps (some msg) s at got v = rw self (take-Flows k l (lane i s) msg v at got)

  replied-Keeps :
      (msg : CommandMsg) (a : Result (Sharded × ResultMsg)) (s : Threaded)
      → s.workers i ≡ holding msg
      → answer s.engine msg ≡ a
      → Keeps s (replied i msg a s)
  replied-Keeps msg (err why) s at ran v = v
  replied-Keeps msg (ok (m, r)) s at ran v =
      rw self (reply-Flows k l (lane i s) msg r v at (answer-number s.engine msg m r ran))

  published-Keeps :
      (r : ResultMsg) (t : Bool) (s : Threaded)
      → s.workers i ≡ pushing r
      → (push (s.outbound i) r).1 ≡ t
      → Keeps s (published i r ((push (s.outbound i) r).0, t) s)
  published-Keeps r true s at room v = rw self (publish-Flows k l (lane i s) r v at room)
  published-Keeps r false s at full v = rw self (empty-Flows k l (lane i s) r v at)

  work_at-Keeps : (w : Worker) (s : Threaded) → s.workers i ≡ w → Keeps s (work_at w i s)
  unfolding work_at
  work_at-Keeps stopped s at v = v
  work_at-Keeps polling s at v = elim (Bool-cases s.running) [
    | inl on ↦ rw (on, self) (idle-Flows k l (lane i s) popping v (rw at refl) (rw at refl))
    | inr off ↦ rw (off, self) (idle-Flows k l (lane i s) stopped v (rw at refl) (rw at refl))
  ]
  work_at-Keeps popping s at v = popped-Keeps _ s at refl v
  work_at-Keeps (holding msg) s at v = replied-Keeps msg _ s at refl v
  work_at-Keeps (publishing r) s at v = elim (Bool-cases s.running) [
    | inl on ↦ rw (on, self) (idle-Flows k l (lane i s) (pushing r) v (rw at refl) (rw at refl))
    | inr off ↦ rw (off, self) (drop-Flows k l (lane i s) r v at)
  ]
  work_at-Keeps (pushing r) s at v = published-Keeps r _ s at refl v

  work-Keeps : (j : ℕ) (s : Threaded) → Keeps s (work_at (s.workers j) j s)
  work-Keeps j s v = elim (Bool-cases (i == j)) [
    | inl here ↦
        let same : i ≡ j = (==_iff i j).0 here in
        subst (λ x. Keeps s (work_at (s.workers x) x s)) same (work_at-Keeps (s.workers i) s refl) v
    | inr apart ↦ rw (work_at-apart i (s.workers j) j s apart) v
  ]

  collected-Keeps :
      (o : Option ResultMsg) (s : Threaded)
      → (pop (s.outbound i)).1 ≡ o
      → Keeps s (collected i ((pop (s.outbound i)).0, o) s)
  collected-Keeps none s got v = v
  collected-Keeps (some r) s got v = rw self (collect-Flows k l (lane i s) r v got)

  collect-Keeps : (j : ℕ) (s : Threaded) → Keeps s (collected j (pop (s.outbound j)) s)
  collect-Keeps j s v = elim (Bool-cases (i == j)) [
    | inl here ↦
        let same : i ≡ j = (==_iff i j).0 here in
        subst (λ x. Keeps s (collected x (pop (s.outbound x)) s)) same (collected-Keeps _ s refl) v
    | inr apart ↦ rw (collected-apart i j _ s apart) v
  ]

  -- The workers that `start` makes were stopped before.
  started-held :
      (n : ℕ) (s : Threaded)
      → all_stopped n s.workers ≡ true
      → (held (started n s.workers i) ≡ held (s.workers i))
        × (ready (started n s.workers i) ≡ ready (s.workers i))
  started-held n s all = elim (Bool-cases (ltb i n)) [
    | inl new ↦
        rw new
          (is_stopped-held (s.workers i) (all_stopped-at n i s.workers all (ground (arith, new))))
    | inr none_there ↦ rw none_there (refl, refl)
  ]

  start_all-Keeps : (s : Threaded) → Keeps s (start_all s)
  unfolding start_all
  start_all-Keeps s v = elim (Bool-cases s.running) [
    | inl on ↦ rw on v
    | inr off ↦ elim (Bool-cases (all_stopped s.engine.shard_count s.workers)) [
      | inl all ↦
          let (h, r) = started-held s.engine.shard_count s all in
          rw (off, all) (idle-Flows k l (lane i s) _ v h r)
      | inr others ↦ rw (off, others) v
    ]
  ]

  either-Flows :
      (t : Bool) (s s' : Threaded)
      → Flows k l (lane i s)
      → Flows k l (lane i s')
      → Flows k l (lane i (if t then s else s'))
  either-Flows true s s' v w = v
  either-Flows false s s' v w = w

  module _ (moved_text : Text → Text) where
    submit_pushed-Keeps :
        (msg : CommandMsg) (t : Bool) (s : Threaded)
        → (push (s.inbound i) msg).1 ≡ t
        → Keeps s (submit_pushed moved_text i msg ((push (s.inbound i) msg).0, t) s)
    submit_pushed-Keeps msg true s room v = rw self (accept-Flows k l (lane i s) msg v room)
    submit_pushed-Keeps msg false s full v = v

    sending-Keeps :
        (j : ℕ) (msg : CommandMsg) (s : Threaded)
        → Keeps s (submit_pushed moved_text j msg (push (s.inbound j) msg) s)
    sending-Keeps j msg s v = elim (Bool-cases (i == j)) [
      | inl here ↦
          let same : i ≡ j = (==_iff i j).0 here in
          subst (λ x. Keeps s (submit_pushed moved_text x msg (push (s.inbound x) msg) s)) same
            (submit_pushed-Keeps msg _ s refl) v
      | inr apart ↦ rw (submit_pushed-apart i moved_text j msg _ s apart) v
    ]

    submit_at-Keeps :
        (u : Submitter) (c : Command) (ingress : Option ℤ) (s : Threaded)
        → Keeps s (submit_at moved_text u c ingress s)
    unfolding submit_at
    submit_at-Keeps outside c ingress s v = v
    submit_at-Keeps (sending j msg) c ingress s v = sending-Keeps j msg s v

    turn-Keeps : (m : Turn) (s : Threaded) → Keeps s (turn moved_text m s)
    unfolding turn
    turn-Keeps (submit c ingress) s v = submit_at-Keeps s.submitter c ingress s v
    turn-Keeps (work j) s v = work-Keeps j s v
    turn-Keeps (collect j) s v = collect-Keeps j s v
    turn-Keeps start s v = start_all-Keeps s v
    turn-Keeps stop s v = v

    pub run-Keeps : (ms : List Turn) (s : Threaded) → Keeps s (run moved_text ms s)
    unfolding run
    run-Keeps [] s v = v
    run-Keeps (m ∷ ms) s v =
        either-Flows s.terminated s _ v (run-Keeps ms (turn moved_text m s) (turn-Keeps m s v))
