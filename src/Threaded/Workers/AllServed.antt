-- ===== src/Threaded/Workers/AllServed.antt =====
-- Every turn keeps the workers answering as if each were alone, while no `push` of `submit` finds its
-- queue full.
use matching_engine_cpp.Base.{
  ℕ, ◌<◌, ◌≡◌, refl, sym, subst, ◌∙◌, inl, inr, Bool, true, false, Option, none, some, arith, ltb,
  ◌==◌, if◌then◌else◌, ==_iff, Bool-cases, ℤ, Text, Result, ok, err,
}
use matching_engine_cpp.Gateway.{Command}
use matching_engine_cpp.Sharded.{Sharded, shard}
use matching_engine_cpp.Sharded.Routing.{symbol_of}
use matching_engine_cpp.Spsc.{SpscQueue, push, pop, store}
use matching_engine_cpp.Threaded.{CommandMsg, ResultMsg, answer}
use matching_engine_cpp.Threaded.Workers.{
  Threaded, Worker, stopped, polling, popping, holding, publishing, pushing, emptied, Submitter,
  outside, sending, submit_at, submit_pushed, work_at, popped, replied, published, collected,
  start_all, started, all_stopped, set_worker, turn, Turn, submit, work, collect, start, stop,
}
use matching_engine_cpp.Threaded.Workers.Apart.{popped-apart, replied-apart, submit_pushed-apart}
use matching_engine_cpp.Threaded.Workers.Lanes.{lane}
use matching_engine_cpp.Threaded.Workers.Serving.{shard-count, answer-count}
use matching_engine_cpp.Threaded.Workers.Served.{
  Routed, InHand, Sends, Serves, alike-Serves, accept-Serves, take_from, reply-Serves, other-Serves,
}

-- What holds at `j` and elsewhere holds everywhere.
at_each : (P : ℕ → Type 0) (j : ℕ) → P j → ((i : ℕ) → (i == j) ≡ false → P i) → (i : ℕ) → P i
at_each P j here apart i = elim (Bool-cases (i == j)) [
  | inl same ↦ subst P (sym ((==_iff i j).0 same)) here
  | inr other ↦ apart i other
]

self : (i : ℕ) → (i == i) ≡ true
self i = (==_iff i i).1 refl

module _ (k : ℕ) (m0 : Sharded) (some_shard : 0 < m0.shard_count) where
  pub record AllServe (s : Threaded) : Type 0 where
    pub count : s.engine.shard_count ≡ m0.shard_count
    pub each : (i : ℕ) → Serves k m0 i s.engine (lane i s)
    pub sender : Sends k m0 s.submitter

  -- A worker goes on.
  set_worker-AllServe :
      (j : ℕ) (w : Worker) (out : ℕ → SpscQueue ResultMsg) (s : Threaded)
      → AllServe s
      → InHand k m0 j w
      → AllServe (set_worker j w (record s { outbound = out }))
  set_worker-AllServe j w out s v h = record {
    count = v.count;
    each =
        at_each
          (λ i. Serves k m0 i s.engine (lane i (set_worker j w (record s { outbound = out })))) j
          (rw (self j)
            (alike-Serves k m0 j s.engine (lane j s) w (out j) (s.drained j) (v.each j) h))
          (λ i apart. rw apart (
            alike-Serves k m0 i s.engine (lane i s) (s.workers i) (out i) (s.drained i) (v.each i)
              (v.each i).in_hand));
    sender = v.sender;
  }

  popped-AllServe :
      (j : ℕ) (o : Option CommandMsg) (s : Threaded)
      → AllServe s
      → (pop (s.inbound j)).1 ≡ o
      → AllServe (popped j ((pop (s.inbound j)).0, o) s)
  popped-AllServe j none s v got = set_worker-AllServe j polling s.outbound s v tt
  popped-AllServe j (some msg) s v got =
      let x = v.each j in
      record {
        count = v.count;
        each =
            at_each
              (λ i. Serves k m0 i s.engine (lane i (popped j ((pop (s.inbound j)).0, some msg) s)))
              j
              (rw (self j)
                (take_from k m0 j s.engine (lane j s) msg x.msgs x x.inbound x.routed got))
              (λ i apart.
                rw (popped-apart i j ((pop (s.inbound j)).0, some msg) s apart) (v.each i));
        sender = v.sender;
      }

  replied-AllServe :
      (j : ℕ) (msg : CommandMsg) (a : Result (Sharded × ResultMsg)) (s : Threaded)
      → AllServe s
      → Routed k m0 j msg
      → answer s.engine msg ≡ a
      → AllServe (replied j msg a s)
  replied-AllServe j msg (err why) s v here ran = record {
    count = v.count;
    each = v.each;
    sender = v.sender;
  }
  replied-AllServe j msg (ok (n, r)) s v here ran =
      let there : shard s.engine (symbol_of msg.command) ≡ j =
        shard-count m0 s.engine (symbol_of msg.command) v.count ∙ here in
      let some_shard' : 0 < s.engine.shard_count = omega (arith, some_shard, v.count) in
      record {
        count = sym (answer-count s.engine msg n r ran) ∙ v.count;
        each =
            at_each (λ i. Serves k m0 i n (lane i (replied j msg (ok (n, r)) s))) j
              (rw (self j) (reply-Serves k m0 j s.engine n (lane j s) msg r (v.each j) there ran))
              (λ i apart. rw (replied-apart i j msg (ok (n, r)) s apart) (
                other-Serves k m0 i s.engine n (lane i s) msg r some_shard' (v.each i)
                  (λ same. absurd (cc ((==_iff i j).1 (same ∙ there)))) ran));
        sender = v.sender;
      }

  published-AllServe :
      (j : ℕ) (r : ResultMsg) (p : SpscQueue ResultMsg × Bool) (s : Threaded)
      → AllServe s
      → AllServe (published j r p s)
  published-AllServe j r (q, true) s v = set_worker-AllServe j polling (store j q s.outbound) s v tt
  published-AllServe j r (q, false) s v =
      set_worker-AllServe j (publishing (emptied r)) s.outbound s v tt

  either-AllServe :
      (t : Bool) (s s' : Threaded) → AllServe s → AllServe s' → AllServe (if t then s else s')
  either-AllServe true s s' v w = v
  either-AllServe false s s' v w = w

  work_at-AllServe :
      (w : Worker) (j : ℕ) (s : Threaded) → s.workers j ≡ w → AllServe s → AllServe (work_at w j s)
  unfolding work_at
  work_at-AllServe stopped j s at v = v
  work_at-AllServe polling j s at v =
      either-AllServe s.running _ _ (set_worker-AllServe j popping s.outbound s v tt)
        (set_worker-AllServe j stopped s.outbound s v tt)
  work_at-AllServe popping j s at v = popped-AllServe j _ s v refl
  work_at-AllServe (holding msg) j s at v =
      replied-AllServe j msg _ s v (subst (InHand k m0 j) at (v.each j).in_hand) refl
  work_at-AllServe (publishing r) j s at v =
      either-AllServe s.running _ _ (set_worker-AllServe j (pushing r) s.outbound s v tt)
        (set_worker-AllServe j polling s.outbound s v tt)
  work_at-AllServe (pushing r) j s at v = published-AllServe j r _ s v

  collected-AllServe :
      (j : ℕ) (p : SpscQueue ResultMsg × Option ResultMsg) (s : Threaded)
      → AllServe s
      → AllServe (collected j p s)
  collected-AllServe j (q, none) s v = v
  collected-AllServe j (q, some r) s v = record {
    count = v.count;
    each = λ i.
        alike-Serves k m0 i s.engine (lane i s) (s.workers i) _ _ (v.each i) (v.each i).in_hand;
    sender = v.sender;
  }

  started-InHand :
      (i n : ℕ) (s : Threaded) → InHand k m0 i (s.workers i) → InHand k m0 i (started n s.workers i)
  started-InHand i n s h = elim (Bool-cases (ltb i n)) [
    | inl new ↦ rw new tt
    | inr other ↦ rw other h
  ]

  start_all-AllServe : (s : Threaded) → AllServe s → AllServe (start_all s)
  unfolding start_all
  start_all-AllServe s v = either-AllServe s.running _ _ v (
      either-AllServe (all_stopped s.engine.shard_count s.workers) _ _
        (record {
          count = v.count;
          each = λ i.
              alike-Serves k m0 i s.engine (lane i s) (started s.engine.shard_count s.workers i)
                (s.outbound i) (s.drained i) (v.each i) (started-InHand i _ s (v.each i).in_hand);
          sender = v.sender;
        })
        v)

  module _ (moved_text : Text → Text) where
    -- A `push` of `submit` that its queue takes.
    submit_pushed-AllServe :
        (j : ℕ) (msg : CommandMsg) (t : Bool) (s : Threaded)
        → AllServe s
        → Routed k m0 j msg
        → (push (s.inbound j) msg).1 ≡ t
        → (submit_pushed moved_text j msg ((push (s.inbound j) msg).0, t) s).retried ≡ false
        → AllServe (submit_pushed moved_text j msg ((push (s.inbound j) msg).0, t) s)
    submit_pushed-AllServe j msg false s v here full h = absurd (cc)
    submit_pushed-AllServe j msg true s v here room h = record {
      count = v.count;
      each =
          at_each
            (λ i.
              Serves k m0 i s.engine
                (lane i (submit_pushed moved_text j msg ((push (s.inbound j) msg).0, true) s)))
            j (rw (self j) (accept-Serves k m0 j s.engine (lane j s) msg _ (v.each j) room here))
            (λ i apart.
              rw (submit_pushed-apart i moved_text j msg ((push (s.inbound j) msg).0, true) s apart)
                (v.each i));
      sender = tt;
    }

    submit_at-AllServe :
        (u : Submitter) (c : Command) (ingress : Option ℤ) (s : Threaded)
        → s.submitter ≡ u
        → AllServe s
        → (submit_at moved_text u c ingress s).retried ≡ false
        → AllServe (submit_at moved_text u c ingress s)
    unfolding submit_at
    submit_at-AllServe outside c ingress s at v h = record {
      count = v.count;
      each = v.each;
      sender = sym (shard-count m0 s.engine (symbol_of c) v.count);
    }
    submit_at-AllServe (sending j msg) c ingress s at v h =
        submit_pushed-AllServe j msg _ s v (subst (Sends k m0) at v.sender) refl h

    pub turn-AllServe :
        (m : Turn) (s : Threaded)
        → AllServe s
        → (turn moved_text m s).retried ≡ false
        → AllServe (turn moved_text m s)
    unfolding turn
    turn-AllServe (submit c ingress) s v h = submit_at-AllServe s.submitter c ingress s refl v h
    turn-AllServe (work j) s v h = work_at-AllServe (s.workers j) j s refl v
    turn-AllServe (collect j) s v h = collected-AllServe j _ s v
    turn-AllServe start s v h = start_all-AllServe s v
    turn-AllServe stop s v h = record { count = v.count; each = v.each; sender = v.sender }
