-- ===== src/Threaded/Workers/Lanes.antt =====
-- One shard's part of the threaded engine: its two queues, its worker, and what became of its messages.
use matching_engine_cpp.Base.{
  map-append, ℕ, ◌≡◌, sym, ap, subst, ◌∙◌, true, some, List, [], ◌∷◌, ◌++◌, map, append-nil,
  append_assoc, if◌then◌else◌,
}
use matching_engine_cpp.Spsc.{SpscQueue, push, pop}
use matching_engine_cpp.Spsc.Bounded.{Holds, push-Holds, pop-Holds}
use matching_engine_cpp.Threaded.{CommandMsg, ResultMsg}
use matching_engine_cpp.Threaded.Workers.{
  Threaded, Worker, stopped, polling, popping, holding, publishing, pushing,
}
use matching_engine_cpp.Threaded.Workers.Delivered.{Delivers, Delivers-snoc}

pub record Lane : Type 0 where
  pub inbound : SpscQueue CommandMsg
  pub outbound : SpscQueue ResultMsg
  pub worker : Worker
  pub accepted : List ℕ
  pub handled : List CommandMsg
  pub answered : List ResultMsg
  pub drained : List ResultMsg

abbrev pub lane : ℕ → Threaded → Lane
lane i s = record {
  inbound = s.inbound i;
  outbound = s.outbound i;
  worker = s.workers i;
  accepted = s.accepted i;
  handled = s.handled i;
  answered = s.answered i;
  drained = s.drained i;
}

abbrev pub number : CommandMsg → ℕ
number msg = msg.correlation

abbrev pub result_number : ResultMsg → ℕ
result_number r = r.correlation

abbrev pub numbers : List CommandMsg → List ℕ
numbers msgs = map number msgs

-- The number of the message that the worker has taken and not answered.
abbrev pub held : Worker → List ℕ
held stopped = []
held polling = []
held popping = []
held (holding msg) = msg.correlation ∷ []
held (publishing r) = []
held (pushing r) = []

-- The result that the worker has and that is in no queue.
abbrev pub ready : Worker → List ResultMsg
ready stopped = []
ready polling = []
ready popping = []
ready (holding msg) = []
ready (publishing r) = r ∷ []
ready (pushing r) = r ∷ []

-- The inbound queue holds `msgs` and the outbound queue `results`. What was accepted was answered, is
-- with the worker, or waits, in this order; and what was answered was drained, waits, or is with the
-- worker, as far as it was not dropped.
pub record IsPipeline (k l : ℕ) (a : Lane) (msgs : List CommandMsg) (results : List ResultMsg)
    : Type 0 where
  pub inbound : Holds k a.inbound msgs
  pub outbound : Holds l a.outbound results
  pub accepted : a.accepted ≡ numbers a.handled ++ (held a.worker ++ numbers msgs)
  pub numbered : map result_number a.answered ≡ numbers a.handled
  pub delivered : Delivers a.answered (a.drained ++ (results ++ ready a.worker))

abbrev pub Flows : ℕ → ℕ → Lane → Type 0
Flows k l a = (msgs : List CommandMsg) × (results : List ResultMsg) × IsPipeline k l a msgs results

module _ (k l : ℕ) where
  -- A message is pushed.
  pub accept-Flows :
      (a : Lane) (msg : CommandMsg)
      → Flows k l a
      → (push a.inbound msg).1 ≡ true
      → Flows k l (record a {
        inbound = (push a.inbound msg).0;
        accepted = a.accepted ++ (msg.correlation ∷ []);
      })
  accept-Flows a msg (msgs, results, v) room =
      let (test, held_then) = push-Holds k a.inbound msgs msg v.inbound in
      (
        msgs ++ (msg ∷ []),
        results,
        record {
          inbound =
              subst (λ t. Holds k (push a.inbound msg).0 (if t then msgs ++ (msg ∷ []) else msgs))
                (sym test ∙ room) held_then;
          outbound = v.outbound;
          accepted = rw v.accepted (
              append_assoc (numbers a.handled) (held a.worker ++ numbers msgs) _
              ∙ ap (λ l. numbers a.handled ++ l)
                  (append_assoc (held a.worker) (numbers msgs) _
                    ∙ ap (λ l. held a.worker ++ l) (sym (map-append number msgs _))));
          numbered = v.numbered;
          delivered = v.delivered;
        },
      )

  -- The worker goes on without taking or giving anything.
  pub idle-Flows :
      (a : Lane) (w : Worker)
      → Flows k l a
      → held w ≡ held a.worker
      → ready w ≡ ready a.worker
      → Flows k l (record a { worker = w })
  idle-Flows a w (msgs, results, v) same same' = (
    msgs,
    results,
    record {
      inbound = v.inbound;
      outbound = v.outbound;
      accepted = rw same v.accepted;
      numbered = v.numbered;
      delivered = rw same' v.delivered;
    },
  )

  -- The worker takes a message.
  pub take-Flows :
      (a : Lane) (msg : CommandMsg)
      → Flows k l a
      → a.worker ≡ popping
      → (pop a.inbound).1 ≡ some msg
      → Flows k l (record a { inbound = (pop a.inbound).0; worker = holding msg })
  take-Flows a msg ([], results, v) at got = absurd (cc (pop-Holds k a.inbound [] v.inbound).0)
  take-Flows a msg (m ∷ msgs, results, v) at got =
      let (first, others) = pop-Holds k a.inbound (m ∷ msgs) v.inbound in
      let same : m ≡ msg = cc in
      (
        msgs,
        results,
        record {
          inbound = others;
          outbound = v.outbound;
          accepted =
              subst (λ x. a.accepted ≡ numbers a.handled ++ (x ∷ numbers msgs)) (ap number same)
                (rw at at v.accepted);
          numbered = v.numbered;
          delivered = rw at at v.delivered;
        },
      )

  -- The worker answers its message.
  pub reply-Flows :
      (a : Lane) (msg : CommandMsg) (r : ResultMsg)
      → Flows k l a
      → a.worker ≡ holding msg
      → r.correlation ≡ msg.correlation
      → Flows k l (record a {
        worker = publishing r;
        handled = a.handled ++ (msg ∷ []);
        answered = a.answered ++ (r ∷ []);
      })
  reply-Flows a msg r (msgs, results, v) at same = (
    msgs,
    results,
    record {
      inbound = v.inbound;
      outbound = v.outbound;
      accepted =
          rw at at v.accepted
          ∙ sym (append_assoc (numbers a.handled) (msg.correlation ∷ []) (numbers msgs))
          ∙ ap (λ l. l ++ numbers msgs) (sym (map-append number a.handled _));
      numbered =
          map-append result_number a.answered _
          ∙ rw (v.numbered, same) (sym (map-append number a.handled _));
      delivered =
          subst (Delivers (a.answered ++ (r ∷ []))) (append_assoc a.drained results (r ∷ [])) (
            Delivers-snoc a.answered (a.drained ++ results) r (
              subst (λ l. Delivers a.answered (a.drained ++ l)) (append-nil results)
                (rw at at v.delivered)));
    },
  )
