-- ===== src/Threaded/Workers/Published.antt =====
-- What becomes of a worker's result: it is pushed, emptied, dropped or drained.
use matching_engine_cpp.Base.{
  ℕ, ◌≡◌, sym, subst, ◌∙◌, true, some, [], ◌∷◌, ◌++◌, append-nil, append_assoc, if◌then◌else◌,
}
use matching_engine_cpp.Spsc.{push, pop}
use matching_engine_cpp.Spsc.Bounded.{Holds, push-Holds, pop-Holds}
use matching_engine_cpp.Threaded.{ResultMsg}
use matching_engine_cpp.Threaded.Workers.{polling, publishing, pushing, emptied}
use matching_engine_cpp.Threaded.Workers.Delivered.{Delivers, Delivers-emptied, Delivers-dropped}
use matching_engine_cpp.Threaded.Workers.Lanes.{Lane, Flows, ready}

module _ (k l : ℕ) where
  -- The worker pushes its result.
  pub publish-Flows :
      (a : Lane) (r : ResultMsg)
      → Flows k l a
      → a.worker ≡ pushing r
      → (push a.outbound r).1 ≡ true
      → Flows k l (record a { outbound = (push a.outbound r).0; worker = polling })
  publish-Flows a r (msgs, results, v) at room =
      let (test, held_then) = push-Holds l a.outbound results r v.outbound in
      (
        msgs,
        results ++ (r ∷ []),
        record {
          inbound = v.inbound;
          outbound =
              subst
                (λ t. Holds l (push a.outbound r).0 (if t then results ++ (r ∷ []) else results))
                (sym test ∙ room) held_then;
          accepted = rw at at v.accepted;
          numbered = v.numbered;
          delivered =
              subst (λ x. Delivers a.answered (a.drained ++ x))
                (sym (append-nil (results ++ (r ∷ [])))) (rw at at v.delivered);
        },
      )

  -- What is left of the result is to be pushed again.
  pub empty-Flows :
      (a : Lane) (r : ResultMsg)
      → Flows k l a
      → a.worker ≡ pushing r
      → Flows k l (record a { worker = publishing (emptied r) })
  empty-Flows a r (msgs, results, v) at = (
    msgs,
    results,
    record {
      inbound = v.inbound;
      outbound = v.outbound;
      accepted = rw at at v.accepted;
      numbered = v.numbered;
      delivered = subst (Delivers a.answered) (append_assoc a.drained results (emptied r ∷ [])) (
          Delivers-emptied a.answered (a.drained ++ results) r (
            subst (Delivers a.answered) (sym (append_assoc a.drained results (r ∷ [])))
              (rw at at v.delivered)));
    },
  )

  -- The worker drops its result.
  pub drop-Flows :
      (a : Lane) (r : ResultMsg)
      → Flows k l a
      → a.worker ≡ publishing r
      → Flows k l (record a { worker = polling })
  drop-Flows a r (msgs, results, v) at = (
    msgs,
    results,
    record {
      inbound = v.inbound;
      outbound = v.outbound;
      accepted = rw at at v.accepted;
      numbered = v.numbered;
      delivered =
          subst (λ l. Delivers a.answered (a.drained ++ l)) (sym (append-nil results))
            (Delivers-dropped a.answered (a.drained ++ results) r (
              subst (Delivers a.answered) (sym (append_assoc a.drained results (r ∷ [])))
                (rw at at v.delivered)));
    },
  )

  -- A result is drained.
  pub collect-Flows :
      (a : Lane) (r : ResultMsg)
      → Flows k l a
      → (pop a.outbound).1 ≡ some r
      → Flows k l (record a { outbound = (pop a.outbound).0; drained = a.drained ++ (r ∷ []) })
  collect-Flows a r (msgs, [], v) got = absurd (cc (pop-Holds l a.outbound [] v.outbound).0)
  collect-Flows a r (msgs, x ∷ results, v) got =
      let (first, others) = pop-Holds l a.outbound (x ∷ results) v.outbound in
      let same : x ≡ r = cc in
      (
        msgs,
        results,
        record {
          inbound = v.inbound;
          outbound = others;
          accepted = v.accepted;
          numbered = v.numbered;
          delivered =
              subst
                (λ y. Delivers a.answered ((a.drained ++ (y ∷ [])) ++ (results ++ ready a.worker)))
                same
                (subst (Delivers a.answered)
                  (sym (append_assoc a.drained (x ∷ []) (results ++ ready a.worker))) v.delivered);
        },
      )
