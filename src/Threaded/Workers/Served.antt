-- ===== src/Threaded/Workers/Served.antt =====
-- While no `push` of `submit` finds its queue full, the workers answer as if each were alone.
use matching_engine_cpp.Base.{
  ℕ, ◌<◌, ◌≡◌, sym, subst, ◌∙◌, ◌≢◌, true, some, List, [], ◌∷◌, ◌++◌, if◌then◌else◌, All,
  All-append, ok,
}
use matching_engine_cpp.Sharded.{Sharded, shard}
use matching_engine_cpp.Sharded.Routing.{symbol_of}
use matching_engine_cpp.Spsc.{SpscQueue, push, pop}
use matching_engine_cpp.Spsc.Bounded.{Holds, push-Holds, pop-Holds}
use matching_engine_cpp.Threaded.{CommandMsg, ResultMsg, answer}
use matching_engine_cpp.Threaded.Workers.{
  Worker, stopped, polling, popping, holding, publishing, pushing, Submitter, outside, sending,
}
use matching_engine_cpp.Threaded.Workers.Lanes.{Lane}
use matching_engine_cpp.Threaded.Workers.Serving.{
  serve, serve-snoc, Agree, answer-Agree, answer-apart,
}

module _ (k : ℕ) (start : Sharded) where
  -- The message is for the shard.
  abbrev pub Routed : ℕ → CommandMsg → Type 0
  Routed i msg = shard start (symbol_of msg.command) ≡ i

  abbrev pub InHand : ℕ → Worker → Type 0
  InHand i stopped = Unit {0}
  InHand i polling = Unit {0}
  InHand i popping = Unit {0}
  InHand i (holding msg) = Routed i msg
  InHand i (publishing r) = Unit {0}
  InHand i (pushing r) = Unit {0}

  abbrev pub Sends : Submitter → Type 0
  Sends outside = Unit {0}
  Sends (sending i msg) = Routed i msg

  -- The messages of the shard `i` are its own, and its answers are those of an engine that serves no
  -- other shard, which the shard's state agrees with.
  pub record Serves (i : ℕ) (e : Sharded) (a : Lane) : Type 0 where
    pub msgs : List CommandMsg
    pub inbound : Holds k a.inbound msgs
    pub routed : All (Routed i) msgs
    pub in_hand : InHand i a.worker
    pub alone : Sharded
    pub served : serve start a.handled ≡ ok (alone, a.answered)
    pub agree : Agree i e alone

  pub alike-Serves :
      (i : ℕ) (e : Sharded) (a : Lane) (w : Worker) (out : SpscQueue ResultMsg)
      (ds : List ResultMsg)
      → Serves i e a
      → InHand i w
      → Serves i e (record a { worker = w; outbound = out; drained = ds })
  alike-Serves i e a w out ds v h = record {
    msgs = v.msgs;
    inbound = v.inbound;
    routed = v.routed;
    in_hand = h;
    alone = v.alone;
    served = v.served;
    agree = v.agree;
  }

  pub accept-Serves :
      (i : ℕ) (e : Sharded) (a : Lane) (msg : CommandMsg) (ns : List ℕ)
      → Serves i e a
      → (push a.inbound msg).1 ≡ true
      → Routed i msg
      → Serves i e (record a { inbound = (push a.inbound msg).0; accepted = ns })
  accept-Serves i e a msg ns v room here =
      let (test, holds) = push-Holds k a.inbound v.msgs msg v.inbound in
      record {
        msgs = v.msgs ++ (msg ∷ []);
        inbound =
            subst (λ t. Holds k (push a.inbound msg).0 (if t then v.msgs ++ (msg ∷ []) else v.msgs))
              (sym test ∙ room) holds;
        routed = All-append (Routed i) v.msgs (msg ∷ []) v.routed (here, tt);
        in_hand = v.in_hand;
        alone = v.alone;
        served = v.served;
        agree = v.agree;
      }

  pub take_from :
      (i : ℕ) (e : Sharded) (a : Lane) (msg : CommandMsg) (msgs : List CommandMsg)
      → Serves i e a
      → Holds k a.inbound msgs
      → All (Routed i) msgs
      → (pop a.inbound).1 ≡ some msg
      → Serves i e (record a { inbound = (pop a.inbound).0; worker = holding msg })
  take_from i e a msg [] v h routed got = absurd (cc (pop-Holds k a.inbound [] h).0)
  take_from i e a msg (m ∷ msgs) v h routed got =
      let (first, others) = pop-Holds k a.inbound (m ∷ msgs) h in
      let same : m ≡ msg = cc in
      record {
        msgs = msgs;
        inbound = others;
        routed = routed.1;
        in_hand = subst (Routed i) same routed.0;
        alone = v.alone;
        served = v.served;
        agree = v.agree;
      }

  pub reply-Serves :
      (i : ℕ) (e n : Sharded) (a : Lane) (msg : CommandMsg) (r : ResultMsg)
      → Serves i e a
      → shard e (symbol_of msg.command) ≡ i
      → answer e msg ≡ ok (n, r)
      → Serves i n (record a {
        worker = publishing r;
        handled = a.handled ++ (msg ∷ []);
        answered = a.answered ++ (r ∷ []);
      })
  reply-Serves i e n a msg r v here ran =
      let (n', ran', agree) = answer-Agree i e v.alone msg n r v.agree here ran in
      record {
        msgs = v.msgs;
        inbound = v.inbound;
        routed = v.routed;
        in_hand = tt;
        alone = n';
        served = serve-snoc start v.alone n' a.handled msg a.answered r v.served ran';
        agree = agree;
      }

  pub other-Serves :
      (i : ℕ) (e n : Sharded) (a : Lane) (msg : CommandMsg) (r : ResultMsg)
      → 0 < e.shard_count
      → Serves i e a
      → i ≢ shard e (symbol_of msg.command)
      → answer e msg ≡ ok (n, r)
      → Serves i n a
  other-Serves i e n a msg r some_shard v apart ran = record {
    msgs = v.msgs;
    inbound = v.inbound;
    routed = v.routed;
    in_hand = v.in_hand;
    alone = v.alone;
    served = v.served;
    agree = answer-apart i e v.alone msg n r some_shard v.agree apart ran;
  }
