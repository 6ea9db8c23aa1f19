-- ===== src/Threaded/Workers/Retried.antt =====
-- Once a `push` of `submit` has found its queue full, that stays so.
use matching_engine_cpp.Base.{
  ℕ, ◌≡◌, refl, sym, ◌∙◌, Bool, true, false, Option, none, some, List, [], ◌∷◌, if◌then◌else◌, ℤ,
  Text, Result, ok, err,
}
use matching_engine_cpp.Gateway.{Command}
use matching_engine_cpp.Sharded.{Sharded}
use matching_engine_cpp.Spsc.{SpscQueue}
use matching_engine_cpp.Threaded.{CommandMsg, ResultMsg}
use matching_engine_cpp.Threaded.Workers.{
  Threaded, Worker, stopped, polling, popping, holding, publishing, pushing, Submitter, outside,
  sending, submit_at, submit_pushed, work_at, popped, replied, published, collected, start_all,
  all_stopped, turn, run, Turn, submit, work, collect, start, stop,
}

either-retried :
    (t : Bool) (s s' : Threaded) (x : Bool)
    → s.retried ≡ x
    → s'.retried ≡ x
    → (if t then s else s').retried ≡ x
either-retried true s s' x h k = h
either-retried false s s' x h k = k

either-false :
    (t : Bool) (s s' : Threaded)
    → (if t then s else s').retried ≡ false
    → (s'.retried ≡ false → s.retried ≡ false)
    → s.retried ≡ false
either-false true s s' h k = h
either-false false s s' h k = k h

popped-retried :
    (j : ℕ) (p : SpscQueue CommandMsg × Option CommandMsg) (s : Threaded)
    → (popped j p s).retried ≡ s.retried
popped-retried j (q, none) s = refl
popped-retried j (q, some msg) s = refl

replied-retried :
    (j : ℕ) (msg : CommandMsg) (a : Result (Sharded × ResultMsg)) (s : Threaded)
    → (replied j msg a s).retried ≡ s.retried
replied-retried j msg (err why) s = refl
replied-retried j msg (ok (m, r)) s = refl

published-retried :
    (j : ℕ) (r : ResultMsg) (p : SpscQueue ResultMsg × Bool) (s : Threaded)
    → (published j r p s).retried ≡ s.retried
published-retried j r (q, true) s = refl
published-retried j r (q, false) s = refl

collected-retried :
    (j : ℕ) (p : SpscQueue ResultMsg × Option ResultMsg) (s : Threaded)
    → (collected j p s).retried ≡ s.retried
collected-retried j (q, none) s = refl
collected-retried j (q, some r) s = refl

work_at-retried : (w : Worker) (j : ℕ) (s : Threaded) → (work_at w j s).retried ≡ s.retried
unfolding work_at
work_at-retried stopped j s = refl
work_at-retried polling j s = either-retried s.running _ _ _ refl refl
work_at-retried popping j s = popped-retried j _ s
work_at-retried (holding msg) j s = replied-retried j msg _ s
work_at-retried (publishing r) j s = either-retried s.running _ _ _ refl refl
work_at-retried (pushing r) j s = published-retried j r _ s

start_all-retried : (s : Threaded) → (start_all s).retried ≡ s.retried
unfolding start_all
start_all-retried s =
    either-retried s.running _ _ _ refl
      (either-retried (all_stopped s.engine.shard_count s.workers) _ _ _ refl refl)

module _ (moved_text : Text → Text) where
  submit_pushed-retried :
      (j : ℕ) (msg : CommandMsg) (p : SpscQueue CommandMsg × Bool) (s : Threaded)
      → (submit_pushed moved_text j msg p s).retried ≡ false
      → s.retried ≡ false
  submit_pushed-retried j msg (q, true) s h = h
  submit_pushed-retried j msg (q, false) s h = absurd (cc)

  submit_at-retried :
      (u : Submitter) (c : Command) (ingress : Option ℤ) (s : Threaded)
      → (submit_at moved_text u c ingress s).retried ≡ false
      → s.retried ≡ false
  unfolding submit_at
  submit_at-retried outside c ingress s h = h
  submit_at-retried (sending j msg) c ingress s h = submit_pushed-retried j msg _ s h

  pub turn-retried :
      (m : Turn) (s : Threaded) → (turn moved_text m s).retried ≡ false → s.retried ≡ false
  unfolding turn
  turn-retried (submit c ingress) s h = submit_at-retried s.submitter c ingress s h
  turn-retried (work j) s h = sym (work_at-retried (s.workers j) j s) ∙ h
  turn-retried (collect j) s h = sym (collected-retried j _ s) ∙ h
  turn-retried start s h = sym (start_all-retried s) ∙ h
  turn-retried stop s h = h

  pub run-retried :
      (ms : List Turn) (s : Threaded) → (run moved_text ms s).retried ≡ false → s.retried ≡ false
  unfolding run
  run-retried [] s h = h
  run-retried (m ∷ ms) s h =
      either-false s.terminated s _ h
        (λ k. turn-retried m s (run-retried ms (turn moved_text m s) k))
