-- ===== src/Threaded/Workers/Apart.antt =====
-- A turn that concerns one shard's queues and worker leaves another shard's part as it was.
use matching_engine_cpp.Base.{
  ℕ, ◌≡◌, refl, inl, inr, Bool, true, false, Option, none, some, ◌==◌, Bool-cases, Text, Result, ok,
  err,
}
use matching_engine_cpp.Sharded.{Sharded}
use matching_engine_cpp.Spsc.{SpscQueue}
use matching_engine_cpp.Threaded.{CommandMsg, ResultMsg}
use matching_engine_cpp.Threaded.Workers.{
  Threaded, Worker, stopped, polling, popping, holding, publishing, pushing, submit_pushed, work_at,
  popped, replied, published, collected,
}
use matching_engine_cpp.Threaded.Workers.Lanes.{lane}

module _ (i : ℕ) where
  pub popped-apart :
      (j : ℕ) (p : SpscQueue CommandMsg × Option CommandMsg) (s : Threaded)
      → (i == j) ≡ false
      → lane i (popped j p s) ≡ lane i s
  popped-apart j (q, none) s apart = rw apart refl
  popped-apart j (q, some msg) s apart = rw apart refl

  pub replied-apart :
      (j : ℕ) (msg : CommandMsg) (a : Result (Sharded × ResultMsg)) (s : Threaded)
      → (i == j) ≡ false
      → lane i (replied j msg a s) ≡ lane i s
  replied-apart j msg (err why) s apart = refl
  replied-apart j msg (ok (m, r)) s apart = rw apart refl

  pub published-apart :
      (j : ℕ) (r : ResultMsg) (p : SpscQueue ResultMsg × Bool) (s : Threaded)
      → (i == j) ≡ false
      → lane i (published j r p s) ≡ lane i s
  published-apart j r (q, true) s apart = rw apart refl
  published-apart j r (q, false) s apart = rw apart refl

  -- A turn of the worker of another shard.
  pub work_at-apart :
      (w : Worker) (j : ℕ) (s : Threaded) → (i == j) ≡ false → lane i (work_at w j s) ≡ lane i s
  unfolding work_at
  work_at-apart stopped j s apart = refl
  work_at-apart polling j s apart = elim (Bool-cases s.running) [
    | inl on ↦ rw (on, apart) refl
    | inr off ↦ rw (off, apart) refl
  ]
  work_at-apart popping j s apart = popped-apart j _ s apart
  work_at-apart (holding msg) j s apart = replied-apart j msg _ s apart
  work_at-apart (publishing r) j s apart = elim (Bool-cases s.running) [
    | inl on ↦ rw (on, apart) refl
    | inr off ↦ rw (off, apart) refl
  ]
  work_at-apart (pushing r) j s apart = published-apart j r _ s apart

  pub collected-apart :
      (j : ℕ) (p : SpscQueue ResultMsg × Option ResultMsg) (s : Threaded)
      → (i == j) ≡ false
      → lane i (collected j p s) ≡ lane i s
  collected-apart j (q, none) s apart = refl
  collected-apart j (q, some r) s apart = rw apart refl

  pub submit_pushed-apart :
      (moved_text : Text → Text) (j : ℕ) (msg : CommandMsg) (p : SpscQueue CommandMsg × Bool)
      (s : Threaded)
      → (i == j) ≡ false
      → lane i (submit_pushed moved_text j msg p s) ≡ lane i s
  submit_pushed-apart moved_text j msg (q, true) s apart = rw apart refl
  submit_pushed-apart moved_text j msg (q, false) s apart = refl
