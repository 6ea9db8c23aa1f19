-- ===== src/Sharded/Replay/Shards.antt =====
-- The logs of all shards stay true accounts, whatever command is taken.
use matching_engine_cpp.Base.{
  ℕ, ◌≡◌, refl, subst, inl, inr, Option, none, some, List, ◌==◌, Bool-cases, ℤ, pos, ltb_ℤ, Result,
  ok, ok-injective,
}
use matching_engine_cpp.Engine.Invariant.{initial-IsValid}
use matching_engine_cpp.Types.{Trade, ExecEvent}
use matching_engine_cpp.Gateway.{Command, add_order, cancel_order, replace_order}
use matching_engine_cpp.Risk.{RiskLimits, check_add}
use matching_engine_cpp.Sharded.{
  Shard, Sharded, put_shard, shard, validate_ingress, Answer, put_answer, add_to, cancel_in,
  replace_in, dispatch, create,
}
use matching_engine_cpp.Sharded.Replay.{replay}
use matching_engine_cpp.Sharded.Replay.Laws.{
  Recoverable, shard_add-Recoverable, shard_cancel-Recoverable, shard_replace-Recoverable,
}

abbrev pub AllRecoverable : Sharded → Type 0
AllRecoverable m = (i : ℕ) → Recoverable (m.shards i)

-- The command is not out of order, and passes the risk checks if it is an order.
abbrev pub IsTaken : Sharded → Command → Option ℤ → Type 0
IsTaken m (add_order cmd) ingress =
    ((validate_ingress (m.shards (shard m cmd.symbol)) ingress cmd.symbol cmd.order_id).0 ≡ none)
    × (check_add m.risk cmd ≡ some none)
IsTaken m (cancel_order cmd) ingress =
    (validate_ingress (m.shards (shard m cmd.symbol)) ingress cmd.symbol cmd.order_id).0 ≡ none
IsTaken m (replace_order cmd) ingress =
    (validate_ingress (m.shards (shard m cmd.symbol)) ingress cmd.symbol cmd.order_id).0 ≡ none

abbrev Outcome : Type 0
Outcome = Sharded × List ExecEvent × List Trade

put_shard-AllRecoverable :
    (m : Sharded) (s : ℕ) (sh : Shard)
    → AllRecoverable m
    → Recoverable sh
    → AllRecoverable (put_shard s sh m)
put_shard-AllRecoverable m s sh all v i = elim (Bool-cases (i == s)) [
  | inl here ↦ rw here v
  | inr other ↦ rw other (all i)
]

put_answer-AllRecoverable :
    (m : Sharded) (s : ℕ) (r : Result Answer)
    → AllRecoverable m
    → ((a : Answer) × (r ≡ ok a) × Recoverable a.0)
    → (out : Outcome) × (put_answer m s r ≡ ok out) × AllRecoverable out.0
put_answer-AllRecoverable m s r all ((sh, evs, ts), eq, v) =
    ((put_shard s sh m, evs, ts), rw eq refl, put_shard-AllRecoverable m s sh all v)

pub create-AllRecoverable :
    (count : ℤ) (risk : RiskLimits) (m : Sharded) → create count risk ≡ ok m → AllRecoverable m
unfolding create replay
create-AllRecoverable count risk m run i = elim (Bool-cases (ltb_ℤ (pos 0) count)) [
  | inl positive ↦
      subst AllRecoverable (ok-injective (rw positive at run)) (λ j. (initial-IsValid, refl)) i
  | inr other ↦ absurd (cc (rw other at run))
]

-- Where every shard's engine is in order and is what the shard's log gives on replay, a command
-- that is in order, and passes the risk checks if it is an order, is carried out without an
-- exception, and again every shard's engine is in order and is what its log gives.
pub dispatch-AllRecoverable :
    (m : Sharded) (command : Command) (ingress : Option ℤ)
    → AllRecoverable m
    → IsTaken m command ingress
    → (out : Outcome) × (dispatch m command ingress ≡ ok out) × AllRecoverable out.0
unfolding dispatch add_to cancel_in replace_in
dispatch-AllRecoverable m (add_order cmd) ingress all (fresh, passed) =
    put_answer-AllRecoverable m _ _ all
      (shard_add-Recoverable m.risk _ cmd ingress (all _) fresh passed)
dispatch-AllRecoverable m (cancel_order cmd) ingress all fresh =
    put_answer-AllRecoverable m _ _ all (shard_cancel-Recoverable _ cmd ingress (all _) fresh)
dispatch-AllRecoverable m (replace_order cmd) ingress all fresh =
    put_answer-AllRecoverable m _ _ all (shard_replace-Recoverable _ cmd ingress (all _) fresh)
