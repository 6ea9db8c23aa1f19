-- ===== src/Sharded/Routing.antt =====
-- A command concerns its symbol's shard only.
use matching_engine_cpp.Base.{
  ℕ, ◌<◌, ◌≡◌, sym, ap, ◌∙◌, ◌≢◌, Option, List, arith, ==_iff, ℤ, Text, Result, ok, err,
  ok-injective,
}
use matching_engine_cpp.Types.{ExecEvent, Trade}
use matching_engine_cpp.Gateway.{Command, add_order, cancel_order, replace_order}
use matching_engine_cpp.Sharded.{
  Sharded, shard, Answer, put_answer, add_to, cancel_in, replace_in, dispatch,
}

abbrev pub symbol_of : Command → Text
symbol_of (add_order cmd) = cmd.symbol
symbol_of (cancel_order cmd) = cmd.symbol
symbol_of (replace_order cmd) = cmd.symbol

put_answer-others :
    (m : Sharded) (s i : ℕ) (r : Result Answer) (out : Sharded × List ExecEvent × List Trade)
    → i ≢ s
    → put_answer m s r ≡ ok out
    → out.0.shards i ≡ m.shards i
put_answer-others m s i (err x) out apart run = absurd (cc)
put_answer-others m s i (ok a) out apart run =
    sym (ap (λ o. o.0.shards i) (ok-injective run)) ∙ ground (arith, ==_iff i s)

-- The shard of a symbol is one of the shards, where there is any, and a command that is carried
-- out leaves every shard but its symbol's as it was.
pub dispatch-others :
    (m : Sharded) (command : Command) (ingress : Option ℤ)
    (out : Sharded × List ExecEvent × List Trade) (i : ℕ)
    → 0 < m.shard_count
    → i ≢ shard m (symbol_of command)
    → dispatch m command ingress ≡ ok out
    → (shard m (symbol_of command) < m.shard_count) × (out.0.shards i ≡ m.shards i)
unfolding dispatch add_to cancel_in replace_in shard
dispatch-others m (add_order cmd) ingress out i some_shard apart run =
    (omega arith, put_answer-others m _ i _ out apart run)
dispatch-others m (cancel_order cmd) ingress out i some_shard apart run =
    (omega arith, put_answer-others m _ i _ out apart run)
dispatch-others m (replace_order cmd) ingress out i some_shard apart run =
    (omega arith, put_answer-others m _ i _ out apart run)
