-- ===== src/Sharded/Replay/Rejected.antt =====
-- An order that the risk checks refuse: the shard counts an event that the replay does not count.
use matching_engine_cpp.Base.{
  ◌≡◌, refl, ◌∙◌, inl, inr, Option, none, some, List, [], ◌∷◌, ◌++◌, ℤ, pos, ◌+ℤ◌, Text, codes,
  text_eq, ok, Result-cases, int_eq, text_eq_instance,
}
use matching_engine_cpp.Json.{Json, string, set, find, find_field, add_field, as_string}
use matching_engine_cpp.Types.{AddOrder, ExecEvent, rejected, int, str}
use matching_engine_cpp.Engine.{Engine, next_sequence, reject, event}
use matching_engine_cpp.Risk.{RiskLimits, check_add}
use matching_engine_cpp.Sharded.{
  Shard, serialize_add, log_record, append, validate_ingress, Answer, add_checked, shard_add,
}
use matching_engine_cpp.Sharded.Replay.{apply_command, apply_parts, apply_record, replay}
use matching_engine_cpp.Sharded.Replay.Laws.{replay-append, in_order}

-- The record of an order that the risk checks refuse.
abbrev pub refusal : AddOrder → Text → Json
refusal cmd reason =
    set (codes "reason") (string reason) (log_record (codes "risk_reject") (serialize_add cmd))

-- The record of a refusal does nothing.
apply-refusal :
    (e : Engine) (cmd : AddOrder) (reason : Text) → apply_record e (refusal cmd reason) ≡ ok e
unfolding apply_record apply_parts apply_command log_record set add_field find find_field text_eq
    codes as_string serialize_add
apply-refusal e cmd reason = refl

replay-refusal :
    (e : Engine) (rs : List Json) (cmd : AddOrder) (reason : Text)
    → replay e (rs ++ (refusal cmd reason ∷ [])) ≡ replay e rs
replay-refusal e rs cmd reason =
    replay-append e rs (refusal cmd reason) ∙ elim (Result-cases (replay e rs)) [
      | inl (x, h) ↦ rw h
      | inr (e', h) ↦ rw h (apply-refusal e' cmd reason)
    ]

-- The event that reports the refusal, with the next number of the engine.
abbrev pub refused_event : Engine → AddOrder → Text → ExecEvent
refused_event e cmd reason = record {
  sequence = e.sequence +ℤ pos 1;
  type = rejected;
  symbol = cmd.symbol;
  payload = (codes "order_id", int cmd.order_id) ∷ (codes "reason", str reason) ∷ [];
}

-- When an order is not out of order and the risk checks refuse it, `add` of its shard returns, with no
-- trade and one event: that the order is rejected for this reason, under the next number. The engine
-- changes in its event counter only, which goes up by one. The log grows by the record of the refusal,
-- and gives on replay from any engine what it gave before.
pub shard_add-refused :
    (limits : RiskLimits) (sh : Shard) (cmd : AddOrder) (ingress : Option ℤ) (reason : Text)
    → (validate_ingress sh ingress cmd.symbol cmd.order_id).0 ≡ none
    → check_add limits cmd ≡ some (some reason)
    → (a : Answer) × (shard_add limits sh cmd ingress ≡ ok a)
      × (a.1 ≡ refused_event sh.engine cmd reason ∷ [])
      × (a.2 ≡ [])
      × (a.0.engine ≡ record sh.engine { sequence = sh.engine.sequence +ℤ pos 1 })
      × (a.0.wal ≡ sh.wal ++ (refusal cmd reason ∷ []))
      × ((e : Engine) → replay e a.0.wal ≡ replay e sh.wal)
unfolding shard_add add_checked reject event next_sequence
shard_add-refused limits sh cmd ingress reason h refused =
    let (n, eq) = in_order sh ingress cmd.symbol cmd.order_id h in
    let (ev, e) = reject sh.engine cmd.symbol cmd.order_id reason in
    let after = record sh { last_ingress_sequence = n; engine = e } in
    (
      (append (refusal cmd reason) after, ev ∷ [], []),
      rw (eq, refused) refl,
      refl,
      refl,
      refl,
      refl,
      λ f. replay-refusal f sh.wal cmd reason,
    )
