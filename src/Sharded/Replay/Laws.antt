-- ===== src/Sharded/Replay/Laws.antt =====
-- A log is a true account of its shard: replayed from the start it gives the engine that ran.
use matching_engine_cpp.Base.{
  ◌≡◌, refl, ap, ◌∙◌, inl, inr, Option, none, some, List, [], ◌∷◌, ◌++◌, Bool-cases, ℤ, leb_ℤ, Text,
  codes, text_eq, Result, ok, ◌>>=◌, Result-cases, int_eq, text_eq_instance,
}
use matching_engine_cpp.Json.{Json, find, as_int, as_string, set, find_field, add_field}
use matching_engine_cpp.Types.{
  Side, buy, sell, TimeInForce, gtc, ioc, fok, market, SelfTradePrevention, none_stp,
  cancel_aggressor, cancel_passive, cancel_both, AddOrder, CancelOrder, ReplaceOrder,
  side_from_string, side_to_string, tif_to_string, stp_to_string, tif_from_string, stp_from_string,
}
use matching_engine_cpp.Engine.{Engine, initial}
use matching_engine_cpp.Engine.Commands.{add, cancel, replace}
use matching_engine_cpp.Engine.Invariant.{IsValid}
use matching_engine_cpp.Engine.Invariant.Adding.{add-IsValid}
use matching_engine_cpp.Engine.Invariant.Removing.{cancel-IsValid, replace-IsValid}
use matching_engine_cpp.Risk.{RiskLimits, check_add}
use matching_engine_cpp.Sharded.{
  Shard, serialize_add, serialize_cancel, serialize_replace, log_record, append, validate_ingress,
  Answer, with_engine, add_checked, shard_add, shard_cancel, shard_replace,
}
use matching_engine_cpp.Sharded.Replay.{
  get_str, get_int, read_add, read_cancel, read_replace, engine_of, apply_command, apply_parts,
  apply_record, replay,
}

side_from-to : (d : Side) → side_from_string (side_to_string d) ≡ d
unfolding side_from_string side_to_string text_eq codes
side_from-to buy = refl
side_from-to sell = refl

tif_from-to : (t : TimeInForce) → tif_from_string (tif_to_string t) ≡ t
unfolding tif_from_string tif_to_string text_eq codes
tif_from-to gtc = refl
tif_from-to ioc = refl
tif_from-to fok = refl
tif_from-to market = refl

stp_from-to : (t : SelfTradePrevention) → stp_from_string (stp_to_string t) ≡ t
unfolding stp_from_string stp_to_string text_eq codes
stp_from-to none_stp = refl
stp_from-to cancel_aggressor = refl
stp_from-to cancel_passive = refl
stp_from-to cancel_both = refl

read-serialize_add : (cmd : AddOrder) → read_add (serialize_add cmd) ≡ cmd
unfolding read_add serialize_add set add_field find find_field get_str get_int text_eq codes as_int
    as_string
read-serialize_add cmd =
    rw (side_from-to cmd.side, tif_from-to cmd.time_in_force, stp_from-to cmd.stp)

read-serialize_cancel : (cmd : CancelOrder) → read_cancel (serialize_cancel cmd) ≡ cmd
unfolding read_cancel serialize_cancel set add_field find find_field get_str get_int text_eq codes
    as_int as_string
read-serialize_cancel cmd = refl

read-serialize_replace : (cmd : ReplaceOrder) → read_replace (serialize_replace cmd) ≡ cmd
unfolding read_replace serialize_replace set add_field find find_field get_str get_int text_eq codes
    as_int as_string
read-serialize_replace cmd = rw (tif_from-to cmd.time_in_force)

apply-add :
    (e : Engine) (cmd : AddOrder)
    → apply_record e (log_record (codes "add") (serialize_add cmd)) ≡ (add e cmd >>= engine_of)
unfolding apply_record apply_parts apply_command log_record set add_field find find_field text_eq
    codes as_string serialize_add
apply-add e cmd = ap (λ c. add e c >>= engine_of) (read-serialize_add cmd)

apply-cancel :
    (e : Engine) (cmd : CancelOrder)
    → apply_record e (log_record (codes "cancel") (serialize_cancel cmd))
      ≡ (cancel e cmd >>= λ out. ok out.0)
unfolding apply_record apply_parts apply_command log_record set add_field find find_field text_eq
    codes as_string serialize_cancel
apply-cancel e cmd =
    ap {B = Result Engine} (λ c. cancel e c >>= λ out. ok out.0) (read-serialize_cancel cmd)

apply-replace :
    (e : Engine) (cmd : ReplaceOrder)
    → apply_record e (log_record (codes "replace") (serialize_replace cmd))
      ≡ (replace e cmd >>= engine_of)
unfolding apply_record apply_parts apply_command log_record set add_field find find_field text_eq
    codes as_string serialize_replace
apply-replace e cmd = ap (λ c. replace e c >>= engine_of) (read-serialize_replace cmd)

pub replay-append :
    (e : Engine) (rs : List Json) (r : Json)
    → replay e (rs ++ (r ∷ [])) ≡ (replay e rs >>= λ e'. apply_record e' r)
unfolding replay
replay-append e [] r = elim (Result-cases (apply_record e r)) [
  | inl (x, h) ↦ rw h
  | inr (x, h) ↦ rw h
]
replay-append e (q ∷ rs) r = elim (Result-cases (apply_record e q)) [
  | inl (x, h) ↦ rw h
  | inr (x, h) ↦ rw h (replay-append x rs r)
]

-- A shard is recoverable when its engine is in order and is what its log gives.
abbrev pub Replays : Shard → Type 0
Replays sh = replay initial sh.wal ≡ ok sh.engine

abbrev pub Recoverable : Shard → Type 0
Recoverable sh = IsValid sh.engine × Replays sh

appended-Replays :
    (sh : Shard) (r : Json) (e : Engine)
    → Replays sh
    → apply_record sh.engine r ≡ ok e
    → replay initial (sh.wal ++ (r ∷ [])) ≡ ok e
appended-Replays sh r e v h = replay-append initial sh.wal r ∙ (rw v h)

-- A command that is in order changes no more than the last ingress number.
pub in_order :
    (sh : Shard) (ingress : Option ℤ) (symbol : Text) (id : ℤ)
    → (validate_ingress sh ingress symbol id).0 ≡ none
    → (n : ℤ) × (validate_ingress sh ingress symbol id
        ≡ (none, record sh { last_ingress_sequence = n }))
unfolding validate_ingress
in_order sh none symbol id h = (sh.last_ingress_sequence, refl)
in_order sh (some n) symbol id h = elim (Bool-cases (leb_ℤ n sh.last_ingress_sequence)) [
  | inl late ↦ absurd (cc (rw late at h))
  | inr fresh ↦ (n, rw fresh)
]

-- When `add` takes an order on a recoverable shard, the shard is recoverable again.
pub shard_add-Recoverable :
    (limits : RiskLimits) (sh : Shard) (cmd : AddOrder) (ingress : Option ℤ)
    → Recoverable sh
    → (validate_ingress sh ingress cmd.symbol cmd.order_id).0 ≡ none
    → check_add limits cmd ≡ some none
    → (a : Answer) × (shard_add limits sh cmd ingress ≡ ok a) × Recoverable a.0
unfolding shard_add add_checked
shard_add-Recoverable limits sh cmd ingress (v, w) h passed =
    let (n, eq) = in_order sh ingress cmd.symbol cmd.order_id h in
    let (out, run, u) = add-IsValid sh.engine cmd v in
    let applied : apply_record sh.engine (log_record (codes "add") (serialize_add cmd)) ≡ ok out.0 =
      apply-add sh.engine cmd ∙ ap (λ r. r >>= engine_of) run in
    let after = record sh { last_ingress_sequence = n } in
    let r = log_record (codes "add") (serialize_add cmd) in
    (
      with_engine (append r after) out,
      rw (eq, passed, run) refl,
      (u, appended-Replays sh _ out.0 w applied),
    )

pub shard_cancel-Recoverable :
    (sh : Shard) (cmd : CancelOrder) (ingress : Option ℤ)
    → Recoverable sh
    → (validate_ingress sh ingress cmd.symbol cmd.order_id).0 ≡ none
    → (a : Answer) × (shard_cancel sh cmd ingress ≡ ok a) × Recoverable a.0
unfolding shard_cancel
shard_cancel-Recoverable sh cmd ingress (v, w) h =
    let (n, eq) = in_order sh ingress cmd.symbol cmd.order_id h in
    let (out, run, u) = cancel-IsValid sh.engine cmd v in
    let applied : apply_record sh.engine (log_record (codes "cancel") (serialize_cancel cmd))
        ≡ ok out.0 =
      apply-cancel sh.engine cmd ∙ (rw run refl) in
    let after = record sh { last_ingress_sequence = n } in
    let r = log_record (codes "cancel") (serialize_cancel cmd) in
    (
      with_engine (append r after) (out.0, out.1, []),
      rw (eq, run) refl,
      (u, appended-Replays sh _ out.0 w applied),
    )

pub shard_replace-Recoverable :
    (sh : Shard) (cmd : ReplaceOrder) (ingress : Option ℤ)
    → Recoverable sh
    → (validate_ingress sh ingress cmd.symbol cmd.order_id).0 ≡ none
    → (a : Answer) × (shard_replace sh cmd ingress ≡ ok a) × Recoverable a.0
unfolding shard_replace
shard_replace-Recoverable sh cmd ingress (v, w) h =
    let (n, eq) = in_order sh ingress cmd.symbol cmd.order_id h in
    let (out, run, u) = replace-IsValid sh.engine cmd v in
    let applied : apply_record sh.engine (log_record (codes "replace") (serialize_replace cmd))
        ≡ ok out.0 =
      apply-replace sh.engine cmd ∙ ap (λ r. r >>= engine_of) run in
    let after = record sh { last_ingress_sequence = n } in
    let r = log_record (codes "replace") (serialize_replace cmd) in
    (
      with_engine (append r after) out,
      rw (eq, run) refl,
      (u, appended-Replays sh _ out.0 w applied),
    )
