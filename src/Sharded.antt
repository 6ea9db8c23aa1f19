-- ===== src/Sharded.antt =====
-- include/sharded.hpp and src/sharded.cpp: shards with an engine and a log each.
-- A shard's log is the list of the records that were appended; its file is the store's affair.
pub mod Replay
pub mod Routing
pub mod Restart
mod Tests
use Prim.Native.Nat.{bit_xor}
use matching_engine_cpp.Base.{
  ℕ, ◌*◌, ◌%◌, ◌^◌, Option, none, some, List, [], ◌∷◌, ◌++◌, ◌==◌, if◌then◌else◌, ℤ, pos, pos_part,
  ltb_ℤ, leb_ℤ, Text, codes, threw, dangling, Result, ok, err, ◌>>=◌, ◌>>◌, guard, int_eq,
  text_eq_instance,
}
use matching_engine_cpp.Json.{
  Json, int, string, object, Fields, make_object, set, find, as_int, as_string,
}
use matching_engine_cpp.Types.{
  AddOrder, CancelOrder, ReplaceOrder, ExecEvent, Trade, SelfTradePrevention, none_stp,
  side_to_string, side_from_string, tif_to_string, tif_from_string, stp_to_string, stp_from_string,
}
use matching_engine_cpp.Engine.{Engine, initial, reject}
use matching_engine_cpp.Engine.Commands.{Output, add, cancel, replace}
use matching_engine_cpp.Gateway.{Command, add_order, cancel_order, replace_order}
use matching_engine_cpp.Risk.{RiskLimits, check_add}

pub record Shard : Type 0 where
  pub engine : Engine
  pub wal : List Json
  pub last_ingress_sequence : ℤ

-- The three vectors of the class, by the number of the shard.
pub record Sharded : Type 0 where
  pub shard_count : ℕ
  pub shards : ℕ → Shard
  pub risk : RiskLimits

abbrev pub put_shard : ℕ → Shard → Sharded → Sharded
put_shard s shard m = record m { shards = λ i. if i == s then shard else m.shards i }

abbrev pub fresh_shard : Shard
fresh_shard = record { engine = initial; wal = []; last_ingress_sequence = pos 0 }

-- The constructor, over a log that is empty.
unfoldable pub create : ℤ → RiskLimits → Result Sharded
unfolding initial
create count risk =
    guard (ltb_ℤ (pos 0) count) (threw (codes "shard_count must be positive"))
    >> ok (record { shard_count = pos_part count; shards = λ i. fresh_shard; risk = risk })

unfoldable pub hash : ℕ → Text → ℕ
hash h [] = h
hash h (c ∷ cs) = hash ((bit_xor h c * 1099511628211) % 2 ^ 64) cs

unfoldable pub shard : Sharded → Text → ℕ
unfolding hash
shard m symbol = hash 1469598103934665603 symbol % m.shard_count

unfoldable pub serialize_add : AddOrder → Json
unfolding set side_to_string tif_to_string stp_to_string
serialize_add cmd = set (codes "stp") (string (stp_to_string cmd.stp)) (
    set (codes "time_in_force") (string (tif_to_string cmd.time_in_force)) (
      set (codes "quantity") (int cmd.quantity) (
        set (codes "price_ticks") (int cmd.price_ticks) (
          set (codes "side") (string (side_to_string cmd.side)) (
            set (codes "participant_id") (string cmd.participant_id) (
              set (codes "order_id") (int cmd.order_id)
                (set (codes "symbol") (string cmd.symbol) make_object)))))))

unfoldable pub serialize_replace : ReplaceOrder → Json
unfolding set tif_to_string
serialize_replace cmd = set (codes "time_in_force") (string (tif_to_string cmd.time_in_force)) (
    set (codes "new_quantity") (int cmd.new_quantity) (
      set (codes "new_price_ticks") (int cmd.new_price_ticks) (
        set (codes "new_order_id") (int cmd.new_order_id) (
          set (codes "order_id") (int cmd.order_id)
            (set (codes "symbol") (string cmd.symbol) make_object)))))

unfoldable pub serialize_cancel : CancelOrder → Json
unfolding set
serialize_cancel cmd =
    set (codes "order_id") (int cmd.order_id) (set (codes "symbol") (string cmd.symbol) make_object)

-- `{"type": …, "command": …}`
unfoldable pub log_record : Text → Json → Json
unfolding set
log_record type command =
    set (codes "command") command (set (codes "type") (string type) make_object)

abbrev pub append : Json → Shard → Shard
append r sh = record sh { wal = sh.wal ++ (r ∷ []) }

-- The rejection of a command that is out of order, if it is; the shard keeps the last number.
unfoldable pub validate_ingress : Shard → Option ℤ → Text → ℤ → Option ExecEvent × Shard
unfolding reject
validate_ingress sh none symbol order_id = (none, sh)
validate_ingress sh (some n) symbol order_id =
    if leb_ℤ n sh.last_ingress_sequence
    then (let (ev, e) = reject sh.engine symbol order_id (codes "OUT_OF_ORDER_INGRESS") in
        (some ev, record sh { engine = e }))
    else (none, record sh { last_ingress_sequence = n })

abbrev pub Answer : Type 0
Answer = Shard × List ExecEvent × List Trade

abbrev pub with_engine : Shard → Output → Answer
with_engine sh (e, evs, ts) = (record sh { engine = e }, evs, ts)

-- `add` behind the ingress check, with the answer of the risk checks.
unfoldable pub add_checked : Shard → AddOrder → Option Text → Result Answer
unfolding serialize_add log_record add reject
add_checked sh cmd (some reason) =
    let (ev, e) = reject sh.engine cmd.symbol cmd.order_id reason in
    let r =
      set (codes "reason") (string reason) (log_record (codes "risk_reject") (serialize_add cmd)) in
    ok (append r (record sh { engine = e }), ev ∷ [], [])
add_checked sh cmd none = add sh.engine cmd >>= λ out.
    ok (with_engine (append (log_record (codes "add") (serialize_add cmd)) sh) out)

-- A product that overflows in the risk checks is undefined.
abbrev pub add_risk : Shard → AddOrder → Option (Option Text) → Result Answer
add_risk sh cmd none = err dangling
add_risk sh cmd (some reason) = add_checked sh cmd reason

abbrev pub add_ingress : RiskLimits → AddOrder → Option ExecEvent × Shard → Result Answer
add_ingress limits cmd (some ev, sh) = ok (sh, ev ∷ [], [])
add_ingress limits cmd (none, sh) = add_risk sh cmd (check_add limits cmd)

unfoldable pub shard_add : RiskLimits → Shard → AddOrder → Option ℤ → Result Answer
unfolding validate_ingress check_add add_checked
shard_add limits sh cmd ingress =
    add_ingress limits cmd (validate_ingress sh ingress cmd.symbol cmd.order_id)

abbrev pub cancel_ingress : CancelOrder → Option ExecEvent × Shard → Result Answer
cancel_ingress cmd (some ev, sh) = ok (sh, ev ∷ [], [])
cancel_ingress cmd (none, sh) = cancel sh.engine cmd >>= λ (e, evs).
    ok (with_engine (append (log_record (codes "cancel") (serialize_cancel cmd)) sh) (e, evs, []))

-- Its answer has no trades.
unfoldable pub shard_cancel : Shard → CancelOrder → Option ℤ → Result Answer
unfolding validate_ingress cancel log_record serialize_cancel
shard_cancel sh cmd ingress =
    cancel_ingress cmd (validate_ingress sh ingress cmd.symbol cmd.order_id)

abbrev pub replace_ingress : ReplaceOrder → Option ExecEvent × Shard → Result Answer
replace_ingress cmd (some ev, sh) = ok (sh, ev ∷ [], [])
replace_ingress cmd (none, sh) = replace sh.engine cmd >>= λ out.
    ok (with_engine (append (log_record (codes "replace") (serialize_replace cmd)) sh) out)

unfoldable pub shard_replace : Shard → ReplaceOrder → Option ℤ → Result Answer
unfolding validate_ingress replace log_record serialize_replace
shard_replace sh cmd ingress =
    replace_ingress cmd (validate_ingress sh ingress cmd.symbol cmd.order_id)

abbrev pub put_answer : Sharded → ℕ → Result Answer → Result (Sharded × List ExecEvent × List Trade)
put_answer m s (err why) = err why
put_answer m s (ok (sh, evs, ts)) = ok (put_shard s sh m, evs, ts)

unfoldable pub add_to :
    Sharded → AddOrder → Option ℤ → Result (Sharded × List ExecEvent × List Trade)
unfolding shard shard_add
add_to m cmd ingress =
    let s = shard m cmd.symbol in put_answer m s (shard_add m.risk (m.shards s) cmd ingress)

unfoldable pub cancel_in :
    Sharded → CancelOrder → Option ℤ → Result (Sharded × List ExecEvent × List Trade)
unfolding shard shard_cancel
cancel_in m cmd ingress =
    let s = shard m cmd.symbol in put_answer m s (shard_cancel (m.shards s) cmd ingress)

unfoldable pub replace_in :
    Sharded → ReplaceOrder → Option ℤ → Result (Sharded × List ExecEvent × List Trade)
unfolding shard shard_replace
replace_in m cmd ingress =
    let s = shard m cmd.symbol in put_answer m s (shard_replace (m.shards s) cmd ingress)

-- How a worker of the threaded engine hands a command on.
unfoldable pub dispatch :
    Sharded → Command → Option ℤ → Result (Sharded × List ExecEvent × List Trade)
unfolding add_to cancel_in replace_in
dispatch m (add_order cmd) ingress = add_to m cmd ingress
dispatch m (cancel_order cmd) ingress = cancel_in m cmd ingress
dispatch m (replace_order cmd) ingress = replace_in m cmd ingress
