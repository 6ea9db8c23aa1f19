-- ===== src/Engine/Reached.antt =====
-- Engines that commands lead to, from the initial one.
use matching_engine_cpp.Base.{
  guard-ok, ◌≡◌, refl, sym, ap, subst, inl, inr, Option, none, some, List, [], ◌∷◌, Bool-cases,
  Option-cases, ℤ, pos, ltb_ℤ, Text, find, insert, Result, ok, ◌>>=◌, ok-injective, bind-ok, int_eq,
  text_eq_instance,
}
use matching_engine_cpp.Engine.PriceMap.{RestingOrder}
use matching_engine_cpp.Types.{
  opposite, opposite, TimeInForce, gtc, ioc, fok, market, AddOrder, CancelOrder, ReplaceOrder,
}
use matching_engine_cpp.Gateway.{Command, add_order, cancel_order, replace_order}
use matching_engine_cpp.Engine.{side_of, Side, ExecEvent, reject, Engine, Book, initial, book_for}
use matching_engine_cpp.Engine.Matching.{match_all, Tape, Matching}
use matching_engine_cpp.Engine.Commands.{
  replacement, opening, deref, is_unfillable, Output, settle, finish, add, cancel, replace,
  cancel_at, replace_at, remove_resting, remove_at, check_not_crossed, rest_order,
}
use matching_engine_cpp.Engine.Snapshot.Books.{Distinct}
use matching_engine_cpp.Engine.Snapshot.Keys.{insert-Distinct}
use matching_engine_cpp.Engine.Invariant.{IsValid, initial-IsValid}
use matching_engine_cpp.Engine.Invariant.Adding.{add-IsValid}
use matching_engine_cpp.Engine.Invariant.Removing.{cancel-IsValid, replace-IsValid}

-- The books differ from before at one symbol at most.
abbrev Writes : List (Text × Book) → List (Text × Book) → Type 0
Writes old new = (symbol : Text) × (b : Book) × (new ≡ insert symbol b old)

settle-Writes :
    (tif : TimeInForce) (cmd : AddOrder) (e : Engine) (b : Book) (t : Tape) (out : Output)
    → settle tif cmd e b t ≡ ok out
    → Writes e.books out.0.books
unfolding settle check_not_crossed rest_order
settle-Writes gtc cmd e b t out h =
    (cmd.symbol, _, ap (λ o. o.0.books) (sym (guard-ok _ _ _ out h)))
settle-Writes ioc cmd e b t out h = (cmd.symbol, b, ap (λ o. o.0.books) (sym (ok-injective h)))
settle-Writes market cmd e b t out h = (cmd.symbol, b, ap (λ o. o.0.books) (sym (ok-injective h)))
settle-Writes fok cmd e b t out h = (cmd.symbol, b, ap (λ o. o.0.books) (sym (ok-injective h)))

finish-Writes :
    (cmd : AddOrder) (e : Engine) (b : Book) (m : Matching) (out : Output)
    → finish cmd e b m ≡ ok out
    → Writes e.books out.0.books
unfolding finish
finish-Writes cmd e b m out h = elim (Bool-cases (ltb_ℤ (pos 0) m.tape.remaining)) [
  | inl left ↦ settle-Writes cmd.time_in_force cmd e _ m.tape out (rw left at h)
  | inr none_left ↦ (cmd.symbol, _, ap (λ o. o.0.books) (sym (ok-injective (rw none_left at h))))
]

Writes-Distinct : (old new : List (Text × Book)) → Writes old new → Distinct old → Distinct new
Writes-Distinct old new (symbol, b, e) h = subst Distinct (sym e) (insert-Distinct symbol b old h)

add-Distinct :
    (e : Engine) (cmd : AddOrder) (out : Output)
    → add e cmd ≡ ok out
    → Distinct e.books
    → Distinct out.0.books
unfolding add reject
add-Distinct e cmd out h v =
    let b = book_for e.books cmd.symbol in
    elim (Bool-cases (is_unfillable cmd b)) [
      | inl refused ↦
          Writes-Distinct e.books out.0.books
            (cmd.symbol, b, ap (λ o. o.0.books) (sym (ok-injective (rw refused at h)))) v
      | inr taken ↦
          let (m, ran, rest) =
            bind-ok (match_all cmd (side_of (opposite cmd.side) b) (opening cmd e)) (finish cmd e b)
              (rw taken at h) in
          Writes-Distinct e.books out.0.books (finish-Writes cmd e b m out rest) v
    ]

remove_resting-Distinct :
    (e : Engine) (id : ℤ) → Distinct e.books → Distinct (remove_resting e id).books
unfolding remove_resting remove_at
remove_resting-Distinct e id v = elim (Option-cases (find id e.index)) [
  | inl missing ↦ rw (missing, remove_resting) v
  | inr (loc, found) ↦ rw (found, remove_resting) (insert-Distinct loc.symbol _ e.books v)
]

cancel-Distinct :
    (e : Engine) (cmd : CancelOrder) (out : Engine × List ExecEvent)
    → cancel e cmd ≡ ok out
    → Distinct e.books
    → Distinct out.0.books
unfolding cancel cancel_at reject
cancel-Distinct e cmd out h v = elim (Option-cases (find cmd.order_id e.index)) [
  | inl missing ↦
      subst (λ (o : Engine × List ExecEvent). Distinct o.0.books)
        (ok-injective (rw (missing, cancel) at h)) v
  | inr (loc, found) ↦ elim (Option-cases (deref e loc)) [
    | inl gone ↦ absurd (cc (rw (found, cancel, gone) at h))
    | inr (o, there) ↦
        subst (λ (o : Engine × List ExecEvent). Distinct o.0.books)
          (ok-injective (rw (found, cancel, there) at h)) (remove_resting-Distinct e cmd.order_id v)
  ]
]

replace_at-Distinct :
    (e : Engine) (cmd : ReplaceOrder) (d : Side) (o : Option RestingOrder) (out : Output)
    → replace_at e cmd d o ≡ ok out
    → Distinct e.books
    → Distinct out.0.books
unfolding replace_at
replace_at-Distinct e cmd d none out h v = absurd (cc)
replace_at-Distinct e cmd d (some o) out h v =
    let ((e', events), ran, rest) =
      bind-ok (cancel e (record { symbol = cmd.symbol; order_id = cmd.order_id })) _ h in
    let ((e'', more, trades), added, last) =
      bind-ok (add e' (replacement cmd o.participant_id d)) _ rest in
    let kept = cancel-Distinct e _ (e', events) ran v in
    subst (λ (x : Output). Distinct x.0.books) (ok-injective last)
      (add-Distinct e' (replacement cmd o.participant_id d) (e'', more, trades) added kept)

replace-Distinct :
    (e : Engine) (cmd : ReplaceOrder) (out : Output)
    → replace e cmd ≡ ok out
    → Distinct e.books
    → Distinct out.0.books
unfolding replace reject
replace-Distinct e cmd out h v = elim (Option-cases (find cmd.order_id e.index)) [
  | inl missing ↦
      subst (λ (o : Output). Distinct o.0.books) (ok-injective (rw (missing, replace) at h)) v
  | inr (loc, found) ↦
      replace_at-Distinct e cmd loc.side (deref e loc) out (rw (found, replace) at h) v
]

-- A command at the engine.
unfoldable pub handle : Engine → Command → Result Engine
handle e (add_order cmd) = add e cmd >>= λ (e', events, trades). ok e'
handle e (cancel_order cmd) = cancel e cmd >>= λ (e', events). ok e'
handle e (replace_order cmd) = replace e cmd >>= λ (e', events, trades). ok e'

unfoldable pub handle_all : Engine → List Command → Result Engine
unfolding handle
handle_all e [] = ok e
handle_all e (c ∷ cs) = handle e c >>= λ e'. handle_all e' cs

-- What every engine that commands lead to is like.
abbrev pub InOrder : Engine → Type 0
InOrder e = IsValid e × Distinct e.books

handle-InOrder :
    (e : Engine) (c : Command) → InOrder e → (e' : Engine) × (handle e c ≡ ok e') × InOrder e'
unfolding handle
handle-InOrder e (add_order cmd) (v, h) =
    let (out, ran, v') = add-IsValid e cmd v in (out.0, rw ran, (v', add-Distinct e cmd out ran h))
handle-InOrder e (cancel_order cmd) (v, h) =
    let (out, ran, v') = cancel-IsValid e cmd v in
    (out.0, rw ran, (v', cancel-Distinct e cmd out ran h))
handle-InOrder e (replace_order cmd) (v, h) =
    let (out, ran, v') = replace-IsValid e cmd v in
    (out.0, rw ran, (v', replace-Distinct e cmd out ran h))

handle_all-kept :
    (cs : List Command) (e : Engine)
    → InOrder e
    → (e' : Engine) × (handle_all e cs ≡ ok e') × InOrder e'
unfolding handle_all
handle_all-kept [] e v = (e, refl, v)
handle_all-kept (c ∷ cs) e v =
    let (e', ran, v') = handle-InOrder e c v in
    let (e'', ran', v'') = handle_all-kept cs e' v' in (e'', rw (ran, ran'), v'')

-- Any commands are carried out from the initial engine, one after the other, without an exception,
-- and lead to an engine that is in order and has one book for a symbol at most.
pub handle_all-InOrder :
    (cs : List Command) → (e : Engine) × (handle_all initial cs ≡ ok e) × InOrder e
unfolding initial
handle_all-InOrder cs = handle_all-kept cs initial (initial-IsValid, tt)
