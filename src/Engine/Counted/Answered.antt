-- ===== src/Engine/Counted/Answered.antt =====
-- What the engine answers to a command of any kind: addOrder, cancelOrder and replaceOrder of
-- src/matching_engine.cpp.
use matching_engine_cpp.Base.{
  ◌≡◌, refl, sym, subst, inl, inr, Option, none, some, List, [], Option-cases, ℤ, pos, ◌≤ℤ◌, find,
  Result, ok, ◌>>=◌, ok-injective, bind-ok, int_eq, text_eq_instance,
}
use matching_engine_cpp.Engine.Counted.{RestingOrder, Numbered, Numbered-append}
use matching_engine_cpp.Engine.Counted.Outputs.{Answers, add-Answers}
use matching_engine_cpp.Engine.{Side, event, reject, next_sequence, Engine}
use matching_engine_cpp.Engine.Commands.{
  cancel, cancel_at, replace, replace_at, deref, replacement, Output, add,
}
use matching_engine_cpp.Engine.Priority.Whole.{traded}
use matching_engine_cpp.Types.{CancelOrder, ReplaceOrder, ExecEvent}
use matching_engine_cpp.Gateway.{Command, add_order, cancel_order, replace_order}
use matching_engine_cpp.Engine.Invariant.{IsValid}
use matching_engine_cpp.Engine.Invariant.Adding.{add-IsValid}
use matching_engine_cpp.Engine.Invariant.Removing.{cancel-IsValid, replace-IsValid}

-- The events count on from `start`.
abbrev Follows : ℤ → Engine × List ExecEvent → Type 0
Follows start out = Numbered start out.1 out.0.sequence

cancel-Follows :
    (e : Engine) (cmd : CancelOrder) (out : Engine × List ExecEvent)
    → cancel e cmd ≡ ok out
    → Follows e.sequence out
unfolding cancel cancel_at reject event next_sequence
cancel-Follows e cmd out h = elim (Option-cases (find cmd.order_id e.index)) [
  | inl missing ↦ subst (Follows e.sequence) (ok-injective (rw (missing, cancel) at h)) (refl, refl)
  | inr (loc, found) ↦ elim (Option-cases (deref e loc)) [
    | inl gone ↦ absurd (cc (rw (found, cancel, gone) at h))
    | inr (o, there) ↦
        subst (Follows e.sequence) (ok-injective (rw (found, cancel, there) at h)) (refl, refl)
  ]
]

replace_at-Answers :
    (e : Engine) (cmd : ReplaceOrder) (d : Side) (o : Option RestingOrder) (out : Output)
    → pos 0 ≤ℤ cmd.new_quantity
    → replace_at e cmd d o ≡ ok out
    → Answers e.sequence cmd.new_quantity out
unfolding replace_at
replace_at-Answers e cmd d none out positive h = absurd (cc)
replace_at-Answers e cmd d (some o) out positive h =
    let ((e', events), ran, rest) =
      bind-ok (cancel e (record { symbol = cmd.symbol; order_id = cmd.order_id })) _ h in
    let ((e'', more, trades), added, last) =
      bind-ok (add e' (replacement cmd o.participant_id d)) _ rest in
    let first = cancel-Follows e _ (e', events) ran in
    let (then, small) =
      add-Answers e' (replacement cmd o.participant_id d) (e'', more, trades) positive added in
    subst (Answers e.sequence cmd.new_quantity) (ok-injective last)
      (Numbered-append e.sequence e'.sequence e''.sequence events more first then, small)

nothing_traded : traded [] ≡ pos 0
unfolding traded
nothing_traded = refl

replace-Answers :
    (e : Engine) (cmd : ReplaceOrder) (out : Output)
    → pos 0 ≤ℤ cmd.new_quantity
    → replace e cmd ≡ ok out
    → Answers e.sequence cmd.new_quantity out
unfolding replace reject event next_sequence
replace-Answers e cmd out positive h = elim (Option-cases (find cmd.order_id e.index)) [
  | inl missing ↦
      subst (Answers e.sequence cmd.new_quantity) (ok-injective (rw (missing, replace) at h))
        ((refl, refl), subst (λ x. x ≤ℤ cmd.new_quantity) (sym nothing_traded) positive)
  | inr (loc, found) ↦
      replace_at-Answers e cmd loc.side (deref e loc) out positive (rw (found, replace) at h)
]

-- The engine at a command, with what it answers; a cancellation trades nothing.
unfoldable pub respond : Engine → Command → Result Output
respond e (add_order cmd) = add e cmd
respond e (cancel_order cmd) = cancel e cmd >>= λ (e', events). ok (e', events, [])
respond e (replace_order cmd) = replace e cmd

-- The quantity that a command asks for.
abbrev pub asked : Command → ℤ
asked (add_order cmd) = cmd.quantity
asked (cancel_order cmd) = pos 0
asked (replace_order cmd) = cmd.new_quantity

-- An engine in order answers a command that asks for no negative quantity without an exception. The
-- events of the answer are numbered one after the other, from the number that the engine stood at to
-- the number it then stands at, and its trades add up to what the command asks for at most; a
-- cancellation asks for 0.
pub respond-Answers :
    (e : Engine) (c : Command)
    → IsValid e
    → pos 0 ≤ℤ asked c
    → (out : Output) × (respond e c ≡ ok out) × Answers e.sequence (asked c) out
unfolding respond
respond-Answers e (add_order cmd) v h =
    let (out, ran, w) = add-IsValid e cmd v in (out, ran, add-Answers e cmd out h ran)
respond-Answers e (cancel_order cmd) v h =
    let ((e', events), ran, w) = cancel-IsValid e cmd v in
    (
      (e', events, []),
      rw ran refl,
      (cancel-Follows e cmd (e', events) ran, subst (λ x. x ≤ℤ pos 0) (sym nothing_traded) h),
    )
respond-Answers e (replace_order cmd) v h =
    let (out, ran, w) = replace-IsValid e cmd v in (out, ran, replace-Answers e cmd out h ran)
