-- ===== src/Threaded/Workers/Serving.antt =====
-- The answers of one shard's worker, against a sharded engine that serves this shard alone.
use matching_engine_cpp.Base.{
  ℕ, ◌<◌, ◌≡◌, refl, sym, ap, subst, ◌∙◌, ◌≢◌, true, Option, List, [], ◌∷◌, ◌++◌, ◌==◌, ==_iff, ℤ,
  Text, Result, ok, err, ok-injective, bind-ok, ◌>>=◌,
}
use matching_engine_cpp.Gateway.{Command, add_order, cancel_order, replace_order}
use matching_engine_cpp.Types.{ExecEvent, Trade}
use matching_engine_cpp.Risk.{RiskLimits}
use matching_engine_cpp.Sharded.{
  Sharded, Shard, Answer, shard, put_answer, put_shard, dispatch, add_to, cancel_in, replace_in,
  shard_add, shard_cancel, shard_replace,
}
use matching_engine_cpp.Sharded.Routing.{symbol_of, dispatch-others}
use matching_engine_cpp.Threaded.{CommandMsg, ResultMsg, answer}

-- The messages answered one after the other, by an engine that nothing else uses.
unfoldable pub serve : Sharded → List CommandMsg → Result (Sharded × List ResultMsg)
unfolding answer
serve m [] = ok (m, [])
serve m (msg ∷ msgs) = do (m', r) ← answer m msg; (m'', rs) ← serve m' msgs; ok (m'', r ∷ rs)

pub serve-none : (m : Sharded) → serve m [] ≡ ok (m, [])
unfolding serve
serve-none m = refl

pub serve-snoc :
    (m m' m'' : Sharded) (msgs : List CommandMsg) (msg : CommandMsg) (rs : List ResultMsg)
    (r : ResultMsg)
    → serve m msgs ≡ ok (m', rs)
    → answer m' msg ≡ ok (m'', r)
    → serve m (msgs ++ (msg ∷ [])) ≡ ok (m'', rs ++ (r ∷ []))
unfolding serve
serve-snoc m m' m'' [] msg rs r h k =
    subst
      (λ (x : Sharded × List ResultMsg).
        answer x.0 msg ≡ ok (m'', r) → serve m (msg ∷ []) ≡ ok (m'', x.1 ++ (r ∷ [])))
      (ok-injective h) (λ q. rw q refl) k
serve-snoc m m' m'' (x ∷ msgs) msg rs r h k =
    let ((n, r'), first, rest) = bind-ok (answer m x) _ h in
    let ((n', rs'), others, last) = bind-ok (serve n msgs) _ rest in
    subst
      (λ (y : Sharded × List ResultMsg).
        answer y.0 msg ≡ ok (m'', r)
        → serve m (x ∷ (msgs ++ (msg ∷ []))) ≡ ok (m'', y.1 ++ (r ∷ [])))
      (ok-injective last) (λ q. rw (first, serve-snoc n n' m'' msgs msg rs' r others q) refl) k

-- What a command makes of its shard.
on_shard : RiskLimits → Shard → Command → Option ℤ → Result Answer
on_shard limits sh (add_order cmd) ingress = shard_add limits sh cmd ingress
on_shard limits sh (cancel_order cmd) ingress = shard_cancel sh cmd ingress
on_shard limits sh (replace_order cmd) ingress = shard_replace sh cmd ingress

dispatch-on_shard :
    (m : Sharded) (c : Command) (ingress : Option ℤ)
    → dispatch m c ingress
      ≡ put_answer m
          (shard m (symbol_of c))
          (on_shard m.risk (m.shards (shard m (symbol_of c))) c ingress)
unfolding dispatch add_to cancel_in replace_in on_shard
dispatch-on_shard m (add_order cmd) ingress = refl
dispatch-on_shard m (cancel_order cmd) ingress = refl
dispatch-on_shard m (replace_order cmd) ingress = refl

-- Two engines that are alike as far as the shard `i` is concerned.
pub record Agree (i : ℕ) (m m' : Sharded) : Type 0 where
  pub shard_count : m'.shard_count ≡ m.shard_count
  pub risk : m'.risk ≡ m.risk
  pub at_shard : m'.shards i ≡ m.shards i

pub shard-count :
    (m m' : Sharded) (symbol : Text)
    → m'.shard_count ≡ m.shard_count
    → shard m' symbol ≡ shard m symbol
unfolding shard
shard-count m m' symbol same = rw same refl

self : (i : ℕ) → (i == i) ≡ true
self i = (==_iff i i).1 refl

put_answer-Agree :
    (i : ℕ) (m m' : Sharded) (a : Result Answer) (n : Sharded) (evs : List ExecEvent)
    (ts : List Trade)
    → Agree i m m'
    → put_answer m i a ≡ ok (n, evs, ts)
    → (n' : Sharded) × (put_answer m' i a ≡ ok (n', evs, ts)) × Agree i n n'
put_answer-Agree i m m' (err why) n evs ts v h = absurd (cc)
put_answer-Agree i m m' (ok (sh, evs', ts')) n evs ts v h =
    let same = ok-injective h in
    let here : (put_shard i sh m').shards i ≡ (put_shard i sh m).shards i = rw (self i) refl in
    (
      put_shard i sh m',
      ap (λ x. ok (put_shard i sh m', x.1, x.2)) same,
      record {
        shard_count = v.shard_count ∙ ap (λ x. x.0.shard_count) same;
        risk = v.risk ∙ ap (λ x. x.0.risk) same;
        at_shard = here ∙ ap (λ x. x.0.shards i) same;
      },
    )

dispatch-Agree :
    (i : ℕ) (m m' : Sharded) (c : Command) (ingress : Option ℤ) (n : Sharded) (evs : List ExecEvent)
    (ts : List Trade)
    → Agree i m m'
    → shard m (symbol_of c) ≡ i
    → dispatch m c ingress ≡ ok (n, evs, ts)
    → (n' : Sharded) × (dispatch m' c ingress ≡ ok (n', evs, ts)) × Agree i n n'
dispatch-Agree i m m' c ingress n evs ts v here h =
    let there = shard-count m m' (symbol_of c) v.shard_count ∙ here in
    let ran : put_answer m i (on_shard m.risk (m.shards i) c ingress) ≡ ok (n, evs, ts) =
      subst (λ s. put_answer m s (on_shard m.risk (m.shards s) c ingress) ≡ ok (n, evs, ts)) here
        (sym (dispatch-on_shard m c ingress) ∙ h) in
    let (n', done, w) =
      put_answer-Agree i m m' (on_shard m.risk (m.shards i) c ingress) n evs ts v ran in
    let alike : dispatch m' c ingress ≡ put_answer m' i (on_shard m.risk (m.shards i) c ingress) =
      dispatch-on_shard m' c ingress
      ∙ subst
          (λ s.
            put_answer m' (shard m' (symbol_of c))
              (on_shard m'.risk (m'.shards (shard m' (symbol_of c))) c ingress)
            ≡ put_answer m' s (on_shard m'.risk (m'.shards s) c ingress))
          there refl
      ∙ ap (λ l. put_answer m' i (on_shard l (m'.shards i) c ingress)) v.risk
      ∙ ap (λ sh. put_answer m' i (on_shard m.risk sh c ingress)) v.at_shard in
    (n', alike ∙ done, w)

-- A message of the shard is answered alike, and the engines stay alike.
pub answer-Agree :
    (i : ℕ) (m m' : Sharded) (msg : CommandMsg) (n : Sharded) (r : ResultMsg)
    → Agree i m m'
    → shard m (symbol_of msg.command) ≡ i
    → answer m msg ≡ ok (n, r)
    → (n' : Sharded) × (answer m' msg ≡ ok (n', r)) × Agree i n n'
unfolding answer
answer-Agree i m m' msg n r v here h =
    let ((k, evs, ts), ran, last) = bind-ok (dispatch m msg.command msg.ingress_sequence) _ h in
    let (n', ran', w) =
      dispatch-Agree i m m' msg.command msg.ingress_sequence k evs ts v here ran in
    (
      n',
      rw ran' (ap (λ x. ok (n', x.1)) (ok-injective last)),
      subst (λ x. Agree i x n') (ap (λ x. x.0) (ok-injective last)) w,
    )

put_answer-setup :
    (m : Sharded) (s : ℕ) (a : Result Answer) (n : Sharded) (evs : List ExecEvent) (ts : List Trade)
    → put_answer m s a ≡ ok (n, evs, ts)
    → (m.shard_count ≡ n.shard_count) × (m.risk ≡ n.risk)
put_answer-setup m s (err why) n evs ts h = absurd (cc)
put_answer-setup m s (ok (sh, evs', ts')) n evs ts h =
    let same = ok-injective h in (ap (λ x. x.0.shard_count) same, ap (λ x. x.0.risk) same)

-- A message of another shard changes nothing at this one.
pub answer-apart :
    (i : ℕ) (m m' : Sharded) (msg : CommandMsg) (n : Sharded) (r : ResultMsg)
    → 0 < m.shard_count
    → Agree i m m'
    → i ≢ shard m (symbol_of msg.command)
    → answer m msg ≡ ok (n, r)
    → Agree i n m'
unfolding answer
answer-apart i m m' msg n r some_shard v apart h =
    let ((k, evs, ts), ran, last) = bind-ok (dispatch m msg.command msg.ingress_sequence) _ h in
    let (inside, kept) =
      dispatch-others m msg.command msg.ingress_sequence (k, evs, ts) i some_shard apart ran in
    let (count, risk) =
      put_answer-setup m _ _ k evs ts
        (sym (dispatch-on_shard m msg.command msg.ingress_sequence) ∙ ran) in
    subst (λ x. Agree i x m') (ap (λ x. x.0) (ok-injective last))
      (record {
        shard_count = v.shard_count ∙ count;
        risk = v.risk ∙ risk;
        at_shard = v.at_shard ∙ sym kept;
      })

pub answer-count :
    (m : Sharded) (msg : CommandMsg) (n : Sharded) (r : ResultMsg)
    → answer m msg ≡ ok (n, r)
    → m.shard_count ≡ n.shard_count
unfolding answer
answer-count m msg n r h =
    let ((k, evs, ts), ran, last) = bind-ok (dispatch m msg.command msg.ingress_sequence) _ h in
    (put_answer-setup m _ _ k evs ts
      (sym (dispatch-on_shard m msg.command msg.ingress_sequence) ∙ ran)).0
    ∙ ap (λ x. x.0.shard_count) (ok-injective last)
