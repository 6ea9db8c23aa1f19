-- ===== src/Net/Reassembled.antt =====
-- Commands that are sent through a session arrive, however their bytes are cut up.
use matching_engine_cpp.Base.{
  suc, ◌+◌, ◌^◌, ◌<◌, ◌≡◌, refl, sym, ap, ◌∙◌, Bool, true, false, List, [], ◌∷◌, ◌++◌, append-nil,
  append_assoc, arith, length, drop, length-append, drop-append, All, Text,
}
use matching_engine_cpp.Gateway.{Command}
use matching_engine_cpp.Protocol.CommandsBack.{FitsWire}
use matching_engine_cpp.Net.{
  end_of_session, Received, bytes, nothing_yet, Conn, receive, drain_connection,
}
use matching_engine_cpp.Net.Wires.{wire, wires, IsShort, length-wire}
use matching_engine_cpp.Net.Handled.{after_all, Handled, frames-wires}

-- What `recv` gives for some pieces: each of them, and then nothing yet.
abbrev pub answers : List Text → List Received
answers [] = nothing_yet ∷ []
answers (b ∷ bs) = bytes b ∷ answers bs

abbrev pub joined : List Text → Text
joined [] = []
joined (b ∷ bs) = b ++ joined bs

receive-answers :
    (bs : List Text) (buffer : Text) → receive (answers bs) buffer ≡ (buffer ++ joined bs, true)
unfolding receive
receive-answers [] buffer = ap (λ t. (t, true)) (sym (append-nil buffer))
receive-answers (b ∷ bs) buffer =
    receive-answers bs (buffer ++ b) ∙ ap (λ t. (t, true)) (append_assoc buffer b (joined bs))

-- All the pieces of some calls of `drain_connection`.
abbrev pub all_joined : List (List Text) → Text
all_joined [] = []
all_joined (bs ∷ calls) = joined bs ++ all_joined calls

abbrev pub open_conn : Text → Conn
open_conn buffer = record { is_open = true; buffer = buffer }

module _ {S : Type 0} (handler : Command → S → S × Bool) where
  unfoldable pub drain_all : List (List Text) → Conn → S → Conn × S
  unfolding drain_connection
  drain_all [] conn s = (conn, s)
  drain_all (bs ∷ calls) conn s =
      let (conn', s') = drain_connection handler (answers bs) conn s in drain_all calls conn' s'

after_all-append :
    {S : Type 0} (after : Command → S → S) (cs ds : List Command) (s : S)
    → after_all after (cs ++ ds) s ≡ after_all after ds (after_all after cs s)
unfolding after_all
after_all-append after [] ds s = refl
after_all-append after (c ∷ cs) ds s = after_all-append after cs ds (after c s)

module _ {S : Type 0} (handler : Command → S → S × Bool) (after : Command → S → S)
    (returns : (c : Command) (s : S) → handler c s ≡ (after c s, true)) where
  drain-Handled :
      (cs : List Command) (bs : List Text) (buffer future : Text) (s : S)
      → (r : Handled handler after returns cs []
          (buffer ++ joined bs)
          future
          (suc (length (buffer ++ joined bs)))
          s)
      → drain_connection handler (answers bs) (open_conn buffer) s
        ≡ (open_conn r.left, after_all after r.done s)
  unfolding drain_connection
  drain-Handled cs bs buffer future s r =
      let left : drop (length (wires r.done)) (buffer ++ joined bs) ≡ r.left =
        ap (drop (length (wires r.done))) r.bytes_parts ∙ drop-append (wires r.done) r.left in
      let start : 0 + length (wires r.done) ≡ length (wires r.done) = omega arith in
      rw (receive-answers bs buffer, r.result)
        (ap (λ t. (open_conn t, after_all after r.done s))
          (ap (λ i. drop i (buffer ++ joined bs)) start ∙ left))

  drain_all-wires :
      (calls : List (List Text)) (todo : List Command) (buffer : Text) (s : S)
      → All FitsWire todo
      → buffer ++ all_joined calls ≡ wires todo
      → length (wires todo) < 2 ^ 63
      → IsShort buffer todo
      → drain_all handler calls (open_conn buffer) s ≡ (open_conn [], after_all after todo s)
  unfolding drain_all wires after_all
  drain_all-wires [] [] buffer s fits h space short =
      ap (λ b. (open_conn b, s)) (sym (append-nil buffer) ∙ h)
  drain_all-wires [] (c ∷ todo) buffer s fits h space short = absurd (
      omega
        (arith, short, ap length h, length-append buffer [], length-append (wire c) (wires todo)))
  drain_all-wires (bs ∷ calls) todo buffer s fits h space short =
      let b = buffer ++ joined bs in
      let future = all_joined calls in
      let stream : b ++ future ≡ wires todo = append_assoc buffer (joined bs) future ∙ h in
      let size : length b + length future ≡ length (wires todo) =
        sym (length-append b future) ∙ ap length stream in
      let r =
        frames-wires handler after returns todo [] b future (suc (length b)) s fits stream
          (omega (arith, size)) (omega arith) in
      let later =
        drain_all-wires calls r.todo r.left (after_all after r.done s) r.fits r.to_come
          (omega (
            arith,
            size,
            ap length r.to_come,
            length-append r.left future,
            ap length r.bytes_parts,
            length-append (wires r.done) r.left,
          ))
          r.short in
      rw (drain-Handled todo bs buffer future s r) (
        later
        ∙ ap (λ x. (open_conn [], x))
            (sym (after_all-append after r.done r.todo s)
              ∙ ap (λ l. after_all after l s) (sym r.parts)))

  empty-IsShort : (cs : List Command) → All FitsWire cs → IsShort [] cs
  empty-IsShort [] fits = tt
  empty-IsShort (c ∷ cs) fits = omega (arith, length-wire c fits.0)

  -- Where the bytes of commands that fit the wire, fewer than 2 ^ 63, arrive at a new session, cut
  -- into pieces anywhere and the pieces spread over any calls of `drain_connection`, and the handler
  -- throws nothing, it is called with exactly these commands, in order; the session stays open and
  -- nothing is left in its buffer.
  pub drain_all-commands :
      (cs : List Command) (calls : List (List Text)) (s : S)
      → All FitsWire cs
      → all_joined calls ≡ wires cs
      → length (wires cs) < 2 ^ 63
      → drain_all handler calls (open_conn []) s ≡ (open_conn [], after_all after cs s)
  drain_all-commands cs calls s fits h space =
      drain_all-wires calls cs [] s fits h space (empty-IsShort cs fits)

-- What `recv` gives for some pieces at the end of a session.
abbrev pub last_answers : List Text → List Received
last_answers [] = end_of_session ∷ []
last_answers (b ∷ bs) = bytes b ∷ last_answers bs

receive-last_answers :
    (bs : List Text) (buffer : Text)
    → receive (last_answers bs) buffer ≡ (buffer ++ joined bs, false)
unfolding receive
receive-last_answers [] buffer = ap (λ t. (t, false)) (sym (append-nil buffer))
receive-last_answers (b ∷ bs) buffer =
    receive-last_answers bs (buffer ++ b) ∙ ap (λ t. (t, false)) (append_assoc buffer b (joined bs))

-- Where the end of the session is seen in the call that receives the pieces, whatever they hold, the
-- handler is not called: whole commands among the bytes that arrived or waited are lost.
pub drain_connection-last :
    {S : Type 0} (handler : Command → S → S × Bool) (bs : List Text) (conn : Conn) (s : S)
    → drain_connection handler (last_answers bs) conn s
      ≡ (record { is_open = false; buffer = conn.buffer ++ joined bs }, s)
unfolding drain_connection
drain_connection-last handler bs conn s = rw (receive-last_answers bs conn.buffer) refl
