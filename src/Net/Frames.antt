-- ===== src/Net/Frames.antt =====
-- The loop over a buffer's frames ends.
use matching_engine_cpp.Base.{
  ℕ, zero, suc, ◌-◌, ◌^◌, ◌≤◌, ◌<◌, ◌≡◌, ap, ◌∙◌, inl, inr, Bool, true, false, some, arith,
  Option-cases, length, Text, ok, Result-cases,
}
use matching_engine_cpp.Gateway.{Command}
use matching_engine_cpp.Protocol.Frames.{Frame, parse_body, parse_frame}
use matching_engine_cpp.Net.{Stop, at, exception, unfinished, handle_frame, handled, frames}

parse_body-moves :
    (buf : Text) (p type len : ℕ) (f : Frame)
    → p ≤ length buf
    → length buf < 2 ^ 64
    → parse_body buf p type len ≡ ok (some f)
    → (p < f.offset) × (f.offset ≤ length buf)
unfolding parse_body
parse_body-moves buf p type len f h small e = grind (arith, e)

parse_frame-moves :
    (buf : Text) (offset : ℕ) (f : Frame)
    → offset ≤ length buf
    → length buf < 2 ^ 64
    → parse_frame buf offset ≡ ok (some f)
    → (offset < f.offset) × (f.offset ≤ length buf)
unfolding parse_frame
parse_frame-moves buf offset f h small e = grind (arith, e, parse_body-moves)

-- The loop stopped, and where at an offset, inside the buffer.
abbrev pub Ends : ℕ → Stop → Type 0
Ends len (at offset) = offset ≤ len
Ends len exception = Unit {0}
Ends len unfinished = ⊥

handled-Ends :
    {S : Type 0} (len : ℕ) (r : S × Bool) (more : S → S × Stop)
    → ((s : S) → Ends len (more s).1)
    → Ends len (handled r more).1
handled-Ends len (s, false) more h = tt
handled-Ends len (s, true) more h = h s

module _ {S : Type 0} (handler : Command → S → S × Bool) where
  -- On a buffer shorter than 2 ^ 64, from an offset inside it, more rounds than there are bytes behind
  -- the offset end the loop over the frames, whatever the bytes are and whatever the handler does; an
  -- offset that it stops at is inside the buffer.
  pub frames-Ends :
      (fuel : ℕ) (buffer : Text) (offset : ℕ) (s : S)
      → length buffer < 2 ^ 64
      → offset ≤ length buffer
      → length buffer - offset < fuel
      → Ends (length buffer) (frames handler fuel buffer offset s).1
  unfolding frames
  frames-Ends zero buffer offset s small inside enough = absurd (omega arith)
  frames-Ends (suc fuel) buffer offset s small inside enough =
      elim (Result-cases (parse_frame buffer offset)) [
        | inl (why, e) ↦ rw e tt
        | inr (o, e) ↦ elim (Option-cases o) [
          | inl e' ↦ rw (e, e') inside
          | inr (f, e') ↦
              let found : parse_frame buffer offset ≡ ok (some f) = e ∙ ap ok e' in
              let moves = parse_frame-moves buffer offset f inside small found in
              rw found (
                handled-Ends (length buffer) (handle_frame handler f s)
                  (frames handler fuel buffer f.offset)
                  λ s'. frames-Ends fuel buffer f.offset s' small moves.1 (omega (arith, moves.0)))
        ]
      ]
