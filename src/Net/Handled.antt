-- ===== src/Net/Handled.antt =====
-- What the loop over the frames makes of the first bytes of some commands.
use matching_engine_cpp.Base.{
  ℕ, zero, suc, ◌+◌, ◌^◌, ◌<◌, ◌≡◌, refl, sym, ap, subst, ◌∙◌, inl, inr, Bool, true, none, List, [],
  ◌∷◌, ◌++◌, append_assoc, arith, ltb, length, take, length-append, length-take-le, All, Text, ok,
}
use matching_engine_cpp.Gateway.{Command}
use matching_engine_cpp.Protocol.Frames.{sub_size, frame_message, parse_frame}
use matching_engine_cpp.Protocol.FramesBack.{
  length-frame_message, parse_frame-frame_message, parse_frame_partial,
}
use matching_engine_cpp.Protocol.CommandsBack.{FitsWire, encode-framed}
use matching_engine_cpp.Net.{handle_command, at, frames, handle_frame}
use matching_engine_cpp.Net.Wires.{encoded_or_none, wire, wires, prefix_cases, IsShort, length-wire}

-- The handler's state after some commands.
unfoldable pub after_all : {S : Type 0} → (Command → S → S) → List Command → S → S
after_all after [] s = s
after_all after (c ∷ cs) s = after_all after cs (after c s)

start_offset : (pre : Text) → length pre + 0 ≡ length pre
start_offset pre = omega arith

module _ {S : Type 0} (handler : Command → S → S × Bool) (after : Command → S → S)
    (returns : (c : Command) (s : S) → handler c s ≡ (after c s, true)) where
  frames-short :
      (c : Command) (pre b : Text) (fuel : ℕ) (s : S)
      → FitsWire c
      → length b < length (wire c)
      → b ≡ take (length b) (wire c)
      → length pre + length b < 2 ^ 63
      → frames handler (suc fuel) (pre ++ b) (length pre) s ≡ (s, at (length pre))
  unfolding frames wire
  frames-short c pre b fuel s fits short e space =
      let (t, p, encoded, ht, hp, decoded, other) = encode-framed c fits in
      let whole : wire c ≡ frame_message t p = ap encoded_or_none encoded in
      let cut : b ≡ take (length b) (frame_message t p) = e ∙ ap (take (length b)) whole in
      let size : length (wire c) ≡ length p + 9 = ap length whole ∙ length-frame_message t p in
      let missing =
        parse_frame_partial pre p t (omega arith) (length b) (omega (arith, short, size)) (
          omega (
            arith,
            length-append pre (take (length b) (frame_message t p)),
            length-take-le (length b) (frame_message t p),
          )) in
      let more : parse_frame (pre ++ b) (length pre) ≡ ok none =
        subst (λ x. parse_frame (pre ++ x) (length pre) ≡ ok none) (sym cut) missing in
      rw more

  frames-command :
      (c : Command) (pre b : Text) (fuel : ℕ) (s : S)
      → FitsWire c
      → length pre + length (wire c ++ b) < 2 ^ 63
      → frames handler (suc fuel) (pre ++ (wire c ++ b)) (length pre) s
        ≡ frames handler fuel (pre ++ (wire c ++ b)) (length pre + length (wire c)) (after c s)
  unfolding frames wire handle_frame handle_command
  frames-command c pre b fuel s fits space =
      let (t, p, encoded, ht, hp, decoded, other) = encode-framed c fits in
      let whole : wire c ≡ frame_message t p = ap encoded_or_none encoded in
      let next : length pre + (length p + 9) ≡ length pre + length (frame_message t p) =
        omega (arith, length-frame_message t p) in
      let found = parse_frame-frame_message pre b p t ht (omega arith) (
        omega (
          arith,
          ap length whole,
          length-append pre (frame_message t p ++ b),
          length-append (wire c) b,
          length-append (frame_message t p) b,
        )) in
      rw (whole, found, other, decoded, returns c s, next) refl

  -- What the loop makes of the bytes `b` of the commands `cs`: the commands that are whole are handled,
  -- and less than a command is left.
  pub record Handled (cs : List Command) (pre b future : Text) (fuel : ℕ) (s : S) : Type 0 where
    pub done : List Command
    pub todo : List Command
    pub left : Text
    pub parts : cs ≡ done ++ todo
    pub bytes_parts : b ≡ wires done ++ left
    pub to_come : left ++ future ≡ wires todo
    pub short : IsShort left todo
    pub fits : All FitsWire todo
    pub result :
        frames handler fuel (pre ++ b) (length pre) s
        ≡ (after_all after done s, at (length pre + length (wires done)))

  frames-none :
      (pre : Text) (fuel : ℕ) (s : S)
      → length pre < 2 ^ 63
      → frames handler (suc fuel) (pre ++ []) (length pre) s ≡ (s, at (length pre))
  unfolding frames parse_frame
  frames-none pre fuel s h =
      let e : ltb (sub_size (length (pre ++ [])) (length pre)) 5 ≡ true =
        ground (arith, length-append pre []) in
      rw e

  next_frames :
      (c : Command) (pre b : Text) (done : List Command) (fuel : ℕ) (s : S)
      → frames handler fuel ((pre ++ wire c) ++ b) (length (pre ++ wire c)) (after c s)
        ≡ (after_all after done (after c s), at (length (pre ++ wire c) + length (wires done)))
      → frames handler fuel (pre ++ (wire c ++ b)) (length pre + length (wire c)) (after c s)
        ≡ (after_all after done (after c s), at (length pre + length (wire c ++ wires done)))
  next_frames c pre b done fuel s h =
      let sum : length pre + length (wire c ++ wires done)
          ≡ length pre + length (wire c) + length (wires done) =
        omega (arith, length-append (wire c) (wires done)) in
      rw sum (rw (append_assoc pre (wire c) b, length-append pre (wire c)) at h)

  pub frames-wires :
      (cs : List Command) (pre b future : Text) (fuel : ℕ) (s : S)
      → All FitsWire cs
      → b ++ future ≡ wires cs
      → length pre + length b < 2 ^ 63
      → length b < fuel
      → Handled cs pre b future fuel s
  unfolding wires after_all
  frames-wires cs pre b future zero s fits h space enough = absurd (omega arith)
  frames-wires [] pre (x ∷ b) future (suc fuel) s fits h space enough =
      absurd (omega (arith, ap length h))
  frames-wires [] pre [] future (suc fuel) s fits h space enough = record {
    done = [];
    todo = [];
    left = [];
    parts = refl;
    bytes_parts = refl;
    to_come = h;
    short = tt;
    fits = tt;
    result = rw (start_offset pre) (frames-none pre fuel s (omega arith));
  }
  frames-wires (c ∷ cs) pre b future (suc fuel) s fits h space enough =
      elim (prefix_cases (wire c) b future (wires cs) h) [
        | inl (short, e) ↦ record {
          done = [];
          todo = c ∷ cs;
          left = b;
          parts = refl;
          bytes_parts = refl;
          to_come = h;
          short = short;
          fits = fits;
          result = rw (start_offset pre) (frames-short c pre b fuel s fits.0 short e space);
        }
        | inr (b', e, e') ↦
            let size : length b ≡ length (wire c) + length b' =
              ap length e ∙ length-append (wire c) b' in
            let r =
              frames-wires cs (pre ++ wire c) b' future fuel (after c s) fits.1 e'
                (omega (arith, size, length-append pre (wire c)))
                (omega (arith, size, length-wire c fits.0)) in
            record {
              done = c ∷ r.done;
              todo = r.todo;
              left = r.left;
              parts = ap (λ l. c ∷ l) r.parts;
              bytes_parts =
                  e
                  ∙ ap (λ t. wire c ++ t) r.bytes_parts
                  ∙ sym (append_assoc (wire c) (wires r.done) r.left);
              to_come = r.to_come;
              short = r.short;
              fits = r.fits;
              result =
                  ap (λ x. frames handler (suc fuel) (pre ++ x) (length pre) s) e
                  ∙ frames-command c pre b' fuel s fits.0
                      (omega (arith, size, length-append (wire c) b'))
                  ∙ next_frames c pre b' r.done fuel s r.result;
            }
      ]
