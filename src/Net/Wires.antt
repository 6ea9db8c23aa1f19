-- ===== src/Net/Wires.antt =====
-- What a sender writes for its commands.
use matching_engine_cpp.Base.{
  ◌≤◌, ◌<◌, ◌≡◌, refl, sym, ap, ◌∙◌, ◌⊎◌, inl, inr, List, [], ◌∷◌, ◌++◌, append_assoc, arith,
  length, take, Text, Result, ok, err,
}
use matching_engine_cpp.Gateway.{Command}
use matching_engine_cpp.Protocol.Frames.{frame_message, encode_command}
use matching_engine_cpp.Protocol.FramesBack.{length-frame_message}
use matching_engine_cpp.Protocol.CommandsBack.{FitsWire, encode-framed}

abbrev pub encoded_or_none : Result Text → Text
encoded_or_none (err why) = []
encoded_or_none (ok w) = w

-- What the sender writes for a command, and for some of them.
unfoldable pub wire : Command → Text
wire c = encoded_or_none (encode_command c)

unfoldable pub wires : List Command → Text
unfolding wire
wires [] = []
wires (c ∷ cs) = wire c ++ wires cs

wires-append : (cs ds : List Command) → wires (cs ++ ds) ≡ wires cs ++ wires ds
unfolding wires
wires-append [] ds = refl
wires-append (c ∷ cs) ds =
    ap (λ t. wire c ++ t) (wires-append cs ds) ∙ sym (append_assoc (wire c) (wires cs) (wires ds))

-- Where the start of a stream ends: inside the first part, or behind it.
pub prefix_cases :
    (w b future rest : Text)
    → b ++ future ≡ w ++ rest
    → ((length b < length w) × (b ≡ take (length b) w))
      ⊎ ((b' : Text) × (b ≡ w ++ b') × (b' ++ future ≡ rest))
prefix_cases [] b future rest h = inr (b, refl, h)
prefix_cases (x ∷ w) [] future rest h = inl (omega arith, refl)
prefix_cases (x ∷ w) (y ∷ b) future rest h =
    let first : y ≡ x = cc in
    let others : b ++ future ≡ w ++ rest = cc in
    elim (prefix_cases w b future rest others) [
      | inl (short, e) ↦
          inl (omega arith, ap (λ t. y ∷ t) e ∙ ap (λ z. z ∷ take (length b) w) first)
      | inr (b', e, e') ↦ inr (b', ap (λ t. y ∷ t) e ∙ ap (λ z. z ∷ (w ++ b')) first, e')
    ]

-- Less than a command's bytes are there.
abbrev pub IsShort : Text → List Command → Type 0
IsShort b [] = Unit {0}
IsShort b (c ∷ cs) = length b < length (wire c)

pub length-wire : (c : Command) → FitsWire c → 9 ≤ length (wire c)
unfolding wire
length-wire c fits =
    let (t, p, encoded, ht, hp, decoded, other) = encode-framed c fits in
    let whole : wire c ≡ frame_message t p = ap encoded_or_none encoded in
    omega (arith, ap length whole, length-frame_message t p)
