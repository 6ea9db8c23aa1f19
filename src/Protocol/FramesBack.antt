-- ===== src/Protocol/FramesBack.antt =====
-- A frame is read back where it was written, and only when all of its bytes are there.
use matching_engine_cpp.Base.{
  ℕ, zero, suc, ◌+◌, ◌-◌, ◌%◌, ◌^◌, ◌<◌, ◌≡◌, refl, sym, ap, subst, inl, inr, none, some, ◌++◌,
  append_assoc, add_assoc, arith, ltb, Bool-cases, length, take, length-append, take-append,
  drop-append, drop-add, length-take-le, Text, ok,
}
use matching_engine_cpp.Protocol.{put_bytes, put_u8, put_u32, get_bytes, get_u8, get_u32, substr}
use matching_engine_cpp.Protocol.Frames.{crc32, MessageType, frame_message, parse_frame}

pub crc32-lt : (s : Text) → crc32 s < 2 ^ 32
unfolding crc32
crc32-lt s = omega arith

get_bytes-put_bytes32 : (v : ℕ) → v < 2 ^ 32 → get_bytes (2 ^ 32) 0 (put_bytes 4 v) ≡ v
unfolding get_bytes put_bytes
get_bytes-put_bytes32 v h = omega arith

substr_start : (pre x : Text) (n : ℕ) → substr (pre ++ x) (length pre) n ≡ take n x
substr_start pre x n = rw (drop-append pre x)

substr_behind : (pre x : Text) (k n : ℕ) → substr (pre ++ x) (length pre + k) n ≡ substr x k n
substr_behind pre x k n = rw (drop-add (length pre) k (pre ++ x), drop-append pre x)

length-put_bytes : (k v : ℕ) → length (put_bytes k v) ≡ k
unfolding put_bytes
length-put_bytes zero v = refl
length-put_bytes (suc k) v = ap suc (length-put_bytes k v)

pub length-frame_message : (t : MessageType) (p : Text) → length (frame_message t p) ≡ length p + 9
unfolding frame_message put_u8 put_u32
length-frame_message t p = omega (
  arith,
  length-append (put_bytes 4 (length p % 2 ^ 32)) (p ++ put_bytes 4 (crc32 p)),
  length-append p (put_bytes 4 (crc32 p)),
  length-put_bytes 4 (crc32 p),
  length-put_bytes 4 (length p % 2 ^ 32),
)

module _ (pre rest p : Text) (t : MessageType) (type_fits : t < 256)
    (short : length p < 2 ^ 32) where
  abbrev pub buf : Text
  buf = pre ++ (frame_message t p ++ rest)

  header_back : (get_u8 buf (length pre) ≡ t) × (get_u32 buf (length pre + 1) ≡ length p)
  unfolding get_u8 get_u32
  header_back = (
    rw (substr_start pre (frame_message t p ++ rest) 1) type_back,
    rw (substr_behind pre (frame_message t p ++ rest) 1 4) length_back,
  )
    where
      type_back : get_bytes 256 0 (take 1 (frame_message t p ++ rest)) ≡ t
      type_back = unfold frame_message put_u8 put_u32 put_bytes get_bytes in omega arith

      length_back : get_bytes (2 ^ 32) 0 (substr (frame_message t p ++ rest) 1 4) ≡ length p
      length_back = unfold frame_message put_u8 put_u32 put_bytes get_bytes in omega arith

  body_back :
      (substr buf (length pre + 5) (length p) ≡ p)
      × (get_u32 buf (length pre + 5 + length p) ≡ crc32 p)
  unfolding get_u32
  body_back = (
    rw (substr_behind pre (frame_message t p ++ rest) 5 (length p)) payload_back,
    rw
        (
          add_assoc (length pre) 5 (length p),
          substr_behind pre (frame_message t p ++ rest) (5 + length p) 4,
        )
        crc_back,
  )
    where
      payload_back : substr (frame_message t p ++ rest) 5 (length p) ≡ p
      payload_back =
          unfold frame_message put_u8 put_u32 put_bytes in
          rw (append_assoc p (put_bytes 4 (crc32 p)) rest)
            (take-append p (put_bytes 4 (crc32 p) ++ rest))

      crc_back :
          get_bytes (2 ^ 32) 0 (substr (frame_message t p ++ rest) (5 + length p) 4) ≡ crc32 p
      crc_back = rw (drop-add 5 (length p) (frame_message t p ++ rest)) (
          unfold frame_message put_u8 put_u32 in
          rw
            (
              append_assoc p (put_bytes 4 (crc32 p)) rest,
              drop-append p (put_bytes 4 (crc32 p) ++ rest),
            )
            (unfold put_bytes get_bytes in omega (arith, crc32-lt p)))

  length-buf : length buf ≡ length pre + (length p + 9 + length rest)
  length-buf = omega (
    arith,
    length-append pre (frame_message t p ++ rest),
    length-append (frame_message t p) rest,
    length-frame_message t p,
  )

  -- A frame that stands in a buffer is read back, whatever stands before and behind it.
  pub parse_frame-frame_message :
      length buf < 2 ^ 64
      → parse_frame buf (length pre)
        ≡ ok (some (record { offset = length pre + (length p + 9); type = t; payload = p }))
  unfolding parse_frame
  parse_frame-frame_message fits =
      let (ty, len) = header_back in
      let (body, crc) = body_back in rw (ty, len, body, crc) (ground (arith, length-buf))

module _ (pre p : Text) (t : MessageType) (short : length p < 2 ^ 32) where
  -- A header alone gives the length of the payload.
  partial_header :
      (m : ℕ) → get_u32 (pre ++ take (5 + m) (frame_message t p)) (length pre + 1) ≡ length p
  unfolding get_u32
  partial_header m = rw (substr_behind pre (take (5 + m) (frame_message t p)) 1 4) (
      let five : 5 + m ≡ suc (suc (suc (suc (suc m)))) = omega arith in
      rw five (unfold frame_message put_u8 put_u32 put_bytes get_bytes in omega arith))

  partial_parse :
      (m : ℕ)
      → m < length p + 4
      → length (pre ++ take (5 + m) (frame_message t p)) < 2 ^ 64
      → parse_frame (pre ++ take (5 + m) (frame_message t p)) (length pre) ≡ ok none
  unfolding parse_frame
  partial_parse m h fits = rw (partial_header m) (
      ground (
        arith,
        length-append pre (take (5 + m) (frame_message t p)),
        length-take-le (5 + m) (frame_message t p),
      ))

  -- At a frame that lacks bytes at its end, its payload shorter than 2 ^ 32 and the buffer shorter
  -- than 2 ^ 64, `parse_frame` asks for more, and moves no offset.
  pub parse_frame_partial :
      (n : ℕ)
      → n < length p + 9
      → length (pre ++ take n (frame_message t p)) < 2 ^ 64
      → parse_frame (pre ++ take n (frame_message t p)) (length pre) ≡ ok none
  parse_frame_partial n h fits = elim (Bool-cases (ltb n 5)) [
    | inl few ↦
        unfold parse_frame in
        ground (
          arith,
          length-append pre (take n (frame_message t p)),
          length-take-le n (frame_message t p),
        )
    | inr more ↦
        let split : n ≡ 5 + (n - 5) = ground arith in
        subst (λ k. parse_frame (pre ++ take k (frame_message t p)) (length pre) ≡ ok none)
          (sym split)
          (partial_parse (n - 5) (ground arith)
            (subst (λ k. length (pre ++ take k (frame_message t p)) < 2 ^ 64) split fits))
  ]
