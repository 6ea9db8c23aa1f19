-- ===== src/Protocol/OrdersBack.antt =====
-- Unpacking gives back what was packed.
use matching_engine_cpp.Base.{
  ℕ, ◌+◌, ◌*◌, ◌%◌, ◌^◌, ◌≤◌, ◌<◌, ◌≡◌, refl, sym, ap, List, [], ◌∷◌, ◌++◌, arith, ◌==◌,
  if◌then◌else◌, ℤ, pos, negsuc, length, take, drop, length-append, take-append, drop-append,
  drop-add, Text, ok,
}
use matching_engine_cpp.Types.{
  Side, buy, sell, TimeInForce, gtc, ioc, fok, market, SelfTradePrevention, none_stp,
  cancel_aggressor, cancel_passive, cancel_both, AddOrder, CancelOrder, ReplaceOrder,
}
use matching_engine_cpp.Protocol.{
  to_u64, from_u64, put_bytes, put_u8, put_u64, get_bytes, get_u8, get_u64, substr, IsI64,
}
use matching_engine_cpp.Protocol.Orders.{
  tif_to_code, code_to_tif, stp_to_code, code_to_stp, side_code, add_bytes, pack_add_order,
  unpack_add_order, cancel_bytes, pack_cancel_order, unpack_cancel_order, replace_bytes,
  pack_replace_order, unpack_replace_order,
}

code_to_tif-tif_to_code : (t : TimeInForce) → code_to_tif (tif_to_code t) ≡ ok t
unfolding code_to_tif tif_to_code
code_to_tif-tif_to_code gtc = refl
code_to_tif-tif_to_code ioc = refl
code_to_tif-tif_to_code fok = refl
code_to_tif-tif_to_code market = refl

code_to_stp-stp_to_code : (t : SelfTradePrevention) → code_to_stp (stp_to_code t) ≡ ok t
unfolding code_to_stp stp_to_code
code_to_stp-stp_to_code none_stp = refl
code_to_stp-stp_to_code cancel_aggressor = refl
code_to_stp-stp_to_code cancel_passive = refl
code_to_stp-stp_to_code cancel_both = refl

tif_to_code-lt : (t : TimeInForce) → tif_to_code t < 256
unfolding tif_to_code
tif_to_code-lt gtc = omega arith
tif_to_code-lt ioc = omega arith
tif_to_code-lt fok = omega arith
tif_to_code-lt market = omega arith

stp_to_code-lt : (t : SelfTradePrevention) → stp_to_code t < 256
unfolding stp_to_code
stp_to_code-lt none_stp = omega arith
stp_to_code-lt cancel_aggressor = omega arith
stp_to_code-lt cancel_passive = omega arith
stp_to_code-lt cancel_both = omega arith

to_u64-lt : (z : ℤ) → to_u64 z < 2 ^ 64
unfolding to_u64
to_u64-lt (pos n) = omega arith
to_u64-lt (negsuc n) = omega arith

-- A `long long` comes back from its two's complement.
from_u64-to_u64 : (z : ℤ) → IsI64 z → from_u64 (to_u64 z) ≡ z
unfolding from_u64 to_u64
from_u64-to_u64 (pos n) h = ground arith
from_u64-to_u64 (negsuc n) h = ground arith

-- The eight bytes of a word give the word.
get_bytes-put_bytes : (v : ℕ) → v < 2 ^ 64 → get_bytes (2 ^ 64) 0 (put_bytes 8 v) ≡ v
unfolding get_bytes put_bytes
get_bytes-put_bytes v h = omega arith

-- What is read of the eight bytes of a `long long`.
read_i64 : (z : ℤ) → IsI64 z → from_u64 (get_bytes (2 ^ 64) 0 (put_bytes 8 (to_u64 z))) ≡ z
read_i64 z h = rw (get_bytes-put_bytes (to_u64 z) (to_u64-lt z)) (from_u64-to_u64 z h)

take-all {ℓ} : {A : Type ℓ} (xs : List A) → take (length xs) xs ≡ xs
take-all [] = refl
take-all (x ∷ xs) = ap (λ l. x ∷ l) (take-all xs)

module _ (cmd : CancelOrder) (short : length cmd.symbol ≤ 255) (id : IsI64 cmd.order_id) where
  pub cancel_fields :
      (length (cancel_bytes cmd) ≡ 9 + length cmd.symbol)
      × (get_u8 (cancel_bytes cmd) 0 ≡ length cmd.symbol)
      × (from_u64 (get_u64 (cancel_bytes cmd) 1) ≡ cmd.order_id)
      × (substr (cancel_bytes cmd) 9 (length cmd.symbol) ≡ cmd.symbol)
  unfolding cancel_bytes put_u8 put_u64 put_bytes get_u8 get_u64 get_bytes
  cancel_fields = (omega arith, omega arith, read_i64 cmd.order_id id, take-all cmd.symbol)

  -- `unpack_cancel_order` inverts `pack_cancel_order`.
  pub unpack-pack_cancel :
      (pack_cancel_order cmd ≡ ok (cancel_bytes cmd))
      × (unpack_cancel_order (cancel_bytes cmd) ≡ ok cmd)
  unfolding pack_cancel_order unpack_cancel_order
  unpack-pack_cancel =
      let (len, sl, oid, sym) = cancel_fields in
      (ground arith, rw (len, sl, oid, sym) (ground arith))

module _ (cmd : AddOrder) (short : length cmd.symbol ≤ 255)
    (short' : length cmd.participant_id ≤ 255) (id : IsI64 cmd.order_id)
    (price : IsI64 cmd.price_ticks) (qty : IsI64 cmd.quantity) where
  abbrev pub buf : Text
  buf = add_bytes cmd

  pub add_header :
      (length buf ≡ 29 + length cmd.symbol + length cmd.participant_id)
      × (get_u8 buf 0 ≡ length cmd.symbol)
      × (get_u8 buf 1 ≡ length cmd.participant_id)
      × (get_u8 buf 2 ≡ side_code cmd.side)
      × (get_u8 buf 3 ≡ tif_to_code cmd.time_in_force)
      × (get_u8 buf 4 ≡ stp_to_code cmd.stp)
  unfolding add_bytes put_u8 put_u64 put_bytes get_u8 get_bytes
  add_header = (
    omega (arith, length-append cmd.symbol cmd.participant_id),
    omega arith,
    omega arith,
    side_back cmd.side,
    omega (arith, tif_to_code-lt cmd.time_in_force),
    omega (arith, stp_to_code-lt cmd.stp),
  )
    where
      side_back : (d : Side) → (0 * 256 + side_code d % 256) % 256 ≡ side_code d
      side_back buy = refl
      side_back sell = refl

  add_body :
      (from_u64 (get_u64 buf 5) ≡ cmd.order_id)
      × (from_u64 (get_u64 buf 13) ≡ cmd.price_ticks)
      × (from_u64 (get_u64 buf 21) ≡ cmd.quantity)
      × (substr buf 29 (length cmd.symbol) ≡ cmd.symbol)
      × (substr buf (29 + length cmd.symbol) (length cmd.participant_id) ≡ cmd.participant_id)
  unfolding add_bytes put_u8 put_u64 put_bytes get_u64 get_bytes
  add_body = (
    read_i64 cmd.order_id id,
    read_i64 cmd.price_ticks price,
    read_i64 cmd.quantity qty,
    take-append cmd.symbol cmd.participant_id,
    rw (drop-add 29 (length cmd.symbol) buf) tail_back,
  )
    where
      tail_back :
          take
            (length cmd.participant_id)
            (drop (length cmd.symbol) (cmd.symbol ++ cmd.participant_id))
          ≡ cmd.participant_id
      tail_back = rw (drop-append cmd.symbol cmd.participant_id) (take-all cmd.participant_id)

  side_of_code : (d : Side) → (if side_code d == 1 then buy else sell) ≡ d
  side_of_code buy = refl
  side_of_code sell = refl

  -- `unpack_add_order` inverts `pack_add_order`.
  pub unpack-pack_add :
      (pack_add_order cmd ≡ ok (add_bytes cmd)) × (unpack_add_order (add_bytes cmd) ≡ ok cmd)
  unfolding pack_add_order unpack_add_order
  unpack-pack_add =
      let (len, sl, pl, sd, tif, stp) = add_header in
      let (oid, px, q, sym, part) = add_body in
      (
        ground arith,
        rw
            (
              len,
              sl,
              pl,
              sd,
              tif,
              stp,
              oid,
              px,
              q,
              sym,
              part,
              code_to_tif-tif_to_code cmd.time_in_force,
              code_to_stp-stp_to_code cmd.stp,
              side_of_code cmd.side,
            )
            (ground arith),
      )

module _ (cmd : ReplaceOrder) (short : length cmd.symbol ≤ 255) (id : IsI64 cmd.order_id)
    (new_id : IsI64 cmd.new_order_id) (price : IsI64 cmd.new_price_ticks)
    (qty : IsI64 cmd.new_quantity) where
  pub replace_fields :
      (length (replace_bytes cmd) ≡ 34 + length cmd.symbol)
      × (get_u8 (replace_bytes cmd) 0 ≡ length cmd.symbol)
      × (get_u8 (replace_bytes cmd) 1 ≡ tif_to_code cmd.time_in_force)
      × (from_u64 (get_u64 (replace_bytes cmd) 2) ≡ cmd.order_id)
      × (from_u64 (get_u64 (replace_bytes cmd) 10) ≡ cmd.new_order_id)
      × (from_u64 (get_u64 (replace_bytes cmd) 18) ≡ cmd.new_price_ticks)
      × (from_u64 (get_u64 (replace_bytes cmd) 26) ≡ cmd.new_quantity)
      × (substr (replace_bytes cmd) 34 (length cmd.symbol) ≡ cmd.symbol)
  unfolding replace_bytes put_u8 put_u64 put_bytes get_u8 get_u64 get_bytes
  replace_fields = (
    omega arith,
    omega arith,
    omega (arith, tif_to_code-lt cmd.time_in_force),
    read_i64 cmd.order_id id,
    read_i64 cmd.new_order_id new_id,
    read_i64 cmd.new_price_ticks price,
    read_i64 cmd.new_quantity qty,
    take-all cmd.symbol,
  )

  -- `unpack_replace_order` inverts `pack_replace_order`.
  pub unpack-pack_replace :
      (pack_replace_order cmd ≡ ok (replace_bytes cmd))
      × (unpack_replace_order (replace_bytes cmd) ≡ ok cmd)
  unfolding pack_replace_order unpack_replace_order
  unpack-pack_replace =
      let (len, sl, tif, oid, nid, px, q, sym) = replace_fields in
      (
        ground arith,
        rw (len, sl, tif, oid, nid, px, q, sym, code_to_tif-tif_to_code cmd.time_in_force)
            (ground arith),
      )
