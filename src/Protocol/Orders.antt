-- ===== src/Protocol/Orders.antt =====
-- The bodies of the three messages: `pack_*_order` and `unpack_*_order`.
use matching_engine_cpp.Base.{
  ℕ, ◌+◌, ◌||◌, ◌++◌, ltb, leb, ◌==◌, if◌then◌else◌, length, Text, codes, threw, Result, ok, err,
  guard, ◌>>=◌, ◌>>◌,
}
use matching_engine_cpp.Types.{
  Side, buy, sell, TimeInForce, gtc, ioc, fok, market, SelfTradePrevention, none_stp,
  cancel_aggressor, cancel_passive, cancel_both, AddOrder, CancelOrder, ReplaceOrder,
}
use matching_engine_cpp.Protocol.{to_u64, from_u64, put_u8, put_u64, get_u8, get_u64, substr}

unfoldable pub tif_to_code : TimeInForce → ℕ
tif_to_code gtc = 1
tif_to_code ioc = 2
tif_to_code fok = 3
tif_to_code market = 4

unfoldable pub code_to_tif : ℕ → Result TimeInForce
code_to_tif code =
    if code == 1
    then ok gtc
    else if code == 2
    then ok ioc
    else if code == 3
    then ok fok
    else if code == 4
    then ok market
    else err (threw (codes "invalid tif code"))

unfoldable pub stp_to_code : SelfTradePrevention → ℕ
stp_to_code none_stp = 0
stp_to_code cancel_aggressor = 1
stp_to_code cancel_passive = 2
stp_to_code cancel_both = 3

unfoldable pub code_to_stp : ℕ → Result SelfTradePrevention
code_to_stp code =
    if code == 0
    then ok none_stp
    else if code == 1
    then ok cancel_aggressor
    else if code == 2
    then ok cancel_passive
    else if code == 3
    then ok cancel_both
    else err (threw (codes "invalid stp code"))

abbrev pub side_code : Side → ℕ
side_code buy = 1
side_code sell = 2

abbrev pub header_size : ℕ
header_size = 29

-- What `pack_add_order` writes, where it does not throw.
unfoldable pub add_bytes : AddOrder → Text
add_bytes cmd =
    put_u8 (length cmd.symbol)
    ++ (put_u8 (length cmd.participant_id)
        ++ (put_u8 (side_code cmd.side)
            ++ (put_u8 (tif_to_code cmd.time_in_force)
                ++ (put_u8 (stp_to_code cmd.stp)
                    ++ (put_u64 (to_u64 cmd.order_id)
                        ++ (put_u64 (to_u64 cmd.price_ticks)
                            ++ (put_u64 (to_u64 cmd.quantity)
                                ++ (cmd.symbol ++ cmd.participant_id))))))))

unfoldable pub pack_add_order : AddOrder → Result Text
pack_add_order cmd =
    if ltb 255 (length cmd.symbol) || ltb 255 (length cmd.participant_id)
    then err (threw (codes "symbol or participant too long"))
    else ok (add_bytes cmd)

unfoldable pub unpack_add_order : Text → Result AddOrder
unpack_add_order buf = do
  guard (leb header_size (length buf)) (threw (codes "buffer too small"))
  guard (leb (length buf) 4096) (threw (codes "buffer too large"))
  let symbol_len = get_u8 buf 0
  let participant_len = get_u8 buf 1
  guard (leb (header_size + symbol_len + participant_len) (length buf))
      (threw (codes "truncated payload"))
  tif ← code_to_tif (get_u8 buf 3)
  stp ← code_to_stp (get_u8 buf 4)
  ok (record {
    symbol = substr buf header_size symbol_len;
    order_id = from_u64 (get_u64 buf 5);
    participant_id = substr buf (header_size + symbol_len) participant_len;
    side = if get_u8 buf 2 == 1 then buy else sell;
    price_ticks = from_u64 (get_u64 buf 13);
    quantity = from_u64 (get_u64 buf 21);
    time_in_force = tif;
    stp = stp;
  })

unfoldable pub cancel_bytes : CancelOrder → Text
cancel_bytes cmd = put_u8 (length cmd.symbol) ++ (put_u64 (to_u64 cmd.order_id) ++ cmd.symbol)

unfoldable pub pack_cancel_order : CancelOrder → Result Text
pack_cancel_order cmd =
    if ltb 255 (length cmd.symbol)
    then err (threw (codes "symbol too long"))
    else ok (cancel_bytes cmd)

unfoldable pub unpack_cancel_order : Text → Result CancelOrder
unpack_cancel_order buf = do
  guard (leb 9 (length buf)) (threw (codes "buffer too small"))
  let symbol_len = get_u8 buf 0
  guard (leb (9 + symbol_len) (length buf)) (threw (codes "truncated payload"))
  ok (record { symbol = substr buf 9 symbol_len; order_id = from_u64 (get_u64 buf 1) })

abbrev pub replace_head : ℕ
replace_head = 34

unfoldable pub replace_bytes : ReplaceOrder → Text
replace_bytes cmd =
    put_u8 (length cmd.symbol)
    ++ (put_u8 (tif_to_code cmd.time_in_force)
        ++ (put_u64 (to_u64 cmd.order_id)
            ++ (put_u64 (to_u64 cmd.new_order_id)
                ++ (put_u64 (to_u64 cmd.new_price_ticks)
                    ++ (put_u64 (to_u64 cmd.new_quantity) ++ cmd.symbol)))))

unfoldable pub pack_replace_order : ReplaceOrder → Result Text
pack_replace_order cmd =
    if ltb 255 (length cmd.symbol)
    then err (threw (codes "symbol too long"))
    else ok (replace_bytes cmd)

unfoldable pub unpack_replace_order : Text → Result ReplaceOrder
unpack_replace_order buf = do
  guard (leb replace_head (length buf)) (threw (codes "buffer too small"))
  let symbol_len = get_u8 buf 0
  guard (leb (replace_head + symbol_len) (length buf)) (threw (codes "truncated payload"))
  tif ← code_to_tif (get_u8 buf 1)
  ok (record {
    symbol = substr buf replace_head symbol_len;
    order_id = from_u64 (get_u64 buf 2);
    new_order_id = from_u64 (get_u64 buf 10);
    new_price_ticks = from_u64 (get_u64 buf 18);
    new_quantity = from_u64 (get_u64 buf 26);
    time_in_force = tif;
  })
