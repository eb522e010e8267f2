-- ===== src/Dhan/Binary/Packet.antt =====
-- The layouts of the market feed: `HEADER`, `PACKET_SIZE`, `_packet` and `_depth5`. Every field is
-- read from the packet's own bytes, at the offset that its `struct` gives it.
use nautilus_trader_india.Prelude.{
  ℕ, zero, suc, ◌+◌, List, [], ◌∷◌, Option, none, some, drop, ◌==◌, if◌then◌else◌,
}
use nautilus_trader_india.Dhan.Binary.Bytes.{field}

-- The header that starts each packet, of 8 bytes.
pub record Header : Type 0 where
  pub code : ℕ
  pub message_length : ℕ
  pub segment : ℕ
  pub security_id : ℕ

unfoldable pub header_of : List ℕ → Header
header_of bytes = record {
  code = field 0 1 bytes;
  message_length = field 1 2 bytes;
  segment = field 3 1 bytes;
  security_id = field 4 4 bytes;
}

abbrev pub header_size : ℕ
header_size = 8

-- `PACKET_SIZE.get(code)`
unfoldable pub packet_size : ℕ → Option ℕ
packet_size code =
    if code == 2
    then some 16
    else if code == 4
    then some 50
    else if code == 5
    then some 12
    else if code == 6
    then some 16
    else if code == 8
    then some 162
    else if code == 50
    then some 10
    else none

pub record DepthEntry : Type 0 where
  pub bid_qty : ℕ
  pub ask_qty : ℕ
  pub bid_orders : ℕ
  pub ask_orders : ℕ
  pub bid_price : ℕ
  pub ask_price : ℕ

unfoldable pub depth_entry : List ℕ → DepthEntry
depth_entry bytes = record {
  bid_qty = field 0 4 bytes;
  ask_qty = field 4 4 bytes;
  bid_orders = field 8 2 bytes;
  ask_orders = field 10 2 bytes;
  bid_price = field 12 4 bytes;
  ask_price = field 16 4 bytes;
}

-- `_DEPTH_ENTRY.iter_unpack` over the five entries of 20 bytes.
unfoldable pub depth_entries : ℕ → List ℕ → List DepthEntry
depth_entries zero bytes = []
depth_entries (suc n) bytes = depth_entry bytes ∷ depth_entries n (drop 20 bytes)

-- What a quote and a full packet share.
pub record Quote : Type 0 where
  pub ltp : ℕ
  pub ltq : ℕ
  pub ltt : ℕ
  pub atp : ℕ
  pub volume : ℕ
  pub total_sell_qty : ℕ
  pub total_buy_qty : ℕ
  pub day_open : ℕ
  pub day_close : ℕ
  pub day_high : ℕ
  pub day_low : ℕ

-- The last four fields follow each other from the offset that is given.
unfoldable pub quote_of : ℕ → List ℕ → Quote
quote_of day bytes = record {
  ltp = field 8 4 bytes;
  ltq = field 12 2 bytes;
  ltt = field 14 4 bytes;
  atp = field 18 4 bytes;
  volume = field 22 4 bytes;
  total_sell_qty = field 26 4 bytes;
  total_buy_qty = field 30 4 bytes;
  day_open = field day 4 bytes;
  day_close = field (day + 4) 4 bytes;
  day_high = field (day + 8) 4 bytes;
  day_low = field (day + 12) 4 bytes;
}

pub data Contents : Type 0 where
  ticker : ℕ → ℕ → Contents
  prev_close : ℕ → ℕ → Contents
  open_interest : ℕ → Contents
  quote : Quote → Contents
  full : Quote → ℕ → ℕ → ℕ → List DepthEntry → Contents
  disconnect : ℕ → Contents
  nothing_more : Contents

pub record Packet : Type 0 where
  pub code : ℕ
  pub segment : ℕ
  pub security_id : ℕ
  pub contents : Contents

-- The branches of `_packet`.
unfoldable pub contents_of : ℕ → List ℕ → Contents
contents_of code bytes =
    if code == 2
    then ticker (field 8 4 bytes) (field 12 4 bytes)
    else if code == 6
    then prev_close (field 8 4 bytes) (field 12 4 bytes)
    else if code == 5
    then open_interest (field 8 4 bytes)
    else if code == 4
    then quote (quote_of 34 bytes)
    else if code == 8
    then full (quote_of 46 bytes) (field 34 4 bytes) (field 38 4 bytes) (field 42 4 bytes)
        (depth_entries 5 (drop 62 bytes))
    else if code == 50
    then disconnect (field 8 2 bytes)
    else nothing_more

-- `_packet`
unfoldable pub packet : Header → List ℕ → Packet
packet header bytes = record {
  code = header.code;
  segment = header.segment;
  security_id = header.security_id;
  contents = contents_of header.code bytes;
}
