-- ===== src/Dhan/Tests/Ticks.antt =====
-- A full packet whose book is 368.15 bid and 368.20 asked.
use nautilus_trader_india.Prelude.{
  ℕ, ◌≡◌, ◌↔◌, refl, true, false, some, none, List, [], ◌∷◌, ◌++◌, replicate, All, arith, pos,
  negsuc,
}
use nautilus_trader_india.Dhan.Exc.{ok, err, value_error}
use nautilus_trader_india.Dhan.Binary.Price.{Printed, inf, digits, FromStr}
use nautilus_trader_india.Dhan.Binary.Price.Nearest.{IsPlain, IsNearest}
use nautilus_trader_india.Dhan.Binary.Packet.{DepthEntry, Quote, full, Packet}
use nautilus_trader_india.Dhan.Binary.Feed.{Decoder, frame}
use nautilus_trader_india.Dhan.Binary.Feed.Typed.{IsTyped, frame-IsTyped}
use nautilus_trader_india.Dhan.Data.{Priced, quote_from_full}
use nautilus_trader_india.Dhan.Data.Ticks.{IsTwoSided, IsSent, frame-quoted, quote_from_full-exact}

-- A price of Nautilus that holds every number.
abbrev price_of : FromStr
price_of Printed.nan = err value_error
price_of (inf negative) = err value_error
price_of (digits true k places) = ok (record { coefficient = negsuc k; places = places })
price_of (digits false k places) = ok (record { coefficient = pos k; places = places })

bid-IsPlain : IsPlain 0x43b8_1333
bid-IsPlain = record { positive = omega arith; normal = omega arith; small = omega arith }

bid-IsNearest : IsNearest 0x43b8_1333 36_815 2
bid-IsNearest = record { below = omega arith; above = omega arith; fine = omega arith }

ask-IsSent : IsSent 0x43b8_199a 36_820 2
ask-IsSent = record {
  plain = record { positive = omega arith; normal = omega arith; small = omega arith };
  nearest = record { below = omega arith; above = omega arith; fine = omega arith };
}

abbrev option_of : Priced
option_of = record { id = "NIFTY"; price_precision = 2 }

abbrev top : DepthEntry
top = record {
  bid_qty = 65;
  ask_qty = 0;
  bid_orders = 1;
  ask_orders = 1;
  bid_price = 0x43b8_1333;
  ask_price = 0x43b8_199a;
}

abbrev last : Quote
last = record {
  ltp = 0x43b8_1333;
  ltq = 65;
  ltt = 1_788_000_000;
  atp = 0;
  volume = 0;
  total_sell_qty = 0;
  total_buy_qty = 0;
  day_open = 0;
  day_close = 0;
  day_high = 0;
  day_low = 0;
}

abbrev book : Packet
book = record { code = 8; segment = 2; security_id = 35_001; contents = full last 0 0 0 (top ∷ []) }

quote_from_full-exact_example :
    quote_from_full price_of book option_of 5
    ≡ ok (
        some (record {
          instrument_id = "NIFTY";
          bid_price = record { coefficient = pos 36_815; places = 2 };
          ask_price = record { coefficient = pos 36_820; places = 2 };
          bid_size = 65;
          ask_size = 1;
          ts_event = 1_788_000_000_000_000_000;
          ts_init = 5;
        }))
quote_from_full-exact_example =
    quote_from_full-exact price_of option_of 5 36_815 36_820 book last 0 0 0 top [] refl
      (record { plain = bid-IsPlain; nearest = bid-IsNearest }) ask-IsSent refl refl

abbrev fresh : Decoder
fresh = record {
  frames = 0;
  packets = 0;
  multi_packet_frames = 0;
  length_mismatches = 0;
  truncated = 0;
  unknown_codes = λ _. 0;
}

-- A ticker packet and a full packet with an empty book.
abbrev two_packets : List ℕ
two_packets =
    (2 ∷ 16 ∷ 0 ∷ 2 ∷ 184 ∷ 136 ∷ 0 ∷ 0 ∷ 51 ∷ 19 ∷ 184 ∷ 67 ∷ 1 ∷ 0 ∷ 0 ∷ 0 ∷ [])
    ++ (8 ∷ 162 ∷ 0 ∷ 2 ∷ 184 ∷ 136 ∷ 0 ∷ 0 ∷ replicate 154 0)

frame-IsTyped_example : All IsTyped (frame two_packets fresh).0
frame-IsTyped_example = frame-IsTyped two_packets fresh (omega arith)

frame-quoted_example :
    All
      (λ packet.
        (quote_from_full price_of packet option_of 5 ≡ ok none) ↔ ¬ IsTwoSided packet.contents)
      (frame two_packets fresh).0
frame-quoted_example = frame-quoted price_of option_of 5 two_packets fresh (omega arith)
