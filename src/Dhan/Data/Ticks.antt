-- ===== src/Dhan/Data/Ticks.antt =====
-- What becomes of a packet: which books are quoted, and at which prices.
use native.Mathlib.Nat.{one-le-pow}
use Prim.Native.Nat.{max}
use nautilus_trader_india.Prelude.{
  pos, ℕ, suc, zero, ◌+◌, ◌-◌, ◌*◌, ◌/◌, ◌%◌, ◌^◌, ◌≤◌, ◌<◌, ◌≡◌, ◌≢◌, ◌↔◌, ◌⊎◌, inl, inr, refl,
  true, false, none, some, List, ◌∷◌, arith, ◌==◌, Bool-cases, All, All-map,
}
use nautilus_trader_india.Dhan.Exc.{ok}
use nautilus_trader_india.Dhan.Binary.Price.{float32, FromStr, digits}
use nautilus_trader_india.Dhan.Binary.Price.Nearest.{IsPlain, IsNearest, to_price-nearest}
use nautilus_trader_india.Dhan.Binary.Packet.{DepthEntry, Quote, Contents, full, Packet}
use nautilus_trader_india.Dhan.Binary.Widths.{IsByte}
use nautilus_trader_india.Dhan.Binary.Feed.{Decoder, frame}
use nautilus_trader_india.Dhan.Binary.Feed.Typed.{HasFields, has_full, IsTyped, frame-IsTyped}
use nautilus_trader_india.Dhan.Data.{
  Priced, is_above_zero, at_least_one, quote_tick, quote_in, quote_from_full,
}

-- The bytes of a float32 that is above zero or no number: what stands for an order in the book.
abbrev pub IsOrder : ℕ → Type 0
IsOrder bits = ((0 < bits) × (bits < 0x8000_0000)) ⊎ (0xff80_0000 < bits)

scaled_nonzero : (m k : ℕ) → (((0x80_0000 + m) * 2 ^ k) == 0) ≡ false
scaled_nonzero m k =
    let large : 0x80_0000 ≤ (0x80_0000 + m) * 2 ^ k = grind (arith, one-le-pow k 2 (omega arith)) in
    ground (arith, large)

is_above_zero-IsOrder :
    (bits : ℕ) → bits < 0x1_0000_0000 → (is_above_zero (float32 bits) ≡ true) ↔ IsOrder bits
unfolding is_above_zero float32
is_above_zero-IsOrder bits h =
    ground (arith, scaled_nonzero (bits % 0x80_0000) (bits / 0x80_0000 % 256 - 150))

-- The book has an order on both sides of its top level.
abbrev pub IsTwoSided : Contents → Type 0
IsTwoSided (full q oi oi_high oi_low (top ∷ depth)) = IsOrder top.bid_price × IsOrder top.ask_price
IsTwoSided _ = ⊥

module _ (from_str : FromStr) (instrument : Priced) (ts_init : ℕ) where
  quoted-ne-none :
      (ltt : ℕ) (top : DepthEntry)
      → is_above_zero (float32 top.bid_price) ≡ true
      → is_above_zero (float32 top.ask_price) ≡ true
      → quote_tick from_str instrument ts_init ltt top ≢ ok none
  unfolding quote_tick
  quoted-ne-none ltt top bid ask h = ground arith

  unquoted :
      (ltt : ℕ) (top : DepthEntry)
      → ¬ (
          (is_above_zero (float32 top.bid_price) ≡ true)
          × (is_above_zero (float32 top.ask_price) ≡ true))
      → quote_tick from_str instrument ts_init ltt top ≡ ok none
  unfolding quote_tick
  unquoted ltt top one_sided = elim (Bool-cases (is_above_zero (float32 top.bid_price))) [
    | inr no_bid ↦ ground arith
    | inl bid ↦ elim (Bool-cases (is_above_zero (float32 top.ask_price))) [
      | inr no_ask ↦ ground arith
      | inl ask ↦ absurd (one_sided (bid, ask))
    ]
  ]

  quote_in-none_iff :
      (code : ℕ) (contents : Contents)
      → HasFields code contents
      → (quote_in from_str contents instrument ts_init ≡ ok none) ↔ ¬ IsTwoSided contents
  unfolding quote_in
  quote_in-none_iff code (full q oi oi_high oi_low (top ∷ depth)) (has_full _ _ _ _ _ _ levels) =
      let bid = is_above_zero-IsOrder top.bid_price levels.0.bid_price in
      let ask = is_above_zero-IsOrder top.ask_price levels.0.ask_price in
      (
        λ e two. quoted-ne-none q.ltt top (bid.1 two.0) (ask.1 two.1) e,
        λ one_sided. unquoted q.ltt top (λ two. one_sided (bid.0 two.0, ask.0 two.1)),
      )
  quote_in-none_iff code _ fields = (λ e none_shown. none_shown, λ h. refl)

  -- Whatever the bytes of a frame, each packet that is found in it gives no quote exactly where it
  -- shows no book with an order on both sides: where it is no full packet, or the top level of its
  -- depth lacks a price above zero on one of its sides. A price that is no number counts as one
  -- above zero.
  pub frame-quoted :
      (bytes : List ℕ) (d : Decoder)
      → All IsByte bytes
      → All
          (λ packet.
            (quote_from_full from_str packet instrument ts_init ≡ ok none)
            ↔ ¬ IsTwoSided packet.contents)
          (frame bytes d).0
  unfolding quote_from_full
  frame-quoted bytes d are_bytes =
      All-map IsTyped _ (λ packet typed. quote_in-none_iff packet.code packet.contents typed.fields)
        (frame bytes d).0 (frame-IsTyped bytes d are_bytes)

at_least_one-max : (n : ℕ) → at_least_one n ≡ max n 1
unfolding at_least_one
at_least_one-max zero = omega arith
at_least_one-max (suc n) = omega arith

-- The float32 that a price with a number of places is sent as.
pub record IsSent (bits k places : ℕ) : Type 0 where
  pub plain : IsPlain bits
  pub nearest : IsNearest bits k places

sent_is_above_zero :
    (bits k places : ℕ) → IsSent bits k places → is_above_zero (float32 bits) ≡ true
unfolding is_above_zero float32
sent_is_above_zero bits k places sent =
    let positive = sent.plain.positive in
    let normal = sent.plain.normal in let small = sent.plain.small in ground arith

-- What NautilusTrader's price is for digits that it can hold.
abbrev pub Holds : FromStr → ℕ → ℕ → Type 0
Holds from_str k places =
    from_str (digits false k places) ≡ ok (record { coefficient = pos k; places = places })

-- A full packet whose top level was sent as normal positive floats, each within half of its last bit
-- of a bid and an ask, is quoted at this very bid and ask, with the sizes of the level, or 1 where a
-- size is 0, and with the exchange's own time in nanoseconds; provided that a price of Nautilus can
-- hold both, and that the last bit of each float is worth less than one at the last place of the
-- instrument's prices. So nothing is said of prices that float32 is too coarse for.
pub quote_from_full-exact :
    (from_str : FromStr) (instrument : Priced) (ts_init bid ask : ℕ) (packet : Packet) (q : Quote)
    (oi oi_high oi_low : ℕ) (top : DepthEntry) (depth : List DepthEntry)
    → packet.contents ≡ full q oi oi_high oi_low (top ∷ depth)
    → IsSent top.bid_price bid instrument.price_precision
    → IsSent top.ask_price ask instrument.price_precision
    → Holds from_str bid instrument.price_precision
    → Holds from_str ask instrument.price_precision
    → quote_from_full from_str packet instrument ts_init
      ≡ ok (
          some (record {
            instrument_id = instrument.id;
            bid_price = record { coefficient = pos bid; places = instrument.price_precision };
            ask_price = record { coefficient = pos ask; places = instrument.price_precision };
            bid_size = max top.bid_qty 1;
            ask_size = max top.ask_qty 1;
            ts_event = q.ltt * 1_000_000_000;
            ts_init = ts_init;
          }))
unfolding quote_from_full quote_in quote_tick
quote_from_full-exact from_str instrument ts_init bid ask packet q oi oi_high oi_low top depth shown
      b a hold_bid hold_ask =
    let p = instrument.price_precision in
    let bid_above = sent_is_above_zero top.bid_price bid p b in
    let ask_above = sent_is_above_zero top.ask_price ask p a in
    let bid_price = to_price-nearest from_str top.bid_price bid p b.plain b.nearest in
    let ask_price = to_price-nearest from_str top.ask_price ask p a.plain a.nearest in
    ground (arith, at_least_one-max top.bid_qty, at_least_one-max top.ask_qty)
