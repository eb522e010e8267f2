-- ===== src/Dhan/Binary/Feed/Typed.antt =====
-- Every packet of a frame has the fields that its code stands for, each within its width.
use nautilus_trader_india.Prelude.{
  ℕ, zero, suc, ◌+◌, ◌≡◌, refl, ap, List, [], Option, none, some, length, take, drop, All, All-take,
  All-drop, All-append_one, arith, ltb, leb, ◌||◌, ◌==◌, Bool-cases, ==_iff, inl, inr,
}
use nautilus_trader_india.Dhan.Binary.Bytes.{field}
use nautilus_trader_india.Dhan.Binary.Widths.{IsByte, IsShort, IsWord, field-lt, short, word}
use nautilus_trader_india.Dhan.Binary.Loop.{run_all, Keeps, run-keeps}
use nautilus_trader_india.Dhan.Binary.Packet.{
  Header, header_of, header_size, packet_size, DepthEntry, depth_entry, depth_entries, Quote,
  quote_of, Contents, ticker, prev_close, open_interest, quote, full, disconnect, contents_of,
  Packet, packet,
}
use nautilus_trader_india.Dhan.Binary.Feed.{
  Decoder, Progress, skip_unknown, take_known, pass, pass_on, step, frame,
}

pub record IsTypedLevel (e : DepthEntry) : Type 0 where
  pub bid_qty : IsWord e.bid_qty
  pub ask_qty : IsWord e.ask_qty
  pub bid_orders : IsShort e.bid_orders
  pub ask_orders : IsShort e.ask_orders
  pub bid_price : IsWord e.bid_price
  pub ask_price : IsWord e.ask_price

pub record IsTypedQuote (q : Quote) : Type 0 where
  pub ltp : IsWord q.ltp
  pub ltq : IsShort q.ltq
  pub ltt : IsWord q.ltt
  pub atp : IsWord q.atp
  pub volume : IsWord q.volume
  pub total_sell_qty : IsWord q.total_sell_qty
  pub total_buy_qty : IsWord q.total_buy_qty
  pub day_open : IsWord q.day_open
  pub day_close : IsWord q.day_close
  pub day_high : IsWord q.day_high
  pub day_low : IsWord q.day_low

-- The fields that each code stands for, each within the width of its format.
pub data HasFields : ℕ → Contents → Type 0 where
  has_ticker : {c ltp ltt : ℕ} → c ≡ 2 → IsWord ltp → IsWord ltt → HasFields c (ticker ltp ltt)
  has_prev_close :
      {c price oi : ℕ} → c ≡ 6 → IsWord price → IsWord oi → HasFields c (prev_close price oi)
  has_open_interest : {c oi : ℕ} → c ≡ 5 → IsWord oi → HasFields c (open_interest oi)
  has_quote : {c : ℕ} {q : Quote} → c ≡ 4 → IsTypedQuote q → HasFields c (quote q)
  has_full :
      {c oi high low : ℕ} {q : Quote} {depth : List DepthEntry}
      → c ≡ 8
      → IsTypedQuote q
      → IsWord oi
      → IsWord high
      → IsWord low
      → length depth ≡ 5
      → All IsTypedLevel depth
      → HasFields c (full q oi high low depth)
  has_disconnect : {c reason : ℕ} → c ≡ 50 → IsShort reason → HasFields c (disconnect reason)

pub record IsTyped (p : Packet) : Type 0 where
  pub segment : IsByte p.segment
  pub security_id : IsWord p.security_id
  pub fields : HasFields p.code p.contents

module _ (bytes : List ℕ) (are_bytes : All IsByte bytes) where
  depth_entry-IsTypedLevel : IsTypedLevel (depth_entry bytes)
  unfolding depth_entry
  depth_entry-IsTypedLevel = record {
    bid_qty = word bytes are_bytes 0;
    ask_qty = word bytes are_bytes 4;
    bid_orders = short bytes are_bytes 8;
    ask_orders = short bytes are_bytes 10;
    bid_price = word bytes are_bytes 12;
    ask_price = word bytes are_bytes 16;
  }

  quote_of-IsTypedQuote : (day : ℕ) → IsTypedQuote (quote_of day bytes)
  unfolding quote_of
  quote_of-IsTypedQuote day = record {
    ltp = word bytes are_bytes 8;
    ltq = short bytes are_bytes 12;
    ltt = word bytes are_bytes 14;
    atp = word bytes are_bytes 18;
    volume = word bytes are_bytes 22;
    total_sell_qty = word bytes are_bytes 26;
    total_buy_qty = word bytes are_bytes 30;
    day_open = word bytes are_bytes day;
    day_close = word bytes are_bytes (day + 4);
    day_high = word bytes are_bytes (day + 8);
    day_low = word bytes are_bytes (day + 12);
  }

depth_entries-typed :
    (n : ℕ) (bytes : List ℕ)
    → All IsByte bytes
    → (length (depth_entries n bytes) ≡ n) × All IsTypedLevel (depth_entries n bytes)
unfolding depth_entries
depth_entries-typed zero bytes h = (refl, tt)
depth_entries-typed (suc n) bytes h =
    let rest = depth_entries-typed n (drop 20 bytes) (All-drop IsByte 20 bytes h) in
    (ap suc rest.0, (depth_entry-IsTypedLevel bytes h, rest.1))

contents_of-HasFields :
    (code size : ℕ) (bytes : List ℕ)
    → All IsByte bytes
    → packet_size code ≡ some size
    → HasFields code (contents_of code bytes)
unfolding packet_size contents_of
contents_of-HasFields code size bytes h known = elim (Bool-cases (code == 2)) [
  | inl is ↦ rw is (has_ticker ((==_iff code 2).0 is) (word bytes h 8) (word bytes h 12))
  | inr n2 ↦ rw n2 (elim (Bool-cases (code == 6)) [
    | inl is ↦ rw is (has_prev_close ((==_iff code 6).0 is) (word bytes h 8) (word bytes h 12))
    | inr n6 ↦ rw n6 (elim (Bool-cases (code == 5)) [
      | inl is ↦ rw is (has_open_interest ((==_iff code 5).0 is) (word bytes h 8))
      | inr n5 ↦ rw n5 (elim (Bool-cases (code == 4)) [
        | inl is ↦ rw is (has_quote ((==_iff code 4).0 is) (quote_of-IsTypedQuote bytes h 34))
        | inr n4 ↦ rw n4 (elim (Bool-cases (code == 8)) [
          | inl is ↦
              let depth = depth_entries-typed 5 (drop 62 bytes) (All-drop IsByte 62 bytes h) in
              rw is (
                has_full ((==_iff code 8).0 is) (quote_of-IsTypedQuote bytes h 46) (word bytes h 34)
                  (word bytes h 38) (word bytes h 42) depth.0 depth.1)
          | inr n8 ↦ rw n8 (elim (Bool-cases (code == 50)) [
            | inl is ↦ rw is (has_disconnect ((==_iff code 50).0 is) (short bytes h 8))
            | inr n50 ↦ absurd (ground arith)
          ])
        ])
      ])
    ])
  ])
]

packet-IsTyped :
    (head bytes : List ℕ) (size : ℕ)
    → All IsByte head
    → All IsByte bytes
    → packet_size (header_of head).code ≡ some size
    → IsTyped (packet (header_of head) bytes)
unfolding packet header_of
packet-IsTyped head bytes size h b known = record {
  segment = field-lt head h 3 1;
  security_id = word head h 4;
  fields = contents_of-HasFields (field 0 1 head) size bytes b known;
}

abbrev AreTyped : Progress → Type 0
AreTyped p = All IsTyped p.found

skip_unknown-Keeps :
    (h : Header) (rest : List ℕ) (p : Progress)
    → All IsByte rest
    → AreTyped p
    → Keeps (All IsByte) AreTyped (skip_unknown h rest p)
unfolding skip_unknown
skip_unknown-Keeps h rest p b typed =
    elim (Bool-cases (leb h.message_length header_size || ltb (length rest) h.message_length)) [
      | inl ends ↦ rw ends typed
      | inr goes_on ↦ rw goes_on (All-drop IsByte h.message_length rest b, typed)
    ]

take_known-Keeps :
    (known : ℕ) (head rest : List ℕ) (p : Progress)
    → packet_size (header_of head).code ≡ some known
    → All IsByte head
    → All IsByte rest
    → AreTyped p
    → Keeps (All IsByte) AreTyped (take_known known (header_of head) rest p)
unfolding take_known
take_known-Keeps known head rest p size h b typed = elim (Bool-cases (ltb (length rest) known)) [
  | inl ends ↦ rw ends typed
  | inr goes_on ↦ rw goes_on (
    All-drop IsByte known rest b,
    All-append_one IsTyped p.found _ typed
        (packet-IsTyped head (take known rest) known h (All-take IsByte known rest b) size),
  )
]

pass-Keeps :
    (size : Option ℕ) (head rest : List ℕ) (p : Progress)
    → packet_size (header_of head).code ≡ size
    → All IsByte head
    → All IsByte rest
    → AreTyped p
    → Keeps (All IsByte) AreTyped (pass size (header_of head) rest p)
unfolding pass
pass-Keeps none head rest p size h b typed = skip_unknown-Keeps (header_of head) rest p b typed
pass-Keeps (some known) head rest p size h b typed =
    take_known-Keeps known head rest p size h b typed

step-Keeps :
    (rest : List ℕ) (p : Progress)
    → All IsByte rest
    → AreTyped p
    → Keeps (All IsByte) AreTyped (step rest p)
unfolding step pass_on
step-Keeps rest p b typed = elim (Bool-cases (ltb (length rest) header_size)) [
  | inl ends ↦ rw ends typed
  | inr goes_on ↦ rw goes_on (
      pass-Keeps _ (take header_size rest) rest p refl (All-take IsByte header_size rest b) b typed)
]

-- Whatever the bytes of a frame, each packet that is found in it has the fields that its code stands
-- for and no others: the five levels of the depth exactly where it is a full packet, and each field
-- a number within the width of its format.
pub frame-IsTyped :
    (bytes : List ℕ) (d : Decoder) → All IsByte bytes → All IsTyped (frame bytes d).0
unfolding frame run_all
frame-IsTyped bytes d b =
    run-keeps step (All IsByte) AreTyped step-Keeps (suc (length bytes)) bytes
      (record { decoder = record d { frames = suc d.frames }; found = [] }) b tt
