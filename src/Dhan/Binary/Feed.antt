-- ===== src/Dhan/Binary/Feed.antt =====
-- `Decoder`: every packet of a frame, and what is counted on the way.
pub mod Frames
pub mod Typed
use nautilus_trader_india.Prelude.{
  ℕ, suc, ◌+◌, ◌-◌, List, [], ◌∷◌, ◌++◌, Option, none, some, Bool, ◌||◌, not, length, take, drop,
  leb, ltb, ◌==◌, if◌then◌else◌,
}
use nautilus_trader_india.Dhan.Binary.Loop.{Next, stop, more, run_all}
use nautilus_trader_india.Dhan.Binary.Packet.{
  Header, header_of, header_size, packet_size, Packet, packet,
}

-- The counters. A code that was never seen is counted 0 times.
pub record Decoder : Type 0 where
  pub frames : ℕ
  pub packets : ℕ
  pub multi_packet_frames : ℕ
  pub length_mismatches : ℕ
  pub truncated : ℕ
  pub unknown_codes : ℕ → ℕ

-- The packets of this frame so far, beside the counters.
pub record Progress : Type 0 where
  pub decoder : Decoder
  pub found : List Packet

unfoldable pub count_unknown : ℕ → Decoder → Decoder
count_unknown code d = record d {
  unknown_codes = λ c. if c == code then suc (d.unknown_codes c) else d.unknown_codes c;
}

unfoldable pub count_truncated : Decoder → Decoder
count_truncated d = record d { truncated = suc d.truncated }

-- `message_length not in (known, known - HEADER.size)`
unfoldable pub count_mismatch : ℕ → ℕ → Decoder → Decoder
count_mismatch message_length known d =
    if (message_length == known) || (message_length == known - header_size)
    then d
    else record d { length_mismatches = suc d.length_mismatches }

-- An unknown code is skipped by what its header claims.
unfoldable pub skip_unknown : Header → List ℕ → Progress → Next Progress
skip_unknown header rest p =
    let counted = count_unknown header.code p.decoder in
    if leb header.message_length header_size || ltb (length rest) header.message_length
    then stop (record p { decoder = count_truncated counted })
    else more (drop header.message_length rest) (record p { decoder = counted })

-- A known code advances by its known size.
unfoldable pub take_known : ℕ → Header → List ℕ → Progress → Next Progress
take_known known header rest p =
    let counted = count_mismatch header.message_length known p.decoder in
    if ltb (length rest) known
    then stop (record p { decoder = count_truncated counted })
    else more (drop known rest)
        (record { decoder = counted; found = p.found ++ packet header (take known rest) ∷ [] })

-- What a pass does with a header, on whether its code is known.
unfoldable pub pass : Option ℕ → Header → List ℕ → Progress → Next Progress
pass none header rest p = skip_unknown header rest p
pass (some known) header rest p = take_known known header rest p

unfoldable pub pass_on : Header → List ℕ → Progress → Next Progress
pass_on header rest p = pass (packet_size header.code) header rest p

-- One pass of the loop, on the bytes from the offset to the end of the frame.
unfoldable pub step : List ℕ → Progress → Next Progress
step rest p =
    if ltb (length rest) header_size
    then stop p
    else pass_on (header_of (take header_size rest)) rest p

-- `Decoder.frame`
unfoldable pub frame : List ℕ → Decoder → List Packet × Decoder
frame bytes d =
    let counted = record d { frames = suc d.frames } in
    let p = run_all step bytes (record { decoder = counted; found = [] }) in
    let n = length p.found in
    (
      p.found,
      record (p.decoder) {
        packets = p.decoder.packets + n;
        multi_packet_frames =
            if ltb 1 n then suc p.decoder.multi_packet_frames else p.decoder.multi_packet_frames;
      },
    )
