-- ===== src/Dhan/Tests/Frames.antt =====
-- Frames of the binary feed.
use nautilus_trader_india.Prelude.{ℕ, ◌≡◌, ◌+◌, refl, List, [], ◌∷◌, length, arith}
use nautilus_trader_india.Dhan.Binary.Bytes.{field}
use nautilus_trader_india.Dhan.Binary.Packet.{packet_size, header_of}
use nautilus_trader_india.Dhan.Binary.Loop.{run, run_all}
use nautilus_trader_india.Dhan.Binary.Feed
use nautilus_trader_india.Dhan.Binary.Feed.{Decoder, frame}
use nautilus_trader_india.Dhan.Binary.Feed.Frames.{
  Whole, known, unknown, laid_out, packets_in, frame-laid_out,
}
use nautilus_trader_india.Dhan.Binary.Depth20
use nautilus_trader_india.Dhan.Binary.Passes.{run-ends}

abbrev ticker : List ℕ
ticker = 2 ∷ 16 ∷ 0 ∷ 2 ∷ 184 ∷ 136 ∷ 0 ∷ 0 ∷ 51 ∷ 19 ∷ 184 ∷ 67 ∷ 1 ∷ 0 ∷ 0 ∷ 0 ∷ []

abbrev status : List ℕ
status = 7 ∷ 9 ∷ 0 ∷ 2 ∷ 184 ∷ 136 ∷ 0 ∷ 0 ∷ 1 ∷ []

abbrev fresh : Decoder
fresh = record {
  frames = 0;
  packets = 0;
  multi_packet_frames = 0;
  length_mismatches = 0;
  truncated = 0;
  unknown_codes = λ _. 0;
}

ticker-Whole : Whole ticker
unfolding packet_size header_of field
ticker-Whole = known refl (omega arith)

status-Whole : Whole status
unfolding packet_size header_of field
status-Whole = unknown refl refl (omega arith)

frame-laid_out_example :
    let out = frame (laid_out (ticker ∷ status ∷ ticker ∷ []) (0 ∷ [])) fresh in
    (out.0 ≡ packets_in (ticker ∷ status ∷ ticker ∷ []))
    × (out.1.truncated ≡ fresh.truncated)
    × (out.1.packets ≡ fresh.packets + length (packets_in (ticker ∷ status ∷ ticker ∷ [])))
frame-laid_out_example =
    frame-laid_out (ticker ∷ status ∷ ticker ∷ []) (0 ∷ []) fresh
      (ticker-Whole, (status-Whole, (ticker-Whole, tt))) (omega arith)

run-ends_example :
    (run Feed.step 20 ticker (record { decoder = fresh; found = [] })
      ≡ run_all Feed.step ticker (record { decoder = fresh; found = [] }))
    × (run Depth20.step 20 ticker [] ≡ run_all Depth20.step ticker [])
run-ends_example = run-ends 20 ticker (record { decoder = fresh; found = [] }) [] (omega arith)
