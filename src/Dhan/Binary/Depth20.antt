-- ===== src/Dhan/Binary/Depth20.antt =====
-- `decode_depth20_frame`: the 20-level depth socket, whose header differs.
use nautilus_trader_india.Prelude.{
  ℕ, zero, suc, List, [], ◌∷◌, ◌++◌, ◌||◌, length, take, drop, leb, ltb, ◌==◌, if◌then◌else◌, ℤ,
  pos, negsuc,
}
use nautilus_trader_india.Dhan.Binary.Bytes.{field, signed}
use nautilus_trader_india.Dhan.Binary.Loop.{Next, stop, more, run_all}

-- The header, of 12 bytes.
pub record Header : Type 0 where
  pub message_length : ℤ
  pub code : ℕ
  pub segment : ℕ
  pub security_id : ℤ
  pub msg_seq : ℕ

unfoldable pub header_of : List ℕ → Header
header_of bytes = record {
  message_length = signed 32768 (field 0 2 bytes);
  code = field 2 1 bytes;
  segment = field 3 1 bytes;
  security_id = signed 2147483648 (field 4 4 bytes);
  msg_seq = field 8 4 bytes;
}

abbrev pub header_size : ℕ
header_size = 12

-- 20 levels of 16 bytes behind the header.
abbrev pub depth20_size : ℕ
depth20_size = 332

pub data Side : Type 0 where
  bid ask : Side

pub record Level : Type 0 where
  pub price : ℕ
  pub quantity : ℕ
  pub orders : ℕ

pub record Depth : Type 0 where
  pub code : ℕ
  pub segment : ℕ
  pub security_id : ℤ
  pub msg_seq : ℕ
  pub side : Side
  pub levels : List Level

-- `DEPTH20_ENTRY.iter_unpack(body)`
unfoldable pub levels_of : ℕ → List ℕ → List Level
levels_of zero bytes = []
levels_of (suc n) bytes =
    record { price = field 0 8 bytes; quantity = field 8 4 bytes; orders = field 12 4 bytes }
    ∷ levels_of n (drop 16 bytes)

unfoldable pub depth : Header → List ℕ → Depth
depth header bytes = record {
  code = header.code;
  segment = header.segment;
  security_id = header.security_id;
  msg_seq = header.msg_seq;
  side = if header.code == 41 then bid else ask;
  levels = levels_of 20 (drop header_size bytes);
}

-- Another code is skipped by what its header claims.
unfoldable pub skip : ℤ → List ℕ → List Depth → Next (List Depth)
skip (negsuc n) rest found = stop found
skip (pos n) rest found =
    if leb n header_size || ltb (length rest) n then stop found else more (drop n rest) found

-- A packet of 20 levels.
unfoldable pub take_depth : Header → List ℕ → List Depth → Next (List Depth)
take_depth header rest found =
    if ltb (length rest) depth20_size
    then stop found
    else more (drop depth20_size rest) (found ++ depth header (take depth20_size rest) ∷ [])

-- What a pass does with a header.
unfoldable pub pass : Header → List ℕ → List Depth → Next (List Depth)
pass header rest found =
    if (header.code == 41) || (header.code == 51)
    then take_depth header rest found
    else skip header.message_length rest found

-- One pass of the loop, on the bytes from the offset to the end of the frame.
unfoldable pub step : List ℕ → List Depth → Next (List Depth)
step rest found =
    if ltb (length rest) header_size
    then stop found
    else pass (header_of (take header_size rest)) rest found

unfoldable pub decode_depth20_frame : List ℕ → List Depth
decode_depth20_frame bytes = run_all step bytes []
