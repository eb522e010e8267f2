-- ===== src/Dhan/Ws.antt =====
-- nautilus_india/dhan/ws.py: the subscription packet and the division into groups.
pub mod Laws
pub mod Urls
use nautilus_trader_india.Prelude.{
  ℕ, zero, suc, ◌+◌, ◌-◌, ◌*◌, ◌/◌, ◌%◌, List, [], ◌∷◌, ◌++◌, length, take, drop, replicate, ltb,
  leb, ◌&&◌, not, if◌then◌else◌,
}
use nautilus_trader_india.Dhan.Exc.{
  Exc, Result, ok, err, value_error, struct_error, ◌>>=◌, ◌>>◌, raise_if,
}

abbrev pub subscribe_group_size : ℕ
subscribe_group_size = 100

-- One instrument: its segment and the bytes of its security id.
pub record Slot : Type 0 where
  pub segment : ℕ
  pub security_id : List ℕ

-- The little-endian bytes of a number, as `struct` packs them. A number that needs more is an
-- error of `struct`.
unfoldable pub bytes_of : ℕ → ℕ → List ℕ
bytes_of zero n = []
bytes_of (suc width) n = n % 256 ∷ bytes_of width (n / 256)

unfoldable pub pack : ℕ → ℕ → ℕ → Result (List ℕ)
unfolding bytes_of
pack width bound n = if ltb n bound then ok (bytes_of width n) else err struct_error

-- A field of `s`: cut at its width, or padded with zero bytes.
unfoldable pub fill : ℕ → List ℕ → List ℕ
fill width bytes = take width (bytes ++ replicate (width - length bytes) 0)

-- `_SLOT.pack(segment, encoded)`
unfoldable pub slot : Slot → Result (List ℕ)
unfolding pack fill
slot s = do segment ← pack 1 256 s.segment; ok (segment ++ fill 20 s.security_id)

-- The loop over the instruments: an id that does not fit is refused.
unfoldable pub slots : List Slot → Result (List ℕ)
slots [] = ok []
slots (s ∷ rest) = do
  raise_if (ltb 20 (length s.security_id)) value_error
  one ← slot s
  more ← slots rest
  ok (one ++ more)

-- `_SLOT.pack(0, b"") * n`
abbrev pub empty_slots : ℕ → List ℕ
empty_slots n = replicate (n * 21) 0

-- `_HEADER.pack`: the code, the length, the client id and the padding of the token.
unfoldable pub header : ℕ → ℕ → List ℕ → Result (List ℕ)
unfolding pack fill
header request_code message_length client_id = do
  code ← pack 1 128 request_code
  size ← pack 2 65536 message_length
  ok (code ++ size ++ fill 30 client_id ++ replicate 50 0)

-- `subscription_packet`
unfoldable pub subscription_packet : List ℕ → List Slot → ℕ → Result (List ℕ)
subscription_packet client_id instruments request_code = do
  raise_if (ltb subscribe_group_size (length instruments)) value_error
  count ← pack 4 4294967296 (length instruments)
  body ← slots instruments
  head ← header request_code (83 + 4 + length instruments * 21) client_id
  ok (head ++ count ++ body ++ empty_slots (subscribe_group_size - length instruments))

-- `chunked`, whose range is walked on fuel: one step for each group. A size of zero is an error of
-- `range`.
unfoldable pub groups : {A : Type 0} → ℕ → ℕ → List A → List (List A)
groups zero size xs = []
groups (suc fuel) size [] = []
groups (suc fuel) size (x ∷ xs) = take size (x ∷ xs) ∷ groups fuel size (drop size (x ∷ xs))

unfoldable pub chunked : {A : Type 0} → ℕ → List A → Result (List (List A))
unfolding groups
chunked size xs = if leb size 0 then err value_error else ok (groups (length xs) size xs)
