-- ===== src/Dhan/Binary/Widths.antt =====
-- The fields of a packet are numbers within the widths of their formats.
use nautilus_trader_india.Prelude.{
  ℕ, zero, suc, ◌*◌, ◌<◌, List, [], ◌∷◌, take, drop, All, All-drop, arith,
}
use nautilus_trader_india.Dhan.Binary.Bytes.{little_endian, field}

abbrev pub IsByte : ℕ → Type 0
IsByte b = b < 256

-- 256 to the width.
abbrev pub bound : ℕ → ℕ
bound zero = 1
bound (suc width) = 256 * bound width

abbrev pub IsShort : ℕ → Type 0
IsShort n = n < 65_536

abbrev pub IsWord : ℕ → Type 0
IsWord n = n < 4_294_967_296

bound_pos : (n : ℕ) → 0 < bound n
bound_pos zero = omega arith
bound_pos (suc n) = omega (arith, bound_pos n)

little_endian-lt :
    (width : ℕ) (bytes : List ℕ) → All IsByte bytes → little_endian (take width bytes) < bound width
unfolding little_endian
little_endian-lt zero bytes h = omega arith
little_endian-lt (suc width) [] h = omega (arith, bound_pos width)
little_endian-lt (suc width) (b ∷ bytes) h = omega (arith, h.0, little_endian-lt width bytes h.1)

module _ (bytes : List ℕ) (are_bytes : All IsByte bytes) where
  pub field-lt : (offset width : ℕ) → field offset width bytes < bound width
  unfolding field
  field-lt offset width =
      little_endian-lt width (drop offset bytes) (All-drop IsByte offset bytes are_bytes)

  pub short : (offset : ℕ) → IsShort (field offset 2 bytes)
  short offset = field-lt offset 2

  pub word : (offset : ℕ) → IsWord (field offset 4 bytes)
  word offset = field-lt offset 4
