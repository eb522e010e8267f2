-- ===== src/Dhan/Binary/Price.antt =====
-- `to_price` of nautilus_india/dhan/binary.py: the number that the four bytes of a float32 spell, as
-- `struct` reads it, and its print at the places of an instrument. `Price.from_str` is an argument.
pub mod Nearest
use nautilus_trader_india.Prelude.{
  ℕ, ◌+◌, ◌-◌, ◌*◌, ◌/◌, ◌%◌, ◌^◌, Bool, leb, ltb, ◌==◌, if◌then◌else◌,
}
use nautilus_trader_india.Dhan.Exc.{Result}
use nautilus_trader_india.Nautilus.{Decimal}

-- A number is a numerator over a denominator, with its sign.
pub data Float : Type 0 where
  nan : Float
  infinite : Bool → Float
  finite : Bool → ℕ → ℕ → Float

abbrev pub is_negative : ℕ → Bool
is_negative bits = leb 0x8000_0000 bits

abbrev pub exponent_of : ℕ → ℕ
exponent_of bits = bits / 0x80_0000 % 256

abbrev pub mantissa_of : ℕ → ℕ
mantissa_of bits = bits % 0x80_0000

-- The float32 whose bytes spell a number: 8 bits of an exponent over 23 of a mantissa.
unfoldable pub float32 : ℕ → Float
float32 bits =
    if exponent_of bits == 255
    then (if mantissa_of bits == 0 then infinite (is_negative bits) else nan)
    else if exponent_of bits == 0
    then finite (is_negative bits) (mantissa_of bits) (2 ^ 149)
    else if leb (exponent_of bits) 150
    then finite (is_negative bits) (0x80_0000 + mantissa_of bits) (2 ^ (150 - exponent_of bits))
    else finite (is_negative bits) ((0x80_0000 + mantissa_of bits) * 2 ^ (exponent_of bits - 150)) 1

-- The nearest whole number to n / d; the even one where two are as near.
unfoldable pub rounded : ℕ → ℕ → ℕ
rounded n d =
    let q = n / d in
    let r = n % d in
    if ltb (2 * r) d then q else if ltb d (2 * r) then q + 1 else if q % 2 == 0 then q else q + 1

-- The text of `f"{raw:.{precision}f}"`: digits with a number of places behind the point, or a word.
pub data Printed : Type 0 where
  nan : Printed
  inf : Bool → Printed
  digits : Bool → ℕ → ℕ → Printed

unfoldable pub printed : Float → ℕ → Printed
unfolding rounded
printed Float.nan precision = Printed.nan
printed (infinite negative) precision = inf negative
printed (finite negative n d) precision = digits negative (rounded (n * 10 ^ precision) d) precision

abbrev pub FromStr : Type 0
FromStr = Printed → Result Decimal

-- `to_price`
unfoldable pub to_price : FromStr → ℕ → ℕ → Result Decimal
to_price from_str raw precision = from_str (printed (float32 raw) precision)
