-- ===== src/Dhan/Binary/Price/Nearest.antt =====
-- A price comes back from the float32 that is nearest to it.
use native.Mathlib.Nat.{div-eq_of_lt-le, div-add-mod'}
use native.Mathlib.Decide.{dec_lt}
use nautilus_trader_india.Prelude.{
  ℕ, suc, zero, ◌+◌, ◌-◌, ◌*◌, ◌/◌, ◌%◌, ◌^◌, ◌≤◌, ◌<◌, ◌≡◌, ap, false, arith, sym,
}
use nautilus_trader_india.Dhan.Binary.Price.{
  finite, float32, exponent_of, mantissa_of, rounded, digits, printed, FromStr, to_price,
}

-- Twice the distance of n / d and k is less than 1.
pub record IsNear (n d k : ℕ) : Type 0 where
  pub from_below : 2 * (k * d) < 2 * n + d
  pub from_above : 2 * n < 2 * (k * d) + d

-- How often k * d is, one more.
next : (k d : ℕ) → (k + 1) * d ≡ k * d + d
next k d = grind arith

rounded_down : (n d k : ℕ) → IsNear n d k → k * d ≤ n → rounded n d ≡ k
unfolding rounded
rounded_down n d k near over =
    let q : n / d ≡ k = div-eq_of_lt-le d over (omega (arith, next k d)) in
    let r : n / d * d + n % d ≡ n = div-add-mod' n d in
    let s : k * d + n % d ≡ n = rw (sym q) r in ground (arith, q, s)

rounded_up : (n d k : ℕ) → IsNear n d (suc k) → n < suc k * d → rounded n d ≡ suc k
unfolding rounded
rounded_up n d k near under =
    let q : n / d ≡ k = div-eq_of_lt-le d (omega (arith, next k d)) (omega (arith, next k d)) in
    let r : n / d * d + n % d ≡ n = div-add-mod' n d in
    let s : k * d + n % d ≡ n = rw (sym q) r in ground (arith, q, s, next k d)

-- A number that is nearer than one half is the rounded one.
rounded_lem : (n d k : ℕ) → IsNear n d k → rounded n d ≡ k
rounded_lem n d zero near = rounded_down n d zero near (omega arith)
rounded_lem n d (suc k) near = elim (dec_lt n (suc k * d)) [
  | yes under ↦ rounded_up n d k near under
  | no over ↦ rounded_down n d (suc k) near (omega arith)
]

-- The value of a positive normal float32 below 2 ^ 24 is a numerator over a power of 2.
abbrev pub numerator_of : ℕ → ℕ
numerator_of bits = 0x80_0000 + mantissa_of bits

abbrev pub denominator_of : ℕ → ℕ
denominator_of bits = 2 ^ (150 - exponent_of bits)

pub record IsPlain (bits : ℕ) : Type 0 where
  pub positive : bits < 0x8000_0000
  pub normal : 0 < exponent_of bits
  pub small : exponent_of bits ≤ 150

float32-plain :
    (bits : ℕ)
    → IsPlain bits
    → float32 bits ≡ finite false (numerator_of bits) (denominator_of bits)
unfolding float32
float32-plain bits plain = ground arith

-- The float is the one nearest to `k / 10 ^ places`: it is away from it by at most half of its last
-- bit, and its last bit is worth less than one at the last of the places.
pub record IsNearest (bits k places : ℕ) : Type 0 where
  pub below : 2 * (k * denominator_of bits) ≤ 2 * (numerator_of bits * 10 ^ places) + 10 ^ places
  pub above : 2 * (numerator_of bits * 10 ^ places) ≤ 2 * (k * denominator_of bits) + 10 ^ places
  pub fine : 10 ^ places < denominator_of bits

IsNearest-IsNear :
    (bits k places : ℕ)
    → IsNearest bits k places
    → IsNear (numerator_of bits * 10 ^ places) (denominator_of bits) k
IsNearest-IsNear bits k places h = record {
  from_below = omega (arith, h.below, h.fine);
  from_above = omega (arith, h.above, h.fine);
}

-- A price with a number of places comes back, exactly, from the positive float32 that is nearest to
-- it, where one last bit of that float is worth less than one at the last place.
pub to_price-nearest :
    (from_str : FromStr) (bits k places : ℕ)
    → IsPlain bits
    → IsNearest bits k places
    → to_price from_str bits places ≡ from_str (digits false k places)
unfolding to_price printed
to_price-nearest from_str bits k places plain nearest = rw (float32-plain bits plain) (
    ap (λ m. from_str (digits false m places))
      (rounded_lem _ _ k (IsNearest-IsNear bits k places nearest)))
