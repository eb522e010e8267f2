-- ===== src/Dhan/Orders/Units/Exact.antt =====
-- Units and contracts are exchanged exactly or not at all.
use native.Mathlib.Nat.{zero-div, div-add-mod', mul-div_cancel, mul-mod_left}
use nautilus_trader_india.Prelude.{ℕ, ◌*◌, ◌^◌, ◌≡◌, ◌≢◌, none, some, arith, false}
use nautilus_trader_india.Nautilus.{Quantity, Instrument}
use nautilus_trader_india.Dhan.Json.{Number}
use nautilus_trader_india.Dhan.Exc.{ok}
use nautilus_trader_india.Dhan.Orders.Units.{units_for, lots_for, whole_lots, contracts}

whole_lots-exact :
    (count lot : ℕ) (q : Quantity)
    → whole_lots count lot ≡ ok q
    → (q.places ≡ 0) × (count ≡ q.coefficient * lot) × (lot ≢ 0)
unfolding whole_lots
whole_lots-exact count lot q h = grind (arith, div-add-mod' count lot)

-- Units are turned into contracts only exactly: the contracts times the lot are the units that
-- came in, the lot is not zero, and the result is whole.
pub lots_for-exact :
    (instrument : Instrument) (units : Number) (q : Quantity)
    → lots_for instrument (some units) ≡ ok q
    → let lot = instrument.multiplier in
      (q.places ≡ 0)
      × (units.coefficient * 10 ^ lot.places
          ≡ q.coefficient * (lot.coefficient * 10 ^ units.places))
      × (lot.coefficient ≢ 0)
unfolding lots_for
lots_for-exact instrument units q h =
    let (p, e, z) = whole_lots-exact _ _ q h in (p, e, λ l. z (rw l (omega arith)))

-- Without units there are no contracts.
pub lots_for-none :
    (instrument : Instrument) (q : Quantity)
    → lots_for instrument none ≡ ok q
    → (q.places ≡ 0) × (q.coefficient ≡ 0)
unfolding lots_for whole_lots
lots_for-none instrument q h = grind (arith, zero-div (instrument.multiplier.coefficient))

whole_lots-mul : (n lot : ℕ) → lot ≢ 0 → whole_lots (n * lot) lot ≡ ok (contracts n)
unfolding whole_lots
whole_lots-mul n lot h =
    ground (arith, mul-mod_left n lot, mul-div_cancel n {n = lot} (omega arith))

pub units_of_contracts :
    (instrument : Instrument) (n : ℕ)
    → instrument.multiplier.places ≡ 0
    → units_for instrument (contracts n) ≡ n * instrument.multiplier.coefficient
unfolding units_for
units_of_contracts instrument n p = rw p (omega arith)

abbrev pub whole_units : ℕ → Number
whole_units n = record { negative = false; coefficient = n; places = 0 }

-- Contracts sent in units come back as the same contracts, for a lot that is whole and not zero.
pub lots_for-units_for :
    (instrument : Instrument) (n : ℕ)
    → instrument.multiplier.places ≡ 0
    → instrument.multiplier.coefficient ≢ 0
    → lots_for instrument (some (whole_units (units_for instrument (contracts n))))
      ≡ ok (contracts n)
unfolding lots_for
lots_for-units_for instrument n p h =
    let m = instrument.multiplier in
    let numerator : units_for instrument (contracts n) * 10 ^ m.places ≡ n * m.coefficient =
      simp (units_of_contracts instrument n p, p) (omega arith) in
    let denominator : m.coefficient * 10 ^ 0 ≡ m.coefficient = omega arith in
    rw (numerator, denominator) (whole_lots-mul n m.coefficient h)
