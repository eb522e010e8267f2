-- ===== src/Core/Lots.antt =====
-- nautilus_india/core/lots.py: the lot size of a contract, by its expiry. What the table holds for
-- an underlying is an argument, parsed from its file.
pub mod Sourced
use nautilus_trader_india.Core.Date.{Date, ordinal}
use mathlib.Core.Option.{map as map_option}
use nautilus_trader_india.Prelude.{
  ℕ, ◌*◌, ◌+◌, String, Bool, ◌&&◌, Option, none, some, true, false, List, [], ◌∷◌, leb, ◌==◌,
  if◌then◌else◌,
}

-- One row of `regimes`.
pub record Regime : Type 0 where
  pub first : Date
  pub last : Date
  pub lot : ℕ

-- One entry of `observed`.
pub record Observation : Type 0 where
  pub expiry : Date
  pub lot : ℕ

-- What the table says of one underlying; a missing list is empty.
pub record Spec : Type 0 where
  pub observed : List Observation
  pub regimes : List Regime

pub data Provenance : Type 0 where
  in_archive : Provenance
  in_regime : Regime → Provenance

-- The triple of `_lookup`.
pub record Lookup : Type 0 where
  pub lot : ℕ
  pub observed_directly : Bool
  pub provenance : Provenance

unfoldable pub is_for : Date → Observation → Bool
is_for expiry o = ordinal o.expiry == ordinal expiry

-- `spec.get("observed", {}).get(expiry.isoformat())`
unfoldable pub observation : Date → List Observation → Option ℕ
observation expiry [] = none
observation expiry (o ∷ os) = if is_for expiry o then some o.lot else observation expiry os

unfoldable pub covers : Date → Regime → Bool
covers expiry row =
    leb (ordinal row.first) (ordinal expiry) && leb (ordinal expiry) (ordinal row.last)

-- The loop over `regimes`: the first row that covers the expiry.
unfoldable pub regime_for : Date → List Regime → Option Regime
regime_for expiry [] = none
regime_for expiry (row ∷ rows) = if covers expiry row then some row else regime_for expiry rows

-- `_lookup` on what the observations and the regimes say. `none` is `UnknownLotSizeError`.
unfoldable pub answer_from : Option ℕ → Option Regime → Option Lookup
answer_from (some lot) row =
    some (record { lot = lot; observed_directly = true; provenance = in_archive })
answer_from none (some row) =
    some (record { lot = row.lot; observed_directly = false; provenance = in_regime row })
answer_from none none = none

-- `_lookup` on what the table holds for the underlying.
unfoldable pub lookup_in : Option Spec → Date → Option Lookup
lookup_in none expiry = none
lookup_in (some spec) expiry =
    answer_from (observation expiry spec.observed) (regime_for expiry spec.regimes)

-- `_lookup`
unfoldable pub lookup : (String → Option Spec) → String → Date → Option Lookup
lookup specs underlying expiry = lookup_in (specs underlying) expiry

-- `lot_size`, `is_verified_lot_size` and `lot_size_source`
unfoldable pub lot_size : (String → Option Spec) → String → Date → Option ℕ
unfolding lookup
lot_size specs underlying expiry =
    map_option (λ (l : Lookup). l.lot) (lookup specs underlying expiry)

unfoldable pub is_verified_lot_size : (String → Option Spec) → String → Date → Option Bool
unfolding lookup
is_verified_lot_size specs underlying expiry =
    map_option (λ (l : Lookup). l.observed_directly) (lookup specs underlying expiry)

unfoldable pub lot_size_source : (String → Option Spec) → String → Date → Option Provenance
unfolding lookup
lot_size_source specs underlying expiry =
    map_option (λ (l : Lookup). l.provenance) (lookup specs underlying expiry)
