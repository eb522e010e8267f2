-- ===== src/Core/Lots/Sourced.antt =====
-- Where a lot size comes from.
use nautilus_trader_india.Prelude.{
  ◌≡◌, refl, ◌⊎◌, inl, inr, String, Bool, true, false, Option, none, some, List, [], ◌∷◌, All,
  Bool-cases,
}
use nautilus_trader_india.Core.Date.{Date}
use nautilus_trader_india.Core.Lots.{
  Regime, Observation, Spec, Lookup, in_archive, in_regime, is_for, covers, observation, regime_for,
  answer_from, lookup, lookup_in,
}

-- `x` is the first of the list that passes the test.
abbrev pub IsFirst : {A : Type 0} → (A → Bool) → A → List A → Type 0
IsFirst test x [] = ⊥
IsFirst test x (y ∷ ys) = ((test y ≡ true) × (x ≡ y)) ⊎ ((test y ≡ false) × IsFirst test x ys)

-- What `_lookup` may answer: an observation of this very expiry before any regime, else the first
-- regime that covers it, else that the lot size is unknown.
pub data Sourced (spec : Spec) (expiry : Date) : Option Lookup → Type 0 where
  observed :
      (o : Observation)
      → IsFirst (is_for expiry) o spec.observed
      → Sourced spec expiry
          (some (record { lot = o.lot; observed_directly = true; provenance = in_archive }))
  collapsed :
      (row : Regime)
      → All (λ o. is_for expiry o ≡ false) spec.observed
      → IsFirst (covers expiry) row spec.regimes
      → Sourced spec expiry
          (some (record { lot = row.lot; observed_directly = false; provenance = in_regime row }))
  unknown :
      All (λ o. is_for expiry o ≡ false) spec.observed
      → All (λ row. covers expiry row ≡ false) spec.regimes
      → Sourced spec expiry none

observation-cases :
    (expiry : Date) (os : List Observation)
    → ((observation expiry os ≡ none) × All (λ o. is_for expiry o ≡ false) os)
      ⊎ ((o : Observation) × (observation expiry os ≡ some o.lot) × IsFirst (is_for expiry) o os)
unfolding observation
observation-cases expiry [] = inl (refl, tt)
observation-cases expiry (o ∷ os) = elim (Bool-cases (is_for expiry o)) [
  | inl hit ↦ inr (o, rw hit refl, inl (hit, refl))
  | inr miss ↦ elim (observation-cases expiry os) [
    | inl (e, all) ↦ inl (rw miss e, (miss, all))
    | inr (found, e, first) ↦ inr (found, rw miss e, inr (miss, first))
  ]
]

regime_for-cases :
    (expiry : Date) (rows : List Regime)
    → ((regime_for expiry rows ≡ none) × All (λ row. covers expiry row ≡ false) rows)
      ⊎ ((row : Regime) × (regime_for expiry rows ≡ some row) × IsFirst (covers expiry) row rows)
unfolding regime_for
regime_for-cases expiry [] = inl (refl, tt)
regime_for-cases expiry (row ∷ rows) = elim (Bool-cases (covers expiry row)) [
  | inl hit ↦ inr (row, rw hit refl, inl (hit, refl))
  | inr miss ↦ elim (regime_for-cases expiry rows) [
    | inl (e, all) ↦ inl (rw miss e, (miss, all))
    | inr (found, e, first) ↦ inr (found, rw miss e, inr (miss, first))
  ]
]

-- For an underlying that the table has, the lot size of an expiry is the observed one where that
-- very expiry was observed, and is then and only then verified; else it is that of the first
-- regime that covers the expiry; and it is unknown exactly where neither is there.
pub lookup-Sourced :
    (specs : String → Option Spec) (underlying : String) (spec : Spec) (expiry : Date)
    → specs underlying ≡ some spec
    → Sourced spec expiry (lookup specs underlying expiry)
unfolding lookup lookup_in answer_from
lookup-Sourced specs underlying spec expiry h =
    rw h (elim (observation-cases expiry spec.observed) [
      | inr (o, e, first) ↦ rw e (observed o first)
      | inl (e, none_observed) ↦ elim (regime_for-cases expiry spec.regimes) [
        | inr (row, r, first) ↦ rw (e, r) (collapsed row none_observed first)
        | inl (r, none_covers) ↦ rw (e, r) (unknown none_observed none_covers)
      ]
    ])
