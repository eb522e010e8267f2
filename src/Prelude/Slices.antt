-- ===== src/Prelude/Slices.antt =====
-- Slices from the end, as Python writes them: `t[-n:]` and `t[:-n]` for a positive `n`.
use Prim.Native.Nat.{ℕ, ◌-◌}
use mathlib.Core.Path.{◌≡◌, ap, ◌∙◌}
use mathlib.Core.List.{List, ◌++◌}
use native.Mathlib.Omega.{arith}
use nautilus_trader_india.Prelude.Lists.{
  length, take, drop, length-append, take-append, drop-append,
}

abbrev pub last {ℓ} : {A : Type ℓ} → ℕ → List A → List A
last n t = drop (length t - n) t

abbrev pub init {ℓ} : {A : Type ℓ} → ℕ → List A → List A
init n t = take (length t - n) t

module _ {ℓ} {A : Type ℓ} where
  pub last-append : (n : ℕ) (xs ys : List A) → length ys ≡ n → last n (xs ++ ys) ≡ ys
  last-append n xs ys h =
      let k : length (xs ++ ys) - n ≡ length xs = omega (arith, length-append xs ys) in
      ap (λ m. drop m (xs ++ ys)) k ∙ drop-append xs ys

  pub init-append : (n : ℕ) (xs ys : List A) → length ys ≡ n → init n (xs ++ ys) ≡ xs
  init-append n xs ys h =
      let k : length (xs ++ ys) - n ≡ length xs = omega (arith, length-append xs ys) in
      ap (λ m. take m (xs ++ ys)) k ∙ take-append xs ys
