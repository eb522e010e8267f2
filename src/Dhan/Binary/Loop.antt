-- ===== src/Dhan/Binary/Loop.antt =====
-- The `while` loops over the bytes that are left of a frame. A pass stops or goes on with fewer.
use nautilus_trader_india.Prelude.{ℕ, zero, suc, ◌<◌, ◌≡◌, refl, List, length, arith}

pub data Next (S : Type 0) : Type 0 where
  stop : S → Next S
  more : List ℕ → S → Next S

-- The loop on fuel; `run_all` gives it one pass for each byte and one more.
unfoldable pub run : {S : Type 0} → (List ℕ → S → Next S) → ℕ → List ℕ → S → S
run step zero rest s = s
run step (suc n) rest s = elim (step rest s) [ stop s' ↦ s' | more rest' s' ↦ run step n rest' s' ]

unfoldable pub run_all : {S : Type 0} → (List ℕ → S → Next S) → List ℕ → S → S
unfolding run
run_all step rest s = run step (suc (length rest)) rest s

abbrev pub Fewer : {S : Type 0} → List ℕ → Next S → Type 0
Fewer rest (stop s) = Unit
Fewer rest (more rest' s) = length rest' < length rest

module _ {S : Type 0} (step : List ℕ → S → Next S) where
  passed :
      (n m : ℕ) (rest : List ℕ) (next : Next S)
      → Fewer rest next
      → ((rest' : List ℕ) (s' : S)
          → length rest' < length rest
          → run step n rest' s' ≡ run step m rest' s')
      → (elim next as (λ _. S) [ stop s' ↦ s' | more rest' s' ↦ run step n rest' s' ])
        ≡ elim next as (λ _. S) [ stop s' ↦ s' | more rest' s' ↦ run step m rest' s' ]
  passed n m rest (stop s') fewer same = refl
  passed n m rest (more rest' s') fewer same = same rest' s' fewer

  -- Where each pass that goes on leaves fewer bytes, any fuel above their number gives the same.
  pub run-eq_of_enough :
      ((rest : List ℕ) (s : S) → Fewer rest (step rest s))
      → (n m : ℕ) (rest : List ℕ) (s : S) → length rest < n
      → length rest < m
      → run step n rest s ≡ run step m rest s
  unfolding run
  run-eq_of_enough fewer zero m rest s hn hm = absurd (omega arith)
  run-eq_of_enough fewer (suc n) zero rest s hn hm = absurd (omega arith)
  run-eq_of_enough fewer (suc n) (suc m) rest s hn hm =
      passed n m rest (step rest s) (fewer rest s)
        (λ rest' s' less. run-eq_of_enough fewer n m rest' s' (omega arith) (omega arith))

-- What a pass leaves, where the state has to hold `Q` and the bytes that are left `P`.
abbrev pub Keeps : {S : Type 0} → (List ℕ → Type 0) → (S → Type 0) → Next S → Type 0
Keeps P Q (stop s) = Q s
Keeps P Q (more rest s) = P rest × Q s

module _ {S : Type 0} (step : List ℕ → S → Next S) (P : List ℕ → Type 0) (Q : S → Type 0)
    (keeps : (rest : List ℕ) (s : S) → P rest → Q s → Keeps P Q (step rest s)) where
  passed-Keeps :
      (n : ℕ) (next : Next S)
      → Keeps P Q next
      → ((rest : List ℕ) (s : S) → P rest → Q s → Q (run step n rest s))
      → Q (elim next as (λ _. S) [ stop s' ↦ s' | more rest' s' ↦ run step n rest' s' ])
  passed-Keeps n (stop s) kept go = kept
  passed-Keeps n (more rest s) kept go = go rest s kept.0 kept.1

  -- What each pass keeps holds of the state at the end.
  pub run-keeps : (n : ℕ) (rest : List ℕ) (s : S) → P rest → Q s → Q (run step n rest s)
  unfolding run
  run-keeps zero rest s p q = q
  run-keeps (suc n) rest s p q =
      passed-Keeps n (step rest s) (keeps rest s p q) (λ rest' s' p' q'. run-keeps n rest' s' p' q')
