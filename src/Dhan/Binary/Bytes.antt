-- ===== src/Dhan/Binary/Bytes.antt =====
-- The little-endian fields that `struct` reads. A float is kept as the number that its bytes spell.
use nautilus_trader_india.Prelude.{
  ℕ, zero, suc, ◌+◌, ◌*◌, ◌-◌, ◌≤◌, ◌≡◌, refl, ap, List, [], ◌∷◌, ◌++◌, length, take, drop, leb,
  arith, if◌then◌else◌, ℤ, pos, negsuc,
}

unfoldable pub little_endian : List ℕ → ℕ
little_endian [] = 0
little_endian (b ∷ bs) = b + 256 * little_endian bs

-- The field of some width at some offset.
unfoldable pub field : ℕ → ℕ → List ℕ → ℕ
unfolding little_endian
field offset width data_bytes = little_endian (take width (drop offset data_bytes))

-- A field of two's complement, its sign in the highest of the numbers below `2 * half`.
unfoldable pub signed : ℕ → ℕ → ℤ
signed half n = if leb half n then negsuc (half + half - n - 1) else pos n

pub take-append_le :
    {A : Type 0} (n : ℕ) (xs ys : List A) → n ≤ length xs → take n (xs ++ ys) ≡ take n xs
take-append_le zero xs ys h = refl
take-append_le (suc n) [] ys h = absurd (omega arith)
take-append_le (suc n) (x ∷ xs) ys h = ap (λ r. x ∷ r) (take-append_le n xs ys (omega arith))
