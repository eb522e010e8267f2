-- ===== src/Dhan/Constants/Segments.antt =====
-- The two tables of segments name each other.
use mathlib.Core.Option.{some-injective}
use nautilus_trader_india.Prelude.{
  ℕ, zero, suc, ℤ, pos, negsuc, ◌≡◌, ◌↔◌, refl, sym, ap, ◌∙◌, subst, String, Option, some, str_eq,
  eq_iff, if◌then◌else◌, Bool-cases, inl, inr, arith,
}
use nautilus_trader_india.Dhan.Constants.{segment_names, segment_codes}

code_named :
    (name named : String) (code : ℤ)
    → segment_codes named ≡ some code
    → some named ≡ some name
    → segment_codes name ≡ some code
code_named name named code known h =
    subst (λ (s : String). segment_codes s ≡ some code) (some-injective named name h) known

code_of_name :
    (name : String) (n : ℕ) → segment_names (pos n) ≡ some name → segment_codes name ≡ some (pos n)
unfolding segment_names segment_codes
code_of_name name zero h = code_named name _ _ refl h
code_of_name name (suc zero) h = code_named name _ _ refl h
code_of_name name (suc (suc zero)) h = code_named name _ _ refl h
code_of_name name (suc (suc (suc zero))) h = code_named name _ _ refl h
code_of_name name (suc (suc (suc (suc zero)))) h = code_named name _ _ refl h
code_of_name name (suc (suc (suc (suc (suc zero))))) h = code_named name _ _ refl h
code_of_name name (suc (suc (suc (suc (suc (suc zero)))))) h = absurd (cc)
code_of_name name (suc (suc (suc (suc (suc (suc (suc zero))))))) h = code_named name _ _ refl h
code_of_name name (suc (suc (suc (suc (suc (suc (suc (suc zero)))))))) h =
    code_named name _ _ refl h
code_of_name name (suc (suc (suc (suc (suc (suc (suc (suc (suc n))))))))) h = absurd (ground arith)

-- The first entry of the reverse table, or a later one.
named_first :
    (name word : String) (first : ℤ) (rest : Option ℤ) (code : ℤ)
    → (if str_eq name word then some first else rest) ≡ some code
    → segment_names first ≡ some word
    → (rest ≡ some code → segment_names code ≡ some name)
    → segment_names code ≡ some name
named_first name word first rest code h named later = elim (Bool-cases (str_eq name word)) [
  | inl same ↦
      let e : name ≡ word = (eq_iff name word).0 same in
      let c : first ≡ code = some-injective first code (ground arith) in
      subst (λ (n : ℤ). segment_names n ≡ some name) c (named ∙ ap some (sym e))
  | inr other ↦ later (ground arith)
]

name_of_code :
    (name : String) (code : ℤ) → segment_codes name ≡ some code → segment_names code ≡ some name
unfolding segment_codes segment_names
name_of_code name code h0 = named_first name "IDX_I" _ _ code h0 refl λ h1.
    named_first name "NSE_EQ" _ _ code h1 refl λ h2.
      named_first name "NSE_FNO" _ _ code h2 refl λ h3.
        named_first name "NSE_CURRENCY" _ _ code h3 refl λ h4.
          named_first name "BSE_EQ" _ _ code h4 refl λ h5.
            named_first name "MCX_COMM" _ _ code h5 refl λ h6.
              named_first name "BSE_CURRENCY" _ _ code h6 refl
                λ h7. named_first name "BSE_FNO" _ _ code h7 refl λ h8. absurd (cc)

-- A name has a code in the reverse table exactly where the code has this name: so no two codes
-- share a name, and neither table has an entry that the other lacks.
pub segment_codes_iff :
    (name : String) (code : ℤ) → (segment_codes name ≡ some code) ↔ (segment_names code ≡ some name)
unfolding segment_names
segment_codes_iff name (pos n) = (name_of_code name (pos n), code_of_name name n)
segment_codes_iff name (negsuc n) = (name_of_code name (negsuc n), λ h. absurd (cc))
