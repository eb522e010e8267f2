-- ===== src/Dhan/Exc.antt =====
-- What a call of the package may raise: the taxonomy of nautilus_india/dhan/errors.py, `Unsendable`
-- of orders.py, and the exceptions of Python that its code lets through.
use nautilus_trader_india.Prelude.{String, Bool, true, false, ◌≡◌, refl}

-- `DhanError`: the venue's words, its code and its error type.
pub record Failure : Type 0 where
  pub reason : String
  pub code : String
  pub error_type : String

-- Each local check that refuses to send, in place of its message.
pub data Refusal : Type 0 where
  bad_order_type bad_validity no_segment no_trigger : Refusal
  bad_product_type bad_amo_time bad_leg_name bad_order_flag : Refusal
  not_a_super_entry same_side_legs inverted_legs : Refusal

pub data Exc : Type 0 where
  transport_error ambiguous dhan_api_error ip_not_whitelisted rate_limited : Failure → Exc
  unsendable : Refusal → Exc
  lookup_error key_error value_error type_error attribute_error arithmetic_error : Exc
  index_error struct_error : Exc

-- `except DhanError`
unfoldable pub is_dhan_error : Exc → Bool
is_dhan_error (transport_error f) = true
is_dhan_error (ambiguous f) = true
is_dhan_error (dhan_api_error f) = true
is_dhan_error (ip_not_whitelisted f) = true
is_dhan_error (rate_limited f) = true
is_dhan_error _ = false

-- `except (LookupError, Unsendable)`: a `KeyError` and an `IndexError` are `LookupError`s.
unfoldable pub is_local_refusal : Exc → Bool
is_local_refusal (unsendable r) = true
is_local_refusal lookup_error = true
is_local_refusal key_error = true
is_local_refusal index_error = true
is_local_refusal _ = false

pub data Result {ℓ} (A : Type ℓ) : Type ℓ where
  ok : A → Result A
  err : Exc → Result A

infixl 5 ◌>>=◌ ◌>>◌
abbrev pub ◌>>=◌ {ℓ κ} : {A : Type ℓ} {B : Type κ} → Result A → (A → Result B) → Result B
err raised >>= rest = err raised
ok value >>= rest = rest value

abbrev pub ◌>>◌ {ℓ} : {B : Type ℓ} → Result (Unit {0}) → Result B → Result B
first >> rest = first >>= λ done. rest

abbrev pub raise_if : Bool → Exc → Result (Unit {0})
raise_if true e = err e
raise_if false e = ok tt

-- A chain that succeeds went through its first step.
pub >>=-ok :
    {A B : Type 0} (m : Result A) (f : A → Result B) (b : B)
    → m >>= f ≡ ok b
    → (a : A) × (m ≡ ok a) × (f a ≡ ok b)
>>=-ok (ok a) f b h = (a, refl, h)
>>=-ok (err e) f b h = absurd (cc)

pub raise_if-ok :
    {B : Type 0} (test : Bool) (e : Exc) (rest : Result B) (b : B)
    → raise_if test e >> rest ≡ ok b
    → (test ≡ false) × (rest ≡ ok b)
raise_if-ok true e rest b h = absurd (cc)
raise_if-ok false e rest b h = (refl, h)

-- The same, for what is to be shown of each value that the first step may have returned.
pub >>=-then :
    {A B P : Type 0} (m : Result A) (f : A → Result B) (b : B)
    → m >>= f ≡ ok b
    → ((a : A) → m ≡ ok a → f a ≡ ok b → P)
    → P
>>=-then m f b h rest = let (a, e, k) = >>=-ok m f b h in rest a e k
