-- ===== src/Dhan/Orders/Correlation/Matching.antt =====
-- What is sent as a correlation id, and that it finds the order it was sent for.
use nautilus_trader_india.Prelude.{
  ℕ, ◌≤◌, ◌≡◌, ◌≢◌, ◌↔◌, ◌⊎◌, inl, inr, refl, some, arith, String, Bool, true, List, [], ◌∷◌, Text,
  codes, length, All, ==_iff, Bool-cases, str_eq, eq_iff, leb, ◌&&◌, ◌||◌, subst, sym, ◌∙◌,
}
use mathlib.Core.Bool.{false≢true}
use nautilus_trader_india.Nautilus.{Library}
use nautilus_trader_india.Dhan.Constants.{is_member}
use nautilus_trader_india.Dhan.Orders.Correlation.{
  is_safe, is_safe_rest, matches_safe, correlation_id, client_order_id_for, find_candidate,
}

-- What the digest promises: 18 hexadecimal characters.
abbrev pub is_hex : ℕ → Bool
is_hex c = (leb b'0' c && leb c b'9') || (leb b'a' c && leb c b'f')

pub record IsDigest (lib : Library) : Type 0 where
  pub size : (s : String) → length (codes (lib.digest s)) ≡ 18
  pub hex : (s : String) → All (λ c. is_hex c ≡ true) (codes (lib.digest s))

-- Characters that Dhan takes, but for a newline in the last place.
abbrev pub SafeButLast : Text → Type 0
SafeButLast [] = Unit
SafeButLast (c ∷ []) = (is_safe c ≡ true) ⊎ (c ≡ 10)
SafeButLast (c ∷ d ∷ rest) = (is_safe c ≡ true) × SafeButLast (d ∷ rest)

is_safe_rest-SafeButLast : (t : Text) → is_safe_rest t ≡ true → SafeButLast t
unfolding is_safe_rest
is_safe_rest-SafeButLast [] h = tt
is_safe_rest-SafeButLast (c ∷ []) h = ground (arith, ==_iff c 10)
is_safe_rest-SafeButLast (c ∷ d ∷ rest) h =
    (ground arith, is_safe_rest-SafeButLast (d ∷ rest) (ground arith))

pub hex-is_safe : (c : ℕ) → is_hex c ≡ true → is_safe c ≡ true
unfolding is_safe
hex-is_safe c h = ground arith

hex-SafeButLast : (t : Text) → All (λ c. is_hex c ≡ true) t → SafeButLast t
hex-SafeButLast [] h = tt
hex-SafeButLast (c ∷ []) h = inl (hex-is_safe c h.0)
hex-SafeButLast (c ∷ d ∷ rest) h = (hex-is_safe c h.0, hex-SafeButLast (d ∷ rest) h.1)

matches_safe-SafeButLast : (t : Text) → matches_safe t ≡ true → SafeButLast t
unfolding matches_safe is_safe_rest
matches_safe-SafeButLast [] h = tt
matches_safe-SafeButLast (c ∷ []) h = inl (ground arith)
matches_safe-SafeButLast (c ∷ d ∷ rest) h =
    (ground arith, is_safe_rest-SafeButLast (d ∷ rest) (ground arith))

-- Whatever the client order id, what is sent as its correlation id has at most 25 characters, and
-- each is a letter, a digit, a blank, a hyphen or an underscore, save that the last may be a newline.
pub correlation_id-SafeButLast :
    (lib : Library) (value : String)
    → IsDigest lib
    → (length (codes (correlation_id lib value)) ≤ 25)
      × SafeButLast (codes (correlation_id lib value))
unfolding correlation_id
correlation_id-SafeButLast lib value digest =
    elim (Bool-cases (leb (length (codes value)) 25 && matches_safe (codes value))) [
      | inl sent ↦ rw sent (ground arith, matches_safe-SafeButLast (codes value) (ground arith))
      | inr hashed ↦
          rw hashed (omega (arith, digest.size value), hex-SafeButLast _ (digest.hex value))
    ]

-- No two of the candidates are sent under one correlation id.
abbrev pub IsDistinct : Library → List String → Type 0
IsDistinct lib [] = Unit
IsDistinct lib (c ∷ cs) =
    All (λ d. correlation_id lib d ≢ correlation_id lib c) cs × IsDistinct lib cs

-- `c` is one of the candidates.
abbrev pub IsOneOf : String → List String → Type 0
IsOneOf c [] = ⊥
IsOneOf c (d ∷ ds) = (c ≡ d) ⊎ IsOneOf c ds

pub is_member_iff : (x : String) (xs : List String) → (is_member x xs ≡ true) ↔ IsOneOf x xs
unfolding is_member
is_member_iff x xs = (listed x xs, member x xs)
  where
    listed : (x : String) (xs : List String) → is_member x xs ≡ true → IsOneOf x xs
    listed x [] h = absurd (cc)
    listed x (y ∷ ys) h = elim (Bool-cases (str_eq y x)) [
      | inl e ↦ inl (sym ((eq_iff y x).0 e))
      | inr other ↦ inr (listed x ys (ground arith))
    ]

    member : (x : String) (xs : List String) → IsOneOf x xs → is_member x xs ≡ true
    member x [] m = absurd m
    member x (y ∷ ys) (inl e) = rw ((eq_iff y x).1 (sym e)) refl
    member x (y ∷ ys) (inr m) = elim (Bool-cases (str_eq y x)) [
      | inl e ↦ rw e refl
      | inr other ↦ rw (other, member x ys m)
    ]

pub found_is_sent :
    (lib : Library) (correlation c : String) (candidates : List String)
    → find_candidate lib correlation candidates ≡ some c
    → IsOneOf c candidates × (correlation_id lib c ≡ correlation)
unfolding find_candidate
found_is_sent lib correlation c [] h = absurd (cc)
found_is_sent lib correlation c (d ∷ ds) h =
    elim (Bool-cases (str_eq (correlation_id lib d) correlation)) [
      | inl e ↦
          let found : d ≡ c = ground arith in
          (
            inl (sym found),
            subst (λ x. correlation_id lib x ≡ correlation) found ((eq_iff _ _).0 e),
          )
      | inr n ↦ let (m, e) = found_is_sent lib correlation c ds (ground arith) in (inr m, e)
    ]

sent_is_found :
    (lib : Library) (c : String) (candidates : List String)
    → IsDistinct lib candidates
    → IsOneOf c candidates
    → find_candidate lib (correlation_id lib c) candidates ≡ some c
unfolding find_candidate
sent_is_found lib c [] distinct m = absurd m
sent_is_found lib c (d ∷ ds) distinct (inl e) =
    rw e (rw ((eq_iff (correlation_id lib d) (correlation_id lib d)).1 refl))
sent_is_found lib c (d ∷ ds) distinct (inr m) =
    elim (Bool-cases (str_eq (correlation_id lib d) (correlation_id lib c))) [
      | inl e ↦ absurd (differs c ds distinct.0 m (sym ((eq_iff _ _).0 e)))
      | inr n ↦ rw n (sent_is_found lib c ds distinct.1 m)
    ]
  where
    differs :
        (x : String) (xs : List String)
        → All (λ y. correlation_id lib y ≢ correlation_id lib d) xs
        → IsOneOf x xs
        → correlation_id lib x ≢ correlation_id lib d
    differs x [] h m = absurd m
    differs x (y ∷ ys) h (inl e) = rw e h.0
    differs x (y ∷ ys) h (inr m) = differs x ys h.1 m

-- Where no two candidates share a correlation id, a candidate is found for a correlation id
-- exactly when that is not empty and is the one that was sent for it. So an order of our own is
-- found from what the venue echoes, and a correlation id that is not ours finds none.
pub client_order_id_for_iff :
    (lib : Library) (correlation c : String) (candidates : List String)
    → IsDistinct lib candidates
    → (client_order_id_for lib correlation candidates ≡ some c)
      ↔ ((correlation ≢ "") × IsOneOf c candidates × (correlation_id lib c ≡ correlation))
unfolding client_order_id_for
client_order_id_for_iff lib correlation c candidates distinct =
    elim (Bool-cases (str_eq correlation "")) [
      | inl e ↦
          (λ h. absurd (ground arith), λ (ne, _, _). absurd (ne ((eq_iff correlation "").0 e)))
      | inr n ↦ (
        λ h.
            let (m, e) = found_is_sent lib correlation c candidates (ground arith) in
            (λ empty. absurd (false≢true (sym n ∙ (eq_iff correlation "").1 empty)), m, e),
        λ (_, m, e). rw n (
            subst (λ s. find_candidate lib s candidates ≡ some c) e
              (sent_is_found lib c candidates distinct m)),
      )
    ]
