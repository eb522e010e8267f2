-- ===== src/Dhan/Auth/Tokens/Lives.antt =====
-- How long a token is taken for live, and which tokens are refused.
use nautilus_trader_india.Prelude.{
  ℕ, suc, ◌+◌, ◌-◌, ◌*◌, ◌%◌, ◌≡◌, ◌≢◌, ◌↔◌, ◌<◌, refl, ℤ, pos, Bool, true, false, some, List, [],
  ◌∷◌, ◌++◌, Text, length, length-append, length-replicate, replicate, ◌≤◌, All, ltb, ◌==◌,
  if◌then◌else◌, arith,
}
use nautilus_trader_india.Dhan.Json
use nautilus_trader_india.Dhan.Json.{Json, Fields, Number}
use nautilus_trader_india.Dhan.Exc.{ok}
use nautilus_trader_india.Dhan.Auth.Tokens.{
  done, malformed, Decoding, onto_first, split, claims_in, claims, first_instant, token_is_live,
}

-- How many separators there are.
abbrev pub count : ℕ → Text → ℕ
count separator [] = 0
count separator (c ∷ t) = let rest = count separator t in if c == separator then suc rest else rest

length-onto_first :
    (c : ℕ) (parts : List Text) → 0 < length parts → length (onto_first c parts) ≡ length parts
unfolding onto_first
length-onto_first c [] h = absurd (omega arith)
length-onto_first c (part ∷ parts) h = refl

length-split : (separator : ℕ) (t : Text) → length (split separator t) ≡ suc (count separator t)
unfolding split
length-split separator [] = refl
length-split separator (c ∷ t) =
    ground (arith, length-split separator t, length-onto_first c (split separator t))

-- A part that holds no separator is split off whole.
abbrev pub IsPart : Text → Type 0
IsPart = All (λ c. c ≢ b'.')

no_dot : (c : ℕ) → c ≢ b'.' → (c == b'.') ≡ false
no_dot c h = ground arith

split-part :
    (part rest : Text) → IsPart part → split b'.' (part ++ b'.' ∷ rest) ≡ part ∷ split b'.' rest
unfolding split onto_first
split-part [] rest h = refl
split-part (c ∷ part) rest h = rw (no_dot c h.0, split-part part rest h.1) refl

split-last : (part : Text) → IsPart part → split b'.' part ≡ part ∷ []
unfolding split onto_first
split-last [] h = refl
split-last (c ∷ part) h = rw (no_dot c h.0, split-last part h.1) refl

-- How many signs pad a payload.
abbrev padding : Text → ℕ
padding payload = (4 - length payload % 4) % 4

length-padded : (payload : Text) → length (payload ++ replicate (padding payload) b'=') % 4 ≡ 0
length-padded payload = omega (
  arith,
  length-append payload (replicate (padding payload) b'='),
  length-replicate {A = ℕ} (padding payload) b'=',
)

-- A token without exactly two dots is refused, whatever is in it.
pub token_is_live-malformed :
    (d : Decoding) (token : Text) (now : ℤ) (margin : ℕ)
    → count b'.' token ≢ 2
    → token_is_live d token now margin ≡ malformed
unfolding token_is_live claims
token_is_live-malformed d token now margin dots =
    rw (refused (split b'.' token) (omega (arith, length-split b'.' token))) refl
  where
    refused : (parts : List Text) → length parts ≢ 3 → claims_in d parts ≡ malformed
    refused [] h = refl
    refused (a ∷ []) h = refl
    refused (a ∷ b ∷ []) h = refl
    refused (a ∷ b ∷ c ∷ []) h = absurd (h refl)
    refused (a ∷ b ∷ c ∷ e ∷ parts) h = refl

-- What base64 and JSON give back of a payload that encodes an object: it, once signs of padding make
-- the length a multiple of 4.
abbrev pub Encodes : Decoding → Text → Fields → Type 0
Encodes d payload fields =
    (k : ℕ)
    → k < 4
    → length (payload ++ replicate k b'=') % 4 ≡ 0
    → d.loads (payload ++ replicate k b'=') ≡ ok (Json.obj fields)

-- Three parts with a dot between each two.
abbrev pub jwt : Text → Text → Text → Text
jwt head payload signature = head ++ b'.' ∷ (payload ++ b'.' ∷ signature)

claims-joined :
    (d : Decoding) (head payload signature : Text) (fields : Fields)
    → IsPart head
    → IsPart payload
    → IsPart signature
    → Encodes d payload fields
    → claims d (jwt head payload signature) ≡ done fields
unfolding claims
claims-joined d head payload signature fields h p s encodes =
    rw
      (
        split-part head (payload ++ b'.' ∷ signature) h,
        split-part payload signature p,
        split-last signature s,
      )
      (rw (encodes (padding payload) (omega arith) (length-padded payload)) refl)

-- A token of three parts whose payload encodes a number of seconds as `exp` is read, whatever the
-- length of its payload, and is live exactly where more than the margin is left before that instant.
pub token_is_live-until :
    (d : Decoding) (head payload signature : Text) (fields : Fields) (exp : Number)
    (seconds now margin : ℕ)
    → IsPart head
    → IsPart payload
    → IsPart signature
    → Encodes d payload fields
    → Json.get "exp" fields ≡ some (Json.num exp)
    → d.from_timestamp exp ≡ ok (pos (seconds * 1_000_000))
    → margin ≤ first_instant
    → (live : Bool) × (token_is_live d (jwt head payload signature) (pos now) margin ≡ done live)
      × ((live ≡ true) ↔ (now + margin < seconds * 1_000_000))
unfolding token_is_live
token_is_live-until d head payload signature fields exp seconds now margin h p s encodes found whole
      small =
    (
      ltb (now + margin) (seconds * 1_000_000),
      rw (claims-joined d head payload signature fields h p s encodes)
          (rw (found, whole) (ground arith)),
      ground arith,
    )
