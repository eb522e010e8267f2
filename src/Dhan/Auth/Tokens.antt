-- ===== src/Dhan/Auth/Tokens.antt =====
-- `token_expiry` and `token_is_live` of nautilus_india/dhan/auth.py. An instant is in microseconds of
-- UNIX time. A claim that is an infinity or no number is left out.
pub mod Lives
use nautilus_trader_india.Prelude.{
  ℕ, zero, suc, ◌+◌, ◌-◌, ◌*◌, ◌%◌, ℤ, pos, negsuc, pos_part, neg_part, Bool, true, false, Option,
  none, some, List, [], ◌∷◌, ◌++◌, Text, length, replicate, ltb, leb, ◌==◌, if◌then◌else◌,
}
use nautilus_trader_india.Dhan.Json
use nautilus_trader_india.Dhan.Json.{Json, Fields, Number}
use nautilus_trader_india.Dhan.Exc.{Exc, Result, ok, err, value_error, arithmetic_error}

-- What is read of a token, `MalformedTokenError`, or another exception.
pub data Read (A : Type 0) : Type 0 where
  done : A → Read A
  malformed : Read A
  raised : Exc → Read A

-- What reading a token takes from Python: `json.loads(base64.urlsafe_b64decode(payload))`, and
-- `datetime.fromtimestamp(exp, tz=UTC)`.
pub record Decoding : Type 0 where
  pub loads : Text → Result Json
  pub from_timestamp : Number → Result ℤ

unfoldable pub onto_first : ℕ → List Text → List Text
onto_first c [] = (c ∷ []) ∷ []
onto_first c (part ∷ parts) = (c ∷ part) ∷ parts

-- `text.split(separator)`
unfoldable pub split : ℕ → Text → List Text
unfolding onto_first
split separator [] = [] ∷ []
split separator (c ∷ t) =
    let parts = split separator t in if c == separator then [] ∷ parts else onto_first c parts

-- `payload + "=" * (-len(payload) % 4)`
unfoldable pub padded : Text → Text
padded payload = payload ++ replicate ((4 - length payload % 4) % 4) b'='

-- The handler around the decoding: all that it names are a `ValueError`.
unfoldable pub as_object : Result Json → Read Fields
as_object (ok (Json.obj fields)) = done fields
as_object (ok _) = malformed
as_object (err value_error) = malformed
as_object (err e) = raised e

unfoldable pub claims_in : Decoding → List Text → Read Fields
unfolding padded as_object
claims_in d (head ∷ payload ∷ signature ∷ []) = as_object (d.loads (padded payload))
claims_in d _ = malformed

-- `_claims`
unfoldable pub claims : Decoding → Text → Read Fields
unfolding split claims_in
claims d token = claims_in d (split b'.' token)

-- `isinstance(exp, int | float)`: a truth value is an int.
unfoldable pub numeric : Option Json → Option Number
numeric (some (Json.num n)) = some n
numeric (some (Json.bool true)) = some (record { negative = false; coefficient = 1; places = 0 })
numeric (some (Json.bool false)) = some (record { negative = false; coefficient = 0; places = 0 })
numeric _ = none

unfoldable pub instant_of_exp : Decoding → Option Number → Read ℤ
instant_of_exp d none = malformed
instant_of_exp d (some exp) = elim (d.from_timestamp exp) [
  | ok moment ↦ done moment
  | err e ↦ raised e
]

unfoldable pub expiry_of : Decoding → Read Fields → Read ℤ
unfolding numeric instant_of_exp
expiry_of d (done fields) = instant_of_exp d (numeric (Json.get "exp" fields))
expiry_of d malformed = malformed
expiry_of d (raised e) = raised e

-- `token_expiry`
unfoldable pub token_expiry : Decoding → Text → Read ℤ
unfolding expiry_of claims
token_expiry d token = expiry_of d (claims d token)

-- The first instant of a datetime, 62135596800 seconds before 1970, as its distance.
abbrev pub first_instant : ℕ
first_instant = 62_135_596_800_000_000

-- `expiry - margin > now`, for a margin that is not negative: the difference must be a datetime.
unfoldable pub is_beyond : ℤ → ℕ → ℤ → Read Bool
is_beyond expiry margin now =
    if ltb (pos_part expiry + first_instant) (neg_part expiry + margin)
    then raised arithmetic_error
    else done (ltb (pos_part now + margin + neg_part expiry) (pos_part expiry + neg_part now))

unfoldable pub live_until : Read ℤ → ℕ → ℤ → Read Bool
unfolding is_beyond
live_until (done expiry) margin now = is_beyond expiry margin now
live_until malformed margin now = malformed
live_until (raised e) margin now = raised e

-- `token_is_live`, at a moment that the caller gives or the clock shows.
unfoldable pub token_is_live : Decoding → Text → ℤ → ℕ → Read Bool
unfolding live_until token_expiry
token_is_live d token now margin = live_until (token_expiry d token) margin now

-- DEFAULT_MARGIN, 30 minutes.
abbrev pub default_margin : ℕ
default_margin = 1_800_000_000
