-- ===== src/Dhan/Auth.antt =====
-- nautilus_india/dhan/auth.py, `from_env`, and how `_connect` of nautilus_india/dhan/execution.py comes
-- by its credentials.
pub mod Tokens
use nautilus_trader_india.Prelude.{
  ◌≡◌, String, false, not, ◌&&◌, Option, none, some, List, [], ◌∷◌, ◌++◌, str_eq, if◌then◌else◌,
  arith, Bool-cases, inl, inr, refl,
}

pub record DhanCredentials : Type 0 where
  pub client_id : String
  pub access_token : String

-- Credentials, or the variables that `MissingCredentialsError` names.
pub data Resolved : Type 0 where
  credentials : DhanCredentials → Resolved
  missing : List String → Resolved

abbrev pub client_id_env : String
client_id_env = "DHAN_CLIENT_ID"

abbrev pub access_token_env : String
access_token_env = "DHAN_ACCESS_TOKEN"

-- `value or ""` of a text that may be missing.
unfoldable pub set_text : Option String → String
set_text none = ""
set_text (some s) = s

-- `k for k in (k,) if not source.get(k)`
unfoldable pub unset_name : String → String → List String
unset_name name value = if str_eq value "" then name ∷ [] else []

unfoldable pub resolved : List String → DhanCredentials → Resolved
resolved [] found = credentials found
resolved (name ∷ names) found = missing (name ∷ names)

-- `from_env`
unfoldable pub from_env : (String → Option String) → Resolved
from_env source =
    let client_id = set_text (source client_id_env) in
    let access_token = set_text (source access_token_env) in
    resolved (unset_name client_id_env client_id ++ unset_name access_token_env access_token)
      (record { client_id = client_id; access_token = access_token })

-- `first or second` of two texts.
abbrev pub or_text : String → String → String
or_text first second = if str_eq first "" then second else first

unfoldable pub filled_in : String → String → Resolved → Resolved
filled_in client_id token (missing names) = missing names
filled_in client_id token (credentials found) = credentials (record {
  client_id = or_text client_id found.client_id;
  access_token = or_text token found.access_token;
})

-- The credentials of `_connect`: those of the configuration where it has both, and else one set of
-- the environment under what the configuration has.
unfoldable pub connect_credentials :
    Option String → Option String → (String → Option String) → Resolved
connect_credentials client_id token source =
    if not (str_eq (set_text client_id) "") && not (str_eq (set_text token) "")
    then credentials (record { client_id = set_text client_id; access_token = set_text token })
    else filled_in (set_text client_id) (set_text token) (from_env source)

-- Credentials with both texts.
pub record IsFull (c : DhanCredentials) : Type 0 where
  pub has_client_id : str_eq c.client_id "" ≡ false
  pub has_token : str_eq c.access_token "" ≡ false

-- One set of the environment is full, or there is none.
pub from_env-IsFull :
    (source : String → Option String) (c : DhanCredentials)
    → from_env source ≡ credentials c
    → IsFull c
unfolding from_env resolved unset_name
from_env-IsFull source c h = record { has_client_id = ground arith; has_token = ground arith }

filled_in-IsFull :
    (client_id token : String) (r : Resolved) (c : DhanCredentials)
    → ((found : DhanCredentials) → r ≡ credentials found → IsFull found)
    → filled_in client_id token r ≡ credentials c
    → IsFull c
unfolding filled_in
filled_in-IsFull client_id token (missing names) c full h = absurd (cc)
filled_in-IsFull client_id token (credentials found) c full h =
    let i = (full found refl).has_client_id in
    let t = (full found refl).has_token in
    record { has_client_id = ground (arith, i); has_token = ground (arith, t) }

-- The client connects with an id and a token, or not at all.
pub connect_credentials-IsFull :
    (client_id token : Option String) (source : String → Option String) (c : DhanCredentials)
    → connect_credentials client_id token source ≡ credentials c
    → IsFull c
unfolding connect_credentials
connect_credentials-IsFull client_id token source c h =
    elim (Bool-cases (not (str_eq (set_text client_id) "") && not (str_eq (set_text token) ""))) [
      | inl both ↦ record { has_client_id = ground arith; has_token = ground arith }
      | inr some_unset ↦
          filled_in-IsFull (set_text client_id) (set_text token) (from_env source) c
            (λ found e. from_env-IsFull source found e) (ground arith)
    ]
