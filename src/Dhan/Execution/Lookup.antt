-- ===== src/Dhan/Execution/Lookup.antt =====
-- The address that `generate_order_status_report` of nautilus_india/dhan/execution.py asks, by
-- whichever id the caller has.
use Prim.Native.String.{◌++◌ as str_append}
use mathlib.Core.Option.{some-injective}
use text.Mathlib.TextLemmas.{append_cancel_left}
use nautilus_trader_india.Prelude.{
  ◌<◌, ◌≤◌, ◌≡◌, ◌↔◌, refl, subst, true, [], ◌∷◌, All, Text, String, Option, none, some, ap, sym,
  arith, codes, length, leb, Bool-cases, inl, inr, ◌&&◌,
}
use nautilus_trader_india.Nautilus.{Library}
use nautilus_trader_india.Dhan.Constants.{orders_path, orders_external_path}
use nautilus_trader_india.Dhan.Orders.Correlation.{correlation_id, matches_safe, is_safe_rest}
use nautilus_trader_india.Dhan.Orders.Correlation.Matching.{IsDigest, is_hex, hex-is_safe}

-- The path, from the venue order id and the client order id; `None` is answered without asking.
unfoldable pub lookup_path : Option String → Option String → Option String
lookup_path (some venue_order_id) client_order_id =
    some (str_append orders_path (str_append "/" venue_order_id))
lookup_path none (some client_order_id) =
    some (str_append orders_external_path (str_append "/" client_order_id))
lookup_path none none = none

-- The address under which Dhan holds an order that was sent under a correlation id.
abbrev pub external_path : String → String
external_path correlation = str_append orders_external_path (str_append "/" correlation)

external_path-injective : (a b : String) → external_path a ≡ external_path b → a ≡ b
external_path-injective a b h =
    append_cancel_left "/" a b (append_cancel_left orders_external_path _ _ h)

all_safe-matches : (t : Text) → All (λ c. is_hex c ≡ true) t → is_safe_rest t ≡ true
unfolding is_safe_rest
all_safe-matches [] h = refl
all_safe-matches (c ∷ []) h = ground (arith, hex-is_safe c h.0)
all_safe-matches (c ∷ d ∷ t) h = ground (arith, hex-is_safe c h.0, all_safe-matches (d ∷ t) h.1)

hex-matches_safe : (t : Text) → 0 < length t → All (λ c. is_hex c ≡ true) t → matches_safe t ≡ true
unfolding matches_safe
hex-matches_safe [] long h = absurd (omega arith)
hex-matches_safe (c ∷ t) long h = ground (arith, hex-is_safe c h.0, all_safe-matches t h.1)

-- An id that is sent as it is: of at most 25 characters, all of which Dhan takes, save that the
-- last may be a newline.
abbrev pub IsSendable : String → Type 0
IsSendable id = (length (codes id) ≤ 25) × (matches_safe (codes id) ≡ true)

-- A digest could itself be sent as it is.
digest-IsSendable : (lib : Library) (id : String) → IsDigest lib → IsSendable (lib.digest id)
digest-IsSendable lib id digest = (
  omega (arith, digest.size id),
  hex-matches_safe (codes (lib.digest id)) (omega (arith, digest.size id)) (digest.hex id),
)

correlation_id-same_iff :
    (lib : Library) (id : String) → IsDigest lib → (correlation_id lib id ≡ id) ↔ IsSendable id
unfolding correlation_id
correlation_id-same_iff lib id digest =
    elim (Bool-cases (leb (length (codes id)) 25 && matches_safe (codes id))) [
      | inl fits ↦ (λ h. (ground arith, ground arith), λ h. rw fits refl)
      | inr hashed ↦ (
        λ h. subst IsSendable (rw hashed at h) (digest-IsSendable lib id digest),
        λ (short, safe). ground arith,
      )
    ]

-- Asked by a client order id alone, the client asks for the correlation id that was sent for that
-- order exactly where the id has at most 25 characters and all of them are ones that Dhan takes, save
-- that the last may be a newline. For any other id it asks for a correlation id that was not sent.
pub lookup_path-sent_iff :
    (lib : Library) (id : String)
    → IsDigest lib
    → (lookup_path none (some id) ≡ some (external_path (correlation_id lib id))) ↔ IsSendable id
unfolding lookup_path
lookup_path-sent_iff lib id digest =
    let same = correlation_id-same_iff lib id digest in
    (
      λ h. same.0 (sym (external_path-injective _ _ (some-injective _ _ h))),
      λ fits. ap (λ s. some (external_path s)) (sym (same.1 fits)),
    )
