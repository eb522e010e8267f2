-- ===== src/Dhan/Orders/Correlation.antt =====
-- `correlation_id` and `client_order_id_for` of nautilus_india/dhan/orders.py.
pub mod Matching
use nautilus_trader_india.Prelude.{
  ℕ, String, Bool, true, false, ◌&&◌, ◌||◌, Option, none, some, List, [], ◌∷◌, Text, codes, length,
  leb, ◌==◌, str_eq, if◌then◌else◌,
}
use nautilus_trader_india.Nautilus.{Library}
use nautilus_trader_india.Dhan.Constants.{correlation_id_max_len}

-- One character of the class [A-Za-z0-9 _-].
unfoldable pub is_safe : ℕ → Bool
is_safe c =
    (leb b'A' c && leb c b'Z')
    || ((leb b'a' c && leb c b'z')
        || ((leb b'0' c && leb c b'9') || (c == b' ' || (c == b'_' || c == b'-'))))

-- What may follow the first character: `$` also matches before a newline that ends the text.
unfoldable pub is_safe_rest : Text → Bool
is_safe_rest [] = true
is_safe_rest (c ∷ []) = is_safe c || c == 10
is_safe_rest (c ∷ d ∷ rest) = is_safe c && is_safe_rest (d ∷ rest)

-- `_SAFE_CORRELATION.match(value)`
unfoldable pub matches_safe : Text → Bool
matches_safe [] = false
matches_safe (c ∷ rest) = is_safe c && is_safe_rest rest

-- `correlation_id`
unfoldable pub correlation_id : Library → String → String
correlation_id lib value =
    if leb (length (codes value)) correlation_id_max_len && matches_safe (codes value)
    then value
    else lib.digest value

-- The loop of `client_order_id_for`.
unfoldable pub find_candidate : Library → String → List String → Option String
find_candidate lib correlation [] = none
find_candidate lib correlation (candidate ∷ rest) =
    if str_eq (correlation_id lib candidate) correlation
    then some candidate
    else find_candidate lib correlation rest

-- `client_order_id_for`
unfoldable pub client_order_id_for : Library → String → List String → Option String
unfolding find_candidate
client_order_id_for lib correlation candidates =
    if str_eq correlation "" then none else find_candidate lib correlation candidates
