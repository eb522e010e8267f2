-- ===== src/Dhan/Execution/OrderIds.antt =====
-- The order id that an answer holds: `VenueOrderId(str(body["orderId"]))` in
-- nautilus_india/dhan/execution.py, described on its own.
use mathlib.Core.Bool.{false≢true}
use nautilus_trader_india.Prelude.{
  String, ◌≡◌, ◌≢◌, refl, sym, ◌∙◌, Bool-cases, str_eq, eq_iff, some, inl, inr, Option-cases, arith,
}
use nautilus_trader_india.Dhan.Json.{Json, Fields, Rendering, get, py_str}
use nautilus_trader_india.Dhan.Exc.{ok}
use nautilus_trader_india.Dhan.Execution.Submit.{order_id_in, venue_order_id}

-- The answer is an object with a field `orderId`, whose text is this one and is not empty.
pub record HoldsId (py : Rendering) (body : Json) (order_id : String) : Type 0 where
  pub fields : Fields
  pub value : Json
  pub is_object : body ≡ Json.obj fields
  pub has_field : get "orderId" fields ≡ some value
  pub is_text : order_id ≡ py_str py value
  pub is_filled : order_id ≢ ""

venue_order_id-filled :
    (text order_id : String)
    → venue_order_id text ≡ ok order_id
    → (order_id ≡ text) × (order_id ≢ "")
unfolding venue_order_id
venue_order_id-filled text order_id h = elim (Bool-cases (str_eq text "")) [
  | inl e ↦ absurd (ground (arith, e))
  | inr n ↦
      let same : text ≡ order_id = ground (arith, n, h) in
      (sym same, λ empty. absurd (false≢true (sym n ∙ (eq_iff text "").1 (same ∙ empty))))
]

pub order_id_in-HoldsId :
    (py : Rendering) (body : Json) (order_id : String)
    → order_id_in py body ≡ ok order_id
    → HoldsId py body order_id
unfolding order_id_in
order_id_in-HoldsId py (Json.obj fs) order_id h = elim (Option-cases (get "orderId" fs)) [
  | inl e ↦ absurd (ground (arith, e, h))
  | inr (v, e) ↦
      let filled = venue_order_id-filled (py_str py v) order_id (ground (arith, e, h)) in
      record {
        fields = fs;
        value = v;
        is_object = refl;
        has_field = e;
        is_text = filled.0;
        is_filled = filled.1;
      }
]
order_id_in-HoldsId py _ order_id h = absurd (cc)

pub order_id_in-of_HoldsId :
    (py : Rendering) (body : Json) (order_id : String)
    → HoldsId py body order_id
    → order_id_in py body ≡ ok order_id
unfolding order_id_in venue_order_id
order_id_in-of_HoldsId py body order_id held =
    rw (held.is_object, order_id_in) rw (held.has_field, order_id_in)
      elim (Bool-cases (str_eq (py_str py held.value) "")) [
        | inl e ↦ absurd (held.is_filled (held.is_text ∙ (eq_iff (py_str py held.value) "").0 e))
        | inr n ↦ rw (n, venue_order_id) rw (sym held.is_text) refl
      ]
