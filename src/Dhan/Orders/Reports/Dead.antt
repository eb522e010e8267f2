-- ===== src/Dhan/Orders/Reports/Dead.antt =====
-- Which statuses are reported with a reason.
use mathlib.Core.Option.{some-injective}
use nautilus_trader_india.Prelude.{
  ◌≡◌, ◌≢◌, refl, sym, ap, ◌∙◌, String, true, Option, none, some, arith, str_eq, ◌⊎◌, eq_iff,
  Bool-cases, inl, inr,
}
use nautilus_trader_india.Nautilus.{OrderStatus, rejected, canceled, expired}
use nautilus_trader_india.Dhan.Json.{Json, Fields, Rendering, get, truthy, str_or}
use nautilus_trader_india.Dhan.Exc.{ok}
use nautilus_trader_india.Dhan.Orders.Reports.{
  order_status, is_dead, status_of, reason_in, str_of_get,
}

abbrev pub IsDeadStatus : OrderStatus → Type 0
IsDeadStatus s = (s ≡ rejected) ⊎ ((s ≡ canceled) ⊎ (s ≡ expired))

named_as :
    (word : String) (at s : OrderStatus) (name : String)
    → order_status word ≡ some at
    → order_status name ≡ some s
    → str_eq name word ≡ true
    → s ≡ at
named_as word at s name spelled named same =
    let e : name ≡ word = (eq_iff name word).0 same in
    some-injective _ _ (sym named ∙ ap order_status e ∙ spelled)

is_dead-IsDeadStatus :
    (name : String) (s : OrderStatus)
    → order_status name ≡ some s
    → is_dead name ≡ true
    → IsDeadStatus s
unfolding order_status is_dead
is_dead-IsDeadStatus name s named dead = elim (Bool-cases (str_eq name "REJECTED")) [
  | inl e ↦ inl (named_as "REJECTED" rejected s name refl named e)
  | inr n ↦ inr (elim (Bool-cases (str_eq name "CANCELLED")) [
    | inl e ↦ inl (named_as "CANCELLED" canceled s name refl named e)
    | inr m ↦ inr (named_as "EXPIRED" expired s name refl named (ground arith))
  ])
]

unset_has_no_status : (s : OrderStatus) → order_status "" ≢ some s
unfolding order_status
unset_has_no_status s h = cc

-- The status is the one that the row spells, whichever of the two ways it is read.
order_status_in :
    (py : Rendering) (v : Option Json) (s : OrderStatus)
    → order_status (str_or py v "") ≡ some s
    → order_status (str_of_get py v) ≡ some s
unfolding str_or str_of_get
order_status_in py none s h = absurd (unset_has_no_status s h)
order_status_in py (some v) s h = elim (Bool-cases (truthy v)) [
  | inl t ↦ ground arith
  | inr f ↦ absurd (unset_has_no_status s (ground arith))
]

reason_in-is_dead :
    (py : Rendering) (v : Option Json) (status words : String)
    → reason_in py v status ≡ some words
    → is_dead status ≡ true
unfolding reason_in
reason_in-is_dead py none status words h = absurd (cc)
reason_in-is_dead py (some v) status words h = ground arith

status_of-named :
    (py : Rendering) (row : Fields) (s : OrderStatus)
    → status_of py row ≡ ok s
    → order_status (str_or py (get "orderStatus" row) "") ≡ some s
unfolding status_of
status_of-named py row s h = ground arith

-- A reason is read only of a row that is dead.
pub reason_in-IsDeadStatus :
    (py : Rendering) (row : Fields) (s : OrderStatus) (v : Option Json) (words : String)
    → status_of py row ≡ ok s
    → reason_in py v (str_of_get py (get "orderStatus" row)) ≡ some words
    → IsDeadStatus s
reason_in-IsDeadStatus py row s v words status_is reason_is =
    is_dead-IsDeadStatus _ s (order_status_in py _ s (status_of-named py row s status_is))
      (reason_in-is_dead py v _ words reason_is)
