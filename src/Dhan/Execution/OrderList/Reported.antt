-- ===== src/Dhan/Execution/OrderList/Reported.antt =====
-- The ids that a bracket is accepted under, and those that its super order is reported under later.
use nautilus_trader_india.Prelude.{
  ◌≡◌, ◌↔◌, refl, sym, ap, subst, ◌∙◌, String, true, Option, List, [], ◌∷◌, map, inl, inr,
  Bool-cases, if◌then◌else◌,
}
use nautilus_trader_india.Nautilus.{Order, Instrument}
use nautilus_trader_india.Dhan.Json.{Json, Items, Fields, get}
use nautilus_trader_india.Dhan.Exc.{ok}
use nautilus_trader_india.Dhan.Constants.{
  leg_entry, leg_target, leg_stop_loss, leg_names, is_member,
}
use nautilus_trader_india.Dhan.Orders.Correlation.Matching.{IsOneOf, is_member_iff}
use nautilus_trader_india.Dhan.Orders.Reports.Rows.{Reading, required}
use nautilus_trader_india.Dhan.SuperOrders.{leg_venue_order_id}
use nautilus_trader_india.Dhan.SuperOrders.Reports.{LegReport, name_of, legs_of, row_reports}
use nautilus_trader_india.Dhan.SuperOrders.Reports.Legs.{
  named_legs, ids_for, ids_of, row_reports-ids_for,
}
use nautilus_trader_india.Dhan.Execution.Client.{Event, accepted}
use nautilus_trader_india.Dhan.Execution.OrderList.{accept_legs, legs}

abbrev pub accepted_ids : List Event → List String
accepted_ids [] = []
accepted_ids (accepted s v ∷ events) = v ∷ accepted_ids events
accepted_ids (_ ∷ events) = accepted_ids events

abbrev pub venue_ids : List LegReport → List String
venue_ids reports = map (λ (b : LegReport). b.venue_order_id) reports

accept_legs-ids :
    (order_id : String) (entry target stop_loss : Order)
    → accepted_ids (accept_legs order_id (entry ∷ target ∷ stop_loss ∷ []) legs).0
      ≡ map (leg_venue_order_id order_id) leg_names
unfolding accept_legs
accept_legs-ids order_id entry target stop_loss = refl

firsts :
    {A : Type 0} (f : A → String × Option String) (xs : List A)
    → map (λ (p : String × Option String). p.0) (map f xs) ≡ map (λ x. (f x).0) xs
firsts f [] = refl
firsts f (x ∷ xs) = ap (λ ys. (f x).0 ∷ ys) (firsts f xs)

IsOneOf-map :
    (f : String → String) (x : String) (xs : List String) → IsOneOf x xs → IsOneOf (f x) (map f xs)
IsOneOf-map f x [] m = absurd m
IsOneOf-map f x (y ∷ ys) (inl e) = inl (ap f e)
IsOneOf-map f x (y ∷ ys) (inr m) = inr (IsOneOf-map f x ys m)

-- Every leg that is reported has one of the three names.
named-among :
    (f : String → String) (name v : String) (rest : List String)
    → is_member name leg_names ≡ true
    → (IsOneOf v (map f rest) → IsOneOf v (map f leg_names))
    → IsOneOf v (f name ∷ map f rest)
    → IsOneOf v (map f leg_names)
named-among f name v rest known later (inl e) =
    subst (λ w. IsOneOf w (map f leg_names)) (sym e)
      (IsOneOf-map f name leg_names ((is_member_iff name leg_names).0 known))
named-among f name v rest known later (inr m) = later m

named_legs-among :
    (f : String → String) (r : Reading) (items : Items) (v : String)
    → IsOneOf v (map f (named_legs r items))
    → IsOneOf v (map f leg_names)
named_legs-among f r Items.nil v m = absurd m
named_legs-among f r (Items.cons (Json.obj leg) items) v m =
    let among = named_legs-among f r items v in
    elim (Bool-cases (is_member (name_of r leg) leg_names)) [
      | inl known ↦ named-among f (name_of r leg) v (named_legs r items) known among (
          subst
            (λ b.
              IsOneOf v
                (map f (if b then name_of r leg ∷ named_legs r items else named_legs r items)))
            known m)
      | inr other ↦ among (
          subst
            (λ b.
              IsOneOf v
                (map f (if b then name_of r leg ∷ named_legs r items else named_legs r items)))
            other m)
    ]
named_legs-among f r (Items.cons _ items) v m = absurd m

all_listed-among :
    (f : String → String) (names : List String) (v : String)
    → IsOneOf leg_target names
    → IsOneOf leg_stop_loss names
    → IsOneOf v (map f leg_names)
    → IsOneOf v (f leg_entry ∷ map f names)
all_listed-among f names v target stop (inl e) = inl e
all_listed-among f names v target stop (inr (inl e)) =
    inr (subst (λ w. IsOneOf w (map f names)) (sym e) (IsOneOf-map f leg_target names target))
all_listed-among f names v target stop (inr (inr (inl e))) =
    inr (subst (λ w. IsOneOf w (map f names)) (sym e) (IsOneOf-map f leg_stop_loss names stop))
all_listed-among f names v target stop (inr (inr (inr m))) = absurd m

named-with_entry :
    (f : String → String) (r : Reading) (items : Items) (v : String)
    → IsOneOf v (f leg_entry ∷ map f (named_legs r items))
    → IsOneOf v (map f leg_names)
named-with_entry f r items v (inl e) = inl e
named-with_entry f r items v (inr m) = named_legs-among f r items v m

module _ (r : Reading) (instrument : Instrument) (row : Fields) (order_id : String) where
  venue_ids-eq :
      (reports : List LegReport) (items : Items)
      → required r.py "orderId" row ≡ ok order_id
      → row_reports r instrument row ≡ ok reports
      → legs_of (get "legDetails" row) ≡ ok items
      → venue_ids reports ≡ map (leg_venue_order_id order_id) (leg_entry ∷ named_legs r items)
  venue_ids-eq reports items at built listed =
      let (found, found_is, ids) = row_reports-ids_for r instrument row order_id reports at built in
      let same : found ≡ items = cc in
      subst
        (λ xs. venue_ids reports ≡ map (leg_venue_order_id order_id) (leg_entry ∷ named_legs r xs))
        same
        (sym (firsts (ids_of r instrument row order_id) reports)
          ∙ ap (map (λ (p : String × Option String). p.0)) ids
          ∙ firsts (ids_for r instrument row order_id) (leg_entry ∷ named_legs r found))

  -- The three orders of a bracket are accepted under the very ids that its super order is reported
  -- under later, where its row has the order id that the acceptance had and lists the target and
  -- the stop loss, in any order and among whatever else: each of these ids is reported, and no report
  -- has another.
  pub accept_legs-reported :
      (entry target stop_loss : Order) (reports : List LegReport) (items : Items)
      → required r.py "orderId" row ≡ ok order_id
      → row_reports r instrument row ≡ ok reports
      → legs_of (get "legDetails" row) ≡ ok items
      → IsOneOf leg_target (named_legs r items)
      → IsOneOf leg_stop_loss (named_legs r items)
      → (v : String)
      → IsOneOf v (accepted_ids (accept_legs order_id (entry ∷ target ∷ stop_loss ∷ []) legs).0)
        ↔ IsOneOf v (venue_ids reports)
  accept_legs-reported entry target stop_loss reports items at built listed has_target has_stop v =
      let f = leg_venue_order_id order_id in
      rw (accept_legs-ids order_id entry target stop_loss) (
        rw (venue_ids-eq reports items at built listed) (
          all_listed-among f (named_legs r items) v has_target has_stop,
          named-with_entry f r items v,
        ))
