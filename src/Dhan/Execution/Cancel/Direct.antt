-- ===== src/Dhan/Execution/Cancel/Direct.antt =====
-- The methods that a strategy calls itself, which emit no event and raise what fails: on the legs of
-- a super order and on a forever order.
use Prim.Native.String.{◌++◌ as str_append}
use nautilus_trader_india.Prelude.{
  String, ◌≡◌, ◌≢◌, refl, List, [], ◌∷◌, ◌++◌, ◌⊎◌, inl, inr, Bool-cases, false, Option, none, some,
}
use nautilus_trader_india.Dhan.Json.{Json}
use nautilus_trader_india.Dhan.Exc.{
  Failure, Exc, Result, ok, err, ambiguous, unsendable, bad_leg_name,
}
use nautilus_trader_india.Dhan.Http.{Method, delete, put, write}
use nautilus_trader_india.Dhan.Constants.{is_member}
use nautilus_trader_india.Dhan.Orders.{checked}
use nautilus_trader_india.Dhan.Orders.Correlation.Matching.{IsOneOf, is_member_iff}
use nautilus_trader_india.Dhan.SuperOrders
use nautilus_trader_india.Dhan.SuperOrders.{LegTerms, LegPayload, no_terms, leg_terms, trail}
use nautilus_trader_india.Dhan.ForeverOrders
use nautilus_trader_india.Dhan.Execution.Client.{Env, Client, Request, Body, attempt, send, pure}
use nautilus_trader_india.Dhan.Execution.ForeverOrder.{unless_ambiguous, cancel_forever_order}
use nautilus_trader_india.Dhan.Execution.Cancel.{cancel_super_order_leg, modify_super_order_leg}

-- Nothing is sent and what is wrong with the arguments raised, which `Refuses` says; or one request
-- of the method, the path and a body that fits is sent, no event emitted, and the call raises exactly
-- what the request raised, save that an unknown outcome is not raised.
pub data Direct (env : Env) (c : Client) (m : Method) (path : String) (Fits : Body → Type 0)
    (Refuses : Exc → Type 0) : Result (Unit {0}) × Client → Type 0 where
  refuses : (e : Exc) → Refuses e → Direct env c m path Fits Refuses (err e, c)
  unknown :
      (r : Request) (f : Failure)
      → r ≡ record { method = m; path = path; body = r.body }
      → Fits r.body
      → write env.py m path (env.venue c.sent r) ≡ err (ambiguous f)
      → Direct env c m path Fits Refuses (ok tt, record c { sent = c.sent ++ r ∷ [] })
  raises :
      (r : Request) (e : Exc)
      → r ≡ record { method = m; path = path; body = r.body }
      → Fits r.body
      → write env.py m path (env.venue c.sent r) ≡ err e
      → ((f : Failure) → e ≢ ambiguous f)
      → Direct env c m path Fits Refuses (err e, record c { sent = c.sent ++ r ∷ [] })
  succeeds :
      (r : Request) (b : Json)
      → r ≡ record { method = m; path = path; body = r.body }
      → Fits r.body
      → write env.py m path (env.venue c.sent r) ≡ ok b
      → Direct env c m path Fits Refuses (ok tt, record c { sent = c.sent ++ r ∷ [] })

abbrev pub leg_words : List String
leg_words = "ENTRY_LEG" ∷ "TARGET_LEG" ∷ "STOP_LOSS_LEG" ∷ []

-- The name of the leg is none of the three.
abbrev pub IsBadLeg : String → Exc → Type 0
IsBadLeg leg_name e = (e ≡ unsendable bad_leg_name) × ¬ IsOneOf leg_name leg_words

-- A leg that Dhan knows, and nothing in the body.
abbrev pub IsLegDelete : String → Body → Type 0
IsLegDelete leg_name body = (body ≡ Body.empty) × IsOneOf leg_name leg_words

-- The payload names the order, the client and the leg. The target's carries its price, the stop
-- loss's its own price and a trail that is spelled out, and neither carries more; the entry's all
-- terms.
abbrev pub LegSends : String → LegTerms → LegTerms → Type 0
LegSends leg_name asked sent =
    ((leg_name ≡ "ENTRY_LEG") × (sent ≡ asked))
    ⊎ ((leg_name ≡ "TARGET_LEG") × (sent ≡ record no_terms { target_price = asked.target_price }))
    ⊎ ((leg_name ≡ "STOP_LOSS_LEG")
        × (trail : String) × ((asked.trailing_jump ≡ some trail)
            ⊎ ((asked.trailing_jump ≡ none) × (trail ≡ "0")))
        × (sent ≡ record no_terms {
          stop_loss_price = asked.stop_loss_price;
          trailing_jump = some trail;
        }))

abbrev pub IsLegPut : Env → String → String → LegTerms → Body → Type 0
IsLegPut env order_id leg_name asked body =
    (p : LegPayload) × (body ≡ Body.super_leg p)
    × (p.dhan_client_id ≡ env.client_id)
    × (p.order_id ≡ order_id)
    × (p.leg_name ≡ leg_name)
    × LegSends leg_name asked p.terms

trail-cases :
    (jump : Option String) → (jump ≡ some (trail jump)) ⊎ ((jump ≡ none) × (trail jump ≡ "0"))
unfolding trail
trail-cases none = inr (refl, refl)
trail-cases (some jump) = inl refl

leg_terms-LegSends :
    (leg_name : String) (asked : LegTerms)
    → IsOneOf leg_name leg_words
    → LegSends leg_name asked (leg_terms leg_name asked)
unfolding leg_terms
leg_terms-LegSends leg_name asked (inl e) = rw e (inl (refl, refl))
leg_terms-LegSends leg_name asked (inr (inl e)) = rw e (inr (inl (refl, refl)))
leg_terms-LegSends leg_name asked (inr (inr (inl e))) =
    rw e (inr (inr (refl, trail asked.trailing_jump, trail-cases asked.trailing_jump, refl)))
leg_terms-LegSends leg_name asked (inr (inr (inr m))) = absurd m

module _ (env : Env) (c : Client) where
  module _ (m : Method) (path : String) (Fits : Body → Type 0) (Refuses : Exc → Type 0)
      (body : Body) (fits : Fits body) where
    abbrev request : Request
    request = record { method = m; path = path; body = body }

    settled :
        (out : Result Json)
        → write env.py m path (env.venue c.sent request) ≡ out
        → let c' = record c { sent = c.sent ++ request ∷ [] } in
          Direct env c m path Fits Refuses
            (elim out [ ok b ↦ (ok tt, c') | err e ↦ unless_ambiguous e c' ])
    unfolding unless_ambiguous
    settled (ok b) w = succeeds request b refl fits w
    settled (err (ambiguous f)) w = unknown request f refl fits w
    settled (err e) w = raises request e refl fits w (λ f. cc)

    request-Direct :
        Direct env c m path Fits Refuses
          (attempt (send env m path body) unless_ambiguous (λ _. pure tt) c)
    unfolding send
    request-Direct = settled _ refl

  module _ (order_id leg_name : String) (terms : LegTerms) where
    abbrev leg_path : String
    leg_path =
        str_append "/v2/super/orders"
          (str_append "/" (str_append order_id (str_append "/" leg_name)))

    abbrev order_leg_path : String
    order_leg_path = str_append "/v2/super/orders" (str_append "/" order_id)

    bad_leg : is_member leg_name leg_words ≡ false → IsBadLeg leg_name (unsendable bad_leg_name)
    bad_leg other = (refl, λ m. let known = (is_member_iff leg_name leg_words).1 m in absurd (cc))

    cancel_path-Direct :
        Direct env c delete leg_path
          (IsLegDelete leg_name)
          (IsBadLeg leg_name)
          (cancel_super_order_leg env order_id leg_name c)
    unfolding cancel_super_order_leg SuperOrders.cancel_path checked
    cancel_path-Direct = elim (Bool-cases (is_member leg_name leg_words)) [
      | inl known ↦ rw known (
          request-Direct delete leg_path (IsLegDelete leg_name) (IsBadLeg leg_name) Body.empty
            (refl, (is_member_iff leg_name leg_words).0 known))
      | inr other ↦ rw other (refuses _ (bad_leg other))
    ]

    modify_payload-Direct :
        Direct env c put order_leg_path
          (IsLegPut env order_id leg_name terms)
          (IsBadLeg leg_name)
          (modify_super_order_leg env order_id leg_name terms c)
    unfolding modify_super_order_leg SuperOrders.modify_payload checked
    modify_payload-Direct = elim (Bool-cases (is_member leg_name leg_words)) [
      | inl known ↦ rw known (
          request-Direct put order_leg_path (IsLegPut env order_id leg_name terms)
            (IsBadLeg leg_name) _
            (
              _,
              refl,
              refl,
              refl,
              refl,
              leg_terms-LegSends leg_name terms ((is_member_iff leg_name leg_words).0 known),
            ))
      | inr other ↦ rw other (refuses _ (bad_leg other))
    ]

    -- The three methods that a strategy calls itself send at most one request: a DELETE for the
    -- cancels, a PUT for the modify, each to the path of its order, and of its leg for the cancel of
    -- one; and they emit no event. A leg that is none of the three raises before anything is sent,
    -- and a known one does not. A modify sends the terms of its leg. What the request raised is
    -- raised, save that an unknown outcome is not.
    pub leg_methods-Direct :
        Direct env c delete leg_path
          (IsLegDelete leg_name)
          (IsBadLeg leg_name)
          (cancel_super_order_leg env order_id leg_name c)
        × Direct env c put order_leg_path
            (IsLegPut env order_id leg_name terms)
            (IsBadLeg leg_name)
            (modify_super_order_leg env order_id leg_name terms c)
        × Direct env c delete
            (str_append "/v2/forever/orders" (str_append "/" order_id))
            (λ body. body ≡ Body.empty)
            (λ _. ⊥)
            (cancel_forever_order env order_id c)
    unfolding cancel_forever_order ForeverOrders.cancel_path
    leg_methods-Direct = (
      cancel_path-Direct,
      modify_payload-Direct,
      request-Direct delete _ (λ body. body ≡ Body.empty) (λ _. ⊥) Body.empty refl,
    )
