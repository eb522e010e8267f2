-- ===== src/Dhan/Errors/Laws.antt =====
-- What `classify` answers, against a description of failing bodies that does not run the readers.
use nautilus_trader_india.Prelude.{
  ◌≡◌, ◌≢◌, refl, ◌↔◌, ◌⊎◌, inl, inr, Bool, true, false, Option, none, some, arith, ap, subst,
  str_eq, eq_iff, Bool-cases,
}
use nautilus_trader_india.Dhan.Json.{Json, Items, Fields, Rendering, get, has}
use nautilus_trader_india.Dhan.Exc.{
  Failure, Exc, Result, ok, err, transport_error, ambiguous, dhan_api_error, ip_not_whitelisted,
  rate_limited, is_dhan_error,
}
use nautilus_trader_india.Dhan.Errors.{
  classify, refuse_or, raise_failure, is_rate_limit, is_ip_refusal, is_bad_status, failure_in_array,
  failure_in_element, failure_in_object, has_error_field, unwrap,
}

-- An element of an array that carries no failure.
pub data IsClean (py : Rendering) : Json → Type 0 where
  not_object : (v : Json) → ((fs : Fields) → v ≢ Json.obj fs) → IsClean py v
  quiet :
      (fs : Fields)
      → has "errorMessage" fs ≡ false
      → is_bad_status py (get "status" fs) ≡ false
      → IsClean py (Json.obj fs)

abbrev pub AllClean : Rendering → Items → Type 0
AllClean py Items.nil = Unit
AllClean py (Items.cons v vs) = IsClean py v × AllClean py vs

-- Which outcome a failure is raised as: a rate limit goes before an IP refusal.
pub data Raises (f : Failure) : Exc → Type 0 where
  limited : is_rate_limit f ≡ true → Raises f (rate_limited f)
  not_whitelisted :
      (g : Failure)
      → is_rate_limit f ≡ false
      → is_ip_refusal f ≡ true
      → g.code ≡ f.code
      → g.error_type ≡ f.error_type
      → Raises f (ip_not_whitelisted g)
  declined : is_rate_limit f ≡ false → is_ip_refusal f ≡ false → Raises f (dhan_api_error f)

Raises-ne-ambiguous : {f g : Failure} {e : Exc} → Raises f e → e ≢ ambiguous g
Raises-ne-ambiguous (limited _) h = cc
Raises-ne-ambiguous (not_whitelisted _ _ _ _ _) h = cc
Raises-ne-ambiguous (declined _ _) h = cc

Raises-is_dhan_error : {f : Failure} {e : Exc} → Raises f e → is_dhan_error e ≡ true
unfolding is_dhan_error
Raises-is_dhan_error (limited _) = refl
Raises-is_dhan_error (not_whitelisted _ _ _ _ _) = refl
Raises-is_dhan_error (declined _ _) = refl

-- An object or an array, the two shapes that carry an answer.
abbrev pub is_container : Json → Bool
is_container (Json.arr _) = true
is_container (Json.obj _) = true
is_container _ = false

pub raise_failure-Raises : (f : Failure) → Raises f (raise_failure f)
unfolding raise_failure
raise_failure-Raises f = elim (Bool-cases (is_rate_limit f)) [
  | inl r ↦ rw r (limited r)
  | inr r ↦ elim (Bool-cases (is_ip_refusal f)) [
    | inl i ↦ rw (r, i) (not_whitelisted _ r i refl refl)
    | inr i ↦ rw (r, i) (declined r i)
  ]
]

module _ (py : Rendering) where
  failure_in_element-IsClean : (v : Json) → failure_in_element py v ≡ none → IsClean py v
  unfolding failure_in_element
  failure_in_element-IsClean (Json.obj fs) h = quiet fs (ground arith) (ground arith)
  failure_in_element-IsClean _ h = not_object _ (λ fs e. cc)

  none_of_IsClean : {v : Json} → IsClean py v → failure_in_element py v ≡ none
  unfolding failure_in_element
  none_of_IsClean (quiet fs m s) = ground arith
  none_of_IsClean (not_object Json.null h) = refl
  none_of_IsClean (not_object (Json.obj fs) h) = absurd (h fs refl)
  none_of_IsClean (not_object _ h) = refl

  failure_in_array-AllClean : (vs : Items) → failure_in_array py vs ≡ none → AllClean py vs
  unfolding failure_in_array
  failure_in_array-AllClean Items.nil h = tt
  failure_in_array-AllClean (Items.cons v vs) h =
      (failure_in_element-IsClean v (ground arith), failure_in_array-AllClean vs (ground arith))

  none_of_AllClean : (vs : Items) → AllClean py vs → failure_in_array py vs ≡ none
  unfolding failure_in_array
  none_of_AllClean Items.nil h = refl
  none_of_AllClean (Items.cons v vs) h =
      ground (arith, none_of_IsClean h.0, none_of_AllClean vs h.1)

  -- A bare array is handed back, whole and unchanged, exactly when no element is an object that
  -- carries an `errorMessage` or a status other than success.
  pub classify_array :
      (vs : Items) (v : Json)
      → (classify py (Json.arr vs) ≡ ok v) ↔ ((v ≡ Json.arr vs) × AllClean py vs)
  unfolding classify
  classify_array vs v = (
    λ h. (ground arith, failure_in_array-AllClean vs (ground arith)),
    λ h. ground (arith, none_of_AllClean vs h.1),
  )

  unwrap-cases :
      (status payload : Option Json) (fs : Fields)
      → let v = unwrap status payload fs in
        (v ≡ Json.obj fs) ⊎ ((status ≡ some (Json.text "success")) × (payload ≡ some v))
  unfolding unwrap
  unwrap-cases (some (Json.text s)) (some d) fs = elim (Bool-cases (str_eq s "success")) [
    | inl e ↦ rw e (inr (ap (λ t. some (Json.text t)) ((eq_iff s "success").0 e), refl))
    | inr n ↦ rw n (inl refl)
  ]
  unwrap-cases _ _ fs = inl refl

  no_failure :
      (fs : Fields)
      → failure_in_object py fs ≡ none
      → (has_error_field fs ≡ false) × (is_bad_status py (get "status" fs) ≡ false)
  unfolding failure_in_object is_bad_status
  no_failure fs h = ground arith

  -- An object is accepted only with no error field and no bad status. What comes back is the
  -- object itself, or the `data` of an envelope that says `success`.
  pub classify_object :
      (fs : Fields) (v : Json)
      → classify py (Json.obj fs) ≡ ok v
      → (has_error_field fs ≡ false)
        × (is_bad_status py (get "status" fs) ≡ false)
        × ((v ≡ Json.obj fs)
            ⊎ ((get "status" fs ≡ some (Json.text "success")) × (get "data" fs ≡ some v)))
  unfolding classify
  classify_object fs v h =
      let (quiet_fields, quiet_status) = no_failure fs (ground arith) in
      let e : v ≡ unwrap (get "status" fs) (get "data" fs) fs = ground arith in
      (quiet_fields, quiet_status, rw e (unwrap-cases (get "status" fs) (get "data" fs) fs))

  refuse_or-Raises :
      (o : Option Failure) (v : Json) (e : Exc) → refuse_or o v ≡ err e → (f : Failure) × Raises f e
  refuse_or-Raises none v e h = absurd (cc)
  refuse_or-Raises (some f) v e h =
      (f, subst (λ x. Raises f x) (ground arith) (raise_failure-Raises f))

  transport_of :
      {g : Failure} {e : Exc}
      → ◌≡◌ {A = Result Json} (err (transport_error g)) (err e)
      → (g' : Failure) × (e ≡ transport_error g')
  transport_of {g = g} h = (g, cc)

  -- What `classify` raises: a `TransportError` for a body that is neither an object nor an array,
  -- and for any other body a rate limit, an IP refusal or a definitive refusal.
  pub classify_refusals :
      (body : Json) (e : Exc)
      → classify py body ≡ err e
      → ((is_container body ≡ false) × ((g : Failure) × (e ≡ transport_error g)))
        ⊎ ((is_container body ≡ true) × ((f : Failure) × Raises f e))
  unfolding classify
  classify_refusals (Json.arr vs) e h = inr (refl, refuse_or-Raises _ _ e h)
  classify_refusals (Json.obj fs) e h = inr (refl, refuse_or-Raises _ _ e h)
  classify_refusals _ e h = inl (refl, transport_of h)

  -- A body was read, so its reading is never reported as an unknown outcome.
  pub classify-ne-ambiguous : (body : Json) (f : Failure) → classify py body ≢ err (ambiguous f)
  classify-ne-ambiguous body f h = elim (classify_refusals body (ambiguous f) h) [
    | inl (_, (g, e)) ↦ cc
    | inr (_, (g, r)) ↦ Raises-ne-ambiguous r refl
  ]

  -- What `classify` raises is always a `DhanError`.
  pub classify-is_dhan_error :
      (body : Json) (e : Exc) → classify py body ≡ err e → is_dhan_error e ≡ true
  unfolding is_dhan_error
  classify-is_dhan_error body e h = elim (classify_refusals body e h) [
    | inl (_, (g, t)) ↦ rw t refl
    | inr (_, (f, r)) ↦ Raises-is_dhan_error r
  ]
