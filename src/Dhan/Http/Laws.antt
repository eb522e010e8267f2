-- ===== src/Dhan/Http/Laws.antt =====
-- When the outcome of a request is unknown, and when it is only a failed read.
use nautilus_trader_india.Prelude.{String, ◌≡◌, ◌≢◌, refl, ◌↔◌, Bool, true, false, arith}
use nautilus_trader_india.Dhan.Json.{Rendering}
use nautilus_trader_india.Dhan.Exc.{Failure, Exc, err, transport_error, ambiguous, is_dhan_error}
use nautilus_trader_india.Dhan.Errors.Laws.{classify-ne-ambiguous, classify-is_dhan_error}
use nautilus_trader_india.Dhan.Http.{
  Response, http_error, not_json, json, Method, read, write, answer,
}

-- No JSON came back: the library raised, or the body could not be parsed.
abbrev pub is_unread : Response → Bool
is_unread (json _) = false
is_unread _ = true

module _ (py : Rendering) (path : String) where
  -- A write is ambiguous exactly when no JSON came back, whatever the method.
  pub write_ambiguous :
      (m : Method) (r : Response)
      → ((f : Failure) × (write py m path r ≡ err (ambiguous f))) ↔ (is_unread r ≡ true)
  unfolding write answer
  write_ambiguous m (http_error why) = (λ h. refl, λ h. (_, refl))
  write_ambiguous m (not_json why) = (λ h. refl, λ h. (_, refl))
  write_ambiguous m (json body) =
      (λ (f, e). absurd (classify-ne-ambiguous py body f e), λ h. absurd (cc))

  -- A read for which no JSON came back is a `TransportError`.
  pub read_unread :
      (r : Response)
      → is_unread r ≡ true
      → (f : Failure) × (read py path r ≡ err (transport_error f))
  unfolding read answer
  read_unread (http_error why) h = (_, refl)
  read_unread (not_json why) h = (_, refl)
  read_unread (json body) h = absurd (cc)

  -- A read is never ambiguous, whatever came back.
  pub read-ne-ambiguous : (r : Response) (f : Failure) → read py path r ≢ err (ambiguous f)
  unfolding read answer
  read-ne-ambiguous (http_error why) f e = cc
  read-ne-ambiguous (not_json why) f e = cc
  read-ne-ambiguous (json body) f e = classify-ne-ambiguous py body f e

  -- Whatever a write raises is a `DhanError`.
  pub write-is_dhan_error :
      (m : Method) (r : Response) (e : Exc) → write py m path r ≡ err e → is_dhan_error e ≡ true
  unfolding write answer is_dhan_error
  write-is_dhan_error m (http_error why) e h = ground arith
  write-is_dhan_error m (not_json why) e h = ground arith
  write-is_dhan_error m (json body) e h = classify-is_dhan_error py body e h
