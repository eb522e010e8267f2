-- ===== src/Dhan/Tests/Answers.antt =====
-- Answers of the venue.
use nautilus_trader_india.Prelude.{
  ◌≡◌, ◌⊎◌, ◌↔◌, refl, true, false, some, text_eq, lower, String, Option,
}
use nautilus_trader_india.Dhan.Json.{Json, Items, Fields, get, py_str}
use nautilus_trader_india.Dhan.Exc.{Failure, ok, err, transport_error}
use nautilus_trader_india.Dhan.Errors.{
  classify, has_error_field, is_bad_status, failure_in_object, unwrap,
}
use nautilus_trader_india.Dhan.Errors.Laws.{
  Raises, AllClean, is_container, classify_array, classify_object, classify_refusals,
}
use nautilus_trader_india.Dhan.Tests.Fixtures.{py, acknowledged}

abbrev refused_ip : Items
refused_ip =
    Items.cons (Json.obj (Fields.field "errorMessage" (Json.text "Invalid IP") Fields.end))
      Items.nil

classify_array_example :
    (classify py (Json.arr refused_ip) ≡ ok (Json.arr refused_ip))
    ↔ ((Json.arr refused_ip ≡ Json.arr refused_ip) × AllClean py refused_ip)
classify_array_example = classify_array py refused_ip (Json.arr refused_ip)

abbrev envelope : Fields
envelope = Fields.field "status" (Json.text "success") (Fields.field "data" acknowledged Fields.end)

envelope-ok : classify py (Json.obj envelope) ≡ ok acknowledged
unfolding classify failure_in_object has_error_field get is_bad_status text_eq lower py_str unwrap
envelope-ok = refl

classify_object_example :
    (has_error_field envelope ≡ false)
    × (is_bad_status py (get "status" envelope) ≡ false)
    × ((acknowledged ≡ Json.obj envelope)
        ⊎ ((get "status" envelope ≡ some (Json.text "success"))
            × (get "data" envelope ≡ some acknowledged)))
classify_object_example = classify_object py envelope acknowledged envelope-ok

null-err : (f : Failure) × (classify py Json.null ≡ err (transport_error f))
unfolding classify
null-err = (_, refl)

classify_refusals_example :
    ((is_container Json.null ≡ false)
      × ((g : Failure) × (transport_error null-err.0 ≡ transport_error g)))
    ⊎ ((is_container Json.null ≡ true) × ((f : Failure) × Raises f (transport_error null-err.0)))
classify_refusals_example = classify_refusals py Json.null (transport_error null-err.0) null-err.1

abbrev yes : Option String
yes = some "true"
