-- ===== src/Dhan/Http.antt =====
-- nautilus_india/dhan/http.py: reads and writes fail differently.

pub mod Laws
use Prim.Native.String.{◌++◌ as str_append}
use nautilus_trader_india.Prelude.{String, Bool, true, false, if◌then◌else◌}
use nautilus_trader_india.Dhan.Json.{Json, Rendering}
use nautilus_trader_india.Dhan.Exc.{Failure, Result, err, transport_error, ambiguous}
use nautilus_trader_india.Dhan.Errors.{classify}

-- What the HTTP library hands back: it raised `httpx.HTTPError`, or it has a response whose body is
-- JSON or is not. The texts are what the messages quote of each.
pub data Response : Type 0 where
  http_error : String → Response
  not_json : String → Response
  json : Json → Response

pub data Method : Type 0 where
  get post put delete : Method

unfoldable pub method_name : Method → String
method_name Method.get = "GET"
method_name post = "POST"
method_name put = "PUT"
method_name delete = "DELETE"

-- An error that carries a message and nothing else.
unfoldable pub message : String → Failure
message why = record { reason = why; code = ""; error_type = "" }

-- `_answer`: the body is classified whatever the status code was.
unfoldable pub answer : Rendering → Bool → Response → Result Json
unfolding message
answer py ambiguous_on_failure (json body) = classify py body
answer py ambiguous_on_failure (not_json detail) =
    if ambiguous_on_failure
    then err (
        ambiguous (
          message (str_append detail ". We cannot tell whether Dhan acted; ask it what it holds.")))
    else err (transport_error (message detail))
answer py ambiguous_on_failure (http_error why) = err (transport_error (message why))

-- `get`
unfoldable pub read : Rendering → String → Response → Result Json
unfolding message
read py path (http_error why) =
    err
      (transport_error (message (str_append "GET " (str_append path (str_append " failed: " why)))))
read py path response = answer py false response

-- `_write`, for `post`, `put` and `delete`
unfoldable pub write : Rendering → Method → String → Response → Result Json
unfolding message method_name
write py method path (http_error why) = err (
    ambiguous (
      message (
        str_append (method_name method) (
          str_append " " (
            str_append path (
              str_append " did not complete (" (
                str_append why
                  "). The request may have reached Dhan; do not conclude the order was rejected. Ask Dhan what it holds.")))))))
write py method path response = answer py true response
