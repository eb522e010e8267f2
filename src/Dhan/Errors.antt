-- ===== src/Dhan/Errors.antt =====
-- nautilus_india/dhan/errors.py: the one place where a response body is interpreted.
pub mod Laws
use Prim.Native.String.{◌++◌ as str_append}
use nautilus_trader_india.Prelude.{
  String, Bool, true, false, not, ◌&&◌, ◌||◌, Option, none, some, List, [], ◌∷◌, map, is_some, any,
  codes, lower, is_infix, text_eq, str_eq, if◌then◌else◌,
}
use nautilus_trader_india.Dhan.Json.{
  Json, Items, Fields, Rendering, get, has, truthy, py_str, str_or, join,
}
use nautilus_trader_india.Dhan.Exc.{
  Failure, Exc, Result, ok, err, transport_error, dhan_api_error, ip_not_whitelisted, rate_limited,
}

abbrev pub unspecified : String
unspecified = "unspecified failure"

abbrev pub ip_phrases : List String
ip_phrases = "invalid ip" ∷ "ip not whitelisted" ∷ "not whitelisted" ∷ []

-- `code in _RATE_CODES or error_type in _RATE_TYPES`
unfoldable pub is_rate_limit : Failure → Bool
is_rate_limit f = str_eq f.code "DH-904" || str_eq f.error_type "Rate_Limit"

-- `any(phrase in reason.lower() for phrase in _IP_PHRASES)`
unfoldable pub is_ip_refusal : Failure → Bool
unfolding lower is_infix
is_ip_refusal f = any (λ phrase. is_infix (codes phrase) (lower (codes f.reason))) ip_phrases

abbrev pub ip_advice : String
ip_advice =
    ". Order placement requires a whitelisted static IP; every request will fail the same way until one is configured."

-- `_raise`
unfoldable pub raise_failure : Failure → Exc
raise_failure f =
    if is_rate_limit f
    then rate_limited f
    else if is_ip_refusal f
    then ip_not_whitelisted (record f { reason = str_append f.reason ip_advice })
    else dhan_api_error f

-- `status is not None and str(status).lower() != "success"`
unfoldable pub is_bad_status : Rendering → Option Json → Bool
is_bad_status py none = false
is_bad_status py (some Json.null) = false
is_bad_status py (some status) = not (text_eq (lower (codes (py_str py status))) (codes "success"))

keys : Fields → List String
keys Fields.end = []
keys (Fields.field k v fs) = k ∷ keys fs

messages : Rendering → Fields → List String
messages py Fields.end = []
messages py (Fields.field k v fs) = py_str py v ∷ messages py fs

-- `_from_code_message_map`: the messages, and the codes.
unfoldable pub from_code_message_map : Rendering → Option Json → String × String
unfolding keys messages
from_code_message_map py (some (Json.obj (Fields.field k v fs))) =
    let fields = Fields.field k v fs in (join "; " (messages py fields), join "," (keys fields))
from_code_message_map py _ = ("", "")

-- The three error fields, as both readers take them.
unfoldable pub error_fields : Rendering → Fields → Failure
error_fields py body = record {
  reason = str_or py (get "errorMessage" body) unspecified;
  code = str_or py (get "errorCode" body) "";
  error_type = str_or py (get "errorType" body) "";
}

-- The gateway's own error, which names the path.
unfoldable pub gateway_failure : Rendering → Json → Json → String → Failure
gateway_failure py error path status = record {
  reason = str_append (py_str py error) (
      str_append " for " (
        str_append (py_str py path)
          " -- that path does not exist. This is the gateway answering, not Dhan: check the endpoint against the docs, which have contradicted themselves before."));
  code = status;
  error_type = "GatewayError";
}

-- A failure announced by `status` alone.
unfoldable pub envelope_failure : Rendering → Json → Option Json → Failure
envelope_failure py status payload =
    let (reason, code) = from_code_message_map py payload in
    record {
      reason =
          if str_eq reason ""
          then str_append "Dhan answered status=" (py.repr_of status)
          else reason;
      code = code;
      error_type = py_str py status;
    }

-- `_failure_in_object` once no error field is there and `status` is bad.
unfoldable pub status_failure : Rendering → Json → Fields → Failure
status_failure py status body = elim (get "error" body) [
  | none ↦ envelope_failure py status (get "data" body)
  | some error ↦ elim (get "path" body) [
    | none ↦ envelope_failure py status (get "data" body)
    | some path ↦ gateway_failure py error path (py_str py status)
  ]
]

-- `any(k in body for k in ("errorMessage", "errorCode", "errorType"))`
unfoldable pub has_error_field : Fields → Bool
has_error_field body = has "errorMessage" body || has "errorCode" body || has "errorType" body

-- `_failure_in_object`
unfoldable pub failure_in_object : Rendering → Fields → Option Failure
failure_in_object py body =
    if has_error_field body then some (error_fields py body) else elim (get "status" body) [
      | none ↦ none
      | some status ↦
          if is_bad_status py (some status) then some (status_failure py status body) else none
    ]

-- What `_failure_in_array` reads out of one element.
unfoldable pub failure_in_element : Rendering → Json → Option Failure
failure_in_element py (Json.obj element) =
    if has "errorMessage" element
    then some (error_fields py element)
    else if is_bad_status py (get "status" element)
    then some (record {
      reason = str_or py (get "message" element) unspecified;
      code = str_or py (get "code" element) "";
      error_type = elim (get "status" element) [ none ↦ "" | some status ↦ py_str py status ];
    })
    else none
failure_in_element py _ = none

-- `_failure_in_array`: the first element that fails.
unfoldable pub failure_in_array : Rendering → Items → Option Failure
failure_in_array py Items.nil = none
failure_in_array py (Items.cons v vs) = elim (failure_in_element py v) [
  | none ↦ failure_in_array py vs
  | some f ↦ some f
]

-- The payload of an object that is no failure, from its `status` and its `data`: unwrapped only
-- from a success envelope.
unfoldable pub unwrap : Option Json → Option Json → Fields → Json
unwrap (some (Json.text s)) (some payload) body =
    if str_eq s "success" then payload else Json.obj body
unwrap _ _ body = Json.obj body

abbrev pub refuse_or : Option Failure → Json → Result Json
refuse_or none payload = ok payload
refuse_or (some f) payload = err (raise_failure f)

-- `classify`
unfoldable pub classify : Rendering → Json → Result Json
classify py (Json.arr body) = refuse_or (failure_in_array py body) (Json.arr body)
classify py (Json.obj body) =
    refuse_or (failure_in_object py body) (unwrap (get "status" body) (get "data" body) body)
classify py body = err (
    transport_error (record {
      reason =
          str_append "Dhan answered with JSON that is neither an object nor an array: "
            (py.repr_of body);
      code = "";
      error_type = "";
    }))
