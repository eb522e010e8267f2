-- ===== src/Dhan/OrderUpdates/Login.antt =====
-- The login of nautilus_india/dhan/order_updates.py: what is sent, and what is logged of it.
use Prim.Native.String.{◌++◌ as str_append}
use nautilus_trader_india.Prelude.{String, false}
use nautilus_trader_india.Dhan.Json.{Json, Number, end, field, Rendering}

-- LOGIN_MESSAGE_CODE
abbrev pub login_message_code : Number
login_message_code = record { negative = false; coefficient = 42; places = 0 }

-- `auth_message`
unfoldable pub auth_message : String → String → Json
auth_message client_id token =
    let login =
      field "MsgCode" (Json.num login_message_code)
        (field "ClientId" (Json.text client_id) (field "Token" (Json.text token) end)) in
    Json.obj (field "LoginReq" (Json.obj login) (field "UserType" (Json.text "SELF") end))

-- `redacted_auth_message`, which takes the token and does not use it.
unfoldable pub redacted_auth_message : Rendering → String → String → String
redacted_auth_message py client_id token =
    str_append "LoginReq(MsgCode=42, ClientId="
      (str_append (py.repr_of (Json.text client_id)) ", Token=<redacted>) UserType='SELF'")
