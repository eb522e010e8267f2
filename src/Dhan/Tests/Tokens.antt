-- ===== src/Dhan/Tests/Tokens.antt =====
-- An access token that expires 86400 seconds after 1970.
use nautilus_trader_india.Prelude.{
  ◌+◌, ◌*◌, ◌%◌, ◌<◌, ◌≡◌, ◌↔◌, refl, pos, Bool, true, false, Text, codes, length, ◌==◌,
  if◌then◌else◌, arith,
}
use nautilus_trader_india.Dhan.Json.{Json, Fields, Number, get}
use nautilus_trader_india.Dhan.Exc.{ok, err, value_error}
use nautilus_trader_india.Dhan.Auth.Tokens.{Decoding, done, token_is_live, default_margin}
use nautilus_trader_india.Dhan.Auth.Tokens.Lives.{Encodes, jwt, token_is_live-until}

abbrev day : Number
day = record { negative = false; coefficient = 86_400; places = 0 }

abbrev fields : Fields
fields = Fields.field "exp" (Json.num day) Fields.end

-- Base64 refuses a text whose length is no multiple of 4.
abbrev decoding : Decoding
decoding = record {
  loads = λ text. if length text % 4 == 0 then ok (Json.obj fields) else err value_error;
  from_timestamp = λ n. ok (pos (n.coefficient * 1_000_000));
}

abbrev payload : Text
payload = codes "eyJleHAiOjg2NDAwfQ"

payload-Encodes : Encodes decoding payload fields
payload-Encodes k small whole = rw whole refl

token_is_live-until_example :
    (live : Bool) × (token_is_live decoding
        (jwt (codes "e30") payload (codes "c2ln"))
        (pos 5)
        default_margin
      ≡ done live)
    × ((live ≡ true) ↔ (5 + default_margin < 86_400 * 1_000_000))
unfolding get
token_is_live-until_example =
    token_is_live-until decoding (codes "e30") payload (codes "c2ln") fields day 86_400 5
      default_margin (omega arith) (omega arith) (omega arith) payload-Encodes refl refl
      (omega arith)
