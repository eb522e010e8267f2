-- ===== src/Dhan/Config.antt =====
-- nautilus_india/dhan/config.py: the two switches that arm submission.
use nautilus_trader_india.Prelude.{
  ◌≡◌, ◌↔◌, String, Bool, true, false, not, Option, none, some, List, [], ◌∷◌, ◌++◌, str_eq, eq_iff,
  arith, if◌then◌else◌,
}
use nautilus_trader_india.Dhan.Constants.{base_url, scrip_master_url, product_intraday}

-- `DhanDataClientConfig`
pub record DataConfig : Type 0 where
  pub client_id : Option String
  pub access_token : Option String
  pub base_url : String
  pub scrip_master_url : String

pub record ExecConfig : Type 0 where
  pub live_orders : Bool
  pub product_type : String
  pub slice_over_freeze_limit : Bool
  pub after_market_order : Bool
  pub amo_time : String

-- What the fields are where nothing is set.
abbrev pub data_defaults : DataConfig
data_defaults = record {
  client_id = none;
  access_token = none;
  base_url = base_url;
  scrip_master_url = scrip_master_url;
}

abbrev pub exec_defaults : ExecConfig
exec_defaults = record {
  live_orders = false;
  product_type = product_intraday;
  slice_over_freeze_limit = false;
  after_market_order = false;
  amo_time = "OPEN";
}

-- What a refusal names as missing.
pub data Switch : Type 0 where
  config_flag environment_variable : Switch

-- `env.get(LIVE_ORDERS_ENV) != LIVE_ORDERS_VALUE`, on the variable's value.
unfoldable pub is_unset : Option String → Bool
is_unset none = true
is_unset (some value) = not (str_eq value "1")

-- `submission_refusal`: the switches that are missing, or `none` where both are set.
unfoldable pub submission_refusal : ExecConfig → Option String → Option (List Switch)
unfolding is_unset
submission_refusal config live_orders_env =
    let missing : List Switch =
      (if not config.live_orders then config_flag ∷ [] else [])
      ++ (if is_unset live_orders_env then environment_variable ∷ [] else []) in
    elim missing [ [] ↦ none | s ∷ rest ↦ some (s ∷ rest) ]

-- Submission is allowed exactly when the configuration says `live_orders` and the environment
-- variable is the text 1.
pub submission_refusal-none :
    (config : ExecConfig) (env : Option String)
    → (submission_refusal config env ≡ none) ↔ ((config.live_orders ≡ true) × (env ≡ some "1"))
unfolding submission_refusal
submission_refusal-none config none = ground arith
submission_refusal-none config (some value) = ground (arith, eq_iff value "1")
