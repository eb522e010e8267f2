-- ===== src/Dhan/Constants.antt =====
-- nautilus_india/dhan/constants.py: the vocabulary and the endpoints.
pub mod Segments
use nautilus_trader_india.Prelude.{
  ℕ, ℤ, pos, negsuc, String, Bool, Option, none, some, List, [], ◌∷◌, str_eq, ◌==◌, if◌then◌else◌,
  any,
}
use nautilus_trader_india.Core.Symbology.{Exchange, nse, bse, mcx}

abbrev pub orders_path : String
orders_path = "/v2/orders"

abbrev pub trades_path : String
trades_path = "/v2/trades"

abbrev pub order_slicing_path : String
order_slicing_path = "/v2/orders/slicing"

abbrev pub orders_external_path : String
orders_external_path = "/v2/orders/external"

abbrev pub super_orders_path : String
super_orders_path = "/v2/super/orders"

abbrev pub forever_orders_path : String
forever_orders_path = "/v2/forever/orders"

abbrev pub positions_path : String
positions_path = "/v2/positions"

abbrev pub base_url : String
base_url = "https://api.dhan.co"

abbrev pub scrip_master_url : String
scrip_master_url = "https://images.dhan.co/api-data/api-scrip-master-detailed.csv"

abbrev pub market_feed_wss : String
market_feed_wss = "wss://api-feed.dhan.co"

abbrev pub order_update_wss : String
order_update_wss = "wss://api-order-update.dhan.co"

-- The codes of the exchange segments, as the header of the feed has them.
abbrev pub segment_idx : ℕ
segment_idx = 0

abbrev pub segment_nse_eq : ℕ
segment_nse_eq = 1

abbrev pub segment_nse_fno : ℕ
segment_nse_fno = 2

abbrev pub segment_nse_curr : ℕ
segment_nse_curr = 3

abbrev pub segment_bse_eq : ℕ
segment_bse_eq = 4

abbrev pub segment_mcx : ℕ
segment_mcx = 5

abbrev pub segment_bse_curr : ℕ
segment_bse_curr = 7

abbrev pub segment_bse_fno : ℕ
segment_bse_fno = 8

abbrev pub side_buy : String
side_buy = "BUY"

abbrev pub side_sell : String
side_sell = "SELL"

abbrev pub order_type_limit : String
order_type_limit = "LIMIT"

abbrev pub order_type_market : String
order_type_market = "MARKET"

abbrev pub order_type_stop_loss : String
order_type_stop_loss = "STOP_LOSS"

abbrev pub order_type_stop_loss_market : String
order_type_stop_loss_market = "STOP_LOSS_MARKET"

abbrev pub product_cnc : String
product_cnc = "CNC"

abbrev pub product_intraday : String
product_intraday = "INTRADAY"

abbrev pub product_margin : String
product_margin = "MARGIN"

abbrev pub product_mtf : String
product_mtf = "MTF"

abbrev pub product_co : String
product_co = "CO"

abbrev pub product_bo : String
product_bo = "BO"

abbrev pub validity_day : String
validity_day = "DAY"

abbrev pub validity_ioc : String
validity_ioc = "IOC"

abbrev pub leg_entry : String
leg_entry = "ENTRY_LEG"

abbrev pub leg_target : String
leg_target = "TARGET_LEG"

abbrev pub leg_stop_loss : String
leg_stop_loss = "STOP_LOSS_LEG"

abbrev pub order_flag_single : String
order_flag_single = "SINGLE"

abbrev pub order_flag_oco : String
order_flag_oco = "OCO"

-- SEGMENT_NAMES
unfoldable pub segment_names : ℤ → Option String
segment_names (pos n) =
    if n == segment_idx
    then some "IDX_I"
    else if n == segment_nse_eq
    then some "NSE_EQ"
    else if n == segment_nse_fno
    then some "NSE_FNO"
    else if n == segment_nse_curr
    then some "NSE_CURRENCY"
    else if n == segment_bse_eq
    then some "BSE_EQ"
    else if n == segment_mcx
    then some "MCX_COMM"
    else if n == segment_bse_curr
    then some "BSE_CURRENCY"
    else if n == segment_bse_fno
    then some "BSE_FNO"
    else none
segment_names (negsuc n) = none

abbrev pub product_types : List String
product_types =
    product_cnc ∷ product_intraday ∷ product_margin ∷ product_mtf ∷ product_co ∷ product_bo ∷ []

abbrev pub super_product_types : List String
super_product_types = product_cnc ∷ product_intraday ∷ product_margin ∷ product_mtf ∷ []

abbrev pub forever_product_types : List String
forever_product_types = product_cnc ∷ product_mtf ∷ []

abbrev pub amo_times : List String
amo_times = "PRE_OPEN" ∷ "OPEN" ∷ "OPEN_30" ∷ "OPEN_60" ∷ []

abbrev pub leg_names : List String
leg_names = leg_entry ∷ leg_target ∷ leg_stop_loss ∷ []

abbrev pub order_flags : List String
order_flags = order_flag_single ∷ order_flag_oco ∷ []

abbrev pub super_order_types : List String
super_order_types = order_type_limit ∷ order_type_market ∷ []

abbrev pub correlation_id_max_len : ℕ
correlation_id_max_len = 25

-- `value in allowed`
unfoldable pub is_member : String → List String → Bool
is_member value allowed = any (λ a. str_eq a value) allowed

-- SEGMENT_CODES, the reverse of SEGMENT_NAMES.
unfoldable pub segment_codes : String → Option ℤ
segment_codes name =
    if str_eq name "IDX_I"
    then some (pos segment_idx)
    else if str_eq name "NSE_EQ"
    then some (pos segment_nse_eq)
    else if str_eq name "NSE_FNO"
    then some (pos segment_nse_fno)
    else if str_eq name "NSE_CURRENCY"
    then some (pos segment_nse_curr)
    else if str_eq name "BSE_EQ"
    then some (pos segment_bse_eq)
    else if str_eq name "MCX_COMM"
    then some (pos segment_mcx)
    else if str_eq name "BSE_CURRENCY"
    then some (pos segment_bse_curr)
    else if str_eq name "BSE_FNO"
    then some (pos segment_bse_fno)
    else none

-- SEGMENT_EXCHANGE
unfoldable pub segment_exchange : ℕ → Option Exchange
segment_exchange n =
    if any (λ code. n == code)
      (segment_idx ∷ segment_nse_eq ∷ segment_nse_fno ∷ segment_nse_curr ∷ [])
    then some nse
    else if any (λ code. n == code) (segment_bse_eq ∷ segment_bse_curr ∷ segment_bse_fno ∷ [])
    then some bse
    else if n == segment_mcx
    then some mcx
    else none
