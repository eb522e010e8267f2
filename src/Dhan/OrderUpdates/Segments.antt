-- ===== src/Dhan/OrderUpdates/Segments.antt =====
-- The stream and the scrip master agree on segments.
use nautilus_trader_india.Prelude.{
  ◌≡◌, refl, false, arith, Text, codes, text_eq, text_eq_sound, Bool-cases, inl, inr,
}
use nautilus_trader_india.Dhan.Constants.{segment_codes}
use nautilus_trader_india.Dhan.OrderUpdates.{is_pair, rest_segment_name, code_named, segment_code}
use nautilus_trader_india.Dhan.Providers.Values.{segment_code_for}

-- The two names of a segment on the order-update stream give the same code of the feed as the two
-- names of the scrip master, for every pair of texts, those without a code included.
pub segment_code-agrees :
    (exchange segment : Text) → segment_code exchange segment ≡ segment_code_for exchange segment
unfolding segment_code code_named rest_segment_name segment_code_for is_pair segment_codes text_eq
segment_code-agrees exchange segment = elim (Bool-cases (text_eq segment (codes "D"))) [
  | inl d ↦
      let c : text_eq segment (codes "C") ≡ false = rw (text_eq_sound segment (codes "D") d) refl in
      ground arith
  | inr d ↦ ground arith
]
