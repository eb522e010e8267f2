-- ===== src/Dhan/Orders.antt =====
-- nautilus_india/dhan/orders.py, the request half: payloads out. The half that reads rows back is
-- in Orders/Reports.
pub mod Units
pub mod Correlation
pub mod Payload
pub mod Times
pub mod Reports
pub mod Echo
pub use Payload.{PlacePayload, ModifyPayload}
unfoldable pub use Payload.{
  order_type_for, validity_for, side_name, segment_name, checked, place_payload, modify_payload,
}
unfoldable pub use Units.{units_for, lots_for}
unfoldable pub use Correlation.{correlation_id, client_order_id_for}
