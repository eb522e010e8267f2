-- ===== src/Core.antt =====
-- The package nautilus_india/core.
pub mod Date
pub mod Lots
pub mod Symbology
pub mod Calendar
pub mod Instruments
pub mod Fees
pub mod Margin
mod Tests
