-- ===== src/Dhan/Binary.antt =====
-- nautilus_india/dhan/binary.py: the binary market feed and the 20-level depth feed.
pub mod Loop
pub mod Bytes
pub mod Widths
pub mod Packet
pub mod Feed
pub mod Depth20
pub mod Passes
pub mod Price
