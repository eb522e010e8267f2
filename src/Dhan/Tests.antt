-- ===== src/Dhan/Tests.antt =====
-- The theorems at concrete inputs.
pub mod Fixtures
mod Submissions
mod Requests
mod Answers
mod Payloads
mod Frames
mod Sessions
mod Echoes
mod Ticks
mod Tokens
mod Updates
mod Stamps
mod Reports
mod Masters
mod Legs
