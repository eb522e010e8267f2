-- ===== src/Dhan/Execution.antt =====
-- nautilus_india/dhan/execution.py: the sequencing decisions of `DhanExecutionClient`.
pub mod Client
pub mod Submit
pub mod Submission
pub mod Caught
pub mod Submitted
pub mod OrderIds
pub mod OrderList
pub mod ForeverOrder
pub mod Cancel
pub mod Modify
pub mod Commands
pub mod Shut
pub mod Latch
pub mod Lookup
pub mod Update
pub mod Books
pub mod Reports
pub mod Stream
pub mod Lifecycle
