-- ===== src/Tests.antt =====
-- Runs of the definitions at concrete inputs, and examples of the theorems.
pub mod Tracker
pub mod Ranges
pub mod Frames
pub mod Receiver
pub mod Repair
pub mod Sender
pub mod PreMetadata
pub mod Paths
pub mod Server
pub mod EndToEnd
pub mod Journal
pub mod Query
