-- ===== src/Examples.antt =====
-- Runs of the code on concrete inputs.
pub mod Wire
pub mod Values
pub mod Memory
pub mod Packets
pub mod Delivery
pub mod Connections
pub mod Streams
pub mod Servers
mod Answers
mod Openings
pub mod Bindings
pub mod Texts
pub mod Shortened
