-- ===== src/Csid/Timesync.antt =====
-- crates/csid/src/timesync: transmit stamps.
pub mod Address
pub mod Payload
pub mod Guards
pub mod Pairing
mod Examples
pub mod Receiver
pub mod Skew
