-- ===== src/Csid.antt =====
-- crates/csid: the capture daemon.
pub mod Timesync
pub mod Inject
pub mod Caps
pub mod Census
pub mod Ble
pub mod Util
pub mod Airtime
pub mod Sinks
pub mod Fleet
pub mod Source
mod Examples
