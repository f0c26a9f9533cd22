-- ===== src/Collector.antt =====
-- crates/collector: the receiving end of the phone's datagrams.
pub mod Proto
pub mod Session
pub mod Table
mod Examples
