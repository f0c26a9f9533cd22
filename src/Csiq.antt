-- ===== src/Csiq.antt =====
-- crates/csiq: the CSIQ interchange format.
pub mod Error
pub mod Width
pub mod Bandwidth
pub mod Modulation
pub mod Record
pub mod RateFlags
pub mod Tlv
pub mod Stream
pub mod Container
pub mod Live
pub mod Raw
pub mod Unwrap
mod Examples
