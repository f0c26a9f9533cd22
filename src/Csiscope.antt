-- ===== src/Csiscope.antt =====
-- crates/csiscope: the console that watches a capture.
pub mod Class
pub mod Ring
pub mod Ingest
mod Examples
