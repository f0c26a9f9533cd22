-- ===== src/Csid/Fleet.antt =====
-- crates/csid/src/fleet: the health of a fleet of nodes.
pub mod Clock
