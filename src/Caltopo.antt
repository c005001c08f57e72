-- ===== src/Caltopo.antt =====
-- The CalTopo side of the bridge, internal/caltopo.
pub mod Filter
pub mod Worker
pub mod Adapter
