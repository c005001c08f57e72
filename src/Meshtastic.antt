-- ===== src/Meshtastic.antt =====
-- The serial transport of internal/meshtastic.
pub mod Framer
pub mod Serial
