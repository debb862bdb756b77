-- ===== src/Config/Laws.antt =====
-- hev-config.c: what every document leaves in the settings.
mod Ranges
pub mod Bounds
pub mod Fits
pub mod Ports
pub mod Serves
