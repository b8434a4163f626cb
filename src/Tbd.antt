-- ===== src/Tbd.antt =====
-- core/include/ctrk/tbd.hpp and core/src/tbd: tracking by detection.
pub mod Config
pub mod Assoc
pub mod Tracker
pub mod Multi
pub mod Gmc
