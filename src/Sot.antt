-- ===== src/Sot.antt =====
-- core/include/ctrk/sot.hpp and core/src/sot/sot_tracker.cpp: the single-object tracker.
pub mod Config
pub mod World
pub mod Candidate
pub mod Update
pub mod Nano
pub mod Mosse
