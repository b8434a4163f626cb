-- ===== src/Geometry.antt =====
-- core/src/common/geometry.hpp and geometry.cpp.
pub mod Boxes
pub mod Nms
