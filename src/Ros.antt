-- ===== src/Ros.antt =====
-- The ROS nodes of ros2/ctrk_ros/src.
pub mod FrameView
pub mod SotNode
pub mod TbdNode
pub mod Params
pub mod Player
