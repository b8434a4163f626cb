-- ===== src/Ros/FrameView.antt =====
-- ros2/ctrk_ros/src/frame_view.hpp, and the part of msg_convert.cpp about one target.
use custos_tracker.Prelude.{
  ℕ, pos, negsuc, ℤ, ◌+ℤ◌, ◌*ℤ◌, ◌-◌, ◌%◌, ◌^◌, Bool, ltb, if◌then◌else◌, Option, none, some,
}
use custos_tracker.Types.{BBox, FrameView, SotResult, SotState, tracking, unstable, lost, bgr8}

-- `sensor_msgs::msg::Image`. `bgr` says whether the encoding is "bgr8"; the sizes are of 32 bits.
pub record Image (P : Type 0) : Type 0 where
  pub bgr : Bool
  pub bytes : Option P
  pub width : ℕ
  pub height : ℕ
  pub step : ℕ
  pub sec : ℤ
  pub nanosec : ℕ

-- The cast of an unsigned number of 32 bits to `int`.
abbrev pub to_int : ℕ → ℤ
to_int n = let u = n % 2 ^ 32 in if ltb u (2 ^ 31) then pos u else negsuc (2 ^ 32 - u - 1)

unfoldable pub stamp_to_ns : ℤ → ℕ → ℤ
stamp_to_ns sec nanosec = sec *ℤ pos 1000000000 +ℤ pos nanosec

abbrev pub view_of : {P : Type 0} → Image P → FrameView P
view_of img = record {
  pixels = img.bytes;
  width = to_int img.width;
  height = to_int img.height;
  stride_bytes = to_int img.step;
  fmt = bgr8;
  t_ns = stamp_to_ns img.sec img.nanosec;
}

unfoldable pub to_frame_view : {P : Type 0} → Image P → Option (FrameView P)
to_frame_view img = if img.bgr then some (view_of img) else none

-- The state of a `SotStatus` message.
pub data Code : Type 0 where
  state_idle : Code
  state_tracking : Code
  state_unstable : Code
  state_lost : Code

-- `SotStatus` but for its header; an idle one has no box.
pub record SotStatus (F : Type 0) : Type 0 where
  pub code : Code
  pub target : Option (BBox F × F)

abbrev pub code_of : SotState → Code
code_of tracking = state_tracking
code_of unstable = state_unstable
code_of lost = state_lost

unfoldable pub to_sot_status : {F : Type 0} → SotResult F → SotStatus F
to_sot_status r = record { code = code_of r.state; target = some (r.box, r.score) }

unfoldable pub idle_status : {F : Type 0} → SotStatus F
idle_status = record { code = state_idle; target = none }
