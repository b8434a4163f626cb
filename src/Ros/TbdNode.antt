-- ===== src/Ros/TbdNode.antt =====
-- ros2/ctrk_ros/src/tbd_node.cpp and `to_detections` of msg_convert.cpp: the images that reach `TbdNode`.
-- The multi-object tracker is an argument; `none` is an exception of it.
pub mod Laws
pub mod Lifecycle
mod Tests
use mathlib.Core.Option
use custos_tracker.Prelude.{
  ℕ, suc, ◌+◌, ℤ, Bool, ◌&&◌, ◌||◌, if◌then◌else◌, List, [], ◌∷◌, ◌++◌, map, keep, Option, none,
  some,
}
use custos_tracker.Float.{Float}
use custos_tracker.Types.{BBox, FrameView, Track, cx, cy, is_confirmed, is_lost}
use custos_tracker.Ros.FrameView.{Image, to_frame_view}

-- `vision_msgs::msg::Detection2D` as the node fills it; numbers are not printed.
pub record Detection2d (F : Type 0) : Type 0 where
  pub id : ℕ
  pub center_x : F
  pub center_y : F
  pub size_x : F
  pub size_y : F
  pub class_id : ℤ
  pub score : F

-- A line of the dump file.
pub record Row (F : Type 0) : Type 0 where
  pub frame : ℕ
  pub track_id : ℕ
  pub box : BBox F
  pub confidence : F

-- `TbdNode` while it is active. `dump` is what an open dump file holds.
pub record TbdNode (F T : Type 0) : Type 0 where
  pub publish_lost : Bool
  pub tracker : Option T
  pub connected : Bool
  pub dump : Option (List (Row F))
  pub frame_no : ℕ
  pub published : List (List (Detection2d F))

module _ {F : Type 0} ⦃f : Float F⦄ where
  detection_of : Track F → Detection2d F
  detection_of t = record {
    id = t.id;
    center_x = cx t.box;
    center_y = cy t.box;
    size_x = t.box.w;
    size_y = t.box.h;
    class_id = t.class_id;
    score = t.score;
  }

  unfoldable pub to_detections : List (Track F) → Bool → List (Detection2d F)
  unfolding detection_of
  to_detections [] include_lost = []
  to_detections (t ∷ ts) include_lost =
      let rest = to_detections ts include_lost in
      if is_confirmed t.state || include_lost && is_lost t.state
      then detection_of t ∷ rest
      else rest

-- The lines of a frame.
unfoldable pub rows : {F : Type 0} → ℕ → List (Track F) → List (Row F)
rows n [] = []
rows n (t ∷ ts) =
    let rest = rows n ts in
    if is_confirmed t.state
    then record { frame = n; track_id = t.id; box = t.box; confidence = t.score } ∷ rest
    else rest

module _ {F P T : Type 0} ⦃f : Float F⦄
    (update : FrameView P → T → Option (List (Track F) × T)) where
  -- A frame with the tracks that the tracker answers.
  unfoldable pub send : List (Track F) → T → TbdNode F T → Option (TbdNode F T)
  send tracks t s =
      if s.connected
      then some (record s {
        tracker = some t;
        published = s.published ++ to_detections tracks s.publish_lost ∷ [];
        dump = Option.map (λ lines. lines ++ rows s.frame_no tracks) s.dump;
      })
      else none

  -- `on_image`; `none` is an exception or a use of an empty pointer.
  unfoldable pub on_image : Image P → TbdNode F T → Option (TbdNode F T)
  unfolding send
  on_image msg s = elim (to_frame_view msg) [
    | none ↦ some s
    | some view ↦ elim s.tracker [
      | none ↦ none
      | some t ↦ elim (update view t) [
        | none ↦ none
        | some (tracks, t') ↦ send tracks t' (record s { frame_no = suc s.frame_no })
      ]
    ]
  ]

  unfoldable pub images : List (Image P) → TbdNode F T → Option (TbdNode F T)
  unfolding on_image
  images [] s = some s
  images (msg ∷ msgs) s = elim (on_image msg s) [ none ↦ none | some s' ↦ images msgs s' ]
