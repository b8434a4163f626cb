-- ===== src/Ros/SotNode.antt =====
-- ros2/ctrk_ros/src/sot_node.hpp and sot_node.cpp: the lifecycle of `SotNode` and its callbacks. The
-- single-object tracker is an interface, `Facade`.
pub mod Sound
pub mod Cached
pub mod Laws
mod Tests
use mathlib.Core.Option
use custos_tracker.Prelude.{
  ℕ, suc, ◌+◌, Bool, true, false, not, ◌&&◌, ◌||◌, if◌then◌else◌, List, [], ◌∷◌, ◌++◌, Option, none,
  some,
}
use custos_tracker.Float.{Float, ◌≤?◌, nought, one}
use custos_tracker.Types.{BBox, FrameView, SotResult, tracking}
use custos_tracker.Ros.FrameView.{Image, to_frame_view, SotStatus, to_sot_status, idle_status}

-- `SotTracker` as the node uses it; `none` is an exception.
pub record Facade (F P T : Type 0) : Type 0 where
  pub init : FrameView P → BBox F → T → Option T
  pub update : FrameView P → T → Option (SotResult F × T)

-- The parameters that the callbacks read.
pub record Params (F : Type 0) : Type 0 where
  pub reacquire : Bool
  pub init_bbox : Option (BBox F)
  pub dumps : Bool

-- What `on_configure` calls: the parameters, the constructor of the tracker and `enable_reacquire` with a
-- new detector. `none` is an exception.
pub record Host (F T : Type 0) : Type 0 where
  pub declare_params : Option (Params F)
  pub construct : Params F → Option T
  pub enable_reacquire : Params F → T → Option T

-- The primary states of a lifecycle node.
pub data Phase : Type 0 where
  unconfigured : Phase
  inactive : Phase
  active : Phase
  finalized : Phase

-- `SotNode`. `connected` stands for the publisher and the two services, which come and go together;
-- `subscribed` for the subscription to images; `dump` is what an open dump file holds.
pub record SotNode (F P T : Type 0) : Type 0 where
  pub phase : Phase
  pub params : Params F
  pub tracker : Option T
  pub connected : Bool
  pub subscribed : Bool
  pub last_frame : Option (Image P)
  pub pending_init : Option (BBox F)
  pub target_set : Bool
  pub dump : Option (List (BBox F))
  pub frame_no : ℕ
  pub published : List (SotStatus F)

abbrev pub is_active : Phase → Bool
is_active active = true
is_active _ = false

-- The tracker with its detector, if re-acquisition is on.
with_detector : {F T : Type 0} → Host F T → Params F → T → Option T
with_detector host params t = if params.reacquire then host.enable_reacquire params t else some t

module _ {F P T : Type 0} where
  abbrev ready : Params F → T → SotNode F P T → Bool × SotNode F P T
  ready params t s =
      (true, record s { params = params; tracker = some t; connected = true; phase = inactive })

  -- The callbacks answer whether they succeed.
  unfoldable pub on_configure : Host F T → SotNode F P T → Bool × SotNode F P T
  unfolding with_detector
  on_configure host s = elim host.declare_params [
    | none ↦ (false, s)
    | some params ↦ elim (host.construct params) [
      | none ↦ (false, record s { params = params; tracker = none })
      | some t ↦ elim (with_detector host params t) [
        | none ↦ (false, record s { params = params; tracker = some t })
        | some t' ↦ ready params t' s
      ]
    ]
  ]

  -- `opens` says whether the dump file can be opened.
  unfoldable pub on_activate : Bool → SotNode F P T → Bool × SotNode F P T
  on_activate opens s =
      let s' = record s {
        frame_no = 0;
        target_set = false;
        last_frame = none;
        pending_init = s.params.init_bbox;
      } in
      if s.params.dumps && not opens then (false, s') else (
        true,
        record s' {
          dump = if s.params.dumps then some [] else s.dump;
          subscribed = true;
          phase = active;
        },
      )

  unfoldable pub on_deactivate : SotNode F P T → SotNode F P T
  on_deactivate s = record s {
    subscribed = false;
    last_frame = none;
    dump = none;
    phase = inactive;
  }

  unfoldable pub on_cleanup : SotNode F P T → SotNode F P T
  on_cleanup s = record s { tracker = none; connected = false; phase = unconfigured }

  unfoldable pub on_shutdown : SotNode F P T → SotNode F P T
  on_shutdown s = record s {
    subscribed = false;
    tracker = none;
    connected = false;
    phase = finalized;
  }

  unfoldable pub on_reset : SotNode F P T → SotNode F P T
  on_reset s = record s { target_set = false; pending_init = none; last_frame = none }

  unfoldable pub dump_box : BBox F → SotNode F P T → SotNode F P T
  dump_box b s = record s { dump = Option.map (λ lines. lines ++ b ∷ []) s.dump }

  unfoldable pub publish : SotStatus F → SotNode F P T → Option (SotNode F P T)
  publish m s = if s.connected then some (record s { published = s.published ++ m ∷ [] }) else none

module _ {F P T : Type 0} ⦃f : Float F⦄ (facade : Facade F P T) where
  -- A frame with a tracker and the box it starts from.
  unfoldable pub first_frame : FrameView P → BBox F → T → SotNode F P T → Option (SotNode F P T)
  unfolding dump_box publish
  first_frame view box t s = elim (facade.init view box t) [
    | none ↦ none
    | some t' ↦
        publish (to_sot_status (record { box = box; score = one; state = tracking }))
          (dump_box box (record s { tracker = some t'; pending_init = none; target_set = true }))
  ]

  unfoldable pub next_frame : FrameView P → T → SotNode F P T → Option (SotNode F P T)
  unfolding dump_box publish
  next_frame view t s = elim (facade.update view t) [
    | none ↦ none
    | some (result, t') ↦
        publish (to_sot_status result) (dump_box result.box (record s { tracker = some t' }))
  ]

  -- A frame that can be read.
  unfoldable pub on_view : Image P → FrameView P → SotNode F P T → Option (SotNode F P T)
  unfolding publish first_frame next_frame
  on_view msg view s =
      let s' = record s { frame_no = suc s.frame_no } in
      if not s.target_set
      then elim s.pending_init [
        | none ↦ publish idle_status (record s' { last_frame = some msg })
        | some box ↦ elim s.tracker [ none ↦ none | some t ↦ first_frame view box t s' ]
      ]
      else elim s.tracker [ none ↦ none | some t ↦ next_frame view t s' ]

  -- `on_image`; `none` is an exception or a use of an empty pointer.
  unfoldable pub on_image : Image P → SotNode F P T → Option (SotNode F P T)
  unfolding on_view
  on_image msg s = elim (to_frame_view msg) [ none ↦ some s | some view ↦ on_view msg view s ]

  -- `on_set_target`, with whether it accepts. A cached frame could be read when it was cached.
  unfoldable pub on_set_target : BBox F → SotNode F P T → Option (Bool × SotNode F P T)
  unfolding dump_box
  on_set_target box s =
      if not (is_active s.phase) || box.w ≤? nought || box.h ≤? nought
      then some (false, s)
      else elim s.last_frame [
        | none ↦ some (true, record s { pending_init = some box; target_set = false })
        | some msg ↦ elim (to_frame_view msg) [
          | none ↦ none
          | some view ↦ elim s.tracker [
            | none ↦ none
            | some t ↦ elim (facade.init view box t) [
              | none ↦ none
              | some t' ↦ some (
                true,
                record (dump_box box s) {
                  tracker = some t';
                  target_set = true;
                  pending_init = none;
                },
              )
            ]
          ]
        ]
      ]

-- What reaches a node.
pub data Event (F P T : Type 0) : Type 0 where
  configure : Host F T → Event F P T
  activate : Bool → Event F P T
  deactivate : Event F P T
  cleanup : Event F P T
  shutdown : Event F P T
  image : Image P → Event F P T
  set_target : BBox F → Event F P T
  reset : Event F P T

module _ {F P T : Type 0} ⦃f : Float F⦄ (facade : Facade F P T) where
  -- A transition is taken from the state that it starts in, images come to a subscription, and requests
  -- to a service.
  unfoldable pub handle : Event F P T → SotNode F P T → Option (SotNode F P T)
  unfolding on_configure on_activate on_deactivate on_cleanup on_shutdown on_reset on_image
      on_set_target
  handle (configure host) s = some (elim s.phase [
    | unconfigured ↦ (on_configure host s).1
    | inactive ↦ s
    | active ↦ s
    | finalized ↦ s
  ])
  handle (activate opens) s = some (elim s.phase [
    | unconfigured ↦ s
    | inactive ↦ (on_activate opens s).1
    | active ↦ s
    | finalized ↦ s
  ])
  handle deactivate s = some (if is_active s.phase then on_deactivate s else s)
  handle cleanup s =
      some
        (elim s.phase [ unconfigured ↦ s | inactive ↦ on_cleanup s | active ↦ s | finalized ↦ s ])
  handle shutdown s = some (elim s.phase [
    | unconfigured ↦ on_shutdown s
    | inactive ↦ on_shutdown s
    | active ↦ on_shutdown s
    | finalized ↦ s
  ])
  handle (image msg) s = if s.subscribed then on_image facade msg s else some s
  handle (set_target box) s =
      if s.connected then Option.map (λ r. r.1) (on_set_target facade box s) else some s
  handle reset s = some (if s.connected then on_reset s else s)
