-- ===== src/Ros/TbdNode/Lifecycle.antt =====
-- ros2/ctrk_ros/src/tbd_node.hpp and tbd_node.cpp: the lifecycle of `TbdNode`, around its handler of images.
pub mod Laws
mod Tests
use mathlib.Core.Option
use custos_tracker.Prelude.{
  ℕ, Bool, true, false, not, ◌&&◌, if◌then◌else◌, List, [], ◌∷◌, Option, none, some,
}
use custos_tracker.Float.{Float}
use custos_tracker.Types.{FrameView, Track}
use custos_tracker.Ros.FrameView.{Image}
use custos_tracker.Ros.SotNode.{Phase, unconfigured, inactive, active, finalized, is_active}
use custos_tracker.Ros.TbdNode.{TbdNode, on_image}

-- The parameters that the callbacks read.
pub record Settings : Type 0 where
  pub lost_too : Bool
  pub dumps : Bool

-- What `on_configure` calls: the parameters and the constructor of the tracker. `none` is an exception.
pub record Maker (T : Type 0) : Type 0 where
  pub declare_params : Option Settings
  pub construct : Settings → Option T

-- `TbdNode` with its state in the lifecycle; `subscribed` stands for the subscription to images.
pub record Managed (F T : Type 0) : Type 0 where
  pub phase : Phase
  pub dumps : Bool
  pub subscribed : Bool
  pub node : TbdNode F T

-- What reaches a node.
pub data Event (P T : Type 0) : Type 0 where
  configure : Maker T → Event P T
  activate : Bool → Event P T
  deactivate : Event P T
  cleanup : Event P T
  shutdown : Event P T
  image : Image P → Event P T

module _ {F T : Type 0} where
  -- The transitions answer whether they succeed.
  unfoldable pub on_configure : Maker T → Managed F T → Bool × Managed F T
  on_configure maker s = elim maker.declare_params [
    | none ↦ (false, s)
    | some p ↦ elim (maker.construct p) [
      | none ↦ (
        false,
        record s {
          dumps = p.dumps;
          node = record s.node { publish_lost = p.lost_too; tracker = none };
        },
      )
      | some t ↦ (
        true,
        record s {
          phase = inactive;
          dumps = p.dumps;
          node = record s.node { publish_lost = p.lost_too; tracker = some t; connected = true };
        },
      )
    ]
  ]

  -- `opens` says whether the dump file can be opened.
  unfoldable pub on_activate : Bool → Managed F T → Bool × Managed F T
  on_activate opens s =
      if s.dumps && not opens
      then (false, record s { node = record s.node { frame_no = 0 } })
      else (
        true,
        record s {
          phase = active;
          subscribed = true;
          node = record s.node { frame_no = 0; dump = if s.dumps then some [] else s.node.dump };
        },
      )

  unfoldable pub on_deactivate : Managed F T → Managed F T
  on_deactivate s = record s {
    phase = inactive;
    subscribed = false;
    node = record s.node { dump = none };
  }

  unfoldable pub on_cleanup : Managed F T → Managed F T
  on_cleanup s = record s {
    phase = unconfigured;
    node = record s.node { tracker = none; connected = false };
  }

  unfoldable pub on_shutdown : Managed F T → Managed F T
  on_shutdown s = record s {
    phase = finalized;
    subscribed = false;
    node = record s.node { tracker = none; connected = false };
  }

-- A transition is taken from the state that it starts in.
abbrev pub from_phase : {A : Type 0} → Phase → A → A → A → A → A
from_phase unconfigured a b c d = a
from_phase inactive a b c d = b
from_phase active a b c d = c
from_phase finalized a b c d = d

module _ {F P T : Type 0} ⦃f : Float F⦄
    (update : FrameView P → T → Option (List (Track F) × T)) where
  unfoldable pub handle : Event P T → Managed F T → Option (Managed F T)
  handle (configure maker) s = some (from_phase s.phase (on_configure maker s).1 s s s)
  handle (activate opens) s = some (from_phase s.phase s (on_activate opens s).1 s s)
  handle deactivate s = some (from_phase s.phase s s (on_deactivate s) s)
  handle cleanup s = some (from_phase s.phase s (on_cleanup s) s s)
  handle shutdown s = some (from_phase s.phase (on_shutdown s) (on_shutdown s) (on_shutdown s) s)
  handle (image msg) s =
      if s.subscribed
      then Option.map (λ n. record s { node = n }) (on_image update msg s.node)
      else some s

  unfoldable pub handle_all : List (Event P T) → Managed F T → Option (Managed F T)
  handle_all [] s = some s
  handle_all (e ∷ es) s = elim (handle e s) [ none ↦ none | some s' ↦ handle_all es s' ]
