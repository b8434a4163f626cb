-- ===== src/Types.antt =====
-- core/include/ctrk/types.hpp: the plain structs that the pipelines exchange, over any type of floats.
-- A `FrameView` holds its pixels in an abstract buffer `P`; `none` is the null pointer.
use custos_tracker.Prelude.{ℕ, ℤ, List, Option, Bool, true, false}
use custos_tracker.Float.{Float, ◌⊕◌, ◌⊗◌, half, nought}

pub data PixelFormat : Type 0 where
  bgr8 : PixelFormat

pub record FrameView (P : Type 0) : Type 0 where
  pub pixels : Option P
  pub width : ℤ
  pub height : ℤ
  pub stride_bytes : ℤ
  pub fmt : PixelFormat
  pub t_ns : ℤ

-- Axis-aligned, top-left origin, in pixels.
pub record BBox {ℓ} (F : Type ℓ) : Type ℓ where
  pub x : F
  pub y : F
  pub w : F
  pub h : F

module _ {ℓ} {F : Type ℓ} ⦃f : Float F⦄ where
  abbrev pub cx : BBox F → F
  cx b = b.x ⊕ half ⊗ b.w

  abbrev pub cy : BBox F → F
  cy b = b.y ⊕ half ⊗ b.h

  abbrev pub area : BBox F → F
  area b = b.w ⊗ b.h

  -- The members' initial values.
  abbrev pub zero_box : BBox F
  zero_box = record { x = nought; y = nought; w = nought; h = nought }

pub data SotState : Type 0 where
  tracking unstable lost : SotState

pub record SotResult {ℓ} (F : Type ℓ) : Type ℓ where
  pub box : BBox F
  pub score : F
  pub state : SotState

-- `Removed` is never assigned by the code.
pub data TrackState : Type 0 where
  tentative confirmed lost removed : TrackState

pub record Track {ℓ} (F : Type ℓ) : Type ℓ where
  pub id : ℕ
  pub box : BBox F
  pub score : F
  pub class_id : ℤ
  pub state : TrackState
  pub age : ℕ
  pub hits : ℕ

pub record Detection {ℓ} (F : Type ℓ) : Type ℓ where
  pub box : BBox F
  pub score : F
  pub class_id : ℤ
  pub embedding : List F

abbrev pub is_tentative : TrackState → Bool
is_tentative TrackState.tentative = true
is_tentative _ = false

abbrev pub is_confirmed : TrackState → Bool
is_confirmed TrackState.confirmed = true
is_confirmed _ = false

abbrev pub is_lost : TrackState → Bool
is_lost TrackState.lost = true
is_lost _ = false
