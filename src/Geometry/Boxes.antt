-- ===== src/Geometry/Boxes.antt =====
-- core/src/common/geometry.hpp and geometry.cpp: overlap of boxes and the letterbox mapping.

use custos_tracker.Prelude.{ℤ, Bool, ◌&&◌, ◌||◌, if◌then◌else◌}
use custos_tracker.Float.{Float, ◌⊕◌, ◌⊖◌, ◌⊗◌, ◌⊘◌, ◌≤?◌, feq, nought, one, half, fmin, fmax}
use custos_tracker.Types.{BBox, area}

-- The camera-motion warp, row-major 2x3.
pub record Affine23 {ℓ} (F : Type ℓ) : Type ℓ where
  pub a11 : F
  pub a12 : F
  pub tx : F
  pub a21 : F
  pub a22 : F
  pub ty : F

pub record LetterboxMap {ℓ} (F : Type ℓ) : Type ℓ where
  pub scale : F
  pub pad_x : F
  pub pad_y : F
  pub src_w : ℤ
  pub src_h : ℤ
  pub dst_w : ℤ
  pub dst_h : ℤ

module _ {ℓ} {F : Type ℓ} ⦃f : Float F⦄ where
  open f use {of_int}

  unfoldable pub no_warp : Affine23 F
  no_warp = record { a11 = one; a12 = nought; tx = nought; a21 = nought; a22 = one; ty = nought }

  unfoldable pub identity : Affine23 F → Bool
  identity m =
      feq m.a11 one
      && feq m.a12 nought
      && feq m.tx nought
      && feq m.a21 nought
      && feq m.a22 one
      && feq m.ty nought

  unfoldable pub iou : BBox F → BBox F → F
  iou a b =
      if a.w ≤? nought || a.h ≤? nought || b.w ≤? nought || b.h ≤? nought then nought else overlap
    where
      iw : F
      iw = fmin (a.x ⊕ a.w) (b.x ⊕ b.w) ⊖ fmax a.x b.x

      ih : F
      ih = fmin (a.y ⊕ a.h) (b.y ⊕ b.h) ⊖ fmax a.y b.y

      inter : F
      inter = iw ⊗ ih

      overlap : F
      overlap = if iw ≤? nought || ih ≤? nought then nought else inter ⊘ (area a ⊕ area b ⊖ inter)

  unfoldable pub letterbox_map : ℤ → ℤ → ℤ → ℤ → LetterboxMap F
  letterbox_map src_w src_h dst_w dst_h =
      let scale = fmin (of_int dst_w ⊘ of_int src_w) (of_int dst_h ⊘ of_int src_h) in
      record {
        scale = scale;
        pad_x = half ⊗ (of_int dst_w ⊖ scale ⊗ of_int src_w);
        pad_y = half ⊗ (of_int dst_h ⊖ scale ⊗ of_int src_h);
        src_w = src_w;
        src_h = src_h;
        dst_w = dst_w;
        dst_h = dst_h;
      }

  unfoldable pub to_letterbox : BBox F → LetterboxMap F → BBox F
  to_letterbox b m = record {
    x = b.x ⊗ m.scale ⊕ m.pad_x;
    y = b.y ⊗ m.scale ⊕ m.pad_y;
    w = b.w ⊗ m.scale;
    h = b.h ⊗ m.scale;
  }

  unfoldable pub from_letterbox : BBox F → LetterboxMap F → BBox F
  from_letterbox b m = record {
    x = (b.x ⊖ m.pad_x) ⊘ m.scale;
    y = (b.y ⊖ m.pad_y) ⊘ m.scale;
    w = b.w ⊘ m.scale;
    h = b.h ⊘ m.scale;
  }
