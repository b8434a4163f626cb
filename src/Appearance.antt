-- ===== src/Appearance.antt =====
-- core/src/common/appearance.cpp: the appearance descriptor of a box and the cosine of two.
use custos_tracker.Prelude.{
  pos, Bool, ◌||◌, not, ◌==◌, if◌then◌else◌, ltb_ℤ, List, [], ◌∷◌, length, is_empty,
}
use custos_tracker.Float.{Float, ◌⊕◌, ◌⊗◌, ◌⊘◌, ◌<?◌, nought}
use custos_tracker.Types.{BBox}
use custos_tracker.Mat.{Rect, Vision}

abbrev pub is_degenerate : Rect → Bool
is_degenerate roi = ltb_ℤ roi.width (pos 2) || ltb_ℤ roi.height (pos 2)

module _ {F P Img Hist : Type 0} ⦃f : Float F⦄ (v : Vision F P Img Hist) where
  open f use {trunc}

  -- The truncated box, clipped to the image.
  abbrev pub clipped : Img → BBox F → Rect
  clipped img box =
      v.meet
        (record { x = trunc box.x; y = trunc box.y; width = trunc box.w; height = trunc box.h })
        (record { x = pos 0; y = pos 0; width = v.cols img; height = v.rows img })

  unfoldable pub hsv_embedding : Img → BBox F → List F
  hsv_embedding img box =
      let roi = clipped img box in if is_degenerate roi then [] else v.hist_l2 img roi

-- The dot product and the two squared norms, summed from left to right.
pub record Sums (F : Type 0) : Type 0 where
  pub dot : F
  pub na : F
  pub nb : F

module _ {F : Type 0} ⦃f : Float F⦄ where
  open f use {sqrt}

  pub sums_from : Sums F → List F → List F → Sums F
  sums_from s [] ys = s
  sums_from s (x ∷ xs) [] = s
  sums_from s (x ∷ xs) (y ∷ ys) =
      sums_from (record { dot = s.dot ⊕ x ⊗ y; na = s.na ⊕ x ⊗ x; nb = s.nb ⊕ y ⊗ y }) xs ys

  unfoldable pub cosine_similarity : List F → List F → F
  cosine_similarity a b = if is_empty a || not (length a == length b) then nought else quotient
    where
      s : Sums F
      s = sums_from (record { dot = nought; na = nought; nb = nought }) a b

      denom : F
      denom = sqrt s.na ⊗ sqrt s.nb

      quotient : F
      quotient = if nought <? denom then s.dot ⊘ denom else nought
