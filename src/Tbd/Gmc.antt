-- ===== src/Tbd/Gmc.antt =====
-- core/src/tbd/gmc.cpp: the camera's motion between two frames. `Flow` is what the code asks of OpenCV; a
-- grey image is of the type `G`, and a point is a pair.
pub mod Laws
mod Tests
use custos_tracker.Prelude.{
  ℕ, zero, suc, pos, ℤ, ◌+ℤ◌, eqb_ℤ, Bool, true, false, ◌&&◌, if◌then◌else◌, leb, length, List, [],
  ◌∷◌, Option, none, some,
}
use custos_tracker.Float.{Float, ◌⊗◌, ◌⊘◌, ◌<?◌, one, fmin}
use custos_tracker.Types.{BBox}
use custos_tracker.Mat.{Rect}
use custos_tracker.Geometry.Boxes.{Affine23, no_warp}

abbrev pub Point : Type 0 → Type 0
Point F = F × F

pub record Flow (F Img G Mask : Type 0) : Type 0 where
  pub grey : Img → G
  -- `resize` by a factor in both directions.
  pub shrink : G → F → G
  pub cols : G → ℤ
  pub rows : G → ℤ
  -- A mask of the size of an image that lets all through, and one with a region closed, as far as it is in it.
  pub open_mask : G → Mask
  pub closed : Mask → Rect → Mask
  -- `goodFeaturesToTrack` with at most 200 corners.
  pub corners : G → Mask → List (Point F)
  -- `calcOpticalFlowPyrLK`: for each point whether it was found, and where.
  pub track : G → G → List (Point F) → List (Bool × Point F)
  -- `estimateAffinePartial2D` with RANSAC; `none` is the empty matrix.
  pub affine : List (Point F) → List (Point F) → Option (Affine23 F)

pub record GmcEstimator (F G : Type 0) : Type 0 where
  pub prev_gray : Option G
  pub prev_exclude : List (BBox F)

-- The points that are found, with where they are.
unfoldable pub kept :
    {F : Type 0} → List (Point F) → List (Bool × Point F) → List (Point F × Point F)
kept [] ss = []
kept (a ∷ pts) [] = []
kept (a ∷ pts) ((found, b) ∷ ss) = let rest = kept pts ss in if found then (a, b) ∷ rest else rest

abbrev pub firsts : {A : Type 0} → List (A × A) → List A
firsts [] = []
firsts ((a, b) ∷ ps) = a ∷ firsts ps

abbrev pub seconds : {A : Type 0} → List (A × A) → List A
seconds [] = []
seconds ((a, b) ∷ ps) = b ∷ seconds ps

module _ {F Img G Mask : Type 0} ⦃f : Float F⦄ (v : Flow F Img G Mask) where
  open f use {lit, of_int, trunc}
  open v use {grey, shrink, cols, rows, open_mask, closed, corners, track, affine}

  abbrev pub factor : G → F
  factor g = fmin one (lit 480 0 ⊘ of_int (cols g))

  abbrev pub working : Img → G
  working img = let g = grey img in let k = factor g in if k <? one then shrink g k else g

  -- The boxes of the objects, in the coordinates of the small image.
  unfoldable pub masked : F → Mask → List (BBox F) → Mask
  masked k m [] = m
  masked k m (b ∷ bs) =
      masked k
        (closed m (record {
          x = trunc (b.x ⊗ k);
          y = trunc (b.y ⊗ k);
          width = trunc (b.w ⊗ k) +ℤ pos 1;
          height = trunc (b.h ⊗ k) +ℤ pos 1;
        }))
        bs

  -- The model of the flow, with its translation at full size.
  abbrev pub full_size : F → Affine23 F → Affine23 F
  full_size k m = record m { tx = m.tx ⊘ k; ty = m.ty ⊘ k }

  unfoldable pub warp_of : F → List (Point F × Point F) → Affine23 F
  warp_of k pairs =
      if leb 12 (length pairs)
      then elim (affine (firsts pairs) (seconds pairs)) [ none ↦ no_warp | some m ↦ full_size k m ]
      else no_warp

  abbrev pub background : F → G → List (BBox F) → List (Point F)
  background k prev exclude = corners prev (masked k (open_mask prev) exclude)

  unfoldable pub warp_between : F → G → G → List (BBox F) → Affine23 F
  warp_between k prev gray exclude =
      let prev_pts = background k prev exclude in
      if leb 12 (length prev_pts)
      then warp_of k (kept prev_pts (track prev gray prev_pts))
      else no_warp

  abbrev pub same_size : G → G → Bool
  same_size a b = eqb_ℤ (cols a) (cols b) && eqb_ℤ (rows a) (rows b)

  -- The warp from the frame before, if there was one of the same size.
  abbrev warp_from : F → G → GmcEstimator F G → Affine23 F
  warp_from k gray s = elim s.prev_gray [
    | none ↦ no_warp
    | some prev ↦ if same_size prev gray then warp_between k prev gray s.prev_exclude else no_warp
  ]

  unfoldable pub estimate : Img → List (BBox F) → GmcEstimator F G → Affine23 F × GmcEstimator F G
  estimate img exclude s =
      let gray = working img in
      (
        warp_from (factor (grey img)) gray s,
        record { prev_gray = some gray; prev_exclude = exclude },
      )
