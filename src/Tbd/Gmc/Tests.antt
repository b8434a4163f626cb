-- ===== src/Tbd/Gmc/Tests.antt =====
-- A camera that moves a pixel to the right: twelve corners, all of them found.
use custos_tracker.Prelude.{
  ℕ, zero, suc, ◌+◌, pos, List, [], ◌∷◌, map, none, some, true, ◌≡◌, ◌⊎◌, refl,
}
use custos_tracker.Float.Milli.{Milli, milli_float}
use custos_tracker.Geometry.Boxes.{Affine23, no_warp}
use custos_tracker.Tbd.Gmc.{Flow, Point, GmcEstimator, estimate, warp_between, warp_of, kept}
use custos_tracker.Tbd.Gmc.Laws.{IsMotion, estimate-IsMotion}

abbrev corners_to : ℕ → List (Point Milli)
corners_to zero = []
corners_to (suc n) = (n, n) ∷ corners_to n

abbrev right : Affine23 Milli
right = record { a11 = 1000; a12 = 0; tx = 1000; a21 = 0; a22 = 1000; ty = 0 }

abbrev flow : Flow Milli ℕ ℕ ℕ
flow = record {
  grey = λ img. img;
  shrink = λ g k. g;
  cols = λ g. pos 480;
  rows = λ g. pos 270;
  open_mask = λ g. 0;
  closed = λ m r. suc m;
  corners = λ g m. corners_to 12;
  track = λ a b pts. map (λ (q : Point Milli). (true, (q.0 + 1000, q.1))) pts;
  affine = λ ps qs. some right;
}

abbrev new : GmcEstimator Milli ℕ
new = record { prev_gray = none; prev_exclude = [] }

moves_right : (estimate flow 2 [] ((estimate flow 1 [] new).1)).0 ≡ right
unfolding estimate warp_between warp_of kept
moves_right = refl

estimate-IsMotion_example :
    let warp = (estimate flow 2 [] ((estimate flow 1 [] new).1)).0 in
    (warp ≡ no_warp) ⊎ IsMotion flow 1 2 [] warp
estimate-IsMotion_example = estimate-IsMotion flow 1 2 [] [] new
