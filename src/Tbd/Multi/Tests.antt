-- ===== src/Tbd/Multi/Tests.antt =====
-- A facade that asks its detector on every third frame.
use custos_tracker.Prelude.{none, ◌⊎◌, ℕ, suc, pos, negsuc, false, List, [], ◌∷◌, some, ◌≡◌, refl}
use custos_tracker.Float.{◌<?◌}
use custos_tracker.Float.Milli.{Milli, milli_float, Milli-IsOrdered}
use custos_tracker.Types.{BBox, FrameView, Track, bgr8}
use custos_tracker.Geometry.Boxes.{no_warp}
use custos_tracker.Mat.{Vision, as_mat}
use custos_tracker.Sot.World.{Detector}
use custos_tracker.Detector.Config.{default_yolov8}
use custos_tracker.Tbd.Config.{default_assoc}
use custos_tracker.Tbd.Tracker.Tests.{filter, first_only, seen, tracked}
use custos_tracker.Tbd.Multi.{MultiTracker, Gmc, off, frame_dt, step}
use custos_tracker.Tbd.Multi.Laws.{IsSpan, frame_dt-InSpan, step-Turn, Turn, OnCadence}

abbrev vision : Vision Milli ℕ ℕ ℕ
vision = record {
  wrap = λ p w h step. p;
  cols = λ img. pos 640;
  rows = λ img. pos 480;
  meet = λ a b. a;
  hist_l1 = λ img roi. img;
  hist_l2 = λ img roi. img ∷ [];
  bhattacharyya = λ a b. 0;
}

-- Its state counts the calls.
abbrev detector : Detector Milli ℕ ℕ
detector = record { detect = λ frame d. some (seen 10000 800 ∷ [], suc d) }

abbrev still : Gmc Milli ℕ ℕ
still = record { estimate = λ img boxes g. (no_warp, g) }

abbrev frame : FrameView ℕ
frame = record {
  pixels = some 7;
  width = pos 640;
  height = pos 480;
  stride_bytes = pos 0;
  fmt = bgr8;
  t_ns = pos 33333333;
}

abbrev counting : ℕ → MultiTracker Milli (BBox Milli) ℕ ℕ
counting n = record {
  cfg = record {
    detector = default_yolov8;
    assoc = default_assoc;
    gmc = off;
    nominal_fps = 30000;
    detect_interval = pos 3;
  };
  detector = 0;
  tracker = tracked;
  gmc = 0;
  gmc_exclude = [];
  prev_t_ns = negsuc 0;
  until_detect = pos n;
}

Milli-IsSpan : IsSpan Milli
Milli-IsSpan = record { low_high = refl; low_one = refl; one_high = refl }

frame_dt-InSpan_example :
    ((frame_dt {F = Milli} 30000 (pos 10) (pos 20) <? 100) ≡ false)
    × ((5000 <? frame_dt {F = Milli} 30000 (pos 10) (pos 20)) ≡ false)
frame_dt-InSpan_example = frame_dt-InSpan 30000 (pos 10) (pos 20) Milli-IsOrdered Milli-IsSpan

frame_reads : as_mat vision frame ≡ some 7
unfolding as_mat
frame_reads = refl

step-Turn_example :
    ((step vision filter first_only detector still frame (counting 0) ≡ none)
      × ((pos 0 ≡ pos 0) × (detector.detect frame 0 ≡ none)))
    ⊎ ((r : List (Track Milli) × MultiTracker Milli (BBox Milli) ℕ ℕ) × ((step vision filter
              first_only detector still frame
              (counting 0)
            ≡ some r)
          × (Turn vision filter first_only detector still frame (counting 0) r.1
              × OnCadence vision filter first_only detector still r.1)))
step-Turn_example =
    step-Turn vision filter first_only detector still frame 7 (counting 0) frame_reads
      (0, (refl, refl))
