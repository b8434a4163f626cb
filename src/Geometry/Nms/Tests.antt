-- ===== src/Geometry/Nms/Tests.antt =====
use mathlib.Core.List.{Pairwise, Nodup}
-- Three boxes, the second almost on the first.
use custos_tracker.Prelude.{elem, ℕ, List, [], ◌∷◌, ◌≡◌, refl, true, false, ◌⊎◌, arith, ◌*◌}
use custos_tracker.Float.Milli.{Milli, milli_float, Milli-IsOrdered}
use custos_tracker.Types.{BBox}
use custos_tracker.Geometry.Boxes.{iou}
use custos_tracker.Geometry.Nms.{overlaps, higher, nms_order, nms, sweep, mark, flag}
use custos_tracker.Geometry.Nms.Laws.{nms-eq-select, nms_covers, nms_descending}
use custos_tracker.Geometry.Nms.Greedy.{select, blocked}
use custos_tracker.Geometry.Nms.Sorting.{insertion_sort, insertion_sort-IsSort}

abbrev square : ℕ → ℕ → BBox Milli
square x side = record { x = x * 1000; y = 0; w = side * 1000; h = side * 1000 }

abbrev boxes : List (BBox Milli)
boxes = square 0 10 ∷ square 1 10 ∷ square 40 10 ∷ []

abbrev scores : List Milli
scores = 700 ∷ 900 ∷ 300 ∷ []

kept_two : nms insertion_sort boxes scores 450 ≡ 1 ∷ 2 ∷ []
unfolding nms nms_order higher overlaps sweep mark flag iou
kept_two = refl

nms-eq-select_example :
    nms insertion_sort boxes scores 450
    ≡ select (overlaps boxes 450) [] (nms_order insertion_sort boxes scores)
nms-eq-select_example = nms-eq-select insertion_sort insertion_sort-IsSort boxes scores 450

nms_covers_example :
    (elem 0 (1 ∷ 2 ∷ []) ≡ true) ⊎ (blocked (overlaps boxes 450) (1 ∷ 2 ∷ []) 0 ≡ true)
nms_covers_example =
    rw kept_two at
      (nms_covers insertion_sort insertion_sort-IsSort boxes scores 450 0 (omega arith))

nms_descending_example :
    Pairwise (λ a b. higher scores b a ≡ false) (nms insertion_sort boxes scores 450)
    × Nodup (nms insertion_sort boxes scores 450)
nms_descending_example =
    nms_descending insertion_sort insertion_sort-IsSort boxes scores Milli-IsOrdered (ground arith)
      450
