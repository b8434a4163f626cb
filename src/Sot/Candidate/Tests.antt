-- ===== src/Sot/Candidate/Tests.antt =====
-- Three detections near a lost target: one too small, and two that pass, by distance and by look.
use custos_tracker.Prelude.{ℕ, ◌+◌, ◌*◌, ◌/◌, pos, List, [], ◌∷◌, some, ◌≡◌, refl}
use custos_tracker.Float.Milli.{Milli, milli_float, Milli-IsOrdered}
use custos_tracker.Types.{BBox, Detection}
use custos_tracker.Sot.Config.{Reid, default_reacquire, no_embedder, nano_z}
use custos_tracker.Sot.Candidate.{
  pick_candidate, pick_loop, consider, distance, size_ratio, search_radius, uses_reid,
}
use custos_tracker.Sot.Candidate.Laws.{pick_candidate-IsChoice, IsChoice}

abbrev box_at : ℕ → ℕ → BBox Milli
box_at x side = record { x = x * 1000; y = 0; w = side * 1000; h = side * 1000 }

abbrev seen : ℕ → ℕ → Detection Milli
seen x side = record { box = box_at x side; score = 800; class_id = pos 0; embedding = [] }

abbrev dets : List (Detection Milli)
dets = seen 1 2 ∷ seen 5 10 ∷ seen 3 10 ∷ []

abbrev by_place : Reid Milli
by_place = record { embedder = no_embedder; accept = 650; drift_check_every = pos 0; drift_thr = 0 }

abbrev by_look : Reid Milli
by_look = record by_place { embedder = nano_z }

-- The farther to the right, the more alike.
abbrev look : BBox Milli → Milli
look b = 600 + b.x / 50

nearest : pick_candidate default_reacquire by_place (box_at 0 10) 3 look dets ≡ some (seen 3 10)
unfolding pick_candidate pick_loop consider distance size_ratio search_radius
nearest = refl

most_alike : pick_candidate default_reacquire by_look (box_at 0 10) 3 look dets ≡ some (seen 5 10)
unfolding pick_candidate pick_loop consider distance size_ratio search_radius
most_alike = refl

pick_candidate-IsChoice_example :
    IsChoice default_reacquire
      (box_at 0 10)
      (search_radius default_reacquire (box_at 0 10) 3)
      (uses_reid nano_z)
      650
      look
      dets
      (pick_candidate default_reacquire by_look (box_at 0 10) 3 look dets)
pick_candidate-IsChoice_example =
    pick_candidate-IsChoice Milli-IsOrdered default_reacquire by_look (box_at 0 10) 3 look dets
