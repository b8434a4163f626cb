-- ===== src/Tbd/Tracker/Tests.antt =====
-- Runs of the tracker on boxes that do not move, with a filter that is its last box and a solver that
-- assigns the first column to the first row.
use custos_tracker.Prelude.{
  ℕ, pos, true, false, List, [], ◌∷◌, map, none, some, ◌≡◌, refl, Distinct, arith, elem, All, ◌&&◌,
  not, get_or,
}
use custos_tracker.Float.{◌<?◌}
use custos_tracker.Float.Milli.{Milli, milli_float, Milli-IsOrdered}
use custos_tracker.Types.{BBox, Detection, confirmed, lost, zero_box}
use custos_tracker.Geometry.Boxes.{no_warp, identity, iou}
use custos_tracker.Munkres.Assignment.{assigned, munkres_solve-IsAssignment}
use custos_tracker.Tbd.Config.{default_assoc, Filter}
use custos_tracker.Tbd.Assoc.{Solver, match_by_iou, seconds, no_detection, remove_matched}
use custos_tracker.Tbd.Assoc.Gate.{IsAssignment, columns, match_by_iou-gate}
use custos_tracker.Tbd.Tracker.{
  ByteTracker, create, update, associate, advance, move, resolve, apply_matches, flag_stale,
  demote_all, spawn, report,
}
use custos_tracker.Tbd.Tracker.Partition.{IsPartition, associate-IsPartition, mature_at, young_at}
use custos_tracker.Tbd.Tracker.Detections.{associate_detections, confident_at}
use custos_tracker.Tbd.Tracker.Lifecycle.{Fate, update-Fate}
use custos_tracker.Tbd.Tracker.Ids.{IsFresh, update-IsFresh}

abbrev pub filter : Filter Milli (BBox Milli)
filter = record {
  initiate = λ b. b;
  predict = λ dt k. k;
  apply_affine = λ w k. k;
  correct = λ b r k. b;
  seed_velocity = λ b dt k. k;
  box = λ k. k;
}

unfoldable pub first_only : Solver Milli
first_only [] = []
first_only (row ∷ rows) = some 0 ∷ map (λ r. none) rows

columns-none : (rows : List (List Milli)) → columns (map (λ r. none) rows) ≡ []
columns-none [] = refl
columns-none (row ∷ rows) = columns-none rows

pub first_only-IsAssignment : IsAssignment first_only
unfolding first_only
first_only-IsAssignment [] = tt
first_only-IsAssignment (row ∷ rows) = rw (columns-none rows) (refl, tt)

abbrev pub box_at : ℕ → BBox Milli
box_at x = record { x = x; y = 10000; w = 20000; h = 20000 }

abbrev pub seen : ℕ → Milli → Detection Milli
seen x score = record { box = box_at x; score = score; class_id = pos 0; embedding = [] }

abbrev fresh : ByteTracker Milli (BBox Milli)
fresh = create default_assoc

abbrev pub tracked : ByteTracker Milli (BBox Milli)
tracked = record fresh {
  tracks =
      record {
        kf = box_at 10000;
        id = 1;
        state = confirmed;
        hits = 3;
        age = 3;
        time_since_update = 0;
        score = 800;
        class_id = pos 0;
        embedding = [];
      }
      ∷ [];
  next_id = 2;
  eff_dt = 1000;
}

-- A frame without detections loses the track.
after_nothing : (update filter first_only [] 1000 no_warp tracked).1 ≡ record tracked {
  tracks =
      record {
        kf = box_at 10000;
        id = 1;
        state = lost;
        hits = 3;
        age = 4;
        time_since_update = 1;
        score = 800;
        class_id = pos 0;
        embedding = [];
      }
      ∷ [];
  eff_dt = 1000;
}
unfolding update create advance move report resolve associate match_by_iou remove_matched
    apply_matches flag_stale demote_all spawn no_warp identity
after_nothing = refl

associate-IsPartition_example :
    let st = associate filter first_only default_assoc 0 (seen 10000 800 ∷ []) tracked.tracks in
    IsPartition st.matches
      (mature_at filter tracked.tracks)
      (young_at filter tracked.tracks)
      st.unmatched_mature
      st.unmatched_tentative
associate-IsPartition_example =
    associate-IsPartition filter first_only default_assoc 0 (seen 10000 800 ∷ []) tracked.tracks

associate_detections_example :
    let st =
      associate filter (assigned 9000) default_assoc 0 (seen 10000 800 ∷ []) tracked.tracks in
    Distinct (seconds st.matches)
    × ((i : ℕ)
        → elem i st.unmatched_high ≡ (
            elem i (confident_at filter default_assoc (seen 10000 800 ∷ []))
            && not (elem i (seconds st.matches))))
associate_detections_example =
    associate_detections filter (assigned 9000) default_assoc 0 (seen 10000 800 ∷ []) tracked.tracks
      Milli-IsOrdered (munkres_solve-IsAssignment 9000)

update-Fate_example :
    All
      (Fate default_assoc (map (advance filter 1000 no_warp) tracked.tracks) 2)
      (update filter first_only (seen 10000 800 ∷ []) 1000 no_warp tracked).1.tracks
unfolding create
update-Fate_example = update-Fate filter first_only (seen 10000 800 ∷ []) 1000 no_warp tracked

update-IsFresh_example :
    IsFresh (update filter first_only (seen 90000 800 ∷ []) 1000 no_warp tracked).1
update-IsFresh_example =
    update-IsFresh filter first_only (seen 90000 800 ∷ []) 1000 no_warp tracked
      (omega arith, omega arith)

match_by_iou-gate_example :
    All
      (λ m.
        (elem m.1 (0 ∷ []) ≡ true)
        × ((iou
                (get_or (box_at 10000 ∷ []) m.0 zero_box)
                (get_or (seen 10000 800 ∷ []) m.1 no_detection).box
              <? 200)
            ≡ false))
      (match_by_iou first_only
        (box_at 10000 ∷ [])
        (0 ∷ [])
        (seen 10000 800 ∷ [])
        (0 ∷ [])
        200
        none
        0)
match_by_iou-gate_example =
    match_by_iou-gate Milli-IsOrdered first_only (box_at 10000 ∷ []) (0 ∷ []) (seen 10000 800 ∷ [])
      (0 ∷ []) 200 none 0
