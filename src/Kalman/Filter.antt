-- ===== src/Kalman/Filter.antt =====
-- `KalmanBox` as the motion filter of the multi-object tracker, and what the tracker keeps of any filter.
use custos_tracker.Prelude.{true, false, List, some, ◌≡◌, refl, All, All-map}
use custos_tracker.Float.{Float, ◌<?◌, one, IsOrdered}
use custos_tracker.Types.{BBox, Detection, Track}
use custos_tracker.Geometry.Boxes.{Affine23}
use custos_tracker.Tbd.Config.{Filter}
use custos_tracker.Tbd.Assoc.{Solver}
use custos_tracker.Tbd.Tracker.{STrack, ByteTracker, update, report}
use custos_tracker.Tbd.Tracker.Motion.{IsKept, Holds, update-Holds, map-All}
use custos_tracker.Kalman
use custos_tracker.Kalman.{
  Linear, KalmanBox, height, initiate, predicted, updated, transformed, seeded, box_of, predict,
  apply_affine, seed_velocity, box,
}
use custos_tracker.Kalman.Laws.{
  IsRange, IsSound, initiate-IsSound, predicted-IsSound, updated-IsSound, transformed-IsSound,
  seeded-IsSound,
}

module _ {F : Type 0} ⦃f : Float F⦄ (linear : Linear F) where
  -- The calls that the tracker makes, without their assertion.
  abbrev pub kalman_filter : Filter F (KalmanBox F)
  kalman_filter = record {
    initiate = initiate;
    predict = predicted linear;
    apply_affine = transformed linear;
    correct = updated linear;
    seed_velocity = seeded;
    box = box_of;
  }

  -- What each call of a filter does where the assertion of `KalmanBox` is checked.
  pub record Implements (filter : Filter F (KalmanBox F)) (k : KalmanBox F) : Type 0 where
    pub predicts : (dt : F) → predict linear dt k ≡ some (filter.predict dt k)
    pub warps : (w : Affine23 F) → apply_affine linear w k ≡ some (filter.apply_affine w k)
    pub corrects : (z : BBox F) (r : F) → Kalman.update linear z r k ≡ some (filter.correct z r k)
    pub seeds :
        (z : BBox F) (dt : F) → seed_velocity linear z dt k ≡ some (filter.seed_velocity z dt k)
    pub boxes : box linear k ≡ some (filter.box k)

  -- On a filter that is initiated, the calls of the tracker do what `KalmanBox` does, and none fails its
  -- assertion.
  kalman_filter-Implements : (k : KalmanBox F) → k.ready ≡ true → Implements kalman_filter k
  unfolding predict apply_affine Kalman.update seed_velocity box
  kalman_filter-Implements k h = record {
    predicts = λ dt. rw h refl;
    warps = λ w. rw h refl;
    corrects = λ z r. rw h refl;
    seeds = λ z dt. rw h refl;
    boxes = rw h refl;
  }

  module _ (o : IsOrdered F) (r : IsRange F) where
    kalman_filter-IsKept : IsKept kalman_filter IsSound
    kalman_filter-IsKept = record {
      initiates = initiate-IsSound o r;
      predicts = predicted-IsSound o r linear;
      warps = transformed-IsSound o r linear;
      corrects = updated-IsSound o r linear;
      seeds = seeded-IsSound;
    }

    -- No assertion fails on the filter of a track, and no box that is reported is lower than 1.
    pub record IsTracked (tracks : List (STrack F (KalmanBox F))) (out : List (Track F))
        : Type 0 where
      pub sound : Holds IsSound tracks
      pub implements : All (λ t. Implements kalman_filter t.kf) tracks
      pub high : All (λ t. (t.box.h <? one) ≡ false) out

    -- With `KalmanBox` for its filter, if max and clamp compare numbers as IsOrdered and IsRange say, and the
    -- filters of all tracks are initiated and in bounds, then they are after `ByteTracker::update`: no call of
    -- `KalmanBox` on them fails its assertion, and no box that is reported has a height below 1. A height that
    -- is not a number is not below 1.
    pub update-IsTracked :
        (solver : Solver F) (dets : List (Detection F)) (dt : F) (warp : Affine23 F)
        (s : ByteTracker F (KalmanBox F))
        → Holds IsSound s.tracks
        → let (out, s') = update kalman_filter solver dets dt warp s in IsTracked s'.tracks out
    unfolding update report box_of
    update-IsTracked solver dets dt warp s h =
        let kept =
          update-Holds kalman_filter IsSound kalman_filter-IsKept solver dets dt warp s h in
        record {
          sound = kept;
          implements = All-map _ _ _ (λ t g. kalman_filter-Implements t.kf g.ready) kept;
          high = map-All _ _ (report kalman_filter) _ (λ t g. g.not_low) kept;
        }
