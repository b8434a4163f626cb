-- ===== src/Kalman/Tests.antt =====
-- A filter on thousandths, with the sum of products for the product and no change for the inverse.
use custos_tracker.Prelude.{ℕ, zero, suc, ◌+◌, ◌*◌, ◌/◌, [], ◌∷◌, some, ◌≡◌, refl}
use custos_tracker.Float.Milli.{Milli, milli_float, Milli-IsOrdered}
use custos_tracker.Types.{BBox}
use custos_tracker.Geometry.Boxes.{no_warp}
use custos_tracker.Tbd.Config.{default_assoc}
use custos_tracker.Tbd.Tracker.{ByteTracker, create, newborn, update}
use custos_tracker.Tbd.Tracker.Tests.{first_only, seen}
use custos_tracker.Kalman.{
  Linear, KalmanBox, initiate, to_measurement, initial_std, clamp_state, box_of,
}
use custos_tracker.Kalman.Laws.{
  IsRange, IsSound, predicts, updates, warps, seeds, apply_all, apply_all-IsSound, initiate-IsSound,
}
use custos_tracker.Kalman.Filter.{kalman_filter, IsTracked, update-IsTracked}

sum_to : ℕ → (ℕ → Milli) → Milli
sum_to zero g = 0
sum_to (suc n) g = sum_to n g + g n

abbrev sums : Linear Milli
sums = record { product = λ n a b i j. sum_to n (λ k. a i k * b k j / 1000); inverse = λ n a. a }

abbrev here : BBox Milli
here = record { x = 10000; y = 10000; w = 20000; h = 40000 }

-- A flat box is given a height of 1 and the widest aspect.
flat_box :
    box_of (initiate (record here { h = 10 })) ≡ record { x = 10000; y = 9505; w = 20000; h = 1000 }
unfolding box_of initiate clamp_state to_measurement initial_std
flat_box = refl

Milli-IsRange : IsRange Milli
Milli-IsRange = record { bounds = refl }

apply_all-IsSound_example :
    (k : KalmanBox Milli) × ((apply_all sums
          (predicts 1000 ∷ seeds here 1000 ∷ updates here 500 ∷ warps no_warp ∷ [])
          (initiate here)
        ≡ some k)
      × IsSound k)
apply_all-IsSound_example =
    apply_all-IsSound sums Milli-IsOrdered Milli-IsRange here
      (predicts 1000 ∷ seeds here 1000 ∷ updates here 500 ∷ warps no_warp ∷ [])

abbrev one_track : ByteTracker Milli (KalmanBox Milli)
one_track = record (create default_assoc) {
  tracks = newborn (kalman_filter sums) default_assoc 1 (seen 10000 800) ∷ [];
  next_id = 2;
}

update-IsTracked_example :
    let (out, s') =
      update (kalman_filter sums) first_only (seen 12000 800 ∷ []) 1000 no_warp one_track in
    IsTracked sums Milli-IsOrdered Milli-IsRange s'.tracks out
unfolding newborn
update-IsTracked_example =
    update-IsTracked sums Milli-IsOrdered Milli-IsRange first_only (seen 12000 800 ∷ []) 1000
      no_warp one_track (initiate-IsSound Milli-IsOrdered Milli-IsRange (seen 10000 800).box, tt)
