-- ===== src/Kalman.antt =====
-- core/src/common/kalman.hpp and kalman.cpp: the motion filter `KalmanBox`. A matrix is a function of its
-- two indices. `Linear` is what the filter asks of `cv::Matx` that depends on how OpenCV adds up: the
-- product, with the inner size, and the inverse by Cholesky.
pub mod Laws
pub mod Filter
mod Tests
use custos_tracker.Prelude.{
  ℕ, ◌+◌, Bool, true, false, ◌&&◌, ◌==◌, ltb, if◌then◌else◌, List, [], ◌∷◌, get_or, Option, none,
  some,
}
use custos_tracker.Float.{Float, ◌⊕◌, ◌⊖◌, ◌⊗◌, ◌⊘◌, ◌<?◌, ◌≤?◌, nought, one, half, fmax, fclamp}
use custos_tracker.Types.{BBox, cx, cy}
use custos_tracker.Geometry.Boxes.{Affine23}

abbrev pub Matrix : Type 0 → Type 0
Matrix F = ℕ → ℕ → F

pub record Linear (F : Type 0) : Type 0 where
  pub product : ℕ → Matrix F → Matrix F → Matrix F
  pub inverse : ℕ → Matrix F → Matrix F

-- `mean_` is a column of 8, and `cov_` has 8 rows of 8.
pub record KalmanBox (F : Type 0) : Type 0 where
  pub mean : Matrix F
  pub cov : Matrix F
  pub ready : Bool

module _ {F : Type 0} ⦃f : Float F⦄ where
  open f use {lit, abs, sqrt}

  abbrev zeros : Matrix F
  zeros i j = nought

  abbrev eye : Matrix F
  eye i j = if i == j then one else nought

  abbrev transposed : Matrix F → Matrix F
  transposed a i j = a j i

  -- A write to one cell.
  abbrev pub put : ℕ → ℕ → F → Matrix F → Matrix F
  put r c v a i j = if i == r && j == c then v else a i j

  abbrev plus : Matrix F → Matrix F → Matrix F
  plus a b i j = a i j ⊕ b i j

  abbrev minus : Matrix F → Matrix F → Matrix F
  minus a b i j = a i j ⊖ b i j

  -- The diagonal of the squares of a list, and the column of a list.
  abbrev squares : List F → Matrix F
  squares xs i j = let s = get_or xs i nought in if i == j then s ⊗ s else nought

  abbrev column : List F → Matrix F
  column xs i j = get_or xs i nought

  abbrev weight_pos : F
  weight_pos = one ⊘ lit 20 0

  abbrev weight_vel : F
  weight_vel = one ⊘ lit 160 0

  pub to_measurement : BBox F → List F
  to_measurement b = cx b ∷ cy b ∷ (b.w ⊘ fmax b.h (lit 1 3)) ∷ b.h ∷ []

  -- The aspect and the height of a state; `clamp_state` bounds them.
  abbrev pub aspect : KalmanBox F → F
  aspect k = k.mean 2 0

  abbrev pub height : KalmanBox F → F
  height k = k.mean 3 0

  unfoldable pub clamp_state : KalmanBox F → KalmanBox F
  clamp_state k = record k {
    mean =
        put 3 0 (fmax (k.mean 3 0) one) (put 2 0 (fclamp (k.mean 2 0) (lit 5 2) (lit 20 0)) k.mean);
  }

  initial_std : F → List F
  initial_std h =
      let p = lit 2 0 ⊗ weight_pos ⊗ h in
      let v = lit 10 0 ⊗ weight_vel ⊗ h in p ∷ p ∷ lit 1 2 ∷ p ∷ v ∷ v ∷ lit 1 5 ∷ v ∷ []

  unfoldable pub initiate : BBox F → KalmanBox F
  unfolding to_measurement initial_std
  initiate z =
      let m = to_measurement z in
      clamp_state
        (record { mean = column m; cov = squares (initial_std (get_or m 3 nought)); ready = true })

  process_std : F → List F
  process_std h =
      let p = weight_pos ⊗ h in
      let v = weight_vel ⊗ h in p ∷ p ∷ lit 1 2 ∷ p ∷ v ∷ v ∷ lit 1 5 ∷ v ∷ []

  -- The identity with the time step in the velocity columns.
  transition : F → Matrix F
  transition dt i j = if ltb i 4 && j == i + 4 then dt else eye i j

  measurement_std : F → List F
  measurement_std h = let p = weight_pos ⊗ h in p ∷ p ∷ lit 1 1 ∷ p ∷ []

  -- H = [I4 | 0]
  observation : Matrix F
  observation i j = if i == j && ltb i 4 then one else nought

  -- R
  noise : F → F → Matrix F
  unfolding measurement_std
  noise h scale i j =
      let s = get_or (measurement_std h) i nought in if i == j then s ⊗ s ⊗ scale else nought

  -- J of a warp.
  jacobian : Affine23 F → F → Matrix F
  jacobian w s = put 7 7 s (
      put 3 3 s (
        put 5 5 w.a22 (
          put 5 4 w.a21 (
            put 4 5 w.a12 (
              put 4 4 w.a11 (put 1 1 w.a22 (put 1 0 w.a21 (put 0 1 w.a12 (put 0 0 w.a11 eye)))))))))

  warp_scale : Affine23 F → F
  warp_scale w = sqrt (abs (w.a11 ⊗ w.a22 ⊖ w.a12 ⊗ w.a21))

  -- The mean under a warp; the position is read before it is written.
  warped : Affine23 F → Matrix F → Matrix F
  unfolding warp_scale
  warped w m =
      let s = warp_scale w in
      put 7 0 (m 7 0 ⊗ s) (
        put 3 0 (m 3 0 ⊗ s) (
          put 5 0 (w.a21 ⊗ m 4 0 ⊕ w.a22 ⊗ m 5 0) (
            put 4 0 (w.a11 ⊗ m 4 0 ⊕ w.a12 ⊗ m 5 0) (
              put 1 0 (w.a21 ⊗ m 0 0 ⊕ w.a22 ⊗ m 1 0 ⊕ w.ty)
                (put 0 0 (w.a11 ⊗ m 0 0 ⊕ w.a12 ⊗ m 1 0 ⊕ w.tx) m)))))

  -- The velocity rows take the difference to the measurement.
  unfoldable pub seeded : BBox F → F → KalmanBox F → KalmanBox F
  unfolding to_measurement
  seeded z dt k =
      let m = to_measurement z in
      let row = λ (i : ℕ). (get_or m i nought ⊖ k.mean i 0) ⊘ dt in
      let moved = record k {
        mean = put 7 0 (row 3) (put 6 0 (row 2) (put 5 0 (row 1) (put 4 0 (row 0) k.mean)));
      } in
      if dt ≤? nought then k else moved

  unfoldable pub box_of : KalmanBox F → BBox F
  box_of k =
      let h = k.mean 3 0 in
      let w = k.mean 2 0 ⊗ h in
      record { x = k.mean 0 0 ⊖ half ⊗ w; y = k.mean 1 0 ⊖ half ⊗ h; w = w; h = h }

  pub covariance_trace : KalmanBox F → F
  covariance_trace k =
      let c = k.cov in nought ⊕ c 0 0 ⊕ c 1 1 ⊕ c 2 2 ⊕ c 3 3 ⊕ c 4 4 ⊕ c 5 5 ⊕ c 6 6 ⊕ c 7 7

module _ {F : Type 0} ⦃f : Float F⦄ (linear : Linear F) where
  open f use {lit}
  open linear use {product, inverse}

  -- The bodies of the operations below their assertion.
  unfoldable pub predicted : F → KalmanBox F → KalmanBox F
  unfolding transition process_std
  predicted dt k =
      let t = transition dt in
      clamp_state (record k {
        mean = product 8 t k.mean;
        cov =
            plus (product 8 (product 8 t k.cov) (transposed t)) (squares (process_std (height k)));
      })

  unfoldable pub updated : BBox F → F → KalmanBox F → KalmanBox F
  unfolding observation noise to_measurement
  updated z r_scale k =
      let ht = transposed observation in
      let r = noise (height k) (fmax r_scale (lit 1 4)) in
      let s = plus (product 8 (product 8 observation k.cov) ht) r in
      let gain = product 4 (product 8 k.cov ht) (inverse 4 s) in
      let innovation = minus (column (to_measurement z)) (product 8 observation k.mean) in
      clamp_state (record k {
        mean = plus k.mean (product 4 gain innovation);
        cov = product 8 (minus eye (product 4 gain observation)) k.cov;
      })

  unfoldable pub transformed : Affine23 F → KalmanBox F → KalmanBox F
  unfolding jacobian warped warp_scale
  transformed w k =
      let j = jacobian w (warp_scale w) in
      let c = product 8 (product 8 j k.cov) (transposed j) in
      clamp_state
        (record k { mean = warped w k.mean; cov = λ a b. half ⊗ plus c (transposed c) a b })

  -- `CV_Assert(init_)`
  abbrev pub asserting {ℓ} : {A : Type ℓ} → KalmanBox F → A → Option A
  asserting k a = if k.ready then some a else none

  unfoldable pub predict : F → KalmanBox F → Option (KalmanBox F)
  predict dt k = asserting k (predicted dt k)

  unfoldable pub update : BBox F → F → KalmanBox F → Option (KalmanBox F)
  update z r_scale k = asserting k (updated z r_scale k)

  unfoldable pub apply_affine : Affine23 F → KalmanBox F → Option (KalmanBox F)
  apply_affine w k = asserting k (transformed w k)

  unfoldable pub seed_velocity : BBox F → F → KalmanBox F → Option (KalmanBox F)
  seed_velocity z dt k = asserting k (seeded z dt k)

  unfoldable pub box : KalmanBox F → Option (BBox F)
  box k = asserting k (box_of k)
