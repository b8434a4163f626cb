-- ===== src/Kalman/Laws.antt =====
-- The bounds on aspect and height, and the assertions, through any operations on a filter.
use custos_tracker.Prelude.{
  true, false, List, [], ◌∷◌, Option, none, some, ◌≡◌, refl, arith, Bool-cases, inl, inr,
}
use custos_tracker.Float.{Float, ◌<?◌, ◌≤?◌, nought, one, IsOrdered}
use custos_tracker.Types.{BBox}
use custos_tracker.Geometry.Boxes.{Affine23}
use custos_tracker.Kalman.{
  Linear, KalmanBox, aspect, height, clamp_state, initiate, predicted, updated, transformed, seeded,
  predict, update, apply_affine, seed_velocity,
}

-- The order of the two bounds on the aspect.
pub record IsRange (F : Type 0) ⦃f : Float F⦄ : Type 0 where
  pub bounds : (f.lit 20 0 <? f.lit 5 2) ≡ false

-- The operations after `initiate`.
pub data Op (F : Type 0) : Type 0 where
  predicts : F → Op F
  updates : BBox F → F → Op F
  warps : Affine23 F → Op F
  seeds : BBox F → F → Op F

module _ {F : Type 0} ⦃f : Float F⦄ where
  open f use {lit}

  -- Initiated, with an aspect and a height in bounds.
  pub record IsSound (k : KalmanBox F) : Type 0 where
    pub ready : k.ready ≡ true
    pub not_narrow : (aspect k <? lit 5 2) ≡ false
    pub not_wide : (lit 20 0 <? aspect k) ≡ false
    pub not_low : (height k <? one) ≡ false

  module _ (o : IsOrdered F) (r : IsRange F) where
    clamp_state-IsSound : (k : KalmanBox F) → k.ready ≡ true → IsSound (clamp_state k)
    unfolding clamp_state
    clamp_state-IsSound k e = record {
      ready = e;
      not_narrow = ground (arith, o.lt_irrefl (lit 5 2), r.bounds);
      not_wide = ground (arith, o.lt_irrefl (lit 20 0), r.bounds);
      not_low = ground (arith, o.lt_irrefl one);
    }

    pub initiate-IsSound : (z : BBox F) → IsSound (initiate z)
    unfolding initiate
    initiate-IsSound z = clamp_state-IsSound _ refl

    module _ (linear : Linear F) where
      pub predicted-IsSound :
          (dt : F) (k : KalmanBox F) → IsSound k → IsSound (predicted linear dt k)
      unfolding predicted
      predicted-IsSound dt k h = clamp_state-IsSound _ h.ready

      pub updated-IsSound :
          (z : BBox F) (r_scale : F) (k : KalmanBox F)
          → IsSound k
          → IsSound (updated linear z r_scale k)
      unfolding updated
      updated-IsSound z r_scale k h = clamp_state-IsSound _ h.ready

      pub transformed-IsSound :
          (w : Affine23 F) (k : KalmanBox F) → IsSound k → IsSound (transformed linear w k)
      unfolding transformed
      transformed-IsSound w k h = clamp_state-IsSound _ h.ready

  pub seeded-IsSound : (z : BBox F) (dt : F) (k : KalmanBox F) → IsSound k → IsSound (seeded z dt k)
  unfolding seeded
  seeded-IsSound z dt k h = elim (Bool-cases (dt ≤? nought)) [
    | inl e ↦ rw e h
    | inr e ↦ rw e (record {
      ready = h.ready;
      not_narrow = h.not_narrow;
      not_wide = h.not_wide;
      not_low = h.not_low;
    })
  ]

  module _ (linear : Linear F) where
    pub apply : Op F → KalmanBox F → Option (KalmanBox F)
    apply (predicts dt) k = predict linear dt k
    apply (updates z r_scale) k = update linear z r_scale k
    apply (warps w) k = apply_affine linear w k
    apply (seeds z dt) k = seed_velocity linear z dt k

    pub apply_all : List (Op F) → KalmanBox F → Option (KalmanBox F)
    unfolding apply
    apply_all [] k = some k
    apply_all (op ∷ ops) k = elim (apply op k) [ none ↦ none | some k' ↦ apply_all ops k' ]

    module _ (o : IsOrdered F) (r : IsRange F) where
      apply-IsSound :
          (op : Op F) (k : KalmanBox F)
          → IsSound k
          → (k' : KalmanBox F) × ((apply op k ≡ some k') × IsSound k')
      unfolding apply predict update apply_affine seed_velocity
      apply-IsSound (predicts dt) k h =
          (predicted linear dt k, (rw h.ready refl, predicted-IsSound o r linear dt k h))
      apply-IsSound (updates z s) k h =
          (updated linear z s k, (rw h.ready refl, updated-IsSound o r linear z s k h))
      apply-IsSound (warps w) k h =
          (transformed linear w k, (rw h.ready refl, transformed-IsSound o r linear w k h))
      apply-IsSound (seeds z dt) k h = (seeded z dt k, (rw h.ready refl, seeded-IsSound z dt k h))

      apply_all_from-IsSound :
          (ops : List (Op F)) (k : KalmanBox F)
          → IsSound k
          → (k' : KalmanBox F) × ((apply_all ops k ≡ some k') × IsSound k')
      unfolding apply_all
      apply_all_from-IsSound [] k h = (k, (refl, h))
      apply_all_from-IsSound (op ∷ ops) k h =
          let (k1, (e, h1)) = apply-IsSound op k h in
          let (k2, (e2, h2)) = apply_all_from-IsSound ops k1 h1 in (k2, (rw (apply_all, e) e2, h2))

      -- Whatever the matrix product and inverse answer, any operations on a filter that a box has
      -- initiated return, with an aspect between 0.05 and 20 and a height of 1 or more.
      pub apply_all-IsSound :
          (z : BBox F) (ops : List (Op F))
          → (k : KalmanBox F) × ((apply_all ops (initiate z) ≡ some k) × IsSound k)
      apply_all-IsSound z ops = apply_all_from-IsSound ops (initiate z) (initiate-IsSound o r z)
