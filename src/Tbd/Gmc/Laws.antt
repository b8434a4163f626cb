-- ===== src/Tbd/Gmc/Laws.antt =====
-- Where a warp comes from.
use custos_tracker.Prelude.{
  ◌≤◌, leb, leb→le, length, List, some, ◌≡◌, ◌⊎◌, refl, ◌∙◌, Bool-cases, Option-cases, inl, inr,
}
use custos_tracker.Float.{Float}
use custos_tracker.Types.{BBox}
use custos_tracker.Geometry.Boxes.{Affine23, no_warp}
use custos_tracker.Tbd.Multi.{Gmc}
use custos_tracker.Tbd.Gmc.{
  Point, Flow, GmcEstimator, kept, firsts, seconds, factor, working, full_size, warp_of, background,
  warp_between, same_size, estimate,
}

module _ {F Img G Mask : Type 0} ⦃f : Float F⦄ (v : Flow F Img G Mask) where
  -- `GmcEstimator` as the facade uses it.
  abbrev pub estimator : Gmc F Img (GmcEstimator F G)
  estimator = record { estimate = estimate v }

  -- The motion from the frame `before`, with the boxes that came with it, to `now`.
  pub record IsMotion (before now : Img) (exclude : List (BBox F)) (warp : Affine23 F)
      : Type 0 where
    pub prev_pts : List (Point F)
    pub background_is : prev_pts ≡ background v (factor v (v.grey now)) (working v before) exclude
    pub pairs : List (Point F × Point F)
    pub pairs_are : pairs ≡ kept prev_pts (v.track (working v before) (working v now) prev_pts)
    pub enough : 12 ≤ length pairs
    pub model : Affine23 F
    pub model_is : v.affine (firsts pairs) (seconds pairs) ≡ some model
    pub warp_is : warp ≡ full_size v (factor v (v.grey now)) model

  warp_of-cases :
      (k : F) (pairs : List (Point F × Point F))
      → (warp_of v k pairs ≡ no_warp)
        ⊎ ((12 ≤ length pairs)
            × ((m : Affine23 F) × ((v.affine (firsts pairs) (seconds pairs) ≡ some m)
                  × (warp_of v k pairs ≡ full_size v k m))))
  unfolding warp_of
  warp_of-cases k pairs = elim (Bool-cases (leb 12 (length pairs))) [
    | inl e ↦ elim (Option-cases (v.affine (firsts pairs) (seconds pairs))) [
      | inl q ↦ inl (rw (warp_of, e, q) refl)
      | inr (m, q) ↦ inr (leb→le 12 (length pairs) e, (m, (q, rw (warp_of, e, q) refl)))
    ]
    | inr e ↦ inl (rw (warp_of, e) refl)
  ]

  warp_between-cases :
      (k : F) (prev gray : G) (exclude : List (BBox F))
      → let pts = background v k prev exclude in
        (warp_between v k prev gray exclude ≡ no_warp)
        ⊎ (warp_between v k prev gray exclude ≡ warp_of v k (kept pts (v.track prev gray pts)))
  unfolding warp_between
  warp_between-cases k prev gray exclude =
      elim (Bool-cases (leb 12 (length (background v k prev exclude)))) [
        | inl e ↦ inr (rw (warp_between, e) refl)
        | inr e ↦ inl (rw (warp_between, e) refl)
      ]

  estimate-cases :
      (before now : Img) (exclude exclude' : List (BBox F)) (s : GmcEstimator F G)
      → let warp = (estimate v now exclude' ((estimate v before exclude s).1)).0 in
        (warp ≡ no_warp)
        ⊎ (warp ≡ warp_between v (factor v (v.grey now)) (working v before) (working v now) exclude)
  unfolding estimate
  estimate-cases before now exclude exclude' s =
      elim (Bool-cases (same_size v (working v before) (working v now))) [
        | inl e ↦ inr (rw (estimate, e) refl)
        | inr e ↦ inl (rw (estimate, e) refl)
      ]

  -- The warp of a frame after another is the identity, or the model of twelve pairs or more of points of
  -- the other frame's background and where they are in this one, whatever came before the two.
  pub estimate-IsMotion :
      (before now : Img) (exclude exclude' : List (BBox F)) (s : GmcEstimator F G)
      → let warp = (estimate v now exclude' ((estimate v before exclude s).1)).0 in
        (warp ≡ no_warp) ⊎ IsMotion before now exclude warp
  estimate-IsMotion before now exclude exclude' s =
      let k = factor v (v.grey now) in
      let pts = background v k (working v before) exclude in
      let pairs = kept pts (v.track (working v before) (working v now) pts) in
      elim (estimate-cases before now exclude exclude' s) [
        | inl e ↦ inl e
        | inr e ↦ elim (warp_between-cases k (working v before) (working v now) exclude) [
          | inl q ↦ inl (e ∙ q)
          | inr q ↦ elim (warp_of-cases k pairs) [
            | inl r ↦ inl (e ∙ (q ∙ r))
            | inr (many, (m, (is, r))) ↦ inr (record {
              prev_pts = pts;
              background_is = refl;
              pairs = pairs;
              pairs_are = refl;
              enough = many;
              model = m;
              model_is = is;
              warp_is = e ∙ (q ∙ r);
            })
          ]
        ]
      ]
