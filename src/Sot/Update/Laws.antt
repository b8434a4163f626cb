-- ===== src/Sot/Update/Laws.antt =====
-- What `SotTracker::update` guarantees of the state that it reports and of what it remembers.
use custos_tracker.Prelude.{
  ◌++◌, ◌∷◌, [], pos, suc, ◌-ℤ◌, ◌≤ℤ◌, ◌<ℤ◌, List, ◌≡◌, refl, arith, Option, some, none, ◌⊎◌, inl,
  inr, Option-cases,
}
use custos_tracker.Float.{Float, IsOrdered}
use custos_tracker.Types.{tracking, unstable, lost, SotResult, FrameView, Detection}
use custos_tracker.Mat.{Vision, as_mat}
use custos_tracker.Sot.World.{Backends, Detector, backend_update, backend_init}
use custos_tracker.Sot.Candidate.{pick_candidate, similarity, uses_reid, search_radius}
use custos_tracker.Sot.Candidate.Laws.{IsChoice, pick_candidate-IsChoice}
use custos_tracker.Sot.Update.{
  Impl, re_acquired, update, update_image, settle, consult, relock, recover, verify, attempt, latch,
  scored,
}
use custos_tracker.Sot.Update.Streak.{Agrees, state_at-Agrees, next_streak_nonneg}

module _ {F P Img Hist N M D : Type 0} ⦃f : Float F⦄ (v : Vision F P Img Hist)
    (b : Backends F Img N M) (dt : Detector F P D) where
  abbrev pub Answer : Type 0
  Answer = SotResult F × Impl F Hist N M D

  -- The state that is reported agrees with the streak that is kept.
  abbrev pub IsConsistent : Option Answer → Type 0
  IsConsistent none = Unit
  IsConsistent (some (r, s)) =
      (pos 0 ≤ℤ s.low_streak) × Agrees r.state s.cfg.lost_patience s.low_streak

  consult-IsConsistent :
      (img : Img) (dets : List (Detection F)) (d : D) (r : SotResult F) (s : Impl F Hist N M D)
      → pos 0 <ℤ s.cfg.lost_patience
      → IsConsistent (some (r, s))
      → IsConsistent (consult v b dt img dets d r s)
  unfolding consult relock ◌-ℤ◌
  consult-IsConsistent img dets d r s p h =
      let sim = similarity v b s.cfg.reid.embedder s.engine s.reference img in
      elim (Option-cases
        (pick_candidate s.reacquire_cfg s.cfg.reid s.last_good s.frames_lost sim dets)) [
          | inl e ↦ rw (consult, e) h
          | inr (c, e) ↦ elim (Option-cases (backend_init b img c.box s.engine)) [
            | inl q ↦ rw (consult, e, q) tt
            | inr (g, q) ↦ rw (consult, e, q) (ground arith)
          ]
        ]

  attempt-IsConsistent :
      (img : Img) (frame : FrameView P) (r : SotResult F) (d : D) (s : Impl F Hist N M D)
      → pos 0 <ℤ s.cfg.lost_patience
      → IsConsistent (some (r, s))
      → IsConsistent (attempt v b dt img frame r d s)
  unfolding attempt
  attempt-IsConsistent img frame r d s p h = elim (Option-cases (dt.detect frame d)) [
    | inl e ↦ rw (attempt, e) tt
    | inr ((dets, d'), e) ↦ rw (attempt, e) (consult-IsConsistent img dets d' r s p h)
  ]

  recover-IsConsistent :
      (img : Img) (frame : FrameView P) (r : SotResult F) (s : Impl F Hist N M D)
      → pos 0 <ℤ s.cfg.lost_patience
      → IsConsistent (some (r, s))
      → IsConsistent (recover v b dt img frame r s)
  unfolding recover
  recover-IsConsistent img frame r s p h = elim (Option-cases s.detector) [
    | inl e ↦ ground arith
    | inr (d, e) ↦
        ground (
          arith,
          attempt-IsConsistent img frame r d (record s { frames_lost = suc s.frames_lost }) p,
        )
  ]

  verify-IsConsistent :
      (img : Img) (frame : FrameView P) (r : SotResult F) (s : Impl F Hist N M D)
      → pos 0 <ℤ s.cfg.lost_patience
      → IsConsistent (some (r, s))
      → r.state ≡ tracking
      → IsConsistent (verify v b dt img frame r s)
  unfolding verify
  verify-IsConsistent img frame r s p h t =
      let sim = similarity v b s.cfg.reid.embedder s.engine s.reference img r.box in
      ground (
        arith,
        recover-IsConsistent img frame (record r { state = lost })
            (latch v b dt r.score sim (record s { since_drift_check = 0 })) p,
      )

  settle-IsConsistent :
      (img : Img) (frame : FrameView P) (r : SotResult F) (s : Impl F Hist N M D)
      → pos 0 <ℤ s.cfg.lost_patience
      → IsConsistent (some (r, s))
      → IsConsistent (settle v b dt img frame r s)
  unfolding settle
  settle-IsConsistent img frame r s p h =
      ground (arith, verify-IsConsistent img frame r s p h, recover-IsConsistent img frame r s p h)

  update_image-IsConsistent :
      (img : Img) (frame : FrameView P) (s : Impl F Hist N M D)
      → pos 0 <ℤ s.cfg.lost_patience
      → pos 0 ≤ℤ s.low_streak
      → IsConsistent (update_image v b dt img frame s)
  unfolding update_image scored
  update_image-IsConsistent img frame s p h = elim (Option-cases (backend_update b img s.engine)) [
    | inl q ↦ rw (update_image, scored, q) tt
    | inr ((r, e), q) ↦
        let k = next_streak_nonneg s.cfg s.low_streak r.score h in
        rw (update_image, scored, q)
          (settle-IsConsistent img frame _ _ p (k, state_at-Agrees s.cfg.lost_patience _ k))
  ]

  -- With a positive patience, the state that a call reports agrees with the streak that it keeps:
  -- Tracking with no low score, Unstable with fewer than the patience, and Lost with at least as many.
  pub update-IsConsistent :
      (frame : FrameView P) (s : Impl F Hist N M D)
      → pos 0 <ℤ s.cfg.lost_patience
      → pos 0 ≤ℤ s.low_streak
      → IsConsistent (update v b dt frame s)
  unfolding update
  update-IsConsistent frame s p h = elim (Option-cases (as_mat v frame)) [
    | inl e ↦ rw (e, update) tt
    | inr (img, e) ↦ rw (e, update) (update_image-IsConsistent img frame s p h)
  ]

  -- What the detector's turn leads to. If the detector throws, so does it. Otherwise nothing changes but the
  -- detector if none of its detections is eligible; or else the tracker is seeded with the best one, Unstable
  -- and one short of the patience, or the seeding throws.
  abbrev pub IsAttempt :
      Img → FrameView P → D → SotResult F → Impl F Hist N M D → Option Answer → Type 0
  IsAttempt img frame d r s o =
      let sim = similarity v b s.cfg.reid.embedder s.engine s.reference img in
      let radius = search_radius s.reacquire_cfg s.last_good s.frames_lost in
      let choice =
        IsChoice s.reacquire_cfg s.last_good radius (uses_reid s.cfg.reid.embedder)
          s.cfg.reid.accept sim in
      ((dt.detect frame d ≡ none) × (o ≡ none))
      ⊎ ((dets : List (Detection F)) × ((d' : D) × ((dt.detect frame d ≡ some (dets, d'))
              × ((choice dets none × (o ≡ some (r, record s { detector = some d' })))
                  ⊎ ((c : Detection F) × (choice dets (some c)
                        × (((backend_init b img c.box s.engine ≡ none) × (o ≡ none))
                            ⊎ ((a : Answer) × ((o ≡ some a)
                                  × ((a.0
                                        ≡ record { box = c.box; score = c.score; state = unstable })
                                      × ((backend_init b img c.box s.engine ≡ some a.1.engine)
                                          × ((a.1.detector ≡ some d')
                                              × ((a.1.low_streak ≡ s.cfg.lost_patience -ℤ pos 1)
                                                  × (a.1.reference ≡ s.reference))))))))))))))

  -- When the detector is asked, the tracker is seeded anew with the best eligible detection, on
  -- probation and against the same reference, and is left alone if there is none; the turn throws exactly
  -- if the detector or the seeding does.
  pub attempt-IsAttempt :
      (o : IsOrdered F) (img : Img) (frame : FrameView P) (r : SotResult F) (d : D)
      (s : Impl F Hist N M D)
      → IsAttempt img frame d r s (attempt v b dt img frame r d s)
  unfolding attempt consult relock
  attempt-IsAttempt o img frame r d s = elim (Option-cases (dt.detect frame d)) [
    | inl t ↦ inl (t, rw (attempt, t) refl)
    | inr ((dets, d'), t) ↦
        let sim = similarity v b s.cfg.reid.embedder s.engine s.reference img in
        let best =
          pick_candidate-IsChoice o s.reacquire_cfg s.cfg.reid s.last_good s.frames_lost sim dets in
        inr (
          dets,
          (
            d',
            (
              t,
              elim (Option-cases
                  (pick_candidate s.reacquire_cfg s.cfg.reid s.last_good s.frames_lost sim dets)) [
                    | inl e ↦ inl (rw e at best, rw (attempt, t, consult, e) refl)
                    | inr (c, e) ↦ inr (
                      c,
                      (
                        rw e at best,
                        elim (Option-cases (backend_init b img c.box s.engine)) [
                          | inl q ↦ inl (q, rw (attempt, t, consult, e, q) refl)
                          | inr (g, q) ↦
                              let seeded : Answer = (
                                record { box = c.box; score = c.score; state = unstable },
                                record s {
                                  engine = g;
                                  detector = some d';
                                  low_streak = s.cfg.lost_patience -ℤ pos 1;
                                  messages =
                                      s.messages ++ re_acquired c.box c.score s.frames_lost ∷ [];
                                },
                              ) in
                              inr (
                                seeded,
                                (
                                  rw (attempt, t, consult, e, q) refl,
                                  (refl, (q, (refl, (refl, refl)))),
                                ),
                              )
                        ],
                      ),
                    )
                  ],
            ),
          ),
        )
  ]
