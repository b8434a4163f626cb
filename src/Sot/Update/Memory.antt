-- ===== src/Sot/Update/Memory.antt =====
-- What `SotTracker::update` remembers: the last credible box, the count of lost frames, the drift
-- latch and the cadence of its check.
use custos_tracker.Prelude.{
  List, pos, suc, ◌%◌, ◌<ℤ◌, Bool, true, false, if◌then◌else◌, ◌&&◌, not, ◌≡◌, ◌≢◌, arith, Option,
  some, none, ◌⊎◌, inl, inr, Option-cases, ltb_ℤ,
}
use custos_tracker.Float.{Float, ◌≤?◌}
use custos_tracker.Types.{SotState, tracking, unstable, lost, SotResult, FrameView, Detection}
use custos_tracker.Mat.{Vision, as_mat}
use custos_tracker.Sot.World.{Backends, Detector, backend_init, backend_update}
use custos_tracker.Sot.Candidate.{pick_candidate, similarity, uses_reid}
use custos_tracker.Sot.Update.{
  Impl, update, update_image, settle, scored, consult, relock, recover, verify, attempt, latch,
  magnitude, is_tracking,
}

module _ {F P Img Hist N M D : Type 0} ⦃f : Float F⦄ (v : Vision F P Img Hist)
    (b : Backends F Img N M) (dt : Detector F P D) where
  abbrev is_some : Option D → Bool
  is_some none = false
  is_some (some d) = true

  -- What the end of `update` leaves as it was.
  abbrev Leaves : Impl F Hist N M D → Impl F Hist N M D → Type 0
  Leaves s s' =
      (s'.cfg ≡ s.cfg)
      × (s'.reference ≡ s.reference)
      × (s'.last_good ≡ s.last_good)
      × (s'.since_drift_check ≡ s.since_drift_check)
      × (s'.drift_latched ≡ s.drift_latched)

  abbrev AttemptLeaves :
      SotState → Impl F Hist N M D → Option (SotResult F × Impl F Hist N M D) → Type 0
  AttemptLeaves state s none = Unit
  AttemptLeaves state s (some (r', s')) =
      Leaves s s' × (s'.frames_lost ≡ s.frames_lost) × ((r'.state ≡ state) ⊎ (r'.state ≡ unstable))

  consult-Leaves :
      (img : Img) (dets : List (Detection F)) (d : D) (r : SotResult F) (s : Impl F Hist N M D)
      → AttemptLeaves r.state s (consult v b dt img dets d r s)
  unfolding consult relock
  consult-Leaves img dets d r s =
      let sim = similarity v b s.cfg.reid.embedder s.engine s.reference img in
      elim (Option-cases
        (pick_candidate s.reacquire_cfg s.cfg.reid s.last_good s.frames_lost sim dets)) [
          | inl e ↦ rw (consult, e) (ground arith)
          | inr (c, e) ↦ elim (Option-cases (backend_init b img c.box s.engine)) [
            | inl q ↦ rw (consult, e, q) tt
            | inr (g, q) ↦ rw (consult, e, q) (ground arith)
          ]
        ]

  attempt-Leaves :
      (img : Img) (frame : FrameView P) (r : SotResult F) (d : D) (s : Impl F Hist N M D)
      → AttemptLeaves r.state s (attempt v b dt img frame r d s)
  unfolding attempt
  attempt-Leaves img frame r d s = elim (Option-cases (dt.detect frame d)) [
    | inl e ↦ rw (attempt, e) tt
    | inr ((dets, d'), e) ↦ rw (attempt, e) (consult-Leaves img dets d' r s)
  ]

  -- The memory after an answer in each state, against the one before.
  abbrev pub Remembers : Impl F Hist N M D → SotResult F × Impl F Hist N M D → SotState → Type 0
  Remembers s (r, s') tracking = (s'.last_good ≡ r.box) × (s'.frames_lost ≡ 0)
  Remembers s (r, s') unstable =
      (s'.last_good ≡ s.last_good)
      × ((s'.frames_lost ≡ s.frames_lost)
          ⊎ ((s'.frames_lost ≡ suc s.frames_lost)
              × (s'.frames_lost % magnitude s.reacquire_cfg.detect_every ≡ 0)))
  Remembers s (r, s') lost =
      (s'.last_good ≡ s.last_good)
      × (s'.frames_lost ≡ (if is_some s.detector then suc s.frames_lost else s.frames_lost))

  abbrev pub RemembersAll : Impl F Hist N M D → Option (SotResult F × Impl F Hist N M D) → Type 0
  RemembersAll s none = Unit
  RemembersAll s (some (r, s')) = Remembers s (r, s') r.state

  recover-Remembers :
      (img : Img) (frame : FrameView P) (r : SotResult F) (s : Impl F Hist N M D)
      → r.state ≢ tracking
      → RemembersAll s (recover v b dt img frame r s)
  unfolding recover
  recover-Remembers img frame r s p = elim (Option-cases s.detector) [
    | inl e ↦ ground arith
    | inr (d, e) ↦
        ground (arith, attempt-Leaves img frame r d (record s { frames_lost = suc s.frames_lost }))
  ]

  verify-Remembers :
      (img : Img) (frame : FrameView P) (r : SotResult F) (s : Impl F Hist N M D)
      → r.state ≡ tracking
      → RemembersAll s (verify v b dt img frame r s)
  unfolding verify
  verify-Remembers img frame r s t =
      let sim = similarity v b s.cfg.reid.embedder s.engine s.reference img r.box in
      let drifted = latch v b dt r.score sim (record s { since_drift_check = 0 }) in
      ground (arith, recover-Remembers img frame (record r { state = lost }) drifted)

  settle-Remembers :
      (img : Img) (frame : FrameView P) (r : SotResult F) (s : Impl F Hist N M D)
      → RemembersAll s (settle v b dt img frame r s)
  unfolding settle
  settle-Remembers img frame r s =
      ground (arith, verify-Remembers img frame r s, recover-Remembers img frame r s)

  update_image-Remembers :
      (img : Img) (frame : FrameView P) (s : Impl F Hist N M D)
      → RemembersAll s (update_image v b dt img frame s)
  unfolding update_image scored
  update_image-Remembers img frame s = elim (Option-cases (backend_update b img s.engine)) [
    | inl q ↦ rw (update_image, scored, q) tt
    | inr ((r, e), q) ↦ rw (update_image, scored, q) (settle-Remembers img frame _ _)
  ]

  -- After a call that reports Tracking the box is the last credible one and no frame counts as lost.
  -- After one that reports Lost the credible box is as before, and with a detector one more frame
  -- counts as lost. After Unstable the credible box is as before; if the count rose it is divisible by
  -- the cadence of the detector.
  pub update-RemembersAll :
      (frame : FrameView P) (s : Impl F Hist N M D) → RemembersAll s (update v b dt frame s)
  unfolding update
  update-RemembersAll frame s = elim (Option-cases (as_mat v frame)) [
    | inl e ↦ rw (e, update) tt
    | inr (img, e) ↦ rw (e, update) (update_image-Remembers img frame s)
  ]

  -- The drift check is on.
  abbrev pub checks_drift : Impl F Hist N M D → Bool
  checks_drift s = uses_reid s.cfg.reid.embedder && ltb_ℤ (pos 0) s.cfg.reid.drift_check_every

  -- The similarity of a box to the reference, in the state after the call.
  abbrev pub resembles : Img → SotResult F → Impl F Hist N M D → Bool
  resembles img r s =
      s.cfg.reid.drift_thr ≤? similarity v b s.cfg.reid.embedder s.engine s.reference img r.box

  -- Under the latch an answer is Tracking only for a box that resembles the reference, and then the
  -- latch is gone; with any other answer it stays.
  abbrev pub Latched : Img → Option (SotResult F × Impl F Hist N M D) → Type 0
  Latched img none = Unit
  Latched img (some (r, s)) =
      (if is_tracking v b dt r.state
        then resembles img r s && not s.drift_latched
        else s.drift_latched)
      ≡ true

  recover-Latched :
      (img : Img) (frame : FrameView P) (r : SotResult F) (s : Impl F Hist N M D)
      → r.state ≢ tracking
      → s.drift_latched ≡ true
      → Latched img (recover v b dt img frame r s)
  unfolding recover
  recover-Latched img frame r s p l = elim (Option-cases s.detector) [
    | inl e ↦ ground arith
    | inr (d, e) ↦
        ground (arith, attempt-Leaves img frame r d (record s { frames_lost = suc s.frames_lost }))
  ]

  verify-Latched :
      (img : Img) (frame : FrameView P) (r : SotResult F) (s : Impl F Hist N M D)
      → checks_drift s ≡ true
      → s.drift_latched ≡ true
      → r.state ≡ tracking
      → Latched img (verify v b dt img frame r s)
  unfolding verify
  verify-Latched img frame r s c l t =
      let sim = similarity v b s.cfg.reid.embedder s.engine s.reference img r.box in
      let drifted = latch v b dt r.score sim (record s { since_drift_check = 0 }) in
      ground (arith, recover-Latched img frame (record r { state = lost }) drifted)

  settle-Latched :
      (img : Img) (frame : FrameView P) (r : SotResult F) (s : Impl F Hist N M D)
      → checks_drift s ≡ true
      → s.drift_latched ≡ true
      → Latched img (settle v b dt img frame r s)
  unfolding settle
  settle-Latched img frame r s c l =
      ground (arith, verify-Latched img frame r s c l, recover-Latched img frame r s)

  update_image-Latched :
      (img : Img) (frame : FrameView P) (s : Impl F Hist N M D)
      → checks_drift s ≡ true
      → s.drift_latched ≡ true
      → Latched img (update_image v b dt img frame s)
  unfolding update_image scored
  update_image-Latched img frame s c l = elim (Option-cases (backend_update b img s.engine)) [
    | inl q ↦ rw (update_image, scored, q) tt
    | inr ((r, e), q) ↦ rw (update_image, scored, q) (settle-Latched img frame _ _ c l)
  ]

  -- While drift is latched and its check is on, a frame is reported as Tracking only if its box
  -- resembles the reference by the threshold, which clears the latch; otherwise the latch stays, also where
  -- a re-lock lands.
  pub update-Latched :
      (frame : FrameView P) (img : Img) (s : Impl F Hist N M D)
      → as_mat v frame ≡ some img
      → checks_drift s ≡ true
      → s.drift_latched ≡ true
      → Latched img (update v b dt frame s)
  unfolding update
  update-Latched frame img s e c l = rw (e, update) (update_image-Latched img frame s c l)

  -- The counter of the drift check stays below its cadence.
  abbrev pub Below : Option (SotResult F × Impl F Hist N M D) → Type 0
  Below none = Unit
  Below (some (r, s)) = pos s.since_drift_check <ℤ s.cfg.reid.drift_check_every

  recover-Below :
      (img : Img) (frame : FrameView P) (r : SotResult F) (s : Impl F Hist N M D)
      → pos s.since_drift_check <ℤ s.cfg.reid.drift_check_every
      → Below (recover v b dt img frame r s)
  unfolding recover
  recover-Below img frame r s h = elim (Option-cases s.detector) [
    | inl e ↦ ground arith
    | inr (d, e) ↦
        ground (arith, attempt-Leaves img frame r d (record s { frames_lost = suc s.frames_lost }))
  ]

  verify-Below :
      (img : Img) (frame : FrameView P) (r : SotResult F) (s : Impl F Hist N M D)
      → pos s.since_drift_check <ℤ s.cfg.reid.drift_check_every
      → Below (verify v b dt img frame r s)
  unfolding verify
  verify-Below img frame r s h =
      let sim = similarity v b s.cfg.reid.embedder s.engine s.reference img r.box in
      let drifted = latch v b dt r.score sim (record s { since_drift_check = 0 }) in
      ground (arith, recover-Below img frame (record r { state = lost }) drifted)

  settle-Below :
      (img : Img) (frame : FrameView P) (r : SotResult F) (s : Impl F Hist N M D)
      → pos s.since_drift_check <ℤ s.cfg.reid.drift_check_every
      → Below (settle v b dt img frame r s)
  unfolding settle
  settle-Below img frame r s h =
      ground (arith, verify-Below img frame r s h, recover-Below img frame r s h)

  update_image-Below :
      (img : Img) (frame : FrameView P) (s : Impl F Hist N M D)
      → pos s.since_drift_check <ℤ s.cfg.reid.drift_check_every
      → Below (update_image v b dt img frame s)
  unfolding update_image scored
  update_image-Below img frame s h = elim (Option-cases (backend_update b img s.engine)) [
    | inl q ↦ rw (update_image, scored, q) tt
    | inr ((r, e), q) ↦ rw (update_image, scored, q) (settle-Below img frame _ _ h)
  ]

  -- A counter of the drift check that is below the cadence stays below it.
  pub update-Below :
      (frame : FrameView P) (s : Impl F Hist N M D)
      → pos s.since_drift_check <ℤ s.cfg.reid.drift_check_every
      → Below (update v b dt frame s)
  unfolding update
  update-Below frame s h = elim (Option-cases (as_mat v frame)) [
    | inl e ↦ rw (e, update) tt
    | inr (img, e) ↦ rw (e, update) (update_image-Below img frame s h)
  ]
