-- ===== src/Tbd/Multi/Laws.antt =====
-- The cadence of the detector and the ids through `MultiTracker::update`.
use custos_tracker.Prelude.{
  ℕ, zero, suc, ◌+◌, pos, negsuc, ℤ, ◌-ℤ◌, ◌+ℤ◌, max_ℤ, true, false, if◌then◌else◌, ltb_ℤ, List,
  ◌++◌, map, Option, none, some, ◌≡◌, refl, ◌∙◌, arith, Bool-cases, Option-cases, inl, inr, ◌⊎◌,
}
use custos_tracker.Float.{Float, ◌<?◌, one, nought, IsOrdered}
use custos_tracker.Types.{Detection, FrameView, Track}
use custos_tracker.Geometry.Boxes.{Affine23}
use custos_tracker.Mat.{Vision, as_mat}
use custos_tracker.Sot.World.{Detector}
use custos_tracker.Tbd.Config.{Filter}
use custos_tracker.Tbd.Assoc.{Solver}
use custos_tracker.Tbd.Tracker.{STrack, ByteTracker, update, coast, move}
use custos_tracker.Tbd.Tracker.Ids.{ids, map_same}
use custos_tracker.Tbd.Multi.{
  MultiTracker, Gmc, GmcMethod, off, sparse_flow, frame_dt, camera, embed, follows, boxes_of, glide,
  detect_frame, step,
}

GmcMethod-cases : (g : GmcMethod) → (g ≡ off) ⊎ (g ≡ sparse_flow)
GmcMethod-cases off = inl refl
GmcMethod-cases sparse_flow = inr refl

-- The order of the three literals in `frame_dt`.
pub record IsSpan (F : Type 0) ⦃f : Float F⦄ : Type 0 where
  pub low_high : (f.lit 5 0 <? f.lit 1 1) ≡ false
  pub low_one : (one <? f.lit 1 1) ≡ false
  pub one_high : (f.lit 5 0 <? one) ≡ false

module _ {F : Type 0} ⦃f : Float F⦄ where
  open f use {lit}

  -- Whatever the timestamps, the time step is neither below 0.1 nor above 5 frames.
  pub frame_dt-InSpan :
      (fps : F) (prev now : ℤ)
      → IsOrdered F
      → IsSpan F
      → ((frame_dt fps prev now <? lit 1 1) ≡ false) × ((lit 5 0 <? frame_dt fps prev now) ≡ false)
  unfolding frame_dt
  frame_dt-InSpan fps prev now o l =
      ground
        (arith, o.lt_irrefl (lit 1 1), o.lt_irrefl (lit 5 0), l.low_high, l.low_one, l.one_high)

module _ {F P Img Hist K D G : Type 0} ⦃f : Float F⦄ (v : Vision F P Img Hist) (filter : Filter F K)
    (solver : Solver F) (detectors : Detector F P D) (gmcs : Gmc F Img G) where
  abbrev after : FrameView P → MultiTracker F K D G → Option (List (Track F) × MultiTracker F K D G)
  after = step v filter solver detectors gmcs

  -- The frames left before the detector is asked are fewer than its interval.
  abbrev pub OnCadence : MultiTracker F K D G → Type 0
  OnCadence s =
      (k : ℕ) × ((s.until_detect ≡ pos k)
        × (ltb_ℤ (pos k) (max_ℤ (pos 1) s.cfg.detect_interval) ≡ true))

  -- What a call does with the detector, the countdown and the ids.
  pub data Turn (frame : FrameView P) (s s' : MultiTracker F K D G) : Type 0 where
    coasting :
        (k : ℕ)
        → s.until_detect ≡ pos (suc k)
        → s'.until_detect ≡ pos k
        → s'.detector ≡ s.detector
        → s'.tracker.next_id ≡ s.tracker.next_id
        → ids s'.tracker.tracks ≡ ids s.tracker.tracks
        → Turn frame s s'
    detecting :
        s.until_detect ≡ pos 0
        → s'.until_detect ≡ max_ℤ (pos 1) s.cfg.detect_interval -ℤ pos 1
        → (found : List (Detection F)) × (detectors.detect frame s.detector
            ≡ some (found, s'.detector))
        → Turn frame s s'

  camera_reads :
      (frame : FrameView P) (img : Img) (s : MultiTracker F K D G)
      → as_mat v frame ≡ some img
      → (r : Affine23 F × G) × (camera v filter solver detectors gmcs frame s ≡ some r)
  unfolding camera
  camera_reads frame img s h = elim (GmcMethod-cases s.cfg.gmc) [
    | inl e ↦ rw e (_, refl)
    | inr e ↦ rw (e, h) (_, refl)
  ]

  embed_reads :
      (frame : FrameView P) (img : Img) (s : MultiTracker F K D G) (dets : List (Detection F))
      → as_mat v frame ≡ some img
      → (r : List (Detection F)) × (embed v filter solver detectors gmcs frame s dets ≡ some r)
  unfolding embed
  embed_reads frame img s dets h = elim (Bool-cases (nought <? s.cfg.assoc.appearance_weight)) [
    | inl e ↦ rw (e, h) (_, refl)
    | inr e ↦ rw e (_, refl)
  ]

  ids-coast :
      (dt : F) (warp : Affine23 F) (t : ByteTracker F K)
      → ids (coast filter dt warp t).1.tracks ≡ ids t.tracks
  unfolding coast
  ids-coast dt warp t =
      map_same (λ (t : STrack F K). t.id)
        (λ t. record t { kf = move filter dt warp t.kf; age = t.age + 1 }) t.tracks (λ a. refl)

  abbrev moved : FrameView P → G → MultiTracker F K D G → MultiTracker F K D G
  moved frame g s = record s { prev_t_ns = frame.t_ns; gmc = g }

  abbrev dt_of : FrameView P → MultiTracker F K D G → F
  dt_of frame s = frame_dt s.cfg.nominal_fps s.prev_t_ns frame.t_ns

  step-glide :
      (frame : FrameView P) (s : MultiTracker F K D G) (warp : Affine23 F) (g : G) (k : ℕ)
      → camera v filter solver detectors gmcs frame s ≡ some (warp, g)
      → s.until_detect ≡ pos (suc k)
      → step v filter solver detectors gmcs frame s
        ≡ some (glide v filter solver detectors gmcs (dt_of frame s) warp (moved frame g s))
  unfolding step
  step-glide frame s warp g k c e =
      let more : ltb_ℤ (pos 0) s.until_detect ≡ true = rw e (ground arith) in
      rw (step, c, more) refl

  step-detect_frame :
      (frame : FrameView P) (s : MultiTracker F K D G) (warp : Affine23 F) (g : G)
      → camera v filter solver detectors gmcs frame s ≡ some (warp, g)
      → s.until_detect ≡ pos 0
      → step v filter solver detectors gmcs frame s
        ≡ detect_frame v filter solver detectors gmcs (dt_of frame s) warp frame (moved frame g s)
  unfolding step
  step-detect_frame frame s warp g c e = rw (step, c, e) refl

  -- A frame with detection, with the detections that `update` is given.
  detected :
      F
      → Affine23 F
      → D
      → MultiTracker F K D G
      → List (Detection F)
      → List (Track F) × MultiTracker F K D G
  detected dt warp d s dets =
      let (out, tracker) = update filter solver dets dt warp s.tracker in
      (
        out,
        record s {
          until_detect = max_ℤ (pos 1) s.cfg.detect_interval -ℤ pos 1;
          detector = d;
          tracker = tracker;
          gmc_exclude =
              if follows s.cfg.gmc
              then map (λ (d : Detection F). d.box) dets ++ boxes_of out
              else s.gmc_exclude;
        },
      )

  detect_frame-some :
      (dt : F) (warp : Affine23 F) (frame : FrameView P) (d : D) (s : MultiTracker F K D G)
      (found dets : List (Detection F))
      → detectors.detect frame s.detector ≡ some (found, d)
      → embed v filter solver detectors gmcs frame s found ≡ some dets
      → detect_frame v filter solver detectors gmcs dt warp frame s
        ≡ some (detected dt warp d s dets)
  unfolding detect_frame detected
  detect_frame-some dt warp frame d s found dets t e = rw (detect_frame, t, e) refl

  detect_frame-throws :
      (dt : F) (warp : Affine23 F) (frame : FrameView P) (s : MultiTracker F K D G)
      → detectors.detect frame s.detector ≡ none
      → detect_frame v filter solver detectors gmcs dt warp frame s ≡ none
  unfolding detect_frame
  detect_frame-throws dt warp frame s t = rw (detect_frame, t) refl

  down : (k : ℕ) (u : ℤ) → u ≡ pos (suc k) → u -ℤ pos 1 ≡ pos k
  unfolding ◌-ℤ◌
  down k u e = rw e (ground arith)

  restart :
      (n : ℤ)
      → (k : ℕ) × ((max_ℤ (pos 1) n -ℤ pos 1 ≡ pos k) × (ltb_ℤ (pos k) (max_ℤ (pos 1) n) ≡ true))
  unfolding ◌-ℤ◌ ◌+ℤ◌
  restart (negsuc n) = (0, (ground arith, ground arith))
  restart (pos zero) = (0, (ground arith, ground arith))
  restart (pos (suc n)) = (n, (ground arith, ground arith))

  -- On a frame that can be read, with a countdown below the interval, `MultiTracker::update` throws only if
  -- the countdown is over and the detector throws on the frame, and returns otherwise. It coasts if the
  -- countdown is not over, with one frame less to go, the detector not asked and the ids as they were; and
  -- otherwise it asks the detector and starts the countdown again. The countdown is below the interval
  -- afterwards. The solver and the estimate of the camera motion are taken to answer.
  pub step-Turn :
      (frame : FrameView P) (img : Img) (s : MultiTracker F K D G)
      → as_mat v frame ≡ some img
      → OnCadence s
      → ((after frame s ≡ none)
          × ((s.until_detect ≡ pos 0) × (detectors.detect frame s.detector ≡ none)))
        ⊎ ((r : List (Track F) × MultiTracker F K D G) × ((after frame s ≡ some r)
              × (Turn frame s r.1 × OnCadence r.1)))
  unfolding glide detected coast
  step-Turn frame img s h (zero, (e, b)) =
      let ((warp, g), c) = camera_reads frame img s h in
      let s' = moved frame g s in
      let dt = dt_of frame s in
      elim (Option-cases (detectors.detect frame s.detector)) [
        | inl t ↦
            let throws =
              step-detect_frame frame s warp g c e ∙ detect_frame-throws dt warp frame s' t in
            inl (throws, (e, t))
        | inr ((found, d), t) ↦
            let (dets, m) = embed_reads frame img s' found h in
            let runs =
              step-detect_frame frame s warp g c e
              ∙ detect_frame-some dt warp frame d s' found dets t m in
            inr (
              detected dt warp d s' dets,
              (runs, (detecting e refl (found, t), restart s.cfg.detect_interval)),
            )
      ]
  step-Turn frame img s h (suc k, (e, b)) =
      let ((warp, g), c) = camera_reads frame img s h in
      let less : s.until_detect -ℤ pos 1 ≡ pos k = down k s.until_detect e in
      inr (
        glide v filter solver detectors gmcs (dt_of frame s) warp (moved frame g s),
        (
          step-glide frame s warp g k c e,
          (
            coasting k e less refl refl (ids-coast (dt_of frame s) warp s.tracker),
            (k, (less, ground arith)),
          ),
        ),
      )
