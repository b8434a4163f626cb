-- ===== src/Tbd/Multi.antt =====
-- core/src/tbd/multi_tracker.cpp: the facade `MultiTracker` over a detector, the association and the
-- estimate of the camera's motion.

pub mod Laws
mod Tests
use mathlib.Core.Option
use custos_tracker.Prelude.{
  pos, negsuc, ℤ, ◌-ℤ◌, max_ℤ, Bool, true, false, not, ◌&&◌, ◌||◌, ◌==◌, if◌then◌else◌, ltb_ℤ,
  leb_ℤ, List, [], ◌∷◌, ◌++◌, map, Option, none, some,
}
use custos_tracker.Float.{Float, ◌⊗◌, ◌<?◌, one, nought, fclamp}
use custos_tracker.Types.{BBox, Detection, FrameView, Track}
use custos_tracker.Geometry.Boxes.{Affine23, no_warp}
use custos_tracker.Mat.{Vision, as_mat}
use custos_tracker.Appearance.{hsv_embedding}
use custos_tracker.Sot.World.{Detector}
use custos_tracker.Detector.Config.{Yolov8Config}
use custos_tracker.Tbd.Config.{AssocConfig, Filter}
use custos_tracker.Tbd.Assoc.{Solver}
use custos_tracker.Tbd.Tracker.{ByteTracker, create, update, coast}

pub data GmcMethod : Type 0 where
  off : GmcMethod
  sparse_flow : GmcMethod

abbrev pub follows : GmcMethod → Bool
follows off = false
follows sparse_flow = true

pub record TbdConfig (F : Type 0) : Type 0 where
  pub detector : Yolov8Config F
  pub assoc : AssocConfig F
  pub gmc : GmcMethod
  pub nominal_fps : F
  pub detect_interval : ℤ

-- `GmcEstimator`, with the boxes it must not look at.
pub record Gmc (F Img G : Type 0) : Type 0 where
  pub estimate : Img → List (BBox F) → G → Affine23 F × G

-- `MultiTracker::Impl`.
pub record MultiTracker (F K D G : Type 0) : Type 0 where
  pub cfg : TbdConfig F
  pub detector : D
  pub tracker : ByteTracker F K
  pub gmc : G
  pub gmc_exclude : List (BBox F)
  pub prev_t_ns : ℤ
  pub until_detect : ℤ

module _ {F : Type 0} ⦃f : Float F⦄ where
  open f use {lit, of_int}

  -- The time between two frames, in nominal frames. The source computes the product in double precision,
  -- and here it is one of `F`.
  unfoldable pub frame_dt : F → ℤ → ℤ → F
  frame_dt fps prev now =
      let span = fclamp (of_int (now -ℤ prev) ⊗ lit 1 9 ⊗ fps) (lit 1 1) (lit 5 0) in
      if leb_ℤ (pos 0) prev && ltb_ℤ prev now then span else one

-- The boxes of tracks.
abbrev pub boxes_of : {F : Type 0} → List (Track F) → List (BBox F)
boxes_of = map λ t. t.box

module _ {F P Img Hist K D G : Type 0} ⦃f : Float F⦄ (v : Vision F P Img Hist) (filter : Filter F K)
    (solver : Solver F) (detectors : Detector F P D) (gmcs : Gmc F Img G) where
  unfoldable pub start : TbdConfig F → D → G → MultiTracker F K D G
  start cfg d g = record {
    cfg = cfg;
    detector = d;
    tracker = create cfg.assoc;
    gmc = g;
    gmc_exclude = [];
    prev_t_ns = negsuc 0;
    until_detect = pos 0;
  }

  -- The camera's motion, estimated on every frame; `none` if the frame cannot be read.
  unfoldable pub camera : FrameView P → MultiTracker F K D G → Option (Affine23 F × G)
  camera frame s = elim s.cfg.gmc [
    | off ↦ some (no_warp, s.gmc)
    | sparse_flow ↦ Option.map (λ img. gmcs.estimate img s.gmc_exclude s.gmc) (as_mat v frame)
  ]

  -- The detections, with their descriptors if the association asks for them.
  unfoldable pub embed :
      FrameView P → MultiTracker F K D G → List (Detection F) → Option (List (Detection F))
  embed frame s dets =
      if nought <? s.cfg.assoc.appearance_weight
      then Option.map
          (λ img.
            map (λ (d : Detection F). record d { embedding = hsv_embedding v img d.box }) dets)
          (as_mat v frame)
      else some dets

  -- A frame without detection.
  unfoldable pub glide :
      F → Affine23 F → MultiTracker F K D G → List (Track F) × MultiTracker F K D G
  glide dt warp s =
      let (out, tracker) = coast filter dt warp s.tracker in
      (
        out,
        record s {
          until_detect = s.until_detect -ℤ pos 1;
          tracker = tracker;
          gmc_exclude = if follows s.cfg.gmc then boxes_of out else s.gmc_exclude;
        },
      )

  -- A frame with detection; `none` if the detector throws.
  unfoldable pub detect_frame :
      F
      → Affine23 F
      → FrameView P
      → MultiTracker F K D G
      → Option (List (Track F) × MultiTracker F K D G)
  detect_frame dt warp frame s = elim (detectors.detect frame s.detector) [
    | none ↦ none
    | some (found, d) ↦
        Option.map
          (λ dets.
            let (out, tracker) = update filter solver dets dt warp s.tracker in
            (
              out,
              record s {
                until_detect = max_ℤ (pos 1) s.cfg.detect_interval -ℤ pos 1;
                detector = d;
                tracker = tracker;
                gmc_exclude =
                    if follows s.cfg.gmc
                    then map (λ (d : Detection F). d.box) dets ++ boxes_of out
                    else s.gmc_exclude;
              },
            ))
          (embed frame s found)
  ]

  -- `MultiTracker::update`, by the camera's motion.
  unfoldable pub step :
      FrameView P → MultiTracker F K D G → Option (List (Track F) × MultiTracker F K D G)
  step frame s =
      let dt = frame_dt s.cfg.nominal_fps s.prev_t_ns frame.t_ns in
      elim (camera frame s) [
        | none ↦ none
        | some (warp, g) ↦
            let s' = record s { prev_t_ns = frame.t_ns; gmc = g } in
            if ltb_ℤ (pos 0) s.until_detect
            then some (glide dt warp s')
            else detect_frame dt warp frame s'
      ]
