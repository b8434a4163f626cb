-- ===== src/Sot/Update.antt =====
-- core/src/sot/sot_tracker.cpp: the state of `SotTracker::Impl`, `init` and `update`. `none` is a
-- failed assertion of `as_mat`, the remainder by a `detect_every` of zero, or an exception of a backend or of
-- the detector. The lines that the code
-- logs are values, appended to the field `messages`.
pub mod Streak
pub mod Alone
pub mod Correlation
pub mod Laws
pub mod Memory
mod Tests
use custos_tracker.Prelude.{
  ℕ, ℤ, pos, pos_part, neg_part, zero, suc, ◌+◌, ◌%◌, ◌+ℤ◌, ◌-ℤ◌, Bool, true, false, not, ◌||◌,
  ◌&&◌, ◌==◌, if◌then◌else◌, ltb_ℤ, leb_ℤ, eqb_ℤ, List, [], ◌∷◌, ◌++◌, Option, none, some,
}
use custos_tracker.Float.{Float, ◌<?◌, ◌≤?◌}
use custos_tracker.Types.{
  BBox, Detection, FrameView, SotState, tracking, unstable, lost, SotResult, zero_box,
}
use custos_tracker.Mat.{Vision, as_mat}
use custos_tracker.Sot.Config.{
  SotConfig, ReacquireConfig, Embedder, no_embedder, nano_z, resolve, default_reacquire,
}
use custos_tracker.Sot.World.{Backends, Engine, nano, mosse, Detector, backend_init, backend_update}
use custos_tracker.Sot.Candidate.{Reference, hsv_hist, similarity, pick_candidate, uses_reid}

-- The three lines, with the values that they print.
pub data Message (F : Type 0) : Type 0 where
  target_lost : F → F → Message F
  drift_detected : F → F → F → Message F
  re_acquired : BBox F → F → ℕ → Message F

pub record Impl (F Hist N M D : Type 0) : Type 0 where
  pub cfg : SotConfig F
  pub engine : Engine N M
  pub low_streak : ℤ
  pub detector : Option D
  pub reacquire_cfg : ReacquireConfig F
  pub last_good : BBox F
  pub frames_lost : ℕ
  pub reference : Reference F Hist
  pub since_drift_check : ℕ
  pub drift_latched : Bool
  pub messages : List (Message F)

abbrev pub is_lost : SotState → Bool
is_lost lost = true
is_lost _ = false

infixl 5 ◌>>=◌
abbrev ◌>>=◌ {ℓ κ} : {A : Type ℓ} {B : Type κ} → Option A → (A → Option B) → Option B
none >>= f = none
some a >>= f = f a

module _ {F Hist N M D : Type 0} ⦃f : Float F⦄ where
  -- The constructor, with the backend that it made.
  unfoldable pub create : SotConfig F → Engine N M → Impl F Hist N M D
  create cfg engine = record {
    cfg = resolve cfg;
    engine = engine;
    low_streak = pos 0;
    detector = none;
    reacquire_cfg = default_reacquire;
    last_good = zero_box;
    frames_lost = 0;
    reference = record { ref_hist = none; ref_embed = [] };
    since_drift_check = 0;
    drift_latched = false;
    messages = [];
  }

  unfoldable pub enable_reacquire : D → ReacquireConfig F → Impl F Hist N M D → Impl F Hist N M D
  enable_reacquire d config s = record s { detector = some d; reacquire_cfg = config }

-- `prev` in `update`: what the streak amounted to before this frame.
unfoldable pub state_of : ℤ → ℤ → SotState
state_of patience streak =
    if leb_ℤ patience streak then lost else if ltb_ℤ (pos 0) streak then unstable else tracking

-- The result of `classify` at the new streak.
unfoldable pub state_at : ℤ → ℤ → SotState
state_at patience streak =
    if eqb_ℤ streak (pos 0) then tracking else if leb_ℤ patience streak then lost else unstable

module _ {F : Type 0} ⦃f : Float F⦄ where
  -- The streak after a score, the other half of `classify`.
  unfoldable pub next_streak : SotConfig F → ℤ → F → ℤ
  next_streak cfg low_streak score =
      if score <? cfg.lost_score_thr then low_streak +ℤ pos 1 else pos 0

abbrev pub magnitude : ℤ → ℕ
magnitude d = pos_part d + neg_part d

module _ {F P Img Hist N M D : Type 0} ⦃f : Float F⦄ (v : Vision F P Img Hist)
    (b : Backends F Img N M) (dt : Detector F P D) where
  -- The reference is taken by the configured embedder; without a fitting backend the old one stays.
  pub refer : Embedder → Img → BBox F → Engine N M → Reference F Hist → Reference F Hist
  refer no_embedder img target e old = old
  refer Embedder.hsv_hist img target e old = record old { ref_hist = hsv_hist v img target }
  refer nano_z img target (nano n) old = record old { ref_embed = b.zf n }
  refer nano_z img target (mosse m) old = old

  unfoldable pub init : FrameView P → BBox F → Impl F Hist N M D → Option (Impl F Hist N M D)
  unfolding refer
  init frame target s = do
    img ← as_mat v frame
    e ← backend_init b img target s.engine
    some (record s {
      engine = e;
      low_streak = pos 0;
      last_good = target;
      frames_lost = 0;
      reference = refer s.cfg.reid.embedder img target e s.reference;
      since_drift_check = 0;
      drift_latched = false;
    })

  -- The verified re-lock on a candidate: the template is seeded anew, and the streak is one short of
  -- the patience.
  pub relock :
      Img → Detection F → SotResult F → Impl F Hist N M D → Option (SotResult F × Impl F Hist N M D)
  relock img c r s = do
    e ← backend_init b img c.box s.engine
    some (
      record { box = c.box; score = c.score; state = unstable },
      record s {
        engine = e;
        low_streak = s.cfg.lost_patience -ℤ pos 1;
        messages = s.messages ++ re_acquired c.box c.score s.frames_lost ∷ [];
      },
    )

  -- The detections on a frame that is due.
  unfoldable pub consult :
      Img
      → List (Detection F)
      → D
      → SotResult F
      → Impl F Hist N M D
      → Option (SotResult F × Impl F Hist N M D)
  unfolding relock
  consult img dets d r s =
      let s' = record s { detector = some d } in
      let sim = similarity v b s.cfg.reid.embedder s.engine s.reference img in
      elim (pick_candidate s.reacquire_cfg s.cfg.reid s.last_good s.frames_lost sim dets) [
        | none ↦ some (r, s')
        | some c ↦ relock img c r s'
      ]

  -- The detector's turn.
  unfoldable pub attempt :
      Img
      → FrameView P
      → SotResult F
      → D
      → Impl F Hist N M D
      → Option (SotResult F × Impl F Hist N M D)
  unfolding consult
  attempt img frame r d s = do (dets, d') ← dt.detect frame d; consult img dets d' r s

  seek :
      Img
      → FrameView P
      → SotResult F
      → D
      → Impl F Hist N M D
      → Option (SotResult F × Impl F Hist N M D)
  unfolding attempt
  seek img frame r d s =
      let lost_for = suc s.frames_lost in
      let every = magnitude s.reacquire_cfg.detect_every in
      let s' = record s { frames_lost = lost_for } in
      if every == 0
      then none
      else if not (lost_for % every == 0)
      then some (r, s')
      else attempt img frame r d s'

  -- The end of `update`, from the test on a lost state and a detector.
  unfoldable pub recover :
      Img → FrameView P → SotResult F → Impl F Hist N M D → Option (SotResult F × Impl F Hist N M D)
  unfolding seek
  recover img frame r s =
      if not (is_lost r.state)
      then some (r, s)
      else elim s.detector [ none ↦ some (r, s) | some d ↦ seek img frame r d s ]

  -- A frame whose box counts as credible.
  abbrev pub credible : SotResult F → Impl F Hist N M D → Option (SotResult F × Impl F Hist N M D)
  credible r s = some (r, record s { last_good = r.box; frames_lost = 0 })

  -- The drift verdict: from here on the target is lost.
  abbrev pub latch : F → F → Impl F Hist N M D → Impl F Hist N M D
  latch score sim s = record s {
    drift_latched = true;
    low_streak = s.cfg.lost_patience;
    messages =
        if s.drift_latched
        then s.messages
        else s.messages ++ drift_detected sim s.cfg.reid.drift_thr score ∷ [];
  }

  -- The block for a state of Tracking.
  pub verify :
      Img → FrameView P → SotResult F → Impl F Hist N M D → Option (SotResult F × Impl F Hist N M D)
  verify img frame r s =
      let every = s.cfg.reid.drift_check_every in
      let on = uses_reid s.cfg.reid.embedder && ltb_ℤ (pos 0) every in
      let since =
        if on && not s.drift_latched then suc s.since_drift_check else s.since_drift_check in
      let due = on && (s.drift_latched || leb_ℤ every (pos since)) in
      let sim = similarity v b s.cfg.reid.embedder s.engine s.reference img r.box in
      let drifted =
        recover img frame (record r { state = lost })
          (latch r.score sim (record s { since_drift_check = 0 })) in
      if not due
      then credible r (record s { since_drift_check = since })
      else if s.cfg.reid.drift_thr ≤? sim
      then credible r (record s { since_drift_check = 0; drift_latched = false })
      else drifted

  abbrev pub is_tracking : SotState → Bool
  is_tracking tracking = true
  is_tracking _ = false

  -- The backend's answer on the frame, with the state that `classify` gives it, and the line for a
  -- target that is lost just now.
  pub scored : Img → Impl F Hist N M D → Option (SotResult F × Impl F Hist N M D)
  scored img s = do
    (r, e) ← backend_update b img s.engine
    let prev = state_of s.cfg.lost_patience s.low_streak
    let streak = next_streak s.cfg s.low_streak r.score
    let state = state_at s.cfg.lost_patience streak
    some (
      record r { state = state },
      record s {
        engine = e;
        low_streak = streak;
        messages =
            if is_lost state && not (is_lost prev)
            then s.messages ++ target_lost r.score s.cfg.lost_score_thr ∷ []
            else s.messages;
      },
    )

  -- By the state that the score has.
  pub settle :
      Img → FrameView P → SotResult F → Impl F Hist N M D → Option (SotResult F × Impl F Hist N M D)
  settle img frame r s = if is_tracking r.state then verify img frame r s else recover img frame r s

  pub update_image :
      Img → FrameView P → Impl F Hist N M D → Option (SotResult F × Impl F Hist N M D)
  unfolding settle
  update_image img frame s = do (r, s') ← scored img s; settle img frame r s'

  unfoldable pub update : FrameView P → Impl F Hist N M D → Option (SotResult F × Impl F Hist N M D)
  unfolding update_image verify recover scored
  update frame s = do img ← as_mat v frame; update_image img frame s
