-- ===== src/Sot/Update/Alone.antt =====
-- `SotTracker` with no detector: what a frame leaves as the engine has answered it.
use custos_tracker.Prelude.{
  pos, suc, ltb_ℤ, leb_ℤ, ◌&&◌, ◌||◌, Bool, true, false, not, if◌then◌else◌, [], ◌∷◌, ◌++◌, Option,
  none, some, ◌≡◌, refl,
}
use custos_tracker.Float.{Float, ◌≤?◌}
use custos_tracker.Types.{SotResult, FrameView, lost}
use custos_tracker.Mat.{Vision}
use custos_tracker.Sot.World.{Backends, Detector, Engine, backend_update}
use custos_tracker.Sot.Candidate.{similarity, uses_reid}
use custos_tracker.Sot.Update.{
  Impl, settle, recover, verify, latch, scored, is_lost, is_tracking, state_of, state_at,
  next_streak, target_lost,
}

-- What both branches have, a test has.
either {ℓ κ} :
    {A : Type ℓ} (P : A → Type κ) (b : Bool) {x y : A} → P x → P y → P (if b then x else y)
either P true px py = px
either P false px py = py

without {ℓ κ} :
    {A : Type ℓ} {B : Type κ} (x : Option A) (b : B) (g : A → B)
    → x ≡ none
    → elim x [ none ↦ b | some a ↦ g a ] ≡ b
without x b g h = rw h refl

module _ {F P Img Hist N M D : Type 0} ⦃f : Float F⦄ (v : Vision F P Img Hist)
    (b : Backends F Img N M) (dt : Detector F P D) where
  -- An answer that leaves the box, the engine and the detector as they were.
  abbrev pub Keeps :
      SotResult F × Impl F Hist N M D → Option (SotResult F × Impl F Hist N M D) → Type 0
  Keeps (r, t) o =
      (r' : SotResult F) × ((t' : Impl F Hist N M D) × ((o ≡ some (r', t'))
          × ((r'.box ≡ r.box) × ((t'.engine ≡ t.engine) × (t'.detector ≡ t.detector)))))

  recover-Keeps :
      (img : Img) (frame : FrameView P) (r : SotResult F) (t : Impl F Hist N M D)
      → t.detector ≡ none
      → Keeps (r, t) (recover v b dt img frame r t)
  unfolding recover
  recover-Keeps img frame r t h =
      either (Keeps (r, t)) (not (is_lost r.state)) (r, (t, (refl, (refl, (refl, refl)))))
        (r, (t, (without t.detector (some (r, t)) _ h, (refl, (refl, refl)))))

  verify-Keeps :
      (img : Img) (frame : FrameView P) (r : SotResult F) (t : Impl F Hist N M D)
      → t.detector ≡ none
      → Keeps (r, t) (verify v b dt img frame r t)
  unfolding verify
  verify-Keeps img frame r t h =
      let every = t.cfg.reid.drift_check_every in
      let on = uses_reid t.cfg.reid.embedder && ltb_ℤ (pos 0) every in
      let since =
        if on && not t.drift_latched then suc t.since_drift_check else t.since_drift_check in
      let due = on && (t.drift_latched || leb_ℤ every (pos since)) in
      let sim = similarity v b t.cfg.reid.embedder t.engine t.reference img r.box in
      either (Keeps (r, t)) (not due) (r, (_, (refl, (refl, (refl, refl)))))
        (either (Keeps (r, t)) (t.cfg.reid.drift_thr ≤? sim) (r, (_, (refl, (refl, (refl, refl)))))
          (recover-Keeps img frame (record r { state = lost })
            (latch v b dt r.score sim (record t { since_drift_check = 0 })) h))

  pub settle-Keeps :
      (img : Img) (frame : FrameView P) (r : SotResult F) (t : Impl F Hist N M D)
      → t.detector ≡ none
      → Keeps (r, t) (settle v b dt img frame r t)
  unfolding settle
  settle-Keeps img frame r t h =
      either (Keeps (r, t)) (is_tracking v b dt r.state) (verify-Keeps img frame r t h)
        (recover-Keeps img frame r t h)

  pub scored-Keeps :
      (img : Img) (t : Impl F Hist N M D) (r : SotResult F) (e : Engine N M)
      → backend_update b img t.engine ≡ some (r, e)
      → (r' : SotResult F) × ((t' : Impl F Hist N M D) × ((scored v b dt img t ≡ some (r', t'))
            × ((r'.box ≡ r.box) × ((t'.engine ≡ e) × (t'.detector ≡ t.detector)))))
  unfolding scored
  scored-Keeps img t r e q =
      let prev = state_of t.cfg.lost_patience t.low_streak in
      let streak = next_streak t.cfg t.low_streak r.score in
      let state = state_at t.cfg.lost_patience streak in
      (
        record r { state = state },
        (
          record t {
            engine = e;
            low_streak = streak;
            messages =
                if is_lost state && not (is_lost prev)
                then t.messages ++ target_lost r.score t.cfg.lost_score_thr ∷ []
                else t.messages;
          },
          (rw (scored, q) refl, (refl, (refl, refl))),
        ),
      )
