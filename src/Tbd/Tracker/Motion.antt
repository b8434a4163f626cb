-- ===== src/Tbd/Tracker/Motion.antt =====
-- What `update` and `coast` keep of the motion filters of all tracks.
use custos_tracker.Prelude.{
  ℕ, zero, suc, Bool, true, false, List, [], ◌∷◌, map, get_or, modify, unflagged, All, All-append,
  Bool-cases, inl, inr, ◌==◌, ◌&&◌,
}
use custos_tracker.Float.{Float, ◌⊕◌, ◌<?◌}
use custos_tracker.Types.{BBox, Detection, is_confirmed}
use custos_tracker.Geometry.Boxes.{Affine23, identity}
use custos_tracker.Tbd.Config.{AssocConfig, Filter}
use custos_tracker.Tbd.Assoc.{Solver, Match, no_detection}
use custos_tracker.Tbd.Tracker.{
  STrack, ByteTracker, mark_matched, move, advance, associate, apply_matches, demote, demote_all,
  newborn, spawn, resolve, update, coast,
}
use custos_tracker.Tbd.Tracker.Lifecycle.{flags}

-- A property of a filter that every call of the tracker keeps.
pub record IsKept {F K : Type 0} (filter : Filter F K) (P : K → Type 0) : Type 0 where
  pub initiates : (z : BBox F) → P (filter.initiate z)
  pub predicts : (dt : F) (k : K) → P k → P (filter.predict dt k)
  pub warps : (w : Affine23 F) (k : K) → P k → P (filter.apply_affine w k)
  pub corrects : (z : BBox F) (r : F) (k : K) → P k → P (filter.correct z r k)
  pub seeds : (z : BBox F) (dt : F) (k : K) → P k → P (filter.seed_velocity z dt k)

-- The property for all tracks.
abbrev pub Holds : {F K : Type 0} → (K → Type 0) → List (STrack F K) → Type 0
Holds P tracks = All (λ t. P t.kf) tracks

All-modify {ℓ κ} :
    {A : Type ℓ} (P : A → Type κ) (i : ℕ) (g : A → A) (xs : List A)
    → ((a : A) → P a → P (g a))
    → All P xs
    → All P (modify i g xs)
All-modify P i g [] h a = tt
All-modify P zero g (x ∷ xs) h a = (h x a.0, a.1)
All-modify P (suc i) g (x ∷ xs) h a = (a.0, All-modify P i g xs h a.1)

unflagged-All {ℓ κ} :
    {A : Type ℓ} (P : A → Type κ) (bs : List Bool) (xs : List A)
    → All P xs
    → All P (unflagged bs xs)
unflagged-All P bs [] a = tt
unflagged-All P [] (x ∷ xs) a = a
unflagged-All P (true ∷ bs) (x ∷ xs) a = unflagged-All P bs xs a.1
unflagged-All P (false ∷ bs) (x ∷ xs) a = (a.0, unflagged-All P bs xs a.1)

pub map-All {ℓ κ μ} :
    {A : Type ℓ} {B : Type κ} (P : A → Type μ) (Q : B → Type μ) (g : A → B) (xs : List A)
    → ((a : A) → P a → Q (g a))
    → All P xs
    → All Q (map g xs)
map-All P Q g [] h a = tt
map-All P Q g (x ∷ xs) h a = (h x a.0, map-All P Q g xs h a.1)

module _ {F K : Type 0} ⦃f : Float F⦄ (filter : Filter F K) (P : K → Type 0)
    (kept : IsKept filter P) where
  mark_matched-Holds :
      (cfg : AssocConfig F) (eff : F) (det : Detection F) (t : STrack F K)
      → P t.kf
      → P (mark_matched filter cfg eff det t).kf
  unfolding mark_matched
  mark_matched-Holds cfg eff det t h = elim (Bool-cases (cfg.velocity_seed && t.hits == 1)) [
    | inl e ↦ rw e (kept.corrects _ _ _ (kept.seeds _ _ _ h))
    | inr e ↦ rw e (kept.corrects _ _ _ h)
  ]

  apply_matches-Holds :
      (cfg : AssocConfig F) (eff : F) (dets : List (Detection F)) (ms : List Match)
      (tracks : List (STrack F K))
      → Holds P tracks
      → Holds P (apply_matches filter cfg eff dets ms tracks)
  unfolding apply_matches
  apply_matches-Holds cfg eff dets [] tracks h = h
  apply_matches-Holds cfg eff dets ((ti, dj) ∷ ms) tracks h =
      apply_matches-Holds cfg eff dets ms _
        (All-modify _ ti _ tracks (mark_matched-Holds cfg eff (get_or dets dj no_detection)) h)

  demote-Holds : (t : STrack F K) → P t.kf → P (demote filter t).kf
  demote-Holds t h = elim (Bool-cases (is_confirmed t.state)) [ inl c ↦ rw c h | inr c ↦ rw c h ]

  demote_all-Holds :
      (is : List ℕ) (tracks : List (STrack F K))
      → Holds P tracks
      → Holds P (demote_all filter is tracks)
  unfolding demote_all
  demote_all-Holds [] tracks h = h
  demote_all-Holds (i ∷ is) tracks h =
      demote_all-Holds is _ (All-modify _ i _ tracks demote-Holds h)

  spawn-Holds :
      (cfg : AssocConfig F) (dets : List (Detection F)) (next : ℕ) (djs : List ℕ)
      → Holds P (spawn filter cfg dets next djs).0
  unfolding spawn newborn
  spawn-Holds cfg dets next [] = tt
  spawn-Holds cfg dets next (dj ∷ djs) =
      elim (Bool-cases ((get_or dets dj no_detection).score <? cfg.new_track_thresh)) [
        | inl e ↦ rw e (spawn-Holds cfg dets next djs)
        | inr e ↦ rw e (kept.initiates _, spawn-Holds cfg dets (suc next) djs)
      ]

  move-Holds : (dt : F) (warp : Affine23 F) (k : K) → P k → P (move filter dt warp k)
  unfolding move
  move-Holds dt warp k h = elim (Bool-cases (identity warp)) [
    | inl e ↦ rw e (kept.predicts dt k h)
    | inr e ↦ rw e (kept.warps warp _ (kept.predicts dt k h))
  ]

  -- What every call of a filter keeps holds of all tracks after `ByteTracker::update`, if it did before.
  pub update-Holds :
      (solver : Solver F) (dets : List (Detection F)) (dt : F) (warp : Affine23 F)
      (s : ByteTracker F K)
      → Holds P s.tracks
      → Holds P (update filter solver dets dt warp s).1.tracks
  unfolding update resolve advance
  update-Holds solver dets dt warp s h =
      let moved = map (advance filter dt warp) s.tracks in
      let st = associate filter solver s.cfg s.coasted_dt dets moved in
      let eff = s.coasted_dt ⊕ dt in
      let marked = apply_matches filter s.cfg eff dets st.matches moved in
      let start =
        map-All _ (λ t. P t.kf) (advance filter dt warp) s.tracks (λ t. move-Holds dt warp t.kf)
          h in
      let matched = apply_matches-Holds s.cfg eff dets st.matches moved start in
      unflagged-All _ (flags filter s.cfg solver s.coasted_dt eff dets s.next_id moved) _ (
        All-append _ (demote_all filter st.unmatched_mature marked) _
          (demote_all-Holds st.unmatched_mature marked matched)
          (spawn-Holds s.cfg dets s.next_id st.unmatched_high))

  -- So it does after `coast`.
  pub coast-Holds :
      (dt : F) (warp : Affine23 F) (s : ByteTracker F K)
      → Holds P s.tracks
      → Holds P (coast filter dt warp s).1.tracks
  unfolding coast
  coast-Holds dt warp s h = map-All _ (λ t. P t.kf) _ s.tracks (λ t. move-Holds dt warp t.kf) h
