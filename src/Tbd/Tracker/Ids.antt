-- ===== src/Tbd/Tracker/Ids.antt =====
-- The ids of the tracks through `update` and `coast`.
use mathlib.Core.List.{map-append}
use custos_tracker.Prelude.{
  ℕ, zero, suc, ◌≤◌, Bool, true, false, List, [], ◌∷◌, ◌++◌, map, get_or, length, modify, unflagged,
  ◌≡◌, refl, sym, ◌∙◌, arith, Bool-cases, inl, inr, ap,
}
use custos_tracker.Prelude.Indices.{unflagged-append}
use custos_tracker.Float.{Float, ◌⊕◌, ◌<?◌}
use custos_tracker.Types.{Detection, is_confirmed}
use custos_tracker.Geometry.Boxes.{Affine23}
use custos_tracker.Tbd.Config.{AssocConfig, Filter}
use custos_tracker.Tbd.Assoc.{Solver, Match, no_detection}
use custos_tracker.Tbd.Tracker.{
  STrack, ByteTracker, mark_matched, advance, associate, apply_matches, demote, demote_all, newborn,
  spawn, resolve, update,
}
use custos_tracker.Tbd.Tracker.Lifecycle.{flags, length-flags}
use custos_tracker.Tbd.Tracker.Indexed.{length-apply_matches, length-demote_all}

-- The numbers rise, from `lo` on and below `hi`.
abbrev pub Ascending : ℕ → List ℕ → ℕ → Type 0
Ascending lo [] hi = lo ≤ hi
Ascending lo (x ∷ xs) hi = (lo ≤ x) × Ascending (suc x) xs hi

Ascending-le :
    (lo lo' : ℕ) (xs : List ℕ) (hi : ℕ) → lo' ≤ lo → Ascending lo xs hi → Ascending lo' xs hi
Ascending-le lo lo' [] hi h p = omega (arith, p)
Ascending-le lo lo' (x ∷ xs) hi h p = (omega (arith, p.0), p.1)

Ascending-append :
    (lo mid hi : ℕ) (xs ys : List ℕ)
    → Ascending lo xs mid
    → Ascending mid ys hi
    → Ascending lo (xs ++ ys) hi
Ascending-append lo mid hi [] ys p q = Ascending-le mid lo ys hi p q
Ascending-append lo mid hi (x ∷ xs) ys p q = (p.0, Ascending-append (suc x) mid hi xs ys p.1 q)

Ascending-unflagged :
    (lo hi : ℕ) (flags : List Bool) (xs : List ℕ)
    → Ascending lo xs hi
    → Ascending lo (unflagged flags xs) hi
Ascending-unflagged lo hi bs [] p = p
Ascending-unflagged lo hi [] (x ∷ xs) p = p
Ascending-unflagged lo hi (true ∷ bs) (x ∷ xs) p =
    Ascending-unflagged lo hi bs xs (Ascending-le (suc x) lo xs hi (omega (arith, p.0)) p.1)
Ascending-unflagged lo hi (false ∷ bs) (x ∷ xs) p = (p.0, Ascending-unflagged (suc x) hi bs xs p.1)

module _ {A : Type 0} (key : A → ℕ) where
  map-modify :
      (i : ℕ) (g : A → A) (xs : List A)
      → ((a : A) → key (g a) ≡ key a)
      → map key (modify i g xs) ≡ map key xs
  map-modify i g [] h = refl
  map-modify zero g (x ∷ xs) h = ap (λ k. k ∷ map key xs) (h x)
  map-modify (suc i) g (x ∷ xs) h = ap (◌∷◌ (key x)) (map-modify i g xs h)

  pub map_same :
      (g : A → A) (xs : List A) → ((a : A) → key (g a) ≡ key a) → map key (map g xs) ≡ map key xs
  map_same g [] h = refl
  map_same g (x ∷ xs) h = rw (h x, map_same g xs h) refl

  map-unflagged :
      (flags : List Bool) (xs : List A)
      → map key (unflagged flags xs) ≡ unflagged flags (map key xs)
  map-unflagged bs [] = refl
  map-unflagged [] (x ∷ xs) = refl
  map-unflagged (true ∷ bs) (x ∷ xs) = map-unflagged bs xs
  map-unflagged (false ∷ bs) (x ∷ xs) = ap (◌∷◌ (key x)) (map-unflagged bs xs)

module _ {F K : Type 0} ⦃f : Float F⦄ where
  abbrev pub ids : List (STrack F K) → List ℕ
  ids = map λ t. t.id

  -- The ids rise and are below the next free one, so no two tracks share one.
  abbrev pub IsFresh : ByteTracker F K → Type 0
  IsFresh s = Ascending 0 (ids s.tracks) s.next_id

module _ {F K : Type 0} ⦃f : Float F⦄ (filter : Filter F K) where
  ids-apply_matches :
      (cfg : AssocConfig F) (eff : F) (dets : List (Detection F)) (ms : List Match)
      (tracks : List (STrack F K))
      → ids (apply_matches filter cfg eff dets ms tracks) ≡ ids tracks
  unfolding apply_matches mark_matched
  ids-apply_matches cfg eff dets [] tracks = refl
  ids-apply_matches cfg eff dets ((ti, dj) ∷ ms) tracks =
      ids-apply_matches cfg eff dets ms _
      ∙ map-modify (λ (t : STrack F K). t.id) ti
          (mark_matched filter cfg eff (get_or dets dj no_detection)) tracks (λ a. refl)

  demote_id : (t : STrack F K) → (demote filter t).id ≡ t.id
  demote_id t = elim (Bool-cases (is_confirmed t.state)) [ inl c ↦ rw c refl | inr c ↦ rw c refl ]

  ids-demote_all :
      (is : List ℕ) (tracks : List (STrack F K)) → ids (demote_all filter is tracks) ≡ ids tracks
  unfolding demote_all
  ids-demote_all [] tracks = refl
  ids-demote_all (i ∷ is) tracks =
      ids-demote_all is (modify i (demote filter) tracks)
      ∙ map-modify (λ (t : STrack F K). t.id) i (demote filter) tracks demote_id

  ids-spawn :
      (cfg : AssocConfig F) (dets : List (Detection F)) (next : ℕ) (djs : List ℕ)
      → let (born, next') = spawn filter cfg dets next djs in Ascending next (ids born) next'
  unfolding spawn newborn
  ids-spawn cfg dets next [] = omega arith
  ids-spawn cfg dets next (dj ∷ djs) =
      elim (Bool-cases ((get_or dets dj no_detection).score <? cfg.new_track_thresh)) [
        | inl e ↦ rw e (ids-spawn cfg dets next djs)
        | inr e ↦ rw e (omega arith, ids-spawn cfg dets (suc next) djs)
      ]

  resolve-Ascending :
      (cfg : AssocConfig F) (solver : Solver F) (coasted eff : F) (dets : List (Detection F))
      (next : ℕ) (tracks : List (STrack F K))
      → Ascending 0 (ids tracks) next
      → let (tracks', next') = resolve filter solver cfg coasted eff dets next tracks in
        Ascending 0 (ids tracks') next'
  unfolding resolve
  resolve-Ascending cfg solver coasted eff dets next tracks p =
      let key = λ (t : STrack F K). t.id in
      let st = associate filter solver cfg coasted dets tracks in
      let marked = apply_matches filter cfg eff dets st.matches tracks in
      let moved = demote_all filter st.unmatched_mature marked in
      let removed = flags filter cfg solver coasted eff dets next tracks in
      let (born, next') = spawn filter cfg dets next st.unmatched_high in
      let same : length removed ≡ length moved =
        length-flags filter cfg solver coasted eff dets next tracks
        ∙ sym (length-apply_matches filter cfg eff dets st.matches tracks)
        ∙ sym (length-demote_all filter st.unmatched_mature marked) in
      let kept : ids moved ≡ ids tracks =
        ids-demote_all st.unmatched_mature marked
        ∙ ids-apply_matches cfg eff dets st.matches tracks in
      rw
        (
          unflagged-append removed moved born same,
          map-append key (unflagged removed moved) born,
          map-unflagged key removed moved,
          kept,
        )
        (Ascending-append 0 next next' _ (ids born)
          (Ascending-unflagged 0 next removed (ids tracks) p)
          (ids-spawn cfg dets next st.unmatched_high))

  -- If the ids rise and are below the next free one, then so they do after `update`: no two tracks share
  -- an id.
  pub update-IsFresh :
      (solver : Solver F) (dets : List (Detection F)) (dt : F) (warp : Affine23 F)
      (s : ByteTracker F K)
      → IsFresh s
      → IsFresh (update filter solver dets dt warp s).1
  unfolding update advance
  update-IsFresh solver dets dt warp s p =
      let same =
        map_same (λ (t : STrack F K). t.id) (advance filter dt warp) s.tracks (λ a. refl) in
      resolve-Ascending s.cfg solver s.coasted_dt (s.coasted_dt ⊕ dt) dets s.next_id
        (map (advance filter dt warp) s.tracks) (rw same p)
