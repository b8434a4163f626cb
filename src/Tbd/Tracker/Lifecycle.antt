-- ===== src/Tbd/Tracker/Lifecycle.antt =====
-- What becomes of each track in `update`.
use mathlib.Core.Option
use custos_tracker.Prelude.{
  ℕ, suc, ◌+◌, ◌≤◌, ◌<◌, Bool, true, false, not, ◌&&◌, ◌||◌, if◌then◌else◌, pos, ltb_ℤ, List, [],
  ◌∷◌, map, elem, get_or, get_elem?, All-append, length, replicate, unflagged, Option, none, some,
  ◌≡◌, refl, sym, ◌∙◌, All, arith, Bool-cases, inl, inr, Option-cases, ap,
}
use custos_tracker.Prelude.Indices.{get_elem?-lt, elem-positions, All-unflagged, unflagged-append}
use custos_tracker.Float.{Float, ◌⊕◌, ◌<?◌}
use custos_tracker.Types.{
  Detection, TrackState, tentative, confirmed, lost, removed, is_tentative, is_confirmed,
}
use custos_tracker.Geometry.Boxes.{Affine23}
use custos_tracker.Tbd.Config.{AssocConfig, Filter}
use custos_tracker.Tbd.Assoc.{Solver, no_detection}
use custos_tracker.Tbd.Tracker.{
  STrack, ByteTracker, Stages, promote, mark_matched, advance, associate, apply_matches, is_stale,
  flag_stale, demote, demote_all, newborn, spawn, resolve, update,
}
use custos_tracker.Tbd.Tracker.Indexed.{
  partner, unmatched, unmatched_iff, touch, get_elem?-apply_matches, length-apply_matches,
  length-flag_stale, get_or-flag_stale, get_elem?-demote_all, length-demote_all, get_or-replicate,
  length-replicate,
}
use custos_tracker.Tbd.Tracker.Partition.{associate-IsPartition}

abbrev pub loses : TrackState → TrackState
loses s = if is_confirmed s then lost else s

module _ {F K : Type 0} ⦃f : Float F⦄ where
  -- Where a track of the new list comes from, given the predicted tracks and the next free id.
  pub data Fate (cfg : AssocConfig F) (old : List (STrack F K)) (next : ℕ) (t' : STrack F K)
      : Type 0 where
    hit :
        (i : ℕ) (t : STrack F K)
        → get_elem? old i ≡ some t
        → t'.id ≡ t.id
        → t'.age ≡ t.age
        → t'.hits ≡ t.hits + 1
        → t'.time_since_update ≡ 0
        → t'.state ≡ promote cfg.n_init (t.hits + 1) t.state
        → Fate cfg old next t'
    missed_mature :
        (i : ℕ) (t : STrack F K)
        → get_elem? old i ≡ some t
        → is_tentative t.state ≡ false
        → ltb_ℤ cfg.max_age (pos t.time_since_update) ≡ false
        → t' ≡ record t { state = loses t.state }
        → Fate cfg old next t'
    missed_tentative :
        (i : ℕ) (t : STrack F K)
        → get_elem? old i ≡ some t
        → t.state ≡ tentative
        → ltb_ℤ cfg.tentative_patience (pos t.time_since_update) ≡ false
        → t' ≡ t
        → Fate cfg old next t'
    born : next ≤ t'.id → t'.hits ≡ 1 → t'.age ≡ 1 → t'.time_since_update ≡ 0 → Fate cfg old next t'

picked {ℓ} :
    {A : Type ℓ} (b : Bool) (x y z : A)
    → (if b then some x else some y) ≡ some z
    → z ≡ (if b then x else y)
picked true x y z e = ap (λ o. Option.get_or o z) (sym e)
picked false x y z e = ap (λ o. Option.get_or o z) (sym e)

tentative_only : (s : TrackState) → is_tentative s ≡ true → s ≡ tentative
tentative_only tentative e = refl
tentative_only confirmed e = cc
tentative_only lost e = cc
tentative_only removed e = cc

module _ {F K : Type 0} ⦃f : Float F⦄ (filter : Filter F K) where
  demote_state : (t : STrack F K) → demote filter t ≡ record t { state = loses t.state }
  demote_state t = elim (Bool-cases (is_confirmed t.state)) [
    | inl c ↦ rw c refl
    | inr c ↦ rw c refl
  ]

module _ {F K : Type 0} ⦃f : Float F⦄ (filter : Filter F K) (cfg : AssocConfig F) where
  spawn_born :
      (dets : List (Detection F)) (old : List (STrack F K)) (next base : ℕ) (djs : List ℕ)
      → base ≤ next
      → All (Fate cfg old base) (spawn filter cfg dets next djs).0
  unfolding spawn newborn
  spawn_born dets old next base [] h = tt
  spawn_born dets old next base (dj ∷ djs) h =
      elim (Bool-cases ((get_or dets dj no_detection).score <? cfg.new_track_thresh)) [
        | inl e ↦ rw e (spawn_born dets old next base djs h)
        | inr e ↦
            rw e (born h refl refl refl, spawn_born dets old (suc next) base djs (omega arith))
      ]

  -- The fate of the track at an index by its partner and the lists of unmatched tracks it stands in.
  Fate-of :
      (eff : F) (dets : List (Detection F)) (tracks : List (STrack F K)) (next i : ℕ)
      (t x : STrack F K) (o : Option ℕ) (left_mature left_young : Bool)
      → get_elem? tracks i ≡ some t
      → x ≡ (
          if left_mature
          then demote filter (touch filter cfg eff dets o t)
          else touch filter cfg eff dets o t)
      → left_mature ≡ (not (is_tentative t.state) && unmatched o)
      → left_young ≡ (is_tentative t.state && unmatched o)
      → (left_young && is_stale filter cfg.tentative_patience (some (touch filter cfg eff dets o t))
          || left_mature && is_stale filter cfg.max_age (some (touch filter cfg eff dets o t)))
        ≡ false
      → Fate cfg tracks next x
  unfolding mark_matched
  Fate-of eff dets tracks next i t x (some dj) lm ly at p m y q =
      let lm' : lm ≡ false = ground arith in
      let p' : x ≡ touch filter cfg eff dets (some dj) t = rw lm' at p in
      hit i t at (ap (λ s. s.id) p') (ap (λ s. s.age) p') (ap (λ s. s.hits) p')
        (ap (λ s. s.time_since_update) p') (ap (λ s. s.state) p')
  Fate-of eff dets tracks next i t x none lm ly at p m y q =
      elim (Bool-cases (is_tentative t.state)) [
        | inl c ↦
            let lm' : lm ≡ false = ground arith in
            let ly' : ly ≡ true = ground arith in
            let p' : x ≡ t = rw lm' at p in
            missed_tentative i t at (tentative_only t.state c) (ground arith) p'
        | inr c ↦
            let lm' : lm ≡ true = ground arith in
            let p' : x ≡ demote filter t = rw lm' at p in
            missed_mature i t at c (ground arith) (p' ∙ demote_state filter t)
      ]

  module _ (solver : Solver F) (coasted eff : F) (dets : List (Detection F)) (next : ℕ)
      (tracks : List (STrack F K)) where
    abbrev stages : Stages
    stages = associate filter solver cfg coasted dets tracks

    abbrev marked : List (STrack F K)
    marked = apply_matches filter cfg eff dets stages.matches tracks

    abbrev young_flags : List Bool
    young_flags =
        flag_stale filter cfg.tentative_patience marked stages.unmatched_tentative
          (replicate (length marked) false)

    abbrev pub flags : List Bool
    flags = flag_stale filter cfg.max_age marked stages.unmatched_mature young_flags

    length-young_flags : length young_flags ≡ length tracks
    length-young_flags =
        length-flag_stale filter _ marked stages.unmatched_tentative _
        ∙ length-replicate (length marked)
        ∙ length-apply_matches filter cfg eff dets stages.matches tracks

    pub length-flags : length flags ≡ length tracks
    length-flags = length-flag_stale filter _ marked stages.unmatched_mature _ ∙ length-young_flags

    get_or-flags :
        (i : ℕ)
        → i < length tracks
        → get_or flags i false ≡ (
            elem i stages.unmatched_tentative
              && is_stale filter cfg.tentative_patience (get_elem? marked i)
            || elem i stages.unmatched_mature && is_stale filter cfg.max_age (get_elem? marked i))
    get_or-flags i h =
        let n = length (replicate (length marked) false) in
        let h1 : i < length young_flags = omega (arith, length-young_flags) in
        let h2 : i < n = omega (
          arith,
          length-replicate (length marked),
          length-apply_matches filter cfg eff dets stages.matches tracks,
        ) in
        ground (
          arith,
          get_or-flag_stale filter cfg.max_age marked stages.unmatched_mature young_flags i h1,
          get_or-flag_stale filter cfg.tentative_patience marked stages.unmatched_tentative
              (replicate (length marked) false) i h2,
          get_or-replicate (length marked) i,
        )

    Fate-at :
        (i : ℕ) (x : STrack F K)
        → get_elem? (demote_all filter stages.unmatched_mature marked) i ≡ some x
        → get_or flags i false ≡ false
        → Fate cfg tracks next x
    Fate-at i x e q =
        let parts = associate-IsPartition filter solver cfg coasted dets tracks in
        let o = partner i stages.matches in
        let here =
          get_elem?-apply_matches filter cfg eff dets stages.matches tracks i parts.distinct in
        let lowered =
          get_elem?-demote_all filter stages.unmatched_mature marked i parts.mature_distinct in
        elim (Option-cases (get_elem? tracks i)) [
          | inl n ↦ let bad : none ≡ some x = ground (arith, here, lowered) in cc
          | inr (t, at) ↦
              let t' = touch filter cfg eff dets o t in
              let now : get_elem? marked i ≡ some t' = rw at at here in
              let after = rw now at lowered in
              Fate-of eff dets tracks next i t x o (elem i stages.unmatched_mature)
                (elem i stages.unmatched_tentative) at (picked _ _ _ x (sym after ∙ e))
                (ground (
                  arith,
                  parts.mature_left i,
                  unmatched_iff i stages.matches,
                  elem-positions (λ (t : STrack F K). not (is_tentative t.state)) tracks i,
                ))
                (ground (
                  arith,
                  parts.young_left i,
                  unmatched_iff i stages.matches,
                  elem-positions (λ (t : STrack F K). is_tentative t.state) tracks i,
                ))
                (sym (rw now at (get_or-flags i (get_elem?-lt tracks i t at))) ∙ q)
        ]

    resolve-Fate :
        All (Fate cfg tracks next) (resolve filter solver cfg coasted eff dets next tracks).0
    unfolding resolve
    resolve-Fate =
        let moved = demote_all filter stages.unmatched_mature marked in
        let same : length flags ≡ length moved =
          length-flags
          ∙ sym (length-apply_matches filter cfg eff dets stages.matches tracks)
          ∙ sym (length-demote_all filter stages.unmatched_mature marked) in
        rw (unflagged-append flags moved (spawn filter cfg dets next stages.unmatched_high).0 same)
          (All-append (Fate cfg tracks next) (unflagged flags moved) _
            (All-unflagged (Fate cfg tracks next) flags moved Fate-at)
            (spawn_born dets tracks next next stages.unmatched_high (omega arith)))

module _ {F K : Type 0} ⦃f : Float F⦄ (filter : Filter F K) where
  -- After `update` each track continues one of the predicted tracks, or is new with an id from the next
  -- free one on: a matched one has one more hit, the count of misses at 0 and the state that `promote`
  -- gives; an unmatched one is as predicted, except that a confirmed one is lost, and has missed at most
  -- as many frames as its limit, `max_age` or, if tentative, `tentative_patience`.
  pub update-Fate :
      (solver : Solver F) (dets : List (Detection F)) (dt : F) (warp : Affine23 F)
      (s : ByteTracker F K)
      → All
          (Fate s.cfg (map (advance filter dt warp) s.tracks) s.next_id)
          (update filter solver dets dt warp s).1.tracks
  unfolding update
  update-Fate solver dets dt warp s =
      resolve-Fate filter s.cfg solver s.coasted_dt (s.coasted_dt ⊕ dt) dets s.next_id
        (map (advance filter dt warp) s.tracks)
