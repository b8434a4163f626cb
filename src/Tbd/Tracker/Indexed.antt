-- ===== src/Tbd/Tracker/Indexed.antt =====
-- The loops of `update`, track by track.
use mathlib.Core.Option
use custos_tracker.Prelude.{
  ℕ, zero, suc, ◌<◌, Bool, true, false, not, ◌&&◌, ◌||◌, if◌then◌else◌, ◌==◌, ==_iff, ℤ, List, [],
  ◌∷◌, elem, Distinct, get_or, get_elem?, set, length, replicate, modify, Option, none, some, ◌≡◌,
  refl, ◌∙◌, arith, Bool-cases, inl, inr, Option-cases, ap,
}
use custos_tracker.Prelude.Indices.{get_elem?-modify, length-modify, get_or-set}
use custos_tracker.Float.{Float}
use custos_tracker.Types.{Detection}
use custos_tracker.Tbd.Config.{AssocConfig, Filter}
use custos_tracker.Tbd.Assoc.{Match, no_detection, firsts}
use custos_tracker.Tbd.Tracker.{
  STrack, mark_matched, apply_matches, is_stale, flag_stale, demote, demote_all,
}

-- The detection that a track is matched with.
pub partner : ℕ → List Match → Option ℕ
partner i [] = none
partner i ((ti, dj) ∷ ms) = if i == ti then some dj else partner i ms

pub partner-none : (i : ℕ) (ms : List Match) → elem i (firsts ms) ≡ false → partner i ms ≡ none
unfolding partner
partner-none i [] h = refl
partner-none i ((ti, dj) ∷ ms) h = ground (arith, partner-none i ms)

abbrev pub unmatched : Option ℕ → Bool
unmatched none = true
unmatched (some dj) = false

pub unmatched_iff : (i : ℕ) (ms : List Match) → not (elem i (firsts ms)) ≡ unmatched (partner i ms)
unfolding partner
unmatched_iff i [] = refl
unmatched_iff i ((ti, d) ∷ ms) = ground (arith, unmatched_iff i ms)

set-length : (xs : List Bool) (i : ℕ) (b : Bool) → length (set xs i b) ≡ length xs
set-length [] i b = refl
set-length (x ∷ xs) zero b = refl
set-length (x ∷ xs) (suc i) b = ap suc (set-length xs i b)

pub get_or-replicate : (n i : ℕ) → get_or (replicate n false) i false ≡ false
get_or-replicate zero i = refl
get_or-replicate (suc n) zero = refl
get_or-replicate (suc n) (suc i) = get_or-replicate n i

pub length-replicate : (n : ℕ) → length (replicate n false) ≡ n
length-replicate zero = refl
length-replicate (suc n) = ap suc (length-replicate n)

module _ {F K : Type 0} ⦃f : Float F⦄ (filter : Filter F K) where
  -- A track after the matches, given its partner.
  abbrev pub touch : AssocConfig F → F → List (Detection F) → Option ℕ → STrack F K → STrack F K
  touch cfg eff dets none t = t
  touch cfg eff dets (some dj) t = mark_matched filter cfg eff (get_or dets dj no_detection) t

  pub get_elem?-apply_matches :
      (cfg : AssocConfig F) (eff : F) (dets : List (Detection F)) (ms : List Match)
      (tracks : List (STrack F K)) (i : ℕ)
      → Distinct (firsts ms)
      → get_elem? (apply_matches filter cfg eff dets ms tracks) i
        ≡ Option.map (touch cfg eff dets (partner i ms)) (get_elem? tracks i)
  unfolding partner apply_matches
  get_elem?-apply_matches cfg eff dets [] tracks i d =
      ground (arith, Option-cases (get_elem? tracks i))
  get_elem?-apply_matches cfg eff dets ((ti, dj) ∷ ms) tracks i d =
      let g = mark_matched filter cfg eff (get_or dets dj no_detection) in
      let rest = get_elem?-apply_matches cfg eff dets ms (modify ti g tracks) i d.1 in
      let here = get_elem?-modify ti g tracks i in
      elim (Option-cases (get_elem? tracks i)) [
        | inl e ↦ ground (arith, rest, here)
        | inr (a, e) ↦ elim (Bool-cases (i == ti)) [
          | inl q ↦
              let q' : i ≡ ti = ground (arith, ==_iff i ti) in
              let miss : partner i ms ≡ none = partner-none i ms (rw q' d.0) in
              ground (arith, rest, here, miss)
          | inr q ↦ ground (arith, rest, here)
        ]
      ]

  pub length-apply_matches :
      (cfg : AssocConfig F) (eff : F) (dets : List (Detection F)) (ms : List Match)
      (tracks : List (STrack F K))
      → length (apply_matches filter cfg eff dets ms tracks) ≡ length tracks
  unfolding apply_matches
  length-apply_matches cfg eff dets [] tracks = refl
  length-apply_matches cfg eff dets ((ti, dj) ∷ ms) tracks =
      length-apply_matches cfg eff dets ms _ ∙ length-modify ti _ tracks

  pub length-flag_stale :
      (limit : ℤ) (tracks : List (STrack F K)) (is : List ℕ) (removed : List Bool)
      → length (flag_stale filter limit tracks is removed) ≡ length removed
  unfolding flag_stale
  length-flag_stale limit tracks [] removed = refl
  length-flag_stale limit tracks (i ∷ is) removed = ground (
    arith,
    length-flag_stale limit tracks is removed,
    set-length removed i true,
    length-flag_stale limit tracks is (set removed i true),
  )

  pub get_or-flag_stale :
      (limit : ℤ) (tracks : List (STrack F K)) (is : List ℕ) (removed : List Bool) (i : ℕ)
      → i < length removed
      → get_or (flag_stale filter limit tracks is removed) i false
        ≡ (get_or removed i false || elem i is && is_stale filter limit (get_elem? tracks i))
  unfolding flag_stale
  get_or-flag_stale limit tracks [] removed i h = ground arith
  get_or-flag_stale limit tracks (j ∷ is) removed i h =
      elim (Bool-cases (is_stale filter limit (get_elem? tracks j))) [
        | inl e ↦
            let h' : i < length (set removed j true) = ground (arith, set-length removed j true) in
            let rest = get_or-flag_stale limit tracks is (set removed j true) i h' in
            ground (arith, rest, get_or-set removed j i h, ==_iff i j)
        | inr e ↦ ground (arith, get_or-flag_stale limit tracks is removed i h, ==_iff i j)
      ]

  pub get_elem?-demote_all :
      (is : List ℕ) (tracks : List (STrack F K)) (i : ℕ)
      → Distinct is
      → get_elem? (demote_all filter is tracks) i ≡ (
          if elem i is then Option.map (demote filter) (get_elem? tracks i) else get_elem? tracks i)
  unfolding demote_all
  get_elem?-demote_all [] tracks i d = refl
  get_elem?-demote_all (j ∷ is) tracks i d =
      let rest = get_elem?-demote_all is (modify j (demote filter) tracks) i d.1 in
      let here = get_elem?-modify j (demote filter) tracks i in
      elim (Bool-cases (i == j)) [
        | inl q ↦
            let q' : i ≡ j = ground (arith, ==_iff i j) in
            let miss : elem i is ≡ false = rw q' d.0 in ground (arith, rest, here, miss)
        | inr q ↦ ground (arith, rest, here, ==_iff j i)
      ]

  pub length-demote_all :
      (is : List ℕ) (tracks : List (STrack F K))
      → length (demote_all filter is tracks) ≡ length tracks
  unfolding demote_all
  length-demote_all [] tracks = refl
  length-demote_all (i ∷ is) tracks =
      length-demote_all is (modify i (demote filter) tracks) ∙ length-modify i _ tracks
