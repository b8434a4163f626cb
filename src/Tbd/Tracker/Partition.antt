-- ===== src/Tbd/Tracker/Partition.antt =====
-- The three stages of the association divide the tracks: each is matched once or left over.
use mathlib.Core.List.{map-append}
use custos_tracker.Prelude.{
  ℕ, true, false, not, ◌&&◌, ◌||◌, if◌then◌else◌, List, [], ◌∷◌, ◌++◌, map, keep, elem, Distinct,
  get_elem?, none, some, ◌≡◌, refl, sym, arith, Bool-cases, inl, inr, ap, positions,
}
use custos_tracker.Prelude.Indices.{
  elem-keep, Distinct-keep, elem-append, Distinct-append, Apart-intro, elem-positions,
  Distinct-positions,
}
use custos_tracker.Float.{Float, ◌<?◌, ◌≤?◌, nought}
use custos_tracker.Types.{Detection, is_tentative}
use custos_tracker.Tbd.Config.{AssocConfig, Filter}
use custos_tracker.Tbd.Assoc.{Solver, Match, match_by_iou, firsts, remove_matched}
use custos_tracker.Tbd.Assoc.Laws.{
  match_by_iou-elem, match_by_iou-Distinct, elem-remove_matched, Distinct-remove_matched,
}
use custos_tracker.Tbd.Tracker.{STrack, associate, is_recent, stage1_gate, tentative_gate}

elem-firsts-append :
    (xs ys : List Match) (i : ℕ)
    → elem i (firsts (xs ++ ys)) ≡ (elem i (firsts xs) || elem i (firsts ys))
elem-firsts-append xs ys i = rw (map-append _ xs ys) (elem-append (firsts xs) (firsts ys) i)

Distinct-firsts-append :
    (xs ys : List Match)
    → Distinct (firsts xs)
    → Distinct (firsts ys)
    → ((i : ℕ) → elem i (firsts xs) ≡ true → elem i (firsts ys) ≡ false)
    → Distinct (firsts (xs ++ ys))
Distinct-firsts-append xs ys p q h =
    rw (map-append _ xs ys) (Distinct-append _ _ p q (Apart-intro _ _ h))

-- The pairs match tracks of the two groups, none of them twice, and leave the rest of each group.
pub record IsPartition (matches : List Match) (mature young left_mature left_young : List ℕ)
    : Type 0 where
  pub distinct : Distinct (firsts matches)
  pub known : (i : ℕ) → elem i (firsts matches) ≡ true → (elem i mature || elem i young) ≡ true
  pub mature_left : (i : ℕ) → elem i left_mature ≡ (elem i mature && not (elem i (firsts matches)))
  pub young_left : (i : ℕ) → elem i left_young ≡ (elem i young && not (elem i (firsts matches)))
  pub mature_distinct : Distinct left_mature

-- The first stage matches mature tracks, the second some of those it left, the third young ones.
three_stages :
    (mature young : List ℕ) (m1 m2 m3 : List Match)
    → Distinct mature
    → ((i : ℕ) → (elem i mature && elem i young) ≡ false)
    → Distinct (firsts m1)
    → Distinct (firsts m2)
    → Distinct (firsts m3)
    → ((i : ℕ) → elem i mature ≡ false → elem i (firsts m1) ≡ false)
    → ((i : ℕ) → elem i (remove_matched mature m1 true) ≡ false → elem i (firsts m2) ≡ false)
    → ((i : ℕ) → elem i young ≡ false → elem i (firsts m3) ≡ false)
    → IsPartition
        (m1 ++ m2 ++ m3)
        mature
        young
        (remove_matched (remove_matched mature m1 true) m2 true)
        (remove_matched young m3 true)
three_stages mature young m1 m2 m3 d apart d1 d2 d3 s1 s2 s3 = record {
  distinct =
      Distinct-firsts-append (m1 ++ m2) m3
        (Distinct-firsts-append m1 m2 d1 d2
          (λ i e. ground (arith, s2 i, elem-remove_matched mature m1 i)))
        d3
        (λ i e. ground (
          arith,
          elem-firsts-append m1 m2 i,
          s1 i,
          s2 i,
          s3 i,
          apart i,
          elem-remove_matched mature m1 i,
        ));
  known = λ i e. ground (arith, both i, s1 i, s2 i, s3 i, elem-remove_matched mature m1 i, e);
  mature_left = λ i. ground (
    arith,
    both i,
    s1 i,
    s2 i,
    s3 i,
    apart i,
    elem-remove_matched mature m1 i,
    elem-remove_matched (remove_matched mature m1 true) m2 i,
  );
  young_left = λ i. ground (
    arith,
    both i,
    s1 i,
    s2 i,
    s3 i,
    apart i,
    elem-remove_matched mature m1 i,
    elem-remove_matched young m3 i,
  );
  mature_distinct = Distinct-remove_matched _ m2 true (Distinct-remove_matched mature m1 true d);
}
  where
    both :
        (i : ℕ)
        → elem i (firsts (m1 ++ m2 ++ m3))
          ≡ (elem i (firsts m1) || (elem i (firsts m2) || elem i (firsts m3)))
    both i = ground (arith, elem-firsts-append (m1 ++ m2) m3 i, elem-firsts-append m1 m2 i)

remove_matched-nil : (pool : List ℕ) → remove_matched pool [] true ≡ pool
unfolding remove_matched
remove_matched-nil [] = refl
remove_matched-nil (x ∷ xs) = ap (◌∷◌ x) (remove_matched-nil xs)

module _ {F K : Type 0} ⦃f : Float F⦄ (filter : Filter F K) where
  open filter use {box}

  abbrev pub mature_at : List (STrack F K) → List ℕ
  mature_at = positions (λ t. not (is_tentative t.state)) 0

  abbrev pub young_at : List (STrack F K) → List ℕ
  young_at = positions (λ t. is_tentative t.state) 0

  mature_young_apart :
      (tracks : List (STrack F K)) (i : ℕ)
      → (elem i (mature_at tracks) && elem i (young_at tracks)) ≡ false
  mature_young_apart tracks i = ground (
    arith,
    elem-positions (λ (t : STrack F K). not (is_tentative t.state)) tracks i,
    elem-positions (λ (t : STrack F K). is_tentative t.state) tracks i,
  )

  -- Each track is matched by one stage at most and once; the mature tracks that no stage matched are
  -- left over as mature, and the tentative ones as tentative.
  pub associate-IsPartition :
      (solver : Solver F) (cfg : AssocConfig F) (coasted : F) (dets : List (Detection F))
      (tracks : List (STrack F K))
      → let st = associate filter solver cfg coasted dets tracks in
        IsPartition st.matches
          (mature_at tracks)
          (young_at tracks)
          st.unmatched_mature
          st.unmatched_tentative
  unfolding associate
  associate-IsPartition solver cfg coasted dets tracks =
      let boxes = map (λ (t : STrack F K). box t.kf) tracks in
      let high = positions (λ (d : Detection F). cfg.track_thresh ≤? d.score) 0 dets in
      let low = positions (λ (d : Detection F). not (cfg.track_thresh ≤? d.score)) 0 dets in
      let embs =
        if nought <? cfg.appearance_weight
        then some (map (λ (t : STrack F K). t.embedding) tracks)
        else none in
      let gate = stage1_gate filter cfg in
      let weight = cfg.appearance_weight in
      let mature = mature_at tracks in
      let young = young_at tracks in
      let m1 = match_by_iou solver boxes mature dets high gate embs weight in
      let left = remove_matched mature m1 true in
      let high1 = remove_matched high m1 false in
      let recent = keep (λ i. is_recent filter (get_elem? tracks i)) left in
      let m2 = match_by_iou solver boxes recent dets low cfg.match_thresh_low none nought in
      let wide = tentative_gate filter cfg coasted in
      let m3 = match_by_iou solver boxes young dets high1 wide none nought in
      let d = Distinct-positions (λ (t : STrack F K). not (is_tentative t.state)) 0 tracks in
      let d' = Distinct-positions (λ (t : STrack F K). is_tentative t.state) 0 tracks in
      let d2 = Distinct-keep _ left (Distinct-remove_matched mature m1 true d) in
      let s1 = match_by_iou-elem solver boxes mature dets high gate embs weight in
      let d1 = match_by_iou-Distinct solver boxes mature dets high gate embs weight d in
      let s2 = match_by_iou-elem solver boxes recent dets low cfg.match_thresh_low none nought in
      let d2' =
        match_by_iou-Distinct solver boxes recent dets low cfg.match_thresh_low none nought d2 in
      let s3 = match_by_iou-elem solver boxes young dets high1 wide none nought in
      let d3 = match_by_iou-Distinct solver boxes young dets high1 wide none nought d' in
      let sub = λ (i : ℕ) (h : elem i left ≡ false).
        s2 i (ground (arith, elem-keep (λ i. is_recent filter (get_elem? tracks i)) left i)) in
      elim (Bool-cases cfg.use_byte) [
        | inl e ↦
            rw e
              (three_stages mature young m1 m2 m3 d (mature_young_apart tracks) d1 d2' d3 s1 sub s3)
        | inr e ↦
            rw (e, sym (remove_matched-nil left))
              (three_stages mature young m1 [] m3 d (mature_young_apart tracks) d1 tt d3 s1
                (λ i h. refl) s3)
      ]
