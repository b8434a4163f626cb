-- ===== src/Tbd/Tracker/Detections.antt =====
-- The detections through the three stages of the association and the births.
use mathlib.Core.List.{map-append}
use custos_tracker.Prelude.{
  ℕ, true, false, not, ◌&&◌, ◌||◌, if◌then◌else◌, ◌==◌, ==_iff, List, [], ◌∷◌, ◌++◌, map, keep,
  elem, Distinct, get_elem?, none, some, ◌≡◌, refl, All, arith, Bool-cases, inl, inr, positions,
}
use custos_tracker.Prelude.Indices.{
  elem-append, Distinct-append, Apart-intro, elem-positions, Distinct-positions,
}
use custos_tracker.Float.{Float, ◌≤?◌, nought, ◌<?◌, IsOrdered}
use custos_tracker.Types.{Detection}
use custos_tracker.Tbd.Config.{AssocConfig, Filter}
use custos_tracker.Tbd.Assoc.{Solver, Match, match_by_iou, seconds, remove_matched}
use custos_tracker.Tbd.Assoc.Laws.{elem-remove_matched_detections, Distinct-remove_matched}
use custos_tracker.Tbd.Assoc.Gate.{IsAssignment, match_by_iou-gate, match_by_iou-seconds}
use custos_tracker.Tbd.Tracker.{STrack, associate, is_recent, stage1_gate, tentative_gate}
use custos_tracker.Tbd.Tracker.Partition.{mature_at, young_at}

elem-seconds-append :
    (xs ys : List Match) (i : ℕ)
    → elem i (seconds (xs ++ ys)) ≡ (elem i (seconds xs) || elem i (seconds ys))
elem-seconds-append xs ys i = rw (map-append _ xs ys) (elem-append (seconds xs) (seconds ys) i)

Distinct-seconds-append :
    (xs ys : List Match)
    → Distinct (seconds xs)
    → Distinct (seconds ys)
    → ((i : ℕ) → elem i (seconds xs) ≡ true → elem i (seconds ys) ≡ false)
    → Distinct (seconds (xs ++ ys))
Distinct-seconds-append xs ys p q h =
    rw (map-append _ xs ys) (Distinct-append _ _ p q (Apart-intro _ _ h))

module _ (Q : Match → Type 0) (ids : List ℕ) where
  from_ids :
      (ms : List Match) (i : ℕ)
      → All (λ m. (elem m.1 ids ≡ true) × Q m) ms
      → elem i ids ≡ false
      → elem i (seconds ms) ≡ false
  from_ids [] i a h = refl
  from_ids ((t, d) ∷ ms) i a h = elim (Bool-cases (i == d)) [
    | inl q ↦
        let q' : i ≡ d = ground (arith, ==_iff i d) in
        let there : elem i ids ≡ true = rw q' a.0.0 in ground arith
    | inr q ↦ ground (arith, from_ids ms i a.1 h)
  ]

-- The first stage matches confident detections, the second others, the third confident ones left over.
three_stages :
    (high low : List ℕ) (m1 m2 m3 : List Match)
    → ((i : ℕ) → (elem i high && elem i low) ≡ false)
    → Distinct (seconds m1)
    → Distinct (seconds m2)
    → Distinct (seconds m3)
    → ((i : ℕ) → elem i high ≡ false → elem i (seconds m1) ≡ false)
    → ((i : ℕ) → elem i low ≡ false → elem i (seconds m2) ≡ false)
    → ((i : ℕ) → elem i (remove_matched high m1 false) ≡ false → elem i (seconds m3) ≡ false)
    → Distinct (seconds (m1 ++ m2 ++ m3))
      × ((i : ℕ)
          → elem i (remove_matched (remove_matched high m1 false) m3 false)
            ≡ (elem i high && not (elem i (seconds (m1 ++ m2 ++ m3)))))
three_stages high low m1 m2 m3 apart d1 d2 d3 s1 s2 s3 = (
  Distinct-seconds-append (m1 ++ m2) m3
      (Distinct-seconds-append m1 m2 d1 d2 (λ i e. ground (arith, s1 i, s2 i, apart i))) d3
      (λ i e. ground (
        arith,
        elem-seconds-append m1 m2 i,
        s1 i,
        s2 i,
        s3 i,
        apart i,
        elem-remove_matched_detections high m1 i,
      )),
  λ i. ground (
    arith,
    elem-seconds-append (m1 ++ m2) m3 i,
    elem-seconds-append m1 m2 i,
    s1 i,
    s2 i,
    s3 i,
    apart i,
    elem-remove_matched_detections high m1 i,
    elem-remove_matched_detections (remove_matched high m1 false) m3 i,
  ),
)

module _ {F K : Type 0} ⦃f : Float F⦄ (filter : Filter F K) where
  open filter use {box}

  abbrev pub confident_at : AssocConfig F → List (Detection F) → List ℕ
  confident_at cfg = positions (λ d. cfg.track_thresh ≤? d.score) 0

  abbrev weak_at : AssocConfig F → List (Detection F) → List ℕ
  weak_at cfg = positions (λ d. not (cfg.track_thresh ≤? d.score)) 0

  confident_weak_apart :
      (cfg : AssocConfig F) (dets : List (Detection F)) (i : ℕ)
      → (elem i (confident_at cfg dets) && elem i (weak_at cfg dets)) ≡ false
  confident_weak_apart cfg dets i = ground (
    arith,
    elem-positions (λ (d : Detection F). cfg.track_thresh ≤? d.score) dets i,
    elem-positions (λ (d : Detection F). not (cfg.track_thresh ≤? d.score)) dets i,
  )

  -- With a solver that assigns no column twice, `associate` matches no detection twice, and the
  -- detections that may give birth to tracks are those of score `track_thresh` or more that no stage
  -- matched.
  pub associate_detections :
      (solver : Solver F) (cfg : AssocConfig F) (coasted : F) (dets : List (Detection F))
      (tracks : List (STrack F K))
      → IsOrdered F
      → IsAssignment solver
      → let st = associate filter solver cfg coasted dets tracks in
        Distinct (seconds st.matches)
        × ((i : ℕ)
            → elem i st.unmatched_high
              ≡ (elem i (confident_at cfg dets) && not (elem i (seconds st.matches))))
  unfolding associate
  associate_detections solver cfg coasted dets tracks o assigns =
      let boxes = map (λ (t : STrack F K). box t.kf) tracks in
      let high = confident_at cfg dets in
      let low = weak_at cfg dets in
      let weight = cfg.appearance_weight in
      let embs =
        if nought <? weight then some (map (λ (t : STrack F K). t.embedding) tracks) else none in
      let gate = stage1_gate filter cfg in
      let mature = mature_at filter tracks in
      let young = young_at filter tracks in
      let m1 = match_by_iou solver boxes mature dets high gate embs weight in
      let left = remove_matched mature m1 true in
      let high1 = remove_matched high m1 false in
      let recent = keep (λ i. is_recent filter (get_elem? tracks i)) left in
      let loose = cfg.match_thresh_low in
      let m2 = match_by_iou solver boxes recent dets low loose none nought in
      let wide = tentative_gate filter cfg coasted in
      let m3 = match_by_iou solver boxes young dets high1 wide none nought in
      let dh = Distinct-positions (λ (d : Detection F). cfg.track_thresh ≤? d.score) 0 dets in
      let dl = Distinct-positions (λ (d : Detection F). not (cfg.track_thresh ≤? d.score)) 0 dets in
      let dh1 = Distinct-remove_matched high m1 false dh in
      let d1 = match_by_iou-seconds o solver boxes mature dets high gate embs weight assigns dh in
      let d2 = match_by_iou-seconds o solver boxes recent dets low loose none nought assigns dl in
      let d3 = match_by_iou-seconds o solver boxes young dets high1 wide none nought assigns dh1 in
      let g1 = match_by_iou-gate o solver boxes mature dets high gate embs weight in
      let g2 = match_by_iou-gate o solver boxes recent dets low loose none nought in
      let g3 = match_by_iou-gate o solver boxes young dets high1 wide none nought in
      let s1 = λ (i : ℕ) (h : elem i high ≡ false). from_ids _ high m1 i g1 h in
      let s2 = λ (i : ℕ) (h : elem i low ≡ false). from_ids _ low m2 i g2 h in
      let s3 = λ (i : ℕ) (h : elem i high1 ≡ false). from_ids _ high1 m3 i g3 h in
      let apart = confident_weak_apart cfg dets in
      elim (Bool-cases cfg.use_byte) [
        | inl e ↦ rw e (three_stages high low m1 m2 m3 apart d1 d2 d3 s1 s2 s3)
        | inr e ↦ rw e (three_stages high low m1 [] m3 apart d1 tt d3 s1 (λ i h. refl) s3)
      ]
