-- ===== src/Detector/Laws.antt =====
-- `decode_yolov8` against a decoding of each anchor alone, and what its detections are.
use custos_tracker.Prelude.{
  length-map, ℕ, zero, suc, ◌+◌, ◌^◌, ◌<◌, ◌≤◌, pos, ℤ, ltb_ℤ, true, false, not, ◌||◌, get_or,
  length, List, [], ◌∷◌, map, Option, none, some, ◌≡◌, refl, sym, ◌∙◌, ap, arith, Bool-cases,
  Option-cases, inl, inr, All, All-map,
}
use mathlib.Core.Bool.{false≢true}
use custos_tracker.Float.{Float, ◌≤?◌, ◌<?◌, one, IsOrdered}
use custos_tracker.Types.{Detection}
use custos_tracker.Geometry.Boxes.{LetterboxMap}
use custos_tracker.Geometry.Nms.{Sort, IsSort, nms}
use custos_tracker.Geometry.Nms.Laws.{nms-All_lt}
use custos_tracker.Detector.{
  wanted, anchor_box, candidate, candidates_from, no_detection, shift, suppress, decode_yolov8,
}
use custos_tracker.Detector.Scan.{
  scan_anchor, scores_at, tabulate, scan_classes-tabulate, scan_anchor-Found,
}

All-get_or :
    {A : Type 0} (P : A → Type 0) (xs : List A) (d : A) (i : ℕ)
    → All P xs
    → i < length xs
    → P (get_or xs i d)
All-get_or P [] d i h k = absurd (omega arith)
All-get_or P (x ∷ xs) d zero h k = h.0
All-get_or P (x ∷ xs) d (suc i) h k = All-get_or P xs d i h.1 (omega arith)

All-of_map :
    {A B : Type 0} (P : B → Type 0) (g : A → B) (xs : List A)
    → All (λ a. P (g a)) xs
    → All P (map g xs)
All-of_map P g [] h = tt
All-of_map P g (x ∷ xs) h = (h.0, All-of_map P g xs h.1)

module _ {F : Type 0} ⦃f : Float F⦄ (out : ℕ → F) (num_classes num_anchors : ℕ) (conf_thr : F)
    (lbox : LetterboxMap F) (keep_classes : List ℤ) where
  -- An anchor decoded alone.
  abbrev pub decode_anchor : ℕ → Option (Detection F)
  decode_anchor a =
      let s = scan_anchor (scores_at out num_anchors a) conf_thr num_classes in
      candidate out num_anchors lbox keep_classes a s.best s.cls

  pub anchors_from : ℕ → ℕ → List (Detection F)
  anchors_from a zero = []
  anchors_from a (suc n) =
      let rest = anchors_from (a + 1) n in
      elim (decode_anchor a) [ none ↦ rest | some d ↦ d ∷ rest ]

  candidates_from-anchors :
      (a n : ℕ)
      → let s =
          tabulate (λ i. scan_anchor (scores_at out num_anchors i) conf_thr num_classes) a n in
        candidates_from out num_anchors lbox keep_classes a s.best s.best_cls ≡ anchors_from a n
  unfolding candidates_from anchors_from
  candidates_from-anchors a zero = refl
  candidates_from-anchors a (suc n) =
      ap (λ rest. elim (decode_anchor a) [ none ↦ rest | some d ↦ d ∷ rest ])
        (candidates_from-anchors (a + 1) n)

  -- The scan by class decodes what a scan of each anchor alone decodes, in the same order.
  pub decode_yolov8-eq-anchors :
      (sort : Sort) (nms_iou : F)
      → decode_yolov8 sort out num_classes num_anchors conf_thr nms_iou lbox keep_classes
        ≡ suppress sort nms_iou (anchors_from 0 num_anchors)
  unfolding decode_yolov8
  decode_yolov8-eq-anchors sort nms_iou =
      rw (decode_yolov8, scan_classes-tabulate out num_anchors conf_thr num_classes)
        (ap (suppress sort nms_iou) (candidates_from-anchors 0 num_anchors))

  -- A detection of an anchor.
  pub record IsDecoded (d : Detection F) : Type 0 where
    pub anchor : ℕ
    pub anchor_lt : anchor < num_anchors
    pub class : ℕ
    pub class_lt : class < num_classes
    pub class_id_is : d.class_id ≡ pos class
    pub is_wanted : wanted keep_classes d.class_id ≡ true
    pub score_is : d.score ≡ scores_at out num_anchors anchor class
    pub reaches : (conf_thr ≤? d.score) ≡ true
    pub highest :
        (c : ℕ) → c < num_classes → (d.score <? scores_at out num_anchors anchor c) ≡ false
    pub last :
        (c : ℕ)
        → class < c
        → c < num_classes
        → (d.score ≤? scores_at out num_anchors anchor c) ≡ false
    pub box_is : d.box ≡ anchor_box out num_anchors lbox anchor
    pub wide : (d.box.w ≤? one) ≡ false
    pub high : (d.box.h ≤? one) ≡ false

  candidate-some :
      (a : ℕ) (best : F) (cls : ℤ) (d : Detection F)
      → candidate out num_anchors lbox keep_classes a best cls ≡ some d
      → let box = anchor_box out num_anchors lbox a in
        (d ≡ record { box = box; score = best; class_id = cls; embedding = [] })
        × ((ltb_ℤ cls (pos 0) ≡ false)
            × ((wanted keep_classes cls ≡ true)
                × (((box.w ≤? one) ≡ false) × ((box.h ≤? one) ≡ false))))
  unfolding candidate
  candidate-some a best cls d h =
      let box = anchor_box out num_anchors lbox a in
      elim (Bool-cases (ltb_ℤ cls (pos 0) || not (wanted keep_classes cls))) [
        | inl e ↦ cc (rw (candidate, e) at h)
        | inr e ↦ elim (Bool-cases (box.w ≤? one || box.h ≤? one)) [
          | inl q ↦ cc (rw (candidate, e, q) at h)
          | inr q ↦ (cc (rw (candidate, e, q) at h), ground arith)
        ]
      ]

  anchor-IsDecoded :
      (o : IsOrdered F)
      → num_classes ≤ 2 ^ 15
      → (a : ℕ) → a < num_anchors
      → (d : Detection F) → decode_anchor a ≡ some d
      → IsDecoded d
  anchor-IsDecoded o small a ha d h =
      let s = scan_anchor (scores_at out num_anchors a) conf_thr num_classes in
      let (e, (neg, (want, (wide, high)))) = candidate-some a s.best s.cls d h in
      elim (scan_anchor-Found o (scores_at out num_anchors a) conf_thr num_classes small) [
        | inl n ↦ absurd (false≢true (sym neg ∙ rw (n.1.0) refl))
        | inr (k, b) ↦ rw e (record {
          anchor = a;
          anchor_lt = ha;
          class = k;
          class_lt = b.0;
          class_id_is = b.1.1.0;
          is_wanted = want;
          score_is = b.1.0;
          reaches = rw (b.1.0) (b.1.1.1.0);
          highest = rw (b.1.0) (b.1.1.1.1.0);
          last = rw (b.1.0) (b.1.1.1.1.1);
          box_is = refl;
          wide = wide;
          high = high;
        })
      ]

  anchors_from-IsDecoded :
      (o : IsOrdered F)
      → num_classes ≤ 2 ^ 15
      → (a n : ℕ) → a + n ≤ num_anchors
      → All IsDecoded (anchors_from a n)
  unfolding anchors_from
  anchors_from-IsDecoded o small a zero h = tt
  anchors_from-IsDecoded o small a (suc n) h =
      let rest = anchors_from-IsDecoded o small (a + 1) n (omega arith) in
      elim (Option-cases (decode_anchor a)) [
        | inl e ↦ rw (anchors_from, e) rest
        | inr (d, e) ↦ rw (anchors_from, e) (anchor-IsDecoded o small a (omega arith) d e, rest)
      ]

  -- Suppression picks from its candidates.
  suppress-All :
      (P : Detection F → Type 0) (sort : Sort)
      → IsSort sort
      → (nms_iou : F) (ds : List (Detection F)) → All P ds
      → All P (suppress sort nms_iou ds)
  unfolding suppress
  suppress-All P sort sorts nms_iou ds h =
      let shifted = map shift ds in
      let scores = map (λ (d : Detection F). d.score) ds in
      All-of_map P (λ i. get_or ds i no_detection) (nms sort shifted scores nms_iou)
        (All-map (λ i. i < length shifted) (λ i. P (get_or ds i no_detection)) _
          (λ i k. All-get_or P ds no_detection i h (rw (length-map ds shift) at k))
          (nms-All_lt sort sorts shifted scores nms_iou))

  pub decode_yolov8-IsDecoded :
      (o : IsOrdered F) (sort : Sort)
      → IsSort sort
      → num_classes ≤ 2 ^ 15
      → (nms_iou : F)
      → All IsDecoded
          (decode_yolov8 sort out num_classes num_anchors conf_thr nms_iou lbox keep_classes)
  decode_yolov8-IsDecoded o sort sorts small nms_iou = rw (decode_yolov8-eq-anchors sort nms_iou) (
      suppress-All IsDecoded sort sorts nms_iou (anchors_from 0 num_anchors)
        (anchors_from-IsDecoded o small 0 num_anchors (omega arith)))
