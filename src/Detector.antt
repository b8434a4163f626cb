-- ===== src/Detector.antt =====
-- core/src/tbd/yolov8.cpp: the decoding of the network's output. The output of the engine is a function
-- of the index into its buffer.
pub mod Config
pub mod Scan
pub mod Laws
pub mod Canvas
mod Tests
use custos_tracker.Prelude.{
  ℕ, zero, suc, ◌+◌, ◌*◌, ◌-◌, ◌%◌, ◌^◌, pos, negsuc, ℤ, ◌-ℤ◌, ltb_ℤ, eqb_ℤ, Bool, true, false, not,
  ◌&&◌, ◌||◌, if◌then◌else◌, ltb, is_empty, get_or, replicate, length, List, [], ◌∷◌, map, Option,
  none, some,
}
use custos_tracker.Float.{Float, ◌⊕◌, ◌⊖◌, ◌⊗◌, ◌≤?◌, nought, one, half, fmin, fmax}
use custos_tracker.Types.{BBox, zero_box, Detection}
use custos_tracker.Geometry.Boxes.{LetterboxMap, from_letterbox}
use custos_tracker.Geometry.Nms.{Sort, nms}

pub record DecodeScratch (F : Type 0) : Type 0 where
  pub best : List F
  pub best_cls : List ℤ

-- `static_cast<int16_t>`
unfoldable pub to_int16 : ℕ → ℤ
to_int16 c = let w = c % 2 ^ 16 in if ltb w (2 ^ 15) then pos w else negsuc (2 ^ 16 - w - 1)

abbrev any_eq : List ℤ → ℤ → Bool
any_eq [] k = false
any_eq (x ∷ xs) k = eqb_ℤ x k || any_eq xs k

unfoldable pub wanted : List ℤ → ℤ → Bool
wanted keep_classes cls = is_empty keep_classes || any_eq keep_classes cls

module _ {F : Type 0} ⦃f : Float F⦄ where
  open f use {lit, of_int}

  -- One class over the anchors from `a` on.
  pub scan_row : (ℕ → F) → ℤ → ℕ → List F → List ℤ → DecodeScratch F
  scan_row row c a [] cls = record { best = []; best_cls = [] }
  scan_row row c a (b ∷ bs) [] = record { best = []; best_cls = [] }
  scan_row row c a (b ∷ bs) (k ∷ ks) =
      let rest = scan_row row c (a + 1) bs ks in
      if b ≤? row a
      then record { best = row a ∷ rest.best; best_cls = c ∷ rest.best_cls }
      else record { best = b ∷ rest.best; best_cls = k ∷ rest.best_cls }

  -- The classes below `c`, in ascending order.
  pub scan_classes : (ℕ → F) → ℕ → F → ℕ → DecodeScratch F
  scan_classes out num_anchors conf_thr zero = record {
    best = replicate num_anchors conf_thr;
    best_cls = replicate num_anchors (negsuc 0);
  }
  scan_classes out num_anchors conf_thr (suc c) =
      let s = scan_classes out num_anchors conf_thr c in
      scan_row (λ a. out ((4 + c) * num_anchors + a)) (to_int16 c) 0 s.best s.best_cls

  -- A box, clipped to the source frame.
  unfoldable pub clip : LetterboxMap F → BBox F → BBox F
  clip map box =
      let x2 = fmin (box.x ⊕ box.w) (of_int map.src_w) in
      let y2 = fmin (box.y ⊕ box.h) (of_int map.src_h) in
      let x = fmax box.x nought in
      let y = fmax box.y nought in record { x = x; y = y; w = x2 ⊖ x; h = y2 ⊖ y }

  unfoldable pub anchor_box : (ℕ → F) → ℕ → LetterboxMap F → ℕ → BBox F
  anchor_box out num_anchors map a =
      let value = λ (c : ℕ). out (c * num_anchors + a) in
      let raw : BBox F = record {
        x = value 0 ⊖ half ⊗ value 2;
        y = value 1 ⊖ half ⊗ value 3;
        w = value 2;
        h = value 3;
      } in
      clip map (from_letterbox raw map)

  -- What the second loop does for an anchor.
  unfoldable pub candidate :
      (ℕ → F) → ℕ → LetterboxMap F → List ℤ → ℕ → F → ℤ → Option (Detection F)
  candidate out num_anchors map keep_classes a best best_cls =
      let box = anchor_box out num_anchors map a in
      if ltb_ℤ best_cls (pos 0) || not (wanted keep_classes best_cls)
      then none
      else if box.w ≤? one || box.h ≤? one
      then none
      else some (record { box = box; score = best; class_id = best_cls; embedding = [] })

  pub candidates_from :
      (ℕ → F) → ℕ → LetterboxMap F → List ℤ → ℕ → List F → List ℤ → List (Detection F)
  candidates_from out num_anchors map keep_classes a [] cls = []
  candidates_from out num_anchors map keep_classes a (b ∷ bs) [] = []
  candidates_from out num_anchors map keep_classes a (b ∷ bs) (k ∷ ks) =
      let rest = candidates_from out num_anchors map keep_classes (a + 1) bs ks in
      elim (candidate out num_anchors map keep_classes a b k) [ none ↦ rest | some d ↦ d ∷ rest ]

  abbrev pub no_detection : Detection F
  no_detection = record { box = zero_box; score = nought; class_id = pos 0; embedding = [] }

  unfoldable pub shift : Detection F → BBox F
  shift d =
      let off = of_int d.class_id ⊗ lit 4096 0 in
      record (d.box) { x = d.box.x ⊕ off; y = d.box.y ⊕ off }

  unfoldable pub suppress : Sort → F → List (Detection F) → List (Detection F)
  suppress sort nms_iou candidates =
      map (λ i. get_or candidates i no_detection)
        (nms sort (map shift candidates) (map (λ (d : Detection F). d.score) candidates) nms_iou)

  unfoldable pub decode_yolov8 :
      Sort → (ℕ → F) → ℕ → ℕ → F → F → LetterboxMap F → List ℤ → List (Detection F)
  decode_yolov8 sort out num_classes num_anchors conf_thr nms_iou map keep_classes =
      let s = scan_classes out num_anchors conf_thr num_classes in
      suppress sort nms_iou (candidates_from out num_anchors map keep_classes 0 s.best s.best_cls)
