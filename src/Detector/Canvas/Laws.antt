-- ===== src/Detector/Canvas/Laws.antt =====
-- The cached canvas does not change what is detected.
use mathlib.Core.Option
use custos_tracker.Prelude.{
  ℕ, pos, negsuc, ℤ, eqb_ℤ, true, not, ◌||◌, List, [], ◌∷◌, Option, none, some, ◌≡◌, ◌⊎◌, refl, sym,
  ap, ◌∙◌, arith, Bool-cases, Option-cases, inl, inr,
}
use custos_tracker.Float.{Float}
use custos_tracker.Types.{Detection, FrameView}
use custos_tracker.Mat.{Rect, Vision, as_mat}
use custos_tracker.Geometry.Boxes.{letterbox_map}
use custos_tracker.Geometry.Nms.{Sort}
use custos_tracker.Detector.Canvas.{
  Letterboxing, Yolov8Detector, interior, region, canvas_for, fit, infer, detect,
}

-- What OpenCV documents: a grey canvas has nothing left of what was drawn, and an image that is resized into a
-- region covers what another left there. A region of negative size is refused.
pub record IsLetterboxing {F Img : Type 0} (l : Letterboxing F Img) : Type 0 where
  pub grey_blank : (n : ℤ) → l.grey (l.blank n) ≡ l.grey (l.grey (l.blank n))
  pub grey_drawn :
      (c c' img : Img) (r : Rect) → l.resize_into c r img ≡ some c' → l.grey c' ≡ l.grey c
  pub covers :
      (c c' img img' : Img) (r : Rect)
      → l.resize_into c r img ≡ some c'
      → l.resize_into c' r img' ≡ l.resize_into c r img'
  pub refuses : (c img : Img) (r : Rect) (n : ℕ) → r.width ≡ negsuc n → l.resize_into c r img ≡ none

pub eqb_ℤ→eq : (a b : ℤ) → eqb_ℤ a b ≡ true → a ≡ b
eqb_ℤ→eq (pos m) (pos n) h = ap pos (ground arith)
eqb_ℤ→eq (pos m) (negsuc n) h = absurd (ground arith)
eqb_ℤ→eq (negsuc m) (pos n) h = absurd (ground arith)
eqb_ℤ→eq (negsuc m) (negsuc n) h = ap negsuc (ground arith)

module _ {F P Img Hist : Type 0} ⦃f : Float F⦄ (v : Vision F P Img Hist)
    (l : Letterboxing F Img) where
  -- The detector with the canvas that the constructor gave it.
  abbrev pub fresh : Yolov8Detector F Img → Yolov8Detector F Img
  fresh d = record d { canvas = l.blank d.input_size; fitted_w = negsuc 0; fitted_h = negsuc 0 }

  -- The canvas is new, or it is a grey one with an image in the region of the size that is kept.
  abbrev pub IsFitted : Yolov8Detector F Img → Type 0
  IsFitted d =
      ((d.canvas ≡ l.blank d.input_size) × ((d.fitted_w ≡ negsuc 0) × (d.fitted_h ≡ negsuc 0)))
      ⊎ ((img : Img) × (l.resize_into (l.grey (l.blank d.input_size))
              (region d.input_size d.fitted_w d.fitted_h) img
            ≡ some d.canvas))

  module _ (sort : Sort) where
    -- The detections of frames that come one after the other.
    pub detect_all : List (FrameView P) → Yolov8Detector F Img → Option (List (List (Detection F)))
    detect_all [] d = some []
    detect_all (frame ∷ frames) d = elim (detect v l sort frame d) [
      | none ↦ none
      | some (out, d') ↦ Option.map (λ rest. out ∷ rest) (detect_all frames d')
    ]

    -- Each frame is given to a detector of its own.
    pub detect_each : List (FrameView P) → Yolov8Detector F Img → Option (List (List (Detection F)))
    detect_each [] d = some []
    detect_each (frame ∷ frames) d = elim (detect v l sort frame d) [
      | none ↦ none
      | some (out, d') ↦ Option.map (λ rest. out ∷ rest) (detect_each frames d)
    ]

  module _ (laws : IsLetterboxing l) where
    -- Whatever is left on the canvas, an image is drawn as on a grey one.
    drawn :
        (d : Yolov8Detector F Img) (nw nh : ℤ) (img : Img)
        → IsFitted d
        → let r = region d.input_size nw nh in
          l.resize_into (canvas_for v l r d) r img
          ≡ l.resize_into (l.grey (l.blank d.input_size)) r img
    unfolding canvas_for
    drawn d nw nh img ok =
        let r = region d.input_size nw nh in
        elim (Bool-cases (not (eqb_ℤ nw d.fitted_w) || not (eqb_ℤ nh d.fitted_h))) [
          | inl e ↦ elim ok [
            | inl (new, k) ↦ rw (canvas_for, e, new) refl
            | inr (old, was) ↦
                let same = laws.grey_drawn _ _ _ _ was ∙ sym (laws.grey_blank d.input_size) in
                rw (canvas_for, e, same) refl
          ]
          | inr e ↦
              let w : nw ≡ d.fitted_w = eqb_ℤ→eq nw d.fitted_w (ground arith) in
              let h : nh ≡ d.fitted_h = eqb_ℤ→eq nh d.fitted_h (ground arith) in
              elim ok [
                | inl (new, (k, _)) ↦
                    let bad = laws.refuses (canvas_for v l r d) img r 0 (w ∙ k) in
                    let bad' = laws.refuses (l.grey (l.blank d.input_size)) img r 0 (w ∙ k) in
                    bad ∙ sym bad'
                | inr (old, was) ↦ rw (canvas_for, e, w, h) (laws.covers _ _ old img _ was)
              ]
        ]

    fit-fresh :
        (img : Img) (d : Yolov8Detector F Img) → IsFitted d → fit v l img d ≡ fit v l img (fresh d)
    unfolding fit interior
    fit-fresh img d ok =
        let r = interior v l d.input_size img in
        ap (Option.map (λ c. record d { canvas = c; fitted_w = r.width; fitted_h = r.height })) (
          drawn d r.width r.height img ok
          ∙ sym (drawn (fresh d) r.width r.height img (inl (refl, (refl, refl)))))

    fit-IsFitted :
        (img : Img) (d d' : Yolov8Detector F Img)
        → IsFitted d
        → fit v l img d ≡ some d'
        → IsFitted d' × (fresh d' ≡ fresh d)
    unfolding fit interior
    fit-IsFitted img d d' ok h =
        let r = interior v l d.input_size img in
        let same = drawn d r.width r.height img ok in
        elim (Option-cases (l.resize_into (canvas_for v l r d) r img)) [
          | inl e ↦ cc (rw (fit, e) at h)
          | inr (c, e) ↦
              let is : d' ≡ record d { canvas = c; fitted_w = r.width; fitted_h = r.height } =
                cc (rw (fit, e) at h) in
              (rw is (inr (img, sym same ∙ e)), rw is refl)
        ]

    module _ (sort : Sort) where
      detect-fresh :
          (frame : FrameView P) (d : Yolov8Detector F Img)
          → IsFitted d
          → detect v l sort frame d ≡ detect v l sort frame (fresh d)
      unfolding detect
      detect-fresh frame d ok = elim (Option-cases (as_mat v frame)) [
        | inl e ↦ rw (detect, e) refl
        | inr (img, e) ↦ rw (detect, e, fit-fresh img d ok) refl
      ]

      detect-IsFitted :
          (frame : FrameView P) (d d' : Yolov8Detector F Img) (out : List (Detection F))
          → IsFitted d
          → detect v l sort frame d ≡ some (out, d')
          → IsFitted d' × (fresh d' ≡ fresh d)
      unfolding detect
      detect-IsFitted frame d d' out ok h = elim (Option-cases (as_mat v frame)) [
        | inl e ↦ cc (rw (detect, e) at h)
        | inr (img, e) ↦ elim (Option-cases (fit v l img d)) [
          | inl q ↦ cc (rw (detect, e, q) at h)
          | inr (d'', q) ↦
              let lbox = letterbox_map (v.cols img) (v.rows img) d.input_size d.input_size in
              elim (Option-cases (infer v l sort lbox d'')) [
                | inl i ↦ cc (rw (detect, e, q, i) at h)
                | inr (ds, i) ↦
                    let is : d'' ≡ d' = cc (rw (detect, e, q, i) at h) in
                    rw is at (fit-IsFitted img d d'' ok q)
              ]
        ]
      ]

      -- If the canvas of the detector is new or one that it has drawn on, the canvas that it keeps between frames
      -- changes no detection: frames one after the other give what each gives a detector with a new
      -- canvas, exceptions included.
      pub detect_all-eq-each :
          (frames : List (FrameView P)) (d : Yolov8Detector F Img)
          → IsFitted d
          → detect_all sort frames d ≡ detect_each sort frames (fresh d)
      unfolding detect_all detect_each
      detect_all-eq-each [] d ok = refl
      detect_all-eq-each (frame ∷ frames) d ok =
          let same = detect-fresh frame d ok in
          elim (Option-cases (detect v l sort frame d)) [
            | inl e ↦ rw (detect_all, detect_each, e, sym same ∙ e) refl
            | inr ((out, d'), e) ↦
                let (ok', keep) = detect-IsFitted frame d d' out ok e in
                rw
                  (detect_all, detect_each, e, sym same ∙ e, detect_all-eq-each frames d' ok', keep)
                  refl
          ]
