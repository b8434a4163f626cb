-- ===== src/Detector/Tests.antt =====
-- Two anchors and two classes, and a detector whose canvas is the value of its bands and of its interior.
use custos_tracker.Prelude.{
  ℕ, ◌/◌, pos, negsuc, ℤ, Bool, true, false, if◌then◌else◌, get_or, [], ◌∷◌, All, none, some, ◌≡◌,
  refl, sym, inl, inr, Bool-cases, arith,
}
use custos_tracker.Float.Milli.{Milli, milli_float, Milli-IsOrdered}
use custos_tracker.Types.{FrameView, bgr8}
use custos_tracker.Mat.{Vision}
use custos_tracker.Geometry.Boxes.{LetterboxMap}
use custos_tracker.Geometry.Nms.Sorting.{insertion_sort, insertion_sort-IsSort}
use custos_tracker.Detector.{decode_yolov8, scan_classes, scan_row, to_int16, suppress}
use custos_tracker.Detector.Config.{default_yolov8}
use custos_tracker.Detector.Laws.{
  anchors_from, decode_yolov8-eq-anchors, IsDecoded, decode_yolov8-IsDecoded,
}
use custos_tracker.Detector.Canvas.{Letterboxing, Yolov8Detector}
use custos_tracker.Detector.Canvas.Laws.{
  IsLetterboxing, detect_all, detect_each, detect_all-eq-each,
}

-- Two boxes of 20 by 20. The first anchor is level in both classes.
abbrev tensor : ℕ → Milli
tensor k =
    get_or
      (100000 ∷ 300000 ∷ 100000 ∷ 300000 ∷ 20000 ∷ 20000 ∷ 20000 ∷ 20000 ∷ 700 ∷ 50 ∷ 700 ∷ 90 ∷ [])
      k 0

abbrev whole : LetterboxMap Milli
whole = record {
  scale = 1000;
  pad_x = 0;
  pad_y = 0;
  src_w = pos 640;
  src_h = pos 640;
  dst_w = pos 640;
  dst_h = pos 640;
}

level_anchor :
    scan_classes tensor 2 100 2 ≡ record { best = 700 ∷ 100 ∷ []; best_cls = pos 1 ∷ negsuc 0 ∷ [] }
unfolding scan_classes scan_row to_int16
level_anchor = refl

decode_yolov8-eq-anchors_example :
    decode_yolov8 insertion_sort tensor 2 2 100 450 whole []
    ≡ suppress insertion_sort 450 (anchors_from tensor 2 2 100 whole [] 0 2)
decode_yolov8-eq-anchors_example =
    decode_yolov8-eq-anchors tensor 2 2 100 whole [] insertion_sort 450

decode_yolov8-IsDecoded_example :
    All
      (IsDecoded tensor 2 2 100 whole [])
      (decode_yolov8 insertion_sort tensor 2 2 100 450 whole [])
decode_yolov8-IsDecoded_example =
    decode_yolov8-IsDecoded tensor 2 2 100 whole [] Milli-IsOrdered insertion_sort
      insertion_sort-IsSort (omega arith) 450

record Sheet : Type 0 where
  bands : ℕ
  inner : ℕ

abbrev vision : Vision Milli ℕ Sheet ℕ
vision = record {
  wrap = λ p w h step. record { bands = p; inner = p };
  cols = λ img. pos 640;
  rows = λ img. pos 480;
  meet = λ a b. a;
  hist_l1 = λ img roi. 0;
  hist_l2 = λ img roi. [];
  bhattacharyya = λ a b. 0;
}

abbrev negative : ℤ → Bool
negative (pos n) = false
negative (negsuc n) = true

abbrev sheets : Letterboxing Milli Sheet
sheets = record {
  round = λ a. pos (a / 1000);
  blank = λ n. record { bands = 0; inner = 0 };
  grey = λ c. record { bands = 114; inner = 114 };
  resize_into = λ c r img. if negative r.width then none else some (record c { inner = img.inner });
  channel = λ c k. c.bands ∷ c.inner ∷ [];
}

sheets-IsLetterboxing : IsLetterboxing sheets
sheets-IsLetterboxing = record {
  grey_blank = λ n. refl;
  grey_drawn = λ c c' img r h. refl;
  covers = λ c c' img img' r h. elim (Bool-cases (negative r.width)) [
    | inl e ↦ rw e refl
    | inr e ↦ let is : record c { inner = img.inner } ≡ c' = cc (rw e at h) in rw (e, sym is) refl
  ];
  refuses = λ c img r n h. rw h refl;
}

abbrev new : Yolov8Detector Milli Sheet
new = record {
  config = default_yolov8;
  engine = record {
    input_descs = record { name = "images"; shape = [] } ∷ [];
    output_descs = [];
    run = λ ins. some (record { name = ""; shape = []; values = tensor } ∷ []);
  };
  input_size = pos 640;
  num_classes = pos 2;
  num_anchors = pos 2;
  canvas = sheets.blank (pos 640);
  fitted_w = negsuc 0;
  fitted_h = negsuc 0;
}

abbrev frame : ℕ → FrameView ℕ
frame p = record {
  pixels = some p;
  width = pos 640;
  height = pos 480;
  stride_bytes = pos 0;
  fmt = bgr8;
  t_ns = pos 0;
}

detect_all-eq-each_example :
    detect_all vision sheets insertion_sort (frame 7 ∷ frame 9 ∷ []) new
    ≡ detect_each vision sheets insertion_sort (frame 7 ∷ frame 9 ∷ []) new
detect_all-eq-each_example =
    detect_all-eq-each vision sheets sheets-IsLetterboxing insertion_sort (frame 7 ∷ frame 9 ∷ [])
      new (inl (refl, (refl, refl)))
