-- ===== src/Detector/Canvas.antt =====
-- `Yolov8Detector` of core/src/tbd/yolov8.cpp, with the layouts of core/include/ctrk/infer.hpp. What it
-- asks of OpenCV besides `Vision`, and the engine, are parameters; `none` is an exception. The buffers that
-- each frame writes before it reads them (`blob_`, `chan_`, `scratch_`) are not part of the state.
pub mod Laws
use mathlib.Core.Option
use Prim.Native.String.{String}
use custos_tracker.Prelude.{
  ℕ, ◌+◌, ◌*◌, ◌/◌, ◌-◌, pos, pos_part, negsuc, ℤ, ◌-ℤ◌, ◌*ℤ◌, eqb_ℤ, Bool, true, false, not, ◌&&◌,
  ◌||◌, ◌==◌, if◌then◌else◌, get_or, length, List, [], ◌∷◌, ◌++◌, map, Option, none, some,
}
use custos_tracker.Float.{Float, ◌⊗◌, ◌⊘◌, nought}
use custos_tracker.Types.{Detection, FrameView}
use custos_tracker.Mat.{Rect, Vision, as_mat}
use custos_tracker.Geometry.Boxes.{LetterboxMap, letterbox_map}
use custos_tracker.Geometry.Nms.{Sort}
use custos_tracker.Sot.Config.{EngineOptions}
use custos_tracker.Detector.{decode_yolov8}
use custos_tracker.Detector.Config.{Yolov8Config}

pub record TensorDesc : Type 0 where
  pub name : String
  pub shape : List ℤ

pub record TensorView (F : Type 0) : Type 0 where
  pub name : String
  pub shape : List ℤ
  pub values : ℕ → F

-- `IEngine`.
pub record Engine (F : Type 0) : Type 0 where
  pub input_descs : List TensorDesc
  pub output_descs : List TensorDesc
  pub run : List (TensorView F) → Option (List (TensorView F))

-- The calls that letterbox an image: `cv::Mat::create` of a square, `setTo` grey, `cv::resize` into a region,
-- and a channel of `cv::split` as bytes.
pub record Letterboxing (F Img : Type 0) : Type 0 where
  pub round : F → ℤ
  pub blank : ℤ → Img
  pub grey : Img → Img
  pub resize_into : Img → Rect → Img → Option Img
  pub channel : Img → ℕ → List ℕ

pub record Yolov8Detector (F Img : Type 0) : Type 0 where
  pub config : Yolov8Config F
  pub engine : Engine F
  pub input_size : ℤ
  pub num_classes : ℤ
  pub num_anchors : ℤ
  pub canvas : Img
  pub fitted_w : ℤ
  pub fitted_h : ℤ

-- `n / 2`, as C++ divides.
abbrev pub halve : ℤ → ℤ
halve (pos n) = pos (n / 2)
halve (negsuc n) = pos 0 -ℤ pos ((n + 1) / 2)

abbrev dim : TensorDesc → ℕ → ℤ
dim d i = get_or d.shape i (pos 0)

-- The middle of a square canvas.
abbrev pub region : ℤ → ℤ → ℤ → Rect
region input_size nw nh = record {
  x = halve (input_size -ℤ nw);
  y = halve (input_size -ℤ nh);
  width = nw;
  height = nh;
}

module _ {F P Img Hist : Type 0} ⦃f : Float F⦄ (v : Vision F P Img Hist)
    (l : Letterboxing F Img) where
  open f use {lit, of_int}
  open l use {round, blank, grey, resize_into, channel}

  -- The constructor, with the engine that was made from the configuration.
  unfoldable pub create : Yolov8Config F → Engine F → Option (Yolov8Detector F Img)
  create config engine = elim engine.input_descs [
    | [] ↦ none
    | (i ∷ is) ↦ elim engine.output_descs [
      | [] ↦ none
      | (o ∷ os) ↦
          if not (length is == 0)
            || not (length os == 0)
            || not (length i.shape == 4)
            || not (length o.shape == 3)
            || not (eqb_ℤ (dim i 2) (dim i 3))
          then none
          else some (record {
            config = config;
            engine = engine;
            input_size = dim i 2;
            num_classes = dim o 1 -ℤ pos 4;
            num_anchors = dim o 2;
            canvas = blank (dim i 2);
            fitted_w = negsuc 0;
            fitted_h = negsuc 0;
          })
    ]
  ]

  -- The region of the canvas that an image is fitted into.
  unfoldable pub interior : ℤ → Img → Rect
  interior input_size img =
      let scale = (letterbox_map (v.cols img) (v.rows img) input_size input_size).scale in
      region input_size (round (of_int (v.cols img) ⊗ scale)) (round (of_int (v.rows img) ⊗ scale))

  -- The grey bands are painted again if the size of the region has changed.
  unfoldable pub canvas_for : Rect → Yolov8Detector F Img → Img
  canvas_for rect d =
      if not (eqb_ℤ rect.width d.fitted_w) || not (eqb_ℤ rect.height d.fitted_h)
      then grey d.canvas
      else d.canvas

  unfoldable pub fit : Img → Yolov8Detector F Img → Option (Yolov8Detector F Img)
  unfolding canvas_for
  fit img d =
      let rect = interior d.input_size img in
      Option.map (λ c. record d { canvas = c; fitted_w = rect.width; fitted_h = rect.height })
        (resize_into (canvas_for rect d) rect img)

  abbrev plane : Img → ℕ → List F
  plane canvas c = map (λ b. of_int (pos b) ⊘ lit 255 0) (channel canvas (2 - c))

  unfoldable pub blob : Img → List F
  blob canvas = plane canvas 0 ++ plane canvas 1 ++ plane canvas 2

  module _ (sort : Sort) where
    -- The first output of the engine, decoded.
    unfoldable pub decoded :
        LetterboxMap F → Yolov8Detector F Img → List (TensorView F) → Option (List (Detection F))
    decoded lbox d [] = none
    decoded lbox d (t ∷ ts) = some (
        decode_yolov8 sort t.values (pos_part d.num_classes) (pos_part d.num_anchors)
          d.config.conf_thr d.config.nms_iou lbox d.config.keep_classes)

    unfoldable pub infer : LetterboxMap F → Yolov8Detector F Img → Option (List (Detection F))
    unfolding decoded
    infer lbox d =
        let input = λ (k : ℕ). get_or (blob d.canvas) k nought in
        elim d.engine.input_descs [
          | [] ↦ none
          | (i ∷ is) ↦
              Option.bind
                (d.engine.run (record { name = i.name; shape = i.shape; values = input } ∷ []))
                (decoded lbox d)
        ]

    unfoldable pub detect :
        FrameView P → Yolov8Detector F Img → Option (List (Detection F) × Yolov8Detector F Img)
    detect frame d = elim (as_mat v frame) [
      | none ↦ none
      | some img ↦
          let lbox = letterbox_map (v.cols img) (v.rows img) d.input_size d.input_size in
          elim (fit img d) [ none ↦ none | some d' ↦ Option.map (λ out. (out, d')) (infer lbox d') ]
    ]
