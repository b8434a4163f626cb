-- ===== src/Detector/Config.antt =====
-- `Yolov8Config` of core/include/ctrk/detector.hpp.
use Prim.Native.String.{String}
use custos_tracker.Prelude.{ℤ, List, []}
use custos_tracker.Float.{Float}
use custos_tracker.Sot.Config.{EngineOptions, default_engine}

pub record Yolov8Config (F : Type 0) : Type 0 where
  pub model_path : String
  pub conf_thr : F
  pub nms_iou : F
  pub keep_classes : List ℤ
  pub engine : EngineOptions

abbrev pub default_yolov8 : {F : Type 0} ⦃f : Float F⦄ → Yolov8Config F
default_yolov8 ⦃f⦄ = record {
  model_path = "";
  conf_thr = f.lit 1 1;
  nms_iou = f.lit 45 2;
  keep_classes = [];
  engine = default_engine;
}
