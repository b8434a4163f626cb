-- ===== src/Ros/Params/Single.antt =====
-- The parameters of the single-object tracker's node, in ros2/ctrk_ros/src/param_config.cpp.
use Prim.Native.String.{String}
use custos_tracker.Prelude.{
  pos, Bool, true, false, not, ◌&&◌, ◌||◌, if◌then◌else◌, List, [], ◌∷◌, is_empty,
}
use custos_tracker.Float.{Float, ◌≤?◌, nought}
use custos_tracker.Sot.Config.{
  SotConfig, SotBackend, nano_track, mosse, Embedder, no_embedder, hsv_hist, nano_z, Reid,
  ReacquireConfig, default_sot, default_reacquire,
}
use custos_tracker.Detector.Config.{Yolov8Config, default_yolov8}
use custos_tracker.Ros.Params.{
  bad_box, Declare, Server, ReacquireParams, SotNodeParams, ◌>>=◌, ◌>>◌, give, bad_enum, get_int,
  get_float, declare_engine, declare_detector, declare_common, ◌=s◌,
}

module _ {N : Type 0} where
  unfoldable pub backend_of : String → Declare N SotBackend
  unfolding give bad_enum
  backend_of v =
      if v =s "nano"
      then give nano_track
      else if v =s "mosse"
      then give mosse
      else bad_enum "backend" v

  unfoldable pub embedder_of : String → Declare N Embedder
  unfolding give bad_enum
  embedder_of v =
      if v =s "hsv"
      then give hsv_hist
      else if v =s "nanoz"
      then give nano_z
      else if v =s "none"
      then give no_embedder
      else bad_enum "reid.embedder" v

-- Not four numbers of which the last two are positive.
abbrev flat : {F : Type 0} ⦃f : Float F⦄ → List F → Bool
flat (x ∷ y ∷ w ∷ h ∷ []) = w ≤? nought || h ≤? nought
flat _ = true

module _ {F N : Type 0} ⦃f : Float F⦄ where
  unfoldable pub check_box : List F → Declare N Unit
  unfolding give
  check_box box n = if not (is_empty box) && flat box then bad_box else give tt n

module _ {F N : Type 0} ⦃f : Float F⦄ (s : Server F N) where
  open f use {lit}
  open s use {boolean, text, doubles}

  unfoldable pub declare_reid : Reid F → Declare N (Reid F)
  declare_reid def = do
    name ← text "reid.embedder" "hsv"
    embedder ← embedder_of name
    accept ← get_float s "reid.accept" def.accept
    drift_check_every ← get_int s "reid.drift_check_every" def.drift_check_every
    drift_thr ← get_float s "reid.drift_thr" def.drift_thr
    give (record {
      embedder = embedder;
      accept = accept;
      drift_check_every = drift_check_every;
      drift_thr = drift_thr;
    })

  unfoldable pub declare_sot_config : SotConfig F → Declare N (SotConfig F)
  declare_sot_config def = do
    name ← text "backend" "nano"
    backend ← backend_of name
    z ← text "backbone_z_path" "models/cache/nanotrack_backbone_z.onnx"
    x ← text "backbone_x_path" "models/cache/nanotrack_backbone_x.onnx"
    head ← text "head_path" "models/cache/nanotrack_head.onnx"
    engine ← declare_engine s "engine" def.engine
    penalty_k ← get_float s "penalty_k" def.penalty_k
    window_influence ← get_float s "window_influence" def.window_influence
    size_lr ← get_float s "size_lr" def.size_lr
    context_amount ← get_float s "context_amount" def.context_amount
    lost_score_thr ← get_float s "lost_score_thr" def.lost_score_thr
    lost_patience ← get_int s "lost_patience" def.lost_patience
    interval ← get_int s "template_update_interval" def.template_update_interval
    refresh ← get_float s "template_refresh_thr" def.template_refresh_thr
    blend ← get_float s "template_blend" def.template_blend
    reid ← declare_reid def.reid
    give (record {
      backend = backend;
      backbone_z_path = z;
      backbone_x_path = x;
      head_path = head;
      engine = engine;
      penalty_k = penalty_k;
      window_influence = window_influence;
      size_lr = size_lr;
      context_amount = context_amount;
      lost_score_thr = lost_score_thr;
      lost_patience = lost_patience;
      template_update_interval = interval;
      template_refresh_thr = refresh;
      template_blend = blend;
      reid = reid;
    })

  unfoldable pub declare_reacquire : Declare N (ReacquireParams F)
  declare_reacquire = do
    let rd : ReacquireConfig F = default_reacquire
    let det_def : Yolov8Config F = record default_yolov8 {
      model_path = "models/cache/yolov8n_640.onnx";
      conf_thr = lit 25 2;
    }
    enable ← boolean "reacquire.enable" false
    detector ← declare_detector s "reacquire.detector" det_def
    class_id ← get_int s "reacquire.class_id" (pos 0)
    detect_every ← get_int s "reacquire.detect_every" rd.detect_every
    min_score ← get_float s "reacquire.min_score" rd.min_score
    size_low ← get_float s "reacquire.size_low" rd.size_low
    size_high ← get_float s "reacquire.size_high" rd.size_high
    radius ← get_float s "reacquire.base_radius_frac" rd.base_radius_frac
    growth ← get_float s "reacquire.growth_per_frame" rd.growth_per_frame
    give (record {
      enable = enable;
      detector = detector;
      config = record {
        class_id = class_id;
        detect_every = detect_every;
        min_score = min_score;
        size_low = size_low;
        size_high = size_high;
        base_radius_frac = radius;
        growth_per_frame = growth;
      };
    })

  unfoldable pub declare_sot_params : Declare N (SotNodeParams F)
  declare_sot_params = do
    cfg ← declare_sot_config default_sot
    reacquire ← declare_reacquire
    init_bbox ← doubles "init_bbox" []
    check_box init_bbox
    common ← declare_common s
    give (record { cfg = cfg; reacquire = reacquire; init_bbox = init_bbox; common = common })
