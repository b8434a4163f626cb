-- ===== src/Ros/Params.antt =====
-- ros2/ctrk_ros/src/param_config.cpp and param_config.hpp: the parameters of the nodes. The node with its
-- parameter server is the interface `Server`. `float` and `double` are one type of floats, with the
-- cast `to_float`. An override of another type than its parameter's, on which the server throws, is `refused`.
pub mod Given
pub mod Single
pub mod Multi
pub mod Written
mod Tests
use Prim.Native.String.{String}
use Prim.Native.String as Text
use text.Mathlib.Text as Texts
use custos_tracker.Prelude.{
  ℕ, suc, ◌-◌, ◌%◌, ◌^◌, pos, negsuc, ℤ, Bool, true, false, not, ◌&&◌, ◌||◌, ◌==◌, if◌then◌else◌,
  ltb, List, [], ◌∷◌, map, length, is_empty,
}
use custos_tracker.Float.{Float, ◌≤?◌, nought}
use custos_tracker.Sot.Config.{
  EngineOptions, SotConfig, SotBackend, nano_track, mosse, Embedder, no_embedder, hsv_hist, nano_z,
  Reid, ReacquireConfig, default_sot, default_reacquire,
}
use custos_tracker.Tbd.Config.{AssocConfig, default_assoc}
use custos_tracker.Tbd.Multi.{TbdConfig, GmcMethod, off, sparse_flow}
use custos_tracker.Detector.Config.{Yolov8Config, default_yolov8}

-- What a function that may throw returns. `invalid` is `std::invalid_argument` for a parameter and its value,
-- `bad_box` that for `init_bbox`, `refused` an exception of the parameter server.
pub data Outcome (A : Type 0) : Type 0 where
  ok : A → Outcome A
  invalid : String → String → Outcome A
  bad_box : Outcome A
  refused : Outcome A

-- A computation on a node.
abbrev pub Declare : Type 0 → Type 0 → Type 0
Declare N A = N → Outcome (A × N)

-- `declare_parameter` by the type of the parameter, with its name and default.
pub record Server (F N : Type 0) : Type 0 where
  pub boolean : String → Bool → Declare N Bool
  pub integer : String → ℤ → Declare N ℤ
  pub double : String → F → Declare N F
  pub text : String → String → Declare N String
  pub integers : String → List ℤ → Declare N (List ℤ)
  pub doubles : String → List F → Declare N (List F)

-- The cast of an integer of 64 bits to `int`.
unfoldable pub to_int32 : ℤ → ℤ
to_int32 (pos n) = let w = n % 2 ^ 32 in if ltb w (2 ^ 31) then pos w else negsuc (2 ^ 32 - 1 - w)
to_int32 (negsuc n) =
    let w = n % 2 ^ 32 in if ltb w (2 ^ 31) then negsuc w else pos (2 ^ 32 - 1 - w)

pub record CommonParams : Type 0 where
  pub dump_path : String
  pub qos_reliability : String
  pub qos_depth : ℤ
  pub bench : Bool

pub record TbdNodeParams (F : Type 0) : Type 0 where
  pub cfg : TbdConfig F
  pub publish_lost : Bool
  pub common : CommonParams

pub record ReacquireParams (F : Type 0) : Type 0 where
  pub enable : Bool
  pub detector : Yolov8Config F
  pub config : ReacquireConfig F

pub record SotNodeParams (F : Type 0) : Type 0 where
  pub cfg : SotConfig F
  pub reacquire : ReacquireParams F
  pub init_bbox : List F
  pub common : CommonParams

-- Equality of texts, and one appended to another.
infix 50 ◌=s◌
abbrev pub ◌=s◌ : String → String → Bool
◌=s◌ = Texts.◌==◌

abbrev join : String → String → String
join = Text.◌++◌

module _ {N : Type 0} where
  infixl 5 ◌>>=◌ ◌>>◌
  unfoldable pub ◌>>=◌ : {A B : Type 0} → Declare N A → (A → Declare N B) → Declare N B
  ◌>>=◌ m k n = elim (m n) [
    | ok (a, n') ↦ k a n'
    | invalid name value ↦ invalid name value
    | bad_box ↦ bad_box
    | refused ↦ refused
  ]

  abbrev pub ◌>>◌ : {A B : Type 0} → Declare N A → Declare N B → Declare N B
  m >> k = m >>= λ _. k

  unfoldable pub give : {A : Type 0} → A → Declare N A
  give a n = ok (a, n)

  unfoldable pub bad_enum : {A : Type 0} → String → String → Declare N A
  bad_enum name value n = invalid name value

  unfoldable pub gmc_of : String → Declare N GmcMethod
  unfolding give bad_enum
  gmc_of v =
      if v =s "off"
      then give off
      else if v =s "sparse_flow"
      then give sparse_flow
      else bad_enum "gmc" v

  unfoldable pub check_reliability : String → Declare N Unit
  unfolding give bad_enum
  check_reliability v =
      if not (v =s "best_effort") && not (v =s "reliable")
      then bad_enum "image_qos_reliability" v
      else give tt

module _ {F N : Type 0} ⦃f : Float F⦄ (s : Server F N) where
  open f use {lit, to_float}
  open s use {boolean, integer, double, text, integers}

  unfoldable pub get_int : String → ℤ → Declare N ℤ
  get_int name def = do i ← integer name def; give (to_int32 i)

  unfoldable pub get_float : String → F → Declare N F
  get_float name def = do d ← double name def; give (to_float d)

  unfoldable pub declare_engine : String → EngineOptions → Declare N EngineOptions
  declare_engine pre def = do
    intra_op_threads ← get_int (join pre ".intra_op_threads") def.intra_op_threads
    allow_spinning ← boolean (join pre ".allow_spinning") def.allow_spinning
    warmup ← boolean (join pre ".warmup") def.warmup
    use_dnnl ← boolean (join pre ".use_dnnl") def.use_dnnl
    give (record {
      intra_op_threads = intra_op_threads;
      allow_spinning = allow_spinning;
      warmup = warmup;
      use_dnnl = use_dnnl;
    })

  -- The default classes are none, whatever `def` has.
  unfoldable pub declare_detector : String → Yolov8Config F → Declare N (Yolov8Config F)
  declare_detector pre def = do
    model_path ← text (join pre ".model_path") def.model_path
    conf_thr ← get_float (join pre ".conf_thr") def.conf_thr
    nms_iou ← get_float (join pre ".nms_iou") def.nms_iou
    classes ← integers (join pre ".keep_classes") []
    engine ← declare_engine (join pre ".engine") def.engine
    give (record {
      model_path = model_path;
      conf_thr = conf_thr;
      nms_iou = nms_iou;
      keep_classes = map to_int32 classes;
      engine = engine;
    })

  unfoldable pub declare_common : Declare N CommonParams
  declare_common = do
    dump_path ← text "dump_path" ""
    qos_reliability ← text "image_qos_reliability" "best_effort"
    check_reliability qos_reliability
    qos_depth ← get_int "image_qos_depth" (pos 1)
    bench ← boolean "bench" false
    give (record {
      dump_path = dump_path;
      qos_reliability = qos_reliability;
      qos_depth = qos_depth;
      bench = bench;
    })

  unfoldable pub declare_assoc : AssocConfig F → Declare N (AssocConfig F)
  declare_assoc ad = do
    use_byte ← boolean "assoc.use_byte" ad.use_byte
    track_thresh ← get_float "assoc.track_thresh" ad.track_thresh
    match_thresh_high ← get_float "assoc.match_thresh_high" ad.match_thresh_high
    match_thresh_low ← get_float "assoc.match_thresh_low" ad.match_thresh_low
    tentative_match_thresh ← get_float "assoc.tentative_match_thresh" ad.tentative_match_thresh
    new_track_thresh ← get_float "assoc.new_track_thresh" ad.new_track_thresh
    n_init ← get_int "assoc.n_init" ad.n_init
    max_age ← get_int "assoc.max_age" ad.max_age
    nsa ← boolean "assoc.nsa" ad.nsa
    tentative_relax_per_coast ←
        get_float "assoc.tentative_relax_per_coast" ad.tentative_relax_per_coast
    tentative_gate_floor ← get_float "assoc.tentative_gate_floor" ad.tentative_gate_floor
    tentative_patience ← get_int "assoc.tentative_patience" ad.tentative_patience
    velocity_seed ← boolean "assoc.velocity_seed" ad.velocity_seed
    appearance_weight ← get_float "assoc.appearance_weight" ad.appearance_weight
    embedding_ema ← get_float "assoc.embedding_ema" ad.embedding_ema
    give (record {
      use_byte = use_byte;
      track_thresh = track_thresh;
      match_thresh_high = match_thresh_high;
      match_thresh_low = match_thresh_low;
      tentative_match_thresh = tentative_match_thresh;
      new_track_thresh = new_track_thresh;
      n_init = n_init;
      max_age = max_age;
      nsa = nsa;
      tentative_relax_per_coast = tentative_relax_per_coast;
      tentative_gate_floor = tentative_gate_floor;
      tentative_patience = tentative_patience;
      velocity_seed = velocity_seed;
      appearance_weight = appearance_weight;
      embedding_ema = embedding_ema;
    })

  unfoldable pub declare_tbd_params : Declare N (TbdNodeParams F)
  declare_tbd_params = do
    detector ←
        declare_detector "detector"
          (record default_yolov8 { model_path = "models/cache/yolov8n_640.onnx" })
    assoc ← declare_assoc default_assoc
    method ← text "gmc" "off"
    gmc ← gmc_of method
    nominal_fps ← double "nominal_fps" (lit 30 0)
    detect_interval ← get_int "detect_interval" (pos 1)
    publish_lost ← boolean "publish_lost" false
    common ← declare_common
    give (record {
      cfg = record {
        detector = detector;
        assoc = assoc;
        gmc = gmc;
        nominal_fps = nominal_fps;
        detect_interval = detect_interval;
      };
      publish_lost = publish_lost;
      common = common;
    })
