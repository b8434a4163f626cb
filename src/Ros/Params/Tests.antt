-- ===== src/Ros/Params/Tests.antt =====
-- A server that keeps the list of the declared names.
use Prim.Native.String.{String}
use custos_tracker.Prelude.{pos, true, if◌then◌else◌, List, [], ◌∷◌, Option, none, some, ◌≡◌, refl}
use custos_tracker.Float.Milli.{Milli, milli_float}
use custos_tracker.Detector.Config.{default_yolov8}
use custos_tracker.Tbd.Config.{default_assoc}
use custos_tracker.Tbd.Multi.{sparse_flow}
use custos_tracker.Ros.Params.{
  Declare, Server, ok, invalid, refused, declare_tbd_params, TbdNodeParams, to_int32,
}
use custos_tracker.Ros.Params.Given.{Overrides, IsServer, given, mentions}
use custos_tracker.Ros.Params.Multi.{after_all, declare_tbd_params_lem}
use custos_tracker.Ros.Params.Written.{overrides_of, IsWritable, declare_tbd_params-overrides_of}

abbrev answer : {A : Type 0} → (String → Option A) → String → A → Declare (List String) A
answer over name def declared =
    if mentions name declared then refused else ok (given (over name) def, name ∷ declared)

abbrev served : Overrides Milli → Server Milli (List String)
served o = record {
  boolean = answer o.boolean;
  integer = answer o.integer;
  double = answer o.double;
  text = answer o.text;
  integers = answer o.integers;
  doubles = answer o.doubles;
}

abbrev itself : List String → List String
itself names = names

served-IsServer : (o : Overrides Milli) → IsServer (served o) o itself
served-IsServer o = record {
  boolean = λ name def declared h. rw h refl;
  integer = λ name def declared h. rw h refl;
  double = λ name def declared h. rw h refl;
  text = λ name def declared h. rw h refl;
  integers = λ name def declared h. rw h refl;
  doubles = λ name def declared h. rw h refl;
}

-- Every text is "flow".
abbrev odd : Overrides Milli
odd = record {
  boolean = λ name. none;
  integer = λ name. none;
  double = λ name. none;
  text = λ name. some "flow";
  integers = λ name. none;
  doubles = λ name. none;
}

declare_tbd_params_lem_example : declare_tbd_params (served odd) [] ≡ invalid "gmc" "flow"
declare_tbd_params_lem_example = declare_tbd_params_lem (served-IsServer odd)

abbrev chosen : TbdNodeParams Milli
chosen = record {
  cfg = record {
    detector = record default_yolov8 {
      model_path = "other.onnx";
      keep_classes = pos 0 ∷ pos 2 ∷ [];
    };
    assoc = default_assoc;
    gmc = sparse_flow;
    nominal_fps = 25000;
    detect_interval = pos 4;
  };
  publish_lost = true;
  common = record {
    dump_path = "tracks.csv";
    qos_reliability = "reliable";
    qos_depth = pos 5;
    bench = true;
  };
}

chosen-IsWritable : IsWritable chosen
unfolding to_int32
chosen-IsWritable = record {
  intra_op_threads = refl;
  n_init = refl;
  max_age = refl;
  tentative_patience = refl;
  detect_interval = refl;
  qos_depth = refl;
  rounded =
      (refl, (refl, (refl, (refl, (refl, (refl, (refl, (refl, (refl, (refl, (refl, tt)))))))))));
  keep_classes = refl;
  reliable = refl;
}

declare_tbd_params-overrides_of_example :
    declare_tbd_params (served (overrides_of chosen)) [] ≡ ok (chosen, after_all)
declare_tbd_params-overrides_of_example =
    declare_tbd_params-overrides_of chosen chosen-IsWritable (served (overrides_of chosen)) itself
      (served-IsServer (overrides_of chosen))
