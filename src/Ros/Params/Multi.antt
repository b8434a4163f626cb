-- ===== src/Ros/Params/Multi.antt =====
-- The parameters of the multi-object tracker's node.
use Prim.Native.String.{String}
use custos_tracker.Prelude.{
  pos, true, false, if◌then◌else◌, List, [], ◌∷◌, Option, none, some, ◌≡◌, refl, sym, ap, ◌∙◌,
  Bool-cases, Option-cases, inl, inr,
}
use custos_tracker.Float.{Float}
use custos_tracker.Tbd.Config.{AssocConfig, default_assoc}
use custos_tracker.Tbd.Multi.{GmcMethod}
use custos_tracker.Detector.Config.{Yolov8Config, default_yolov8}
use custos_tracker.Ros.Params.{
  Server, Outcome, ok, invalid, to_int32, declare_engine, declare_detector, declare_assoc,
  declare_common, declare_tbd_params, check_reliability, TbdNodeParams, give, ◌>>=◌,
}
use custos_tracker.Ros.Params.Given.{
  Overrides, IsServer, given, seq, stop, gmc_of-some, gmc_of-none, method_of, is_reliability,
  check_reliability_lem, get_int_lem, get_float_lem, detector_of, reliability, common_of,
}

-- The declared names, the last one first.
abbrev after_detector : List String
after_detector =
    "detector.engine.use_dnnl" ∷ "detector.engine.warmup" ∷ "detector.engine.allow_spinning"
    ∷ "detector.engine.intra_op_threads" ∷ "detector.keep_classes" ∷ "detector.nms_iou"
    ∷ "detector.conf_thr" ∷ "detector.model_path" ∷ []

abbrev after_assoc : List String
after_assoc =
    "assoc.embedding_ema" ∷ "assoc.appearance_weight" ∷ "assoc.velocity_seed"
    ∷ "assoc.tentative_patience" ∷ "assoc.tentative_gate_floor" ∷ "assoc.tentative_relax_per_coast"
    ∷ "assoc.nsa" ∷ "assoc.max_age" ∷ "assoc.n_init" ∷ "assoc.new_track_thresh"
    ∷ "assoc.tentative_match_thresh" ∷ "assoc.match_thresh_low" ∷ "assoc.match_thresh_high"
    ∷ "assoc.track_thresh" ∷ "assoc.use_byte" ∷ after_detector

abbrev after_settings : List String
after_settings = "publish_lost" ∷ "detect_interval" ∷ "nominal_fps" ∷ "gmc" ∷ after_assoc

abbrev pub after_all : List String
after_all = "bench" ∷ "image_qos_depth" ∷ "image_qos_reliability" ∷ "dump_path" ∷ after_settings

module _ {F : Type 0} ⦃f : Float F⦄ where
  open f use {lit, to_float}

  abbrev default_detector : Yolov8Config F
  default_detector = record default_yolov8 { model_path = "models/cache/yolov8n_640.onnx" }

  abbrev assoc_of : Overrides F → AssocConfig F → AssocConfig F
  assoc_of o ad = record {
    use_byte = given (o.boolean "assoc.use_byte") ad.use_byte;
    track_thresh = to_float (given (o.double "assoc.track_thresh") ad.track_thresh);
    match_thresh_high = to_float (given (o.double "assoc.match_thresh_high") ad.match_thresh_high);
    match_thresh_low = to_float (given (o.double "assoc.match_thresh_low") ad.match_thresh_low);
    tentative_match_thresh =
        to_float (given (o.double "assoc.tentative_match_thresh") ad.tentative_match_thresh);
    new_track_thresh = to_float (given (o.double "assoc.new_track_thresh") ad.new_track_thresh);
    n_init = to_int32 (given (o.integer "assoc.n_init") ad.n_init);
    max_age = to_int32 (given (o.integer "assoc.max_age") ad.max_age);
    nsa = given (o.boolean "assoc.nsa") ad.nsa;
    tentative_relax_per_coast =
        to_float (given (o.double "assoc.tentative_relax_per_coast") ad.tentative_relax_per_coast);
    tentative_gate_floor =
        to_float (given (o.double "assoc.tentative_gate_floor") ad.tentative_gate_floor);
    tentative_patience =
        to_int32 (given (o.integer "assoc.tentative_patience") ad.tentative_patience);
    velocity_seed = given (o.boolean "assoc.velocity_seed") ad.velocity_seed;
    appearance_weight = to_float (given (o.double "assoc.appearance_weight") ad.appearance_weight);
    embedding_ema = to_float (given (o.double "assoc.embedding_ema") ad.embedding_ema);
  }

  abbrev method : Overrides F → String
  method o = given (o.text "gmc") "off"

  -- The parameters of the node by its overrides.
  abbrev pub tbd_of : Overrides F → GmcMethod → TbdNodeParams F
  tbd_of o g = record {
    cfg = record {
      detector = detector_of o "detector" default_detector;
      assoc = assoc_of o default_assoc;
      gmc = g;
      nominal_fps = given (o.double "nominal_fps") (lit 30 0);
      detect_interval = to_int32 (given (o.integer "detect_interval") (pos 1));
    };
    publish_lost = given (o.boolean "publish_lost") false;
    common = common_of o;
  }

module _ {F N : Type 0} ⦃f : Float F⦄ (o : Overrides F) (node : List String → N) where
  -- What the node is told: the first text that is not known, or all parameters.
  abbrev pub answer_for : Option GmcMethod → Outcome (TbdNodeParams F × N)
  answer_for none = invalid "gmc" (method o)
  answer_for (some g) =
      if is_reliability (reliability o)
      then ok (tbd_of o g, node after_all)
      else invalid "image_qos_reliability" (reliability o)

  abbrev pub tbd_answer : Outcome (TbdNodeParams F × N)
  tbd_answer = answer_for (method_of (method o))

module _ {F N : Type 0} ⦃f : Float F⦄ {s : Server F N} {o : Overrides F} {node : List String → N}
    (laws : IsServer s o node) where
  declare_detector_lem :
      (def : Yolov8Config F)
      → declare_detector s "detector" def (node [])
        ≡ ok (detector_of o "detector" def, node after_detector)
  unfolding declare_detector declare_engine give
  declare_detector_lem def = seq _ _ (laws.text _ _ _ refl) (
      seq _ _ (get_float_lem laws _ _ _ refl) (
        seq _ _ (get_float_lem laws _ _ _ refl) (
          seq _ _ (laws.integers _ _ _ refl) (
            seq _ _
              (seq _ _ (get_int_lem laws _ _ _ refl) (
                seq _ _ (laws.boolean _ _ _ refl)
                  (seq _ _ (laws.boolean _ _ _ refl) (seq _ _ (laws.boolean _ _ _ refl) (refl)))))
              refl))))

  declare_assoc_lem :
      (ad : AssocConfig F)
      → declare_assoc s ad (node after_detector) ≡ ok (assoc_of o ad, node after_assoc)
  unfolding declare_assoc give
  declare_assoc_lem ad = seq _ _ (laws.boolean _ _ _ refl) (
      seq _ _ (get_float_lem laws _ _ _ refl) (
        seq _ _ (get_float_lem laws _ _ _ refl) (
          seq _ _ (get_float_lem laws _ _ _ refl) (
            seq _ _ (get_float_lem laws _ _ _ refl) (
              seq _ _ (get_float_lem laws _ _ _ refl) (
                seq _ _ (get_int_lem laws _ _ _ refl) (
                  seq _ _ (get_int_lem laws _ _ _ refl) (
                    seq _ _ (laws.boolean _ _ _ refl) (
                      seq _ _ (get_float_lem laws _ _ _ refl) (
                        seq _ _ (get_float_lem laws _ _ _ refl) (
                          seq _ _ (get_int_lem laws _ _ _ refl) (
                            seq _ _ (laws.boolean _ _ _ refl) (
                              seq _ _ (get_float_lem laws _ _ _ refl)
                                (seq _ _ (get_float_lem laws _ _ _ refl) (refl)))))))))))))))

  common_known :
      is_reliability (reliability o) ≡ true
      → declare_common s (node after_settings) ≡ ok (common_of o, node after_all)
  unfolding declare_common give
  common_known h =
      let known : (d : List String) → check_reliability (reliability o) (node d) ≡ ok (tt, node d) =
        λ d. rw (check_reliability_lem (reliability o) (node d), h) refl in
      seq _ _ (laws.text _ _ _ refl) (
        seq _ _ (laws.text _ _ _ refl) (
          seq _ _ (known _)
            (seq _ _ (get_int_lem laws _ _ _ refl) (seq _ _ (laws.boolean _ _ _ refl) (refl)))))

  common_unknown :
      is_reliability (reliability o) ≡ false
      → declare_common s (node after_settings) ≡ invalid "image_qos_reliability" (reliability o)
  unfolding declare_common
  common_unknown h = seq _ _ (laws.text _ _ _ refl) (
      seq _ _ (laws.text _ _ _ refl) (
        stop _ _ (
          rw
            (
              check_reliability_lem (reliability o)
                  (node ("image_qos_reliability" ∷ "dump_path" ∷ after_settings)),
              h,
            )
            refl)))

  -- From the common parameters on, with what is read before them.
  finish :
      (g : GmcMethod)
      → (declare_common s >>= λ common. give (record (tbd_of o g) { common = common }))
          (node after_settings)
        ≡ answer_for o node (some g)
  unfolding give
  finish g = elim (Bool-cases (is_reliability (reliability o))) [
    | inl q ↦ seq _ _ (common_known q) (
        sym (
          ap
            (λ b.
              if b
              then ok (tbd_of o g, node after_all)
              else invalid "image_qos_reliability" (reliability o))
            q))
    | inr q ↦
        stop _ _ (common_unknown q)
        ∙ sym (
            ap
              (λ b.
                if b
                then ok (tbd_of o g, node after_all)
                else invalid "image_qos_reliability" (reliability o))
              q)
  ]

  -- If no parameter of the node is declared, then for any overrides, each of the type of
  -- its parameter, declare_tbd_params declares each parameter once and returns the configuration with the
  -- override or default of each, rounded to a float where the field is one, or it throws
  -- for the first of the texts gmc and image_qos_reliability that is not known.
  pub declare_tbd_params_lem : declare_tbd_params s (node []) ≡ tbd_answer o node
  unfolding declare_tbd_params give
  declare_tbd_params_lem = elim (Option-cases (method_of (method o))) [
    | inl e ↦
        seq _ _ (declare_detector_lem default_detector) (
          seq _ _ (declare_assoc_lem default_assoc)
            (seq _ _ (laws.text _ _ _ refl) (stop _ _ (gmc_of-none (method o) _ e))))
        ∙ sym (ap (answer_for o node) e)
    | inr (g, e) ↦
        seq _ _ (declare_detector_lem default_detector) (
          seq _ _ (declare_assoc_lem default_assoc) (
            seq _ _ (laws.text _ _ _ refl) (
              seq _ _ (gmc_of-some (method o) g _ e) (
                seq _ _ (laws.double _ _ _ refl) (
                  seq _ _ (get_int_lem laws _ _ _ refl)
                    (seq _ _ (laws.boolean _ _ _ refl) (finish g)))))))
        ∙ sym (ap (answer_for o node) e)
  ]
