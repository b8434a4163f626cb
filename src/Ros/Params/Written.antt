-- ===== src/Ros/Params/Written.antt =====
-- The overrides that a configuration is written as, and their reading.
use Prim.Native.String.{String}
use custos_tracker.Prelude.{
  All, ℤ, true, if◌then◌else◌, List, [], ◌∷◌, map, Option, none, some, ◌≡◌, refl, ap, ◌∙◌,
}
use custos_tracker.Float.{Float}
use custos_tracker.Tbd.Multi.{GmcMethod, off, sparse_flow}
use custos_tracker.Ros.Params.{
  Server, ok, invalid, to_int32, declare_tbd_params, TbdNodeParams, ◌=s◌,
}
use custos_tracker.Ros.Params.Given.{Overrides, IsServer, method_of, is_reliability}
use custos_tracker.Ros.Params.Multi.{after_all, tbd_of, answer_for, declare_tbd_params_lem}

abbrev lookup : {A : Type 0} → List (String × A) → String → Option A
lookup [] name = none
lookup ((k, a) ∷ m) name = if k =s name then some a else lookup m name

abbrev gmc_text : GmcMethod → String
gmc_text off = "off"
gmc_text sparse_flow = "sparse_flow"

method_of-text : (g : GmcMethod) → method_of (gmc_text g) ≡ some g
method_of-text off = refl
method_of-text sparse_flow = refl

abbrev Fits : ℤ → Type 0
Fits n = to_int32 n ≡ n

module _ {F : Type 0} ⦃f : Float F⦄ where
  -- Each parameter under the path of its field.
  abbrev pub overrides_of : TbdNodeParams F → Overrides F
  overrides_of p = record {
    boolean = lookup (
        ("detector.engine.allow_spinning", p.cfg.detector.engine.allow_spinning)
        ∷ ("detector.engine.warmup", p.cfg.detector.engine.warmup)
        ∷ ("detector.engine.use_dnnl", p.cfg.detector.engine.use_dnnl)
        ∷ ("assoc.use_byte", p.cfg.assoc.use_byte)
        ∷ ("assoc.nsa", p.cfg.assoc.nsa)
        ∷ ("assoc.velocity_seed", p.cfg.assoc.velocity_seed)
        ∷ ("publish_lost", p.publish_lost)
        ∷ ("bench", p.common.bench)
        ∷ []);
    integer = lookup (
        ("detector.engine.intra_op_threads", p.cfg.detector.engine.intra_op_threads)
        ∷ ("assoc.n_init", p.cfg.assoc.n_init)
        ∷ ("assoc.max_age", p.cfg.assoc.max_age)
        ∷ ("assoc.tentative_patience", p.cfg.assoc.tentative_patience)
        ∷ ("detect_interval", p.cfg.detect_interval)
        ∷ ("image_qos_depth", p.common.qos_depth)
        ∷ []);
    double = lookup (
        ("detector.conf_thr", p.cfg.detector.conf_thr)
        ∷ ("detector.nms_iou", p.cfg.detector.nms_iou)
        ∷ ("assoc.track_thresh", p.cfg.assoc.track_thresh)
        ∷ ("assoc.match_thresh_high", p.cfg.assoc.match_thresh_high)
        ∷ ("assoc.match_thresh_low", p.cfg.assoc.match_thresh_low)
        ∷ ("assoc.tentative_match_thresh", p.cfg.assoc.tentative_match_thresh)
        ∷ ("assoc.new_track_thresh", p.cfg.assoc.new_track_thresh)
        ∷ ("assoc.tentative_relax_per_coast", p.cfg.assoc.tentative_relax_per_coast)
        ∷ ("assoc.tentative_gate_floor", p.cfg.assoc.tentative_gate_floor)
        ∷ ("assoc.appearance_weight", p.cfg.assoc.appearance_weight)
        ∷ ("assoc.embedding_ema", p.cfg.assoc.embedding_ema)
        ∷ ("nominal_fps", p.cfg.nominal_fps)
        ∷ []);
    text = lookup (
        ("detector.model_path", p.cfg.detector.model_path)
        ∷ ("gmc", gmc_text p.cfg.gmc)
        ∷ ("dump_path", p.common.dump_path)
        ∷ ("image_qos_reliability", p.common.qos_reliability)
        ∷ []);
    integers = lookup (("detector.keep_classes", p.cfg.detector.keep_classes) ∷ []);
    doubles = lookup [];
  }

  -- The floats that a configuration holds.
  abbrev floats : TbdNodeParams F → List F
  floats p =
      p.cfg.detector.conf_thr ∷ p.cfg.detector.nms_iou ∷ p.cfg.assoc.track_thresh
      ∷ p.cfg.assoc.match_thresh_high ∷ p.cfg.assoc.match_thresh_low
      ∷ p.cfg.assoc.tentative_match_thresh ∷ p.cfg.assoc.new_track_thresh
      ∷ p.cfg.assoc.tentative_relax_per_coast ∷ p.cfg.assoc.tentative_gate_floor
      ∷ p.cfg.assoc.appearance_weight ∷ p.cfg.assoc.embedding_ema ∷ []

  -- The integers have 32 bits, the floats are floats, and the reliability is one of the two.
  pub record IsWritable (p : TbdNodeParams F) : Type 0 where
    pub intra_op_threads : Fits p.cfg.detector.engine.intra_op_threads
    pub n_init : Fits p.cfg.assoc.n_init
    pub max_age : Fits p.cfg.assoc.max_age
    pub tentative_patience : Fits p.cfg.assoc.tentative_patience
    pub detect_interval : Fits p.cfg.detect_interval
    pub qos_depth : Fits p.common.qos_depth
    pub rounded : All (λ v. f.to_float v ≡ v) (floats p)
    pub keep_classes : map to_int32 p.cfg.detector.keep_classes ≡ p.cfg.detector.keep_classes
    pub reliable : is_reliability p.common.qos_reliability ≡ true

module _ {F : Type 0} ⦃f : Float F⦄ (p : TbdNodeParams F) (w : IsWritable p) where
  tbd_of-overrides_of : tbd_of (overrides_of p) p.cfg.gmc ≡ p
  tbd_of-overrides_of =
      let (r1, (r2, (r3, (r4, (r5, (r6, (r7, (r8, (r9, (r10, (r11, end))))))))))) = w.rounded in
      rw
        (
          w.intra_op_threads, w.n_init, w.max_age, w.tentative_patience, w.detect_interval,
          w.qos_depth, w.keep_classes, r1, r2, r3, r4, r5, r6, r7, r8, r9, r10, r11,
        )
        refl

  -- A configuration of the multi-object tracker's node with integers of 32 bits, floats that are floats
  -- and a known reliability is what declare_tbd_params reads from the overrides that it is written as, on a node with no parameter declared.
  pub declare_tbd_params-overrides_of :
      {N : Type 0} (s : Server F N) (node : List String → N)
      → IsServer s (overrides_of p) node
      → declare_tbd_params s (node []) ≡ ok (p, node after_all)
  declare_tbd_params-overrides_of s node laws =
      declare_tbd_params_lem laws
      ∙ (ap (answer_for (overrides_of p) node) (method_of-text p.cfg.gmc)
          ∙ (ap
                (λ b.
                  if b
                  then ok (tbd_of (overrides_of p) p.cfg.gmc, node after_all)
                  else invalid "image_qos_reliability" p.common.qos_reliability)
                w.reliable
              ∙ ap (λ q. ok (q, node after_all)) tbd_of-overrides_of))
