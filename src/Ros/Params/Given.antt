-- ===== src/Ros/Params/Given.antt =====
-- What the nodes rely on of the parameter server: a parameter that is not declared yet takes its value
-- from the overrides, and otherwise its default.
use Prim.Native.String.{String, ◌++◌}
use custos_tracker.Prelude.{
  ℤ, Bool, false, ◌||◌, if◌then◌else◌, List, [], ◌∷◌, map, pos, Option, none, some, ◌≡◌, refl,
  Bool-cases, inl, inr,
}
use custos_tracker.Sot.Config.{EngineOptions}
use custos_tracker.Detector.Config.{Yolov8Config}
use custos_tracker.Float.{Float}
use custos_tracker.Tbd.Multi.{GmcMethod, off, sparse_flow}
use custos_tracker.Ros.Params.{
  gmc_of, check_reliability, bad_enum, CommonParams, Declare, Server, Outcome, ok, invalid, ◌=s◌,
  ◌>>=◌, get_int, get_float, to_int32, give,
}

abbrev pub mentions : String → List String → Bool
mentions name [] = false
mentions name (x ∷ xs) = x =s name || mentions name xs

-- The overrides of a node by type.
pub record Overrides (F : Type 0) : Type 0 where
  pub boolean : String → Option Bool
  pub integer : String → Option ℤ
  pub double : String → Option F
  pub text : String → Option String
  pub integers : String → Option (List ℤ)
  pub doubles : String → Option (List F)

abbrev pub given : {A : Type 0} → Option A → A → A
given none def = def
given (some a) def = a

abbrev pub Answers :
    {N A : Type 0} → (String → A → Declare N A) → (String → Option A) → (List String → N) → Type 0
Answers {A = A} getter override node =
    (name : String) (def : A) (declared : List String)
    → mentions name declared ≡ false
    → getter name def (node declared) ≡ ok (given (override name) def, node (name ∷ declared))

module _ {F : Type 0} ⦃f : Float F⦄ where
  open f use {to_float}

  -- What the parts of a configuration are by the overrides `o`.
  abbrev pub engine_of : Overrides F → String → EngineOptions → EngineOptions
  engine_of o pre def = record {
    intra_op_threads =
        to_int32 (given (o.integer (pre ++ ".intra_op_threads")) def.intra_op_threads);
    allow_spinning = given (o.boolean (pre ++ ".allow_spinning")) def.allow_spinning;
    warmup = given (o.boolean (pre ++ ".warmup")) def.warmup;
    use_dnnl = given (o.boolean (pre ++ ".use_dnnl")) def.use_dnnl;
  }

  abbrev pub detector_of : Overrides F → String → Yolov8Config F → Yolov8Config F
  detector_of o pre def = record {
    model_path = given (o.text (pre ++ ".model_path")) def.model_path;
    conf_thr = to_float (given (o.double (pre ++ ".conf_thr")) def.conf_thr);
    nms_iou = to_float (given (o.double (pre ++ ".nms_iou")) def.nms_iou);
    keep_classes = map to_int32 (given (o.integers (pre ++ ".keep_classes")) []);
    engine = engine_of o (pre ++ ".engine") def.engine;
  }

  abbrev pub reliability : Overrides F → String
  reliability o = given (o.text "image_qos_reliability") "best_effort"

  abbrev pub common_of : Overrides F → CommonParams
  common_of o = record {
    dump_path = given (o.text "dump_path") "";
    qos_reliability = reliability o;
    qos_depth = to_int32 (given (o.integer "image_qos_depth") (pos 1));
    bench = given (o.boolean "bench") false;
  }

-- `node` is the node with the overrides after the parameters in a list are declared.
pub record IsServer {F N : Type 0} (s : Server F N) (o : Overrides F) (node : List String → N)
    : Type 0 where
  pub boolean : Answers s.boolean o.boolean node
  pub integer : Answers s.integer o.integer node
  pub double : Answers s.double o.double node
  pub text : Answers s.text o.text node
  pub integers : Answers s.integers o.integers node
  pub doubles : Answers s.doubles o.doubles node

-- One computation after another.
pub seq :
    {N A B : Type 0} (m : Declare N A) (k : A → Declare N B) {n n' : N} {a : A}
    {r : Outcome (B × N)}
    → m n ≡ ok (a, n')
    → k a n' ≡ r
    → (m >>= k) n ≡ r
unfolding ◌>>=◌
seq m k h g = rw (◌>>=◌, h) g

-- An exception goes through.
pub stop :
    {N A B : Type 0} (m : Declare N A) (k : A → Declare N B) {n : N} {name value : String}
    → m n ≡ invalid name value
    → (m >>= k) n ≡ invalid name value
unfolding ◌>>=◌
stop m k h = rw (◌>>=◌, h) refl

-- The texts that the code knows.
abbrev pub method_of : String → Option GmcMethod
method_of v = if v =s "off" then some off else if v =s "sparse_flow" then some sparse_flow else none

abbrev pub is_reliability : String → Bool
is_reliability v = v =s "best_effort" || v =s "reliable"

module _ {N : Type 0} where
  pub gmc_of-some :
      (v : String) (g : GmcMethod) (n : N) → method_of v ≡ some g → gmc_of v n ≡ ok (g, n)
  unfolding gmc_of give bad_enum
  gmc_of-some v g n h = elim (Bool-cases (v =s "off")) [
    | inl e ↦ rw (gmc_of, e) (cc (rw e at h))
    | inr e ↦ elim (Bool-cases (v =s "sparse_flow")) [
      | inl q ↦ rw (gmc_of, e, q) (cc (rw (e, q) at h))
      | inr q ↦ cc (rw (e, q) at h)
    ]
  ]

  pub gmc_of-none : (v : String) (n : N) → method_of v ≡ none → gmc_of v n ≡ invalid "gmc" v
  unfolding gmc_of give bad_enum
  gmc_of-none v n h = elim (Bool-cases (v =s "off")) [
    | inl e ↦ cc (rw e at h)
    | inr e ↦ elim (Bool-cases (v =s "sparse_flow")) [
      | inl q ↦ cc (rw (e, q) at h)
      | inr q ↦ rw (gmc_of, e, q) refl
    ]
  ]

  pub check_reliability_lem :
      (v : String) (n : N)
      → check_reliability v n
        ≡ (if is_reliability v then ok (tt, n) else invalid "image_qos_reliability" v)
  unfolding check_reliability give bad_enum
  check_reliability_lem v n = elim (Bool-cases (v =s "best_effort")) [
    | inl e ↦ rw (check_reliability, e) refl
    | inr e ↦ elim (Bool-cases (v =s "reliable")) [
      | inl q ↦ rw (check_reliability, e, q) refl
      | inr q ↦ rw (check_reliability, e, q) refl
    ]
  ]

module _ {F N : Type 0} ⦃f : Float F⦄ {s : Server F N} {o : Overrides F} {node : List String → N}
    (laws : IsServer s o node) where
  pub get_int_lem :
      (name : String) (def : ℤ) (declared : List String)
      → mentions name declared ≡ false
      → get_int s name def (node declared)
        ≡ ok (to_int32 (given (o.integer name) def), node (name ∷ declared))
  unfolding get_int give
  get_int_lem name def declared h = seq _ _ (laws.integer name def declared h) refl

  pub get_float_lem :
      (name : String) (def : F) (declared : List String)
      → mentions name declared ≡ false
      → get_float s name def (node declared)
        ≡ ok (f.to_float (given (o.double name) def), node (name ∷ declared))
  unfolding get_float give
  get_float_lem name def declared h = seq _ _ (laws.double name def declared h) refl
