-- ===== src/Sot/Config.antt =====
-- The configuration of core/include/ctrk/sot.hpp and core/include/ctrk/infer.hpp, and what the
-- constructor of `SotTracker::Impl` makes of its automatic thresholds.
use Prim.Native.String.{String}
use custos_tracker.Prelude.{ℤ, pos, negsuc, Bool, true, false, if◌then◌else◌}
use custos_tracker.Float.{Float, ◌<?◌, nought, one, half}

pub record EngineOptions : Type 0 where
  pub intra_op_threads : ℤ
  pub allow_spinning : Bool
  pub warmup : Bool
  pub use_dnnl : Bool

pub data SotBackend : Type 0 where
  nano_track mosse : SotBackend

pub data Embedder : Type 0 where
  no_embedder hsv_hist nano_z : Embedder

pub record Reid (F : Type 0) : Type 0 where
  pub embedder : Embedder
  pub accept : F
  pub drift_check_every : ℤ
  pub drift_thr : F

pub record SotConfig (F : Type 0) : Type 0 where
  pub backend : SotBackend
  pub backbone_z_path : String
  pub backbone_x_path : String
  pub head_path : String
  pub engine : EngineOptions
  pub penalty_k : F
  pub window_influence : F
  pub size_lr : F
  pub context_amount : F
  pub lost_score_thr : F
  pub lost_patience : ℤ
  pub template_update_interval : ℤ
  pub template_refresh_thr : F
  pub template_blend : F
  pub reid : Reid F

pub record ReacquireConfig (F : Type 0) : Type 0 where
  pub class_id : ℤ
  pub detect_every : ℤ
  pub min_score : F
  pub size_low : F
  pub size_high : F
  pub base_radius_frac : F
  pub growth_per_frame : F

abbrev pub default_engine : EngineOptions
default_engine = record {
  intra_op_threads = pos 4;
  allow_spinning = true;
  warmup = true;
  use_dnnl = false;
}

abbrev pub is_nano_z : Embedder → Bool
is_nano_z nano_z = true
is_nano_z _ = false

module _ {F : Type 0} ⦃f : Float F⦄ where
  open f use {lit, neg}

  -- The members' initial values.
  abbrev pub default_sot : SotConfig F
  default_sot = record {
    backend = nano_track;
    backbone_z_path = "";
    backbone_x_path = "";
    head_path = "";
    engine = record default_engine { intra_op_threads = pos 2; allow_spinning = false };
    penalty_k = lit 55 3;
    window_influence = lit 455 3;
    size_lr = lit 37 2;
    context_amount = half;
    lost_score_thr = neg one;
    lost_patience = pos 5;
    template_update_interval = pos 0;
    template_refresh_thr = lit 7 1;
    template_blend = half;
    reid = record {
      embedder = no_embedder;
      accept = neg one;
      drift_check_every = pos 0;
      drift_thr = neg one;
    };
  }

  abbrev pub default_reacquire : ReacquireConfig F
  default_reacquire = record {
    class_id = negsuc 0;
    detect_every = pos 3;
    min_score = lit 4 1;
    size_low = half;
    size_high = lit 2 0;
    base_radius_frac = lit 15 1;
    growth_per_frame = lit 5 2;
  }

  abbrev auto_score : SotBackend → F
  auto_score nano_track = lit 30 2
  auto_score mosse = lit 8 0

  -- A negative threshold is replaced by the backend's or the embedder's own.
  unfoldable pub resolve : SotConfig F → SotConfig F
  resolve cfg =
      let nanoz = is_nano_z cfg.reid.embedder in
      record cfg {
        lost_score_thr =
            if cfg.lost_score_thr <? nought then auto_score cfg.backend else cfg.lost_score_thr;
        reid = record (cfg.reid) {
          accept =
              if cfg.reid.accept <? nought
              then (if nanoz then lit 65 2 else lit 4 1)
              else cfg.reid.accept;
          drift_thr =
              if cfg.reid.drift_thr <? nought
              then (if nanoz then lit 55 2 else lit 4 1)
              else cfg.reid.drift_thr;
        };
      }
