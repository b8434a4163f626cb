-- ===== src/Tbd/Config.antt =====
-- The configuration of core/include/ctrk/tbd.hpp, and the motion filter of a track as an interface.
use custos_tracker.Prelude.{ℤ, pos, Bool, true, false}
use custos_tracker.Float.{Float, half, nought}
use custos_tracker.Types.{BBox}
use custos_tracker.Geometry.Boxes.{Affine23}

pub record AssocConfig (F : Type 0) : Type 0 where
  pub use_byte : Bool
  pub track_thresh : F
  pub match_thresh_high : F
  pub match_thresh_low : F
  pub tentative_match_thresh : F
  pub new_track_thresh : F
  pub n_init : ℤ
  pub max_age : ℤ
  pub nsa : Bool
  pub tentative_relax_per_coast : F
  pub tentative_gate_floor : F
  pub tentative_patience : ℤ
  pub velocity_seed : Bool
  pub appearance_weight : F
  pub embedding_ema : F

module _ {F : Type 0} ⦃f : Float F⦄ where
  open f use {lit}

  abbrev pub default_assoc : AssocConfig F
  default_assoc = record {
    use_byte = true;
    track_thresh = half;
    match_thresh_high = lit 8 1;
    match_thresh_low = half;
    tentative_match_thresh = lit 7 1;
    new_track_thresh = lit 6 1;
    n_init = pos 3;
    max_age = pos 30;
    nsa = true;
    tentative_relax_per_coast = lit 3 1;
    tentative_gate_floor = lit 2 1;
    tentative_patience = pos 1;
    velocity_seed = false;
    appearance_weight = nought;
    embedding_ema = lit 9 1;
  }

-- A filter that `initiate` has set up, as every track holds one.
pub record Filter (F K : Type 0) : Type 0 where
  pub initiate : BBox F → K
  pub predict : F → K → K
  pub apply_affine : Affine23 F → K → K
  pub correct : BBox F → F → K → K
  pub seed_velocity : BBox F → F → K → K
  pub box : K → BBox F
