-- ===== src/Sot/World.antt =====
-- What `SotTracker` calls: the two backends and the detector, each with a state that its calls change.
-- `N` is a `NanoTracker`, `M` a `MosseTracker` and `D` an `IDetector`. Where a call can throw, `none` is its
-- exception. The feature of a crop, `nano_embed`, is taken to be there: it is the same run of the template
-- branch that `nano_init` has made.
use mathlib.Core.Option
use custos_tracker.Prelude.{List, Option}
use custos_tracker.Types.{BBox, SotResult, Detection, FrameView}

pub record Backends (F Img N M : Type 0) : Type 0 where
  pub nano_init : Img → BBox F → N → Option N
  pub nano_update : Img → N → Option (SotResult F × N)
  pub nano_embed : Img → BBox F → N → List F
  pub zf : N → List F
  pub mosse_init : Img → BBox F → M → Option M
  pub mosse_update : Img → M → Option (SotResult F × M)

-- Exactly one of the two backends exists, by the configuration.
pub data Engine (N M : Type 0) : Type 0 where
  nano : N → Engine N M
  mosse : M → Engine N M

pub record Detector (F P D : Type 0) : Type 0 where
  pub detect : FrameView P → D → Option (List (Detection F) × D)

module _ {F Img N M : Type 0} (b : Backends F Img N M) where
  open b use {nano_init, nano_update, nano_embed, mosse_init, mosse_update}

  unfoldable pub backend_init : Img → BBox F → Engine N M → Option (Engine N M)
  backend_init img box (nano n) = Option.map nano (nano_init img box n)
  backend_init img box (mosse m) = Option.map mosse (mosse_init img box m)

  unfoldable pub backend_update : Img → Engine N M → Option (SotResult F × Engine N M)
  backend_update img (nano n) = Option.map (λ (r, n'). (r, nano n')) (nano_update img n)
  backend_update img (mosse m) = Option.map (λ (r, m'). (r, mosse m')) (mosse_update img m)
