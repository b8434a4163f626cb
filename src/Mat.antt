-- ===== src/Mat.antt =====
-- core/src/common/mat_view.hpp and what the pipelines ask of OpenCV about images. `Vision` is the
-- interface: an image type with its size, and the calls of the library as operations.
use custos_tracker.Prelude.{
  ℕ, ℤ, pos, pos_part, ◌*◌, ◌&&◌, if◌then◌else◌, ltb_ℤ, List, Option, none, some,
}
use custos_tracker.Types.{FrameView}

-- `cv::Rect`.
pub record Rect : Type 0 where
  pub x : ℤ
  pub y : ℤ
  pub width : ℤ
  pub height : ℤ

-- `P` is a buffer of bytes, `Img` is `cv::Mat` and `Hist` a histogram.
pub record Vision (F P Img Hist : Type 0) : Type 0 where
  -- `cv::Mat(rows, cols, CV_8UC3, data, step)`
  pub wrap : P → ℤ → ℤ → ℕ → Img
  pub cols : Img → ℤ
  pub rows : Img → ℤ
  -- The operator `&` of `cv::Rect`.
  pub meet : Rect → Rect → Rect
  -- `cvtColor`, `calcHist` over H and S, and `normalize` with `NORM_L1` or `NORM_L2`.
  pub hist_l1 : Img → Rect → Hist
  pub hist_l2 : Img → Rect → List F
  -- `cv::compareHist` with `HISTCMP_BHATTACHARYYA`.
  pub bhattacharyya : Hist → Hist → F

module _ {F P Img Hist : Type 0} (v : Vision F P Img Hist) where
  open v use {wrap}

  -- `none` is a failed `CV_Assert`.
  unfoldable pub as_mat : FrameView P → Option Img
  as_mat f = elim f.pixels [
    | none ↦ none
    | some p ↦
        if ltb_ℤ (pos 0) f.width && ltb_ℤ (pos 0) f.height
        then some (
            wrap p f.height f.width (
              if ltb_ℤ (pos 0) f.stride_bytes
              then pos_part f.stride_bytes
              else pos_part f.width * 3))
        else none
  ]
