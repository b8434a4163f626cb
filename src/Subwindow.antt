-- ===== src/Subwindow.antt =====
-- core/src/common/subwindow.cpp and `nano_subwindow` of core/src/sot/nanotrack.cpp: a square window of an
-- image, with a constant where it leaves the image. `Pixels` is what they ask of OpenCV.
pub mod Axis
pub mod Laws
pub mod Crops
pub mod Tests
use mathlib.Core.Option
use custos_tracker.Prelude.{
  ℕ, pos, pos_part, negsuc, ℤ, ◌+◌, ◌+ℤ◌, ◌-ℤ◌, max_ℤ, eqb_ℤ, ltb_ℤ, leb_ℤ, ◌/◌, Bool, true, false,
  not, ◌&&◌, ◌||◌, if◌then◌else◌, Option, none, some,
}
use custos_tracker.Float.{Float, ◌⊕◌, ◌⊖◌, ◌⊘◌, half}
use custos_tracker.Mat.{Rect}

-- Images `Img` with pixels `A`. `none` is a failed assertion of OpenCV.
pub record Pixels (Img A : Type 0) : Type 0 where
  pub cols : Img → ℤ
  pub rows : Img → ℤ
  pub pixel : Img → ℕ → ℕ → A
  -- `img(rect)`
  pub roi : Img → Rect → Option Img
  -- A square image of one pixel, by `create` and `setTo`.
  pub filled : ℤ → A → Img
  -- `src.copyTo(dst(rect))`
  pub paste : Img → Rect → Img → Option Img
  -- `cv::resize` to a square.
  pub resize : Img → ℤ → Img
  pub mean : Img → A

-- Where the window starts and how far it leaves the image on each side.
pub record CropGeometry : Type 0 where
  pub xmin : ℤ
  pub ymin : ℤ
  pub left_pad : ℤ
  pub top_pad : ℤ
  pub right_pad : ℤ
  pub bottom_pad : ℤ

-- The padding of one axis before an image and after it.
abbrev pub low_pad : ℤ → ℤ
low_pad lo = max_ℤ (pos 0) (pos 0 -ℤ lo)

abbrev pub high_pad : ℤ → ℤ → ℤ → ℤ
high_pad lo size extent = let hi = lo +ℤ size -ℤ pos 1 in max_ℤ (pos 0) (hi -ℤ extent +ℤ pos 1)

unfoldable pub geometry_at : ℤ → ℤ → ℤ → ℤ → ℤ → CropGeometry
geometry_at cols rows xmin ymin size = record {
  xmin = xmin;
  ymin = ymin;
  left_pad = low_pad xmin;
  top_pad = low_pad ymin;
  right_pad = high_pad xmin size cols;
  bottom_pad = high_pad ymin size rows;
}

abbrev pub padded : CropGeometry → Bool
padded g =
    not (eqb_ℤ g.left_pad (pos 0))
    || not (eqb_ℤ g.top_pad (pos 0))
    || not (eqb_ℤ g.right_pad (pos 0))
    || not (eqb_ℤ g.bottom_pad (pos 0))

-- The size of what lies in the image along one axis.
abbrev pub visible : ℤ → ℤ → ℤ → ℤ
visible size low high = size -ℤ low -ℤ high

module _ {Img A : Type 0} (p : Pixels Img A) where
  open p use {cols, rows, roi, filled, paste, resize, mean}

  -- The padded window: only what is visible is copied.
  unfoldable pub padded_window : Img → CropGeometry → ℤ → A → Option Img
  padded_window img g size pad =
      let patch = filled size pad in
      let vw = visible size g.left_pad g.right_pad in
      let vh = visible size g.top_pad g.bottom_pad in
      let source : Rect = record {
        x = g.xmin +ℤ g.left_pad;
        y = g.ymin +ℤ g.top_pad;
        width = vw;
        height = vh;
      } in
      let target : Rect = record { x = g.left_pad; y = g.top_pad; width = vw; height = vh } in
      if ltb_ℤ (pos 0) vw && ltb_ℤ (pos 0) vh
      then elim (roi img source) [ none ↦ none | some part ↦ paste patch target part ]
      else some patch

  -- The window before it is resized.
  unfoldable pub window : Img → CropGeometry → ℤ → A → Option Img
  unfolding padded_window
  window img g size pad =
      if padded g
      then padded_window img g size pad
      else roi img (record { x = g.xmin; y = g.ymin; width = size; height = size })

-- `(original_sz + 1) / 2`, as C++ divides.
abbrev half_size : ℤ → ℤ
half_size (pos n) = pos ((n + 1) / 2)
half_size (negsuc n) = pos 0 -ℤ pos (n / 2)

module _ {F Img A : Type 0} ⦃f : Float F⦄ (p : Pixels Img A) where
  open f use {lit, of_int, floor, trunc}
  open p use {cols, rows, resize, mean}

  abbrev pub crop_geometry : Img → F → F → ℤ → CropGeometry
  crop_geometry img cx cy original_sz =
      let c = of_int (original_sz +ℤ pos 1) ⊘ lit 2 0 in
      geometry_at (cols img) (rows img) (trunc (floor (cx ⊖ c ⊕ half)))
        (trunc (floor (cy ⊖ c ⊕ half))) original_sz

  unfoldable pub subwindow_needs_padding : Img → F → F → ℤ → Bool
  subwindow_needs_padding img cx cy original_sz = padded (crop_geometry img cx cy original_sz)

  unfoldable pub crop_subwindow : Img → F → F → ℤ → ℤ → A → Option Img
  unfolding window
  crop_subwindow img cx cy original_sz model_sz pad_value =
      let patch = window p img (crop_geometry img cx cy original_sz) original_sz pad_value in
      let sized = λ (m : Img). if eqb_ℤ original_sz model_sz then m else resize m model_sz in
      if ltb_ℤ (pos 0) (cols img)
        && ltb_ℤ (pos 0) (rows img)
        && ltb_ℤ (pos 0) original_sz
        && ltb_ℤ (pos 0) model_sz
      then Option.map sized patch
      else none

  unfoldable pub nano_geometry : Img → F → F → ℤ → CropGeometry
  nano_geometry img pos_x pos_y original_sz =
      let c = half_size original_sz in
      geometry_at (cols img) (rows img) (trunc pos_x -ℤ c) (trunc pos_y -ℤ c) original_sz

  -- The mean is a parameter of the padding only.
  unfoldable pub nano_subwindow : Img → F → F → ℤ → ℤ → Option Img
  unfolding window nano_geometry
  nano_subwindow img pos_x pos_y original_sz model_sz =
      let patch = window p img (nano_geometry img pos_x pos_y original_sz) original_sz (mean img) in
      Option.map (λ m. resize m model_sz) patch
