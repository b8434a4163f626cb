-- ===== src/Subwindow/Crops.antt =====
-- `crop_subwindow` and `nano_subwindow` by their windows.
use custos_tracker.Prelude.{
  ℕ, suc, pos, ℤ, ◌-ℤ◌, ltb_ℤ, eqb_ℤ, true, false, if◌then◌else◌, ◌≡◌, refl, arith, some,
}
use custos_tracker.Float.{Float}
use custos_tracker.Subwindow.{
  Pixels, crop_geometry, window, subwindow_needs_padding, crop_subwindow, nano_geometry,
  nano_subwindow, geometry_at,
}
use custos_tracker.Subwindow.Laws.{IsPixels, Shows, window-Shows}

is_positive : (k : ℕ) → ltb_ℤ (pos 0) (pos (suc k)) ≡ true
is_positive k = ground arith

module _ {F Img A : Type 0} ⦃f : Float F⦄ (p : Pixels Img A) where
  -- If the window does not leave the image, the crop does not depend on the pad value.
  pub crop_subwindow_pad :
      (img : Img) (cx cy : F) (original_sz model_sz : ℤ) (pad pad' : A)
      → subwindow_needs_padding p img cx cy original_sz ≡ false
      → crop_subwindow p img cx cy original_sz model_sz pad
        ≡ crop_subwindow p img cx cy original_sz model_sz pad'
  unfolding subwindow_needs_padding crop_subwindow window
  crop_subwindow_pad img cx cy original_sz model_sz pad pad' h = rw (crop_subwindow, window, h) refl

  module _ (laws : IsPixels p) (img : Img) (c r : ℕ) (cols_is : p.cols img ≡ pos (suc c))
      (rows_is : p.rows img ≡ pos (suc r)) where
    crop_subwindow_runs :
        (cx cy : F) (n m : ℕ) (pad : A) (patch : Img)
        → window p img (crop_geometry p img cx cy (pos (suc n))) (pos (suc n)) pad ≡ some patch
        → crop_subwindow p img cx cy (pos (suc n)) (pos (suc m)) pad
          ≡ some (if eqb_ℤ (pos (suc n)) (pos (suc m)) then patch else p.resize patch (pos (suc m)))
    unfolding crop_subwindow
    crop_subwindow_runs cx cy n m pad patch e =
        rw
          (
            crop_subwindow,
            e,
            cols_is,
            rows_is,
            is_positive c,
            is_positive r,
            is_positive n,
            is_positive m,
          )
          refl

    -- A crop of an image with pixels returns, resized unless it has its size, an image that shows the
    -- square window around the centre of the image with a border of the pad value.
    pub crop_subwindow-Shows :
        (cx cy : F) (n m : ℕ) (pad : A)
        → let g = crop_geometry p img cx cy (pos (suc n)) in
          (patch : Img) × (Shows p laws img (suc c) (suc r) pad g.xmin g.ymin (suc n) (some patch)
            × (crop_subwindow p img cx cy (pos (suc n)) (pos (suc m)) pad
                ≡ some (
                    if eqb_ℤ (pos (suc n)) (pos (suc m))
                    then patch
                    else p.resize patch (pos (suc m)))))
    unfolding geometry_at
    crop_subwindow-Shows cx cy n m pad =
        let g = crop_geometry p img cx cy (pos (suc n)) in
        let (patch, (e, same)) =
          window-Shows p laws img (suc c) (suc r) pad g.xmin g.ymin n cols_is rows_is in
        (
          patch,
          (
            (patch, (refl, same)),
            crop_subwindow_runs cx cy n m pad patch (rw (cols_is, rows_is) e),
          ),
        )

    nano_subwindow_runs :
        (pos_x pos_y : F) (n : ℕ) (model_sz : ℤ) (patch : Img)
        → window p img (nano_geometry p img pos_x pos_y (pos (suc n))) (pos (suc n)) (p.mean img)
          ≡ some patch
        → nano_subwindow p img pos_x pos_y (pos (suc n)) model_sz ≡ some (p.resize patch model_sz)
    unfolding nano_subwindow
    nano_subwindow_runs pos_x pos_y n model_sz patch e = rw (nano_subwindow, e) refl

    -- So does `nano_subwindow`, with the mean of the image for the pad value, before it is resized.
    pub nano_subwindow-Shows :
        (pos_x pos_y : F) (n : ℕ) (model_sz : ℤ)
        → let g = nano_geometry p img pos_x pos_y (pos (suc n)) in
          (patch : Img) × (Shows p laws img
              (suc c)
              (suc r)
              (p.mean img)
              g.xmin
              g.ymin
              (suc n)
              (some patch)
            × (nano_subwindow p img pos_x pos_y (pos (suc n)) model_sz
                ≡ some (p.resize patch model_sz)))
    unfolding nano_geometry ◌-ℤ◌ geometry_at
    nano_subwindow-Shows pos_x pos_y n model_sz =
        let g = nano_geometry p img pos_x pos_y (pos (suc n)) in
        let (patch, (e, same)) =
          window-Shows p laws img (suc c) (suc r) (p.mean img) g.xmin g.ymin n cols_is rows_is in
        (
          patch,
          (
            (patch, (refl, same)),
            nano_subwindow_runs pos_x pos_y n model_sz patch (rw (cols_is, rows_is) e),
          ),
        )
