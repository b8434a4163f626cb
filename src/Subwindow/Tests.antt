-- ===== src/Subwindow/Tests.antt =====
-- Images of numbers that are functions, with all checks of bounds.
use custos_tracker.Prelude.{
  ℕ, ◌+◌, ◌-◌, ◌≤◌, pos, pos_part, ℤ, ◌+ℤ◌, leb_ℤ, ltb, leb, Bool, true, ◌&&◌, if◌then◌else◌, none,
  some, ◌≡◌, refl, arith,
}
use custos_tracker.Mat.{Rect}
use custos_tracker.Float.Milli.{Milli, milli_float}
use custos_tracker.Subwindow.{Pixels, crop_geometry, crop_subwindow, nano_geometry, nano_subwindow}
use custos_tracker.Subwindow.Laws.{IsPixels, Shows}
use custos_tracker.Subwindow.Crops.{crop_subwindow-Shows, nano_subwindow-Shows}

pub record Image : Type 0 where
  pub cols : ℤ
  pub rows : ℤ
  pub at : ℕ → ℕ → ℕ

abbrev pub within : Image → Rect → Bool
within m r =
    leb_ℤ (pos 0) r.x
    && leb_ℤ (pos 0) r.y
    && leb_ℤ (pos 0) r.width
    && leb_ℤ (pos 0) r.height
    && leb_ℤ (r.x +ℤ r.width) m.cols
    && leb_ℤ (r.y +ℤ r.height) m.rows

abbrev pub covers : Rect → ℕ → ℕ → Bool
covers r i j =
    (leb (pos_part r.x) i && ltb i (pos_part r.x + pos_part r.width))
    && (leb (pos_part r.y) j && ltb j (pos_part r.y + pos_part r.height))

abbrev pub images : Pixels Image ℕ
images = record {
  cols = λ m. m.cols;
  rows = λ m. m.rows;
  pixel = λ m i j. m.at i j;
  roi = λ m r.
      if within m r
      then some (record {
        cols = r.width;
        rows = r.height;
        at = λ i j. m.at (pos_part r.x + i) (pos_part r.y + j);
      })
      else none;
  filled = λ n a. record { cols = n; rows = n; at = λ i j. a };
  paste = λ dst r part.
      if within dst r
      then some (record dst {
        at = λ i j.
            if covers r i j then part.at (i - pos_part r.x) (j - pos_part r.y) else dst.at i j;
      })
      else none;
  resize = λ m n. record m { cols = n; rows = n };
  mean = λ m. m.at 0 0;
}

within_size :
    (m : Image) (c r x y w h : ℕ)
    → m.cols ≡ pos c
    → m.rows ≡ pos r
    → x + w ≤ c
    → y + h ≤ r
    → within m (record { x = pos x; y = pos y; width = pos w; height = pos h }) ≡ true
unfolding ◌+ℤ◌
within_size m c r x y w h hc hr fx fy = rw (hc, hr) (ground arith)

pub images-IsPixels : IsPixels images
images-IsPixels = record {
  cols_filled = λ n a. refl;
  rows_filled = λ n a. refl;
  pixel_filled = λ n a x y. refl;
  reads = λ img c r x y w h hc hr fx fy.
      let ok : within img (record { x = pos x; y = pos y; width = pos w; height = pos h }) ≡ true =
        within_size img c r x y w h hc hr fx fy in
      (
        record { cols = pos w; rows = pos h; at = λ i j. img.at (x + i) (y + j) },
        (rw (ok) refl, λ i j hi hj. refl),
      );
  writes = λ dst part c r x y w h hc hr fx fy.
      let target : Rect = record { x = pos x; y = pos y; width = pos w; height = pos h } in
      let ok : within dst target ≡ true = within_size dst c r x y w h hc hr fx fy in
      (
        record dst {
          at = λ i j. if covers target i j then part.at (i - x) (j - y) else dst.at i j;
        },
        (rw (ok) refl, λ i j. refl),
      );
}

-- Ten columns and eight rows, each pixel its place.
abbrev picture : Image
picture = record {
  cols = pos 10;
  rows = pos 8;
  at = λ i j. i + j + j + j + j + j + j + j + j + j + j;
}

crop_subwindow-Shows_example :
    let g = crop_geometry {F = Milli} images picture 1000 1000 (pos 4) in
    (patch : Image) × (Shows images images-IsPixels picture 10 8 99 g.xmin g.ymin 4 (some patch)
      × (crop_subwindow {F = Milli} images picture 1000 1000 (pos 4) (pos 2) 99
          ≡ some (images.resize patch (pos 2))))
crop_subwindow-Shows_example =
    crop_subwindow-Shows images images-IsPixels picture 9 7 refl refl 1000 1000 3 1 99

nano_subwindow-Shows_example :
    let g = nano_geometry {F = Milli} images picture 9000 4000 (pos 4) in
    (patch : Image) × (Shows images images-IsPixels picture 10 8 0 g.xmin g.ymin 4 (some patch)
      × (nano_subwindow {F = Milli} images picture 9000 4000 (pos 4) (pos 2)
          ≡ some (images.resize patch (pos 2))))
nano_subwindow-Shows_example =
    nano_subwindow-Shows images images-IsPixels picture 9 7 refl refl 9000 4000 3 (pos 2)
