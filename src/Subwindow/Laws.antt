-- ===== src/Subwindow/Laws.antt =====
-- A window of an image is the window of the image with a border of the constant.
use custos_tracker.Prelude.{
  ℕ, suc, ◌+◌, ◌-◌, ◌≤◌, ◌<◌, pos, pos_part, ℤ, ◌+ℤ◌, ltb_ℤ, Bool, true, false, ◌&&◌, if◌then◌else◌,
  ltb, leb, ◌≡◌, refl, sym, ◌∙◌, arith, Bool-cases, inl, inr, Option, some,
}
use custos_tracker.Mat.{Rect}
use custos_tracker.Subwindow.{
  Pixels, CropGeometry, geometry_at, padded, visible, padded_window, window,
}
use custos_tracker.Subwindow.Axis.{inside, Axis, axis, visible-Axis, whole-Axis, whole_shown}

abbrev rect : ℕ → ℕ → ℕ → ℕ → Rect
rect x y w h = record { x = pos x; y = pos y; width = pos w; height = pos h }

abbrev in_range : ℕ → ℕ → ℕ → Bool
in_range low x end = leb low x && ltb x end

-- What OpenCV documents of regions in bounds and of images of one pixel.
pub record IsPixels {Img A : Type 0} (p : Pixels Img A) : Type 0 where
  pub cols_filled : (n : ℕ) (a : A) → p.cols (p.filled (pos n) a) ≡ pos n
  pub rows_filled : (n : ℕ) (a : A) → p.rows (p.filled (pos n) a) ≡ pos n
  pub pixel_filled : (n : ℕ) (a : A) (x y : ℕ) → p.pixel (p.filled (pos n) a) x y ≡ a
  pub reads :
      (img : Img) (c r x y w h : ℕ)
      → p.cols img ≡ pos c
      → p.rows img ≡ pos r
      → x + w ≤ c
      → y + h ≤ r
      → (part : Img) × ((p.roi img (rect x y w h) ≡ some part)
          × ((i j : ℕ) → i < w → j < h → p.pixel part i j ≡ p.pixel img (x + i) (y + j)))
  pub writes :
      (dst part : Img) (c r x y w h : ℕ)
      → p.cols dst ≡ pos c
      → p.rows dst ≡ pos r
      → x + w ≤ c
      → y + h ≤ r
      → (out : Img) × ((p.paste dst (rect x y w h) part ≡ some out)
          × ((i j : ℕ)
              → p.pixel out i j ≡ (
                  if in_range x i (x + w) && in_range y j (y + h)
                  then p.pixel part (i - x) (j - y)
                  else p.pixel dst i j)))

Rect_eq :
    {x x' y y' w w' h h' : ℤ}
    → x ≡ x'
    → y ≡ y'
    → w ≡ w'
    → h ≡ h'
    → ◌≡◌ {A = Rect}
        (record { x = x; y = y; width = w; height = h })
        (record { x = x'; y = y'; width = w'; height = h' })
Rect_eq p q r s = cc

-- A window that is padded, by the numbers that its geometry comes to.
padded-window_runs :
    {Img A : Type 0} (p : Pixels Img A) (img : Img) (g : CropGeometry) (n : ℕ) (pad : A)
    (lx ly fx fy wx wy : ℕ) (part out : Img)
    → padded g ≡ true
    → g.left_pad ≡ pos lx
    → g.top_pad ≡ pos ly
    → g.xmin +ℤ pos lx ≡ pos fx
    → g.ymin +ℤ pos ly ≡ pos fy
    → visible (pos n) g.left_pad g.right_pad ≡ pos wx
    → visible (pos n) g.top_pad g.bottom_pad ≡ pos wy
    → (ltb 0 wx && ltb 0 wy) ≡ true
    → p.roi img (rect fx fy wx wy) ≡ some part
    → p.paste (p.filled (pos n) pad) (rect lx ly wx wy) part ≡ some out
    → window p img g (pos n) pad ≡ some out
unfolding window padded_window
padded-window_runs p img g n pad lx ly fx fy wx wy part out e l t x y vx vy w read written =
    let test : (ltb_ℤ (pos 0) (visible (pos n) g.left_pad g.right_pad)
          && ltb_ℤ (pos 0) (visible (pos n) g.top_pad g.bottom_pad))
        ≡ true =
      rw (vx, vy) (ground arith) in
    let xs : g.xmin +ℤ g.left_pad ≡ pos fx = rw l x in
    let ys : g.ymin +ℤ g.top_pad ≡ pos fy = rw t y in
    rw (window, e, padded_window, test, Rect_eq xs ys vx vy, read, Rect_eq l t vx vy) written

whole-window_runs :
    {Img A : Type 0} (p : Pixels Img A) (img : Img) (g : CropGeometry) (n : ℕ) (pad : A) (fx fy : ℕ)
    (part : Img)
    → padded g ≡ false
    → g.xmin ≡ pos fx
    → g.ymin ≡ pos fy
    → p.roi img (rect fx fy n n) ≡ some part
    → window p img g (pos n) pad ≡ some part
unfolding window
whole-window_runs p img g n pad fx fy part e x y read = rw (window, e, x, y) read

module _ {Img A : Type 0} (p : Pixels Img A) (laws : IsPixels p) where
  -- An image with a border on all sides, at a point of the plane.
  abbrev pub bordered : Img → ℕ → ℕ → A → ℤ → ℤ → A
  bordered img c r pad x y =
      if inside c x && inside r y then p.pixel img (pos_part x) (pos_part y) else pad

  -- An image that shows a window of the bordered one.
  abbrev pub Shows : Img → ℕ → ℕ → A → ℤ → ℤ → ℕ → Option Img → Type 0
  Shows img c r pad xmin ymin n o =
      (out : Img) × ((o ≡ some out)
        × ((i j : ℕ)
            → i < n
            → j < n
            → p.pixel out i j ≡ bordered img c r pad (xmin +ℤ pos i) (ymin +ℤ pos j)))

  module _ (img : Img) (c r : ℕ) (pad : A) (xmin ymin : ℤ) (n : ℕ) (cols_is : p.cols img ≡ pos c)
      (rows_is : p.rows img ≡ pos r) where
    abbrev geometry : CropGeometry
    geometry = geometry_at (pos c) (pos r) xmin ymin (pos (suc n))

    -- Nothing of the image is visible.
    blank :
        ((i j : ℕ)
          → i < suc n
          → j < suc n
          → (inside c (xmin +ℤ pos i) && inside r (ymin +ℤ pos j)) ≡ false)
        → Shows img c r pad xmin ymin (suc n) (some (p.filled (pos (suc n)) pad))
    blank h = (
      p.filled (pos (suc n)) pad,
      (refl, λ i j hi hj. laws.pixel_filled (suc n) pad i j ∙ sym (rw (h i j hi hj) refl)),
    )

    -- One axis shows nothing.
    dark_window :
        (ltb_ℤ (pos 0) (visible (pos (suc n)) geometry.left_pad geometry.right_pad)
            && ltb_ℤ (pos 0) (visible (pos (suc n)) geometry.top_pad geometry.bottom_pad))
          ≡ false
        → padded geometry ≡ true
        → ((i j : ℕ)
            → i < suc n
            → j < suc n
            → (inside c (xmin +ℤ pos i) && inside r (ymin +ℤ pos j)) ≡ false)
        → Shows img c r pad xmin ymin (suc n) (window p img geometry (pos (suc n)) pad)
    unfolding window padded_window geometry_at
    dark_window d e h = rw (window, e, padded_window, d) (blank h)

    module _ (ax : Axis xmin (suc n) c) (ay : Axis ymin (suc n) r) where
      -- What is copied into the blank window shows the bordered image.
      copied :
          (part out : Img)
          → ((i j : ℕ)
              → i < ax.width
              → j < ay.width
              → p.pixel part i j ≡ p.pixel img (ax.first + i) (ay.first + j))
          → ((i j : ℕ)
              → p.pixel out i j ≡ (
                  if in_range ax.low i (ax.low + ax.width) && in_range ay.low j (ay.low + ay.width)
                  then p.pixel part (i - ax.low) (j - ay.low)
                  else p.pixel (p.filled (pos (suc n)) pad) i j))
          → (i j : ℕ) → i < suc n
          → j < suc n
          → p.pixel out i j ≡ bordered img c r pad (xmin +ℤ pos i) (ymin +ℤ pos j)
      copied part out g h i j hi hj =
          let sx = ax.shown i hi in
          let sy = ay.shown j hj in
          elim (Bool-cases
            (in_range ax.low i (ax.low + ax.width) && in_range ay.low j (ay.low + ay.width))) [
              | inl e ↦
                  let px = ax.place i (ground arith) in
                  let py = ay.place j (ground arith) in
                  let there = g (i - ax.low) (j - ay.low) (ground arith) (ground arith) in
                  h i j ∙ (rw (e, sx, sy, e, px, py) there)
              | inr e ↦ h i j ∙ (rw (e, sx, sy, e) (laws.pixel_filled (suc n) pad i j))
            ]

      bordered_window :
          padded geometry ≡ true
          → Shows img c r pad xmin ymin (suc n) (window p img geometry (pos (suc n)) pad)
      unfolding geometry_at
      bordered_window e =
          let vx = visible-Axis xmin (suc n) c ax in
          let vy = visible-Axis ymin (suc n) r ay in
          let (part, (read, same)) =
            laws.reads img c r ax.first ay.first ax.width ay.width cols_is rows_is ax.fits
              ay.fits in
          let fx : ax.low + ax.width ≤ suc n = omega (arith, ax.width_is) in
          let fy : ay.low + ay.width ≤ suc n = omega (arith, ay.width_is) in
          let (out, (written, over)) =
            laws.writes (p.filled (pos (suc n)) pad) part (suc n) (suc n) ax.low ay.low ax.width
              ay.width (laws.cols_filled (suc n) pad) (laws.rows_filled (suc n) pad) fx fy in
          elim (Bool-cases (ltb 0 ax.width && ltb 0 ay.width)) [
            | inl w ↦ (
              out,
              (
                padded-window_runs p img geometry (suc n) pad ax.low ay.low ax.first ay.first
                    ax.width ay.width part out e ax.low_is ay.low_is ax.first_is ay.first_is vx vy w
                    read written,
                copied part out same over,
              ),
            )
            | inr w ↦
                dark_window (rw (vx, vy) (ground arith)) e
                  (λ i j hi hj. ground (arith, ax.shown i hi, ay.shown j hj))
          ]

      whole_window :
          padded geometry ≡ false
          → Shows img c r pad xmin ymin (suc n) (window p img geometry (pos (suc n)) pad)
      unfolding geometry_at
      whole_window e =
          let (lx, (wx, sx)) =
            whole-Axis xmin (suc n) c ax (ground (arith, e)) (ground (arith, e)) in
          let (ly, (wy, sy)) =
            whole-Axis ymin (suc n) r ay (ground (arith, e)) (ground (arith, e)) in
          let gx : ax.first + suc n ≤ c = omega (arith, ax.fits, wx) in
          let gy : ay.first + suc n ≤ r = omega (arith, ay.fits, wy) in
          let (part, (read, same)) =
            laws.reads img c r ax.first ay.first (suc n) (suc n) cols_is rows_is gx gy in
          (
            part,
            (
              whole-window_runs p img geometry (suc n) pad ax.first ay.first part e sx sy read,
              λ i j hi hj.
                  let (vx, px) = whole_shown xmin (suc n) c ax lx wx i hi in
                  let (vy, py) = whole_shown ymin (suc n) r ay ly wy j hj in
                  same i j hi hj ∙ sym (rw (vx, vy, px, py) refl),
            ),
          )

    -- `window` returns an image that shows the square window of the bordered image, whatever the window:
    -- inside the image, across its edges, or outside.
    pub window-Shows : Shows img c r pad xmin ymin (suc n) (window p img geometry (pos (suc n)) pad)
    unfolding geometry_at
    window-Shows = elim (axis xmin n c) [
      | inl ax ↦ elim (axis ymin n r) [
        | inl ay ↦ elim (Bool-cases (padded geometry)) [
          | inl e ↦ bordered_window ax ay e
          | inr e ↦ whole_window ax ay e
        ]
        | inr hy ↦
            dark_window (ground (arith, hy.dark)) (ground (arith, hy.pads))
              (λ i j hi hj. ground (arith, hy.hidden j hj))
      ]
      | inr hx ↦
          dark_window (ground (arith, hx.dark)) (ground (arith, hx.pads))
            (λ i j hi hj. ground (arith, hx.hidden i hi))
    ]
