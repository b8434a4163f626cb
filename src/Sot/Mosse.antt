-- ===== src/Sot/Mosse.antt =====
-- core/src/sot/mosse.cpp: the correlation filter. `Pixels` and `Spectra` are what it asks of OpenCV; `M` is a
-- matrix of floats or a spectrum, and `none` is a failed assertion. `float` and `double` are one type.
pub mod Laws
pub mod Tests
use mathlib.Core.Option
use custos_tracker.Prelude.{
  ℕ, pos, negsuc, ℤ, ◌+ℤ◌, ◌-ℤ◌, max_ℤ, Bool, true, false, if◌then◌else◌, List, [], ◌∷◌, Option,
  none, some,
}
use custos_tracker.Float.{Float, ◌⊕◌, ◌⊖◌, ◌⊗◌, ◌⊘◌, ◌<?◌, ◌≤?◌, nought, one, half, fmax, fclamp}
use custos_tracker.Types.{BBox, SotResult, tracking}
use custos_tracker.Mat.{Rect}
use custos_tracker.Subwindow.{Pixels, subwindow_needs_padding, crop_subwindow}

pub record Spectra (F Img M : Type 0) : Type 0 where
  pub lround : F → ℤ
  -- `cvtColor` to grey of an image with three channels, another one as it is, and then `convertTo`.
  pub grey : Img → M
  -- `cv::log(m + 1.f, m)`
  pub log_one : M → M
  pub mean_std : M → F × F
  pub mean_std_outside : M → Rect → F × F
  -- `(m - a) / b`
  pub normalized : M → F → F → M
  pub mul : M → M → M
  pub scale : M → F → M
  pub add : M → M → M
  -- Adds to the first channel of each item.
  pub add_real : M → F → M
  pub dft : M → M
  pub idft : M → M
  pub mul_spectrums : M → M → Bool → M
  pub div_spectrums : M → M → M
  -- `cv::minMaxLoc`: the highest value, and its column and row.
  pub highest : M → F × (ℤ × ℤ)
  pub hanning : ℤ → M
  -- A square matrix by rows and columns.
  pub square : ℤ → (ℤ → ℤ → F) → M
  -- `getRotationMatrix2D` about the middle by an angle, and `warpAffine`.
  pub rotated : Img → ℤ → Img
  -- The operator `&` of `cv::Rect`.
  pub meet : Rect → Rect → Rect

-- The filter is `none` before it is trained.
pub record MosseTracker (F M : Type 0) : Type 0 where
  pub hann : M
  pub gaussian_fft : M
  pub num : Option M
  pub den : Option M
  pub pos_x : F
  pub pos_y : F
  pub sz_w : F
  pub sz_h : F
  pub img_w : ℤ
  pub img_h : ℤ

pub record Best (F : Type 0) : Type 0 where
  pub peak : F
  pub psr : F
  pub scale : F
  pub loc_x : ℤ
  pub loc_y : ℤ

module _ {F Img A M : Type 0} ⦃f : Float F⦄ (p : Pixels Img A) (black : A)
    (s : Spectra F Img M) where
  open f use {lit, of_int, exp, neg}
  open s use {
    lround, grey, log_one, mean_std, mean_std_outside, normalized, mul, scale, add, add_real, dft,
    idft, mul_spectrums, div_spectrums, highest, hanning, square, rotated, meet,
  }

  abbrev eps : F
  eps = lit 1 5

  unfoldable pub preprocess : MosseTracker F M → Img → M
  preprocess m patch =
      let g = log_one (grey patch) in
      let (mean, dev) = mean_std g in mul (normalized g mean (dev ⊕ eps)) m.hann

  -- The side of the window, two or more.
  abbrev pub side_at : MosseTracker F M → F → ℤ
  side_at m k = max_ℤ (pos 2) (lround (fmax m.sz_w m.sz_h ⊗ k))

  unfoldable pub grab_patch : MosseTracker F M → Img → F → Option Img
  grab_patch m img k =
      let side = side_at m k in
      let pad = if subwindow_needs_padding p img m.pos_x m.pos_y side then p.mean img else black in
      crop_subwindow p img m.pos_x m.pos_y side (pos 64) pad

  -- An average of the filter so far and a new one.
  abbrev mixed : F → Option M → M → M
  mixed lr none new = new
  mixed lr (some old) new = add (scale old (one ⊖ lr)) (scale new lr)

  -- `num_` is empty exactly if `den_` is.
  unfoldable pub train : M → F → MosseTracker F M → MosseTracker F M
  train processed lr m =
      let fft = dft processed in
      record m {
        num = some (mixed lr m.num (mul_spectrums m.gaussian_fft fft true));
        den = some (mixed lr m.den (mul_spectrums fft fft true));
      }

  -- The target of the filter.
  abbrev gauss : ℤ → ℤ → F
  gauss r c =
      let dy = of_int (r -ℤ pos 32) in
      let dx = of_int (c -ℤ pos 32) in exp (neg (dx ⊗ dx ⊕ dy ⊗ dy) ⊘ (lit 2 0 ⊗ lit 2 0 ⊗ lit 2 0))

  unfoldable pub augment : Img → List ℤ → MosseTracker F M → MosseTracker F M
  augment base [] m = m
  augment base (k ∷ ks) m = augment base ks (train (preprocess m (rotated base k)) half m)

  -- The tracker of a target before its filter is trained.
  unfoldable pub placed : Img → BBox F → MosseTracker F M
  placed img target = record {
    hann = hanning (pos 64);
    gaussian_fft = dft (square (pos 64) gauss);
    num = none;
    den = none;
    pos_x = target.x ⊕ target.w ⊗ half;
    pos_y = target.y ⊕ target.h ⊗ half;
    sz_w = target.w;
    sz_h = target.h;
    img_w = p.cols img;
    img_h = p.rows img;
  }

  -- The rotations are by two degrees times -2, -1, 1 and 2.
  unfoldable pub init : Img → BBox F → Option (MosseTracker F M)
  init img target =
      let m = placed img target in
      Option.map
        (λ base.
          augment base (negsuc 3 ∷ negsuc 1 ∷ pos 2 ∷ pos 4 ∷ []) (train (preprocess m base) one m))
        (grab_patch m img one)

  -- The response of the filter on a patch, against the best so far.
  unfoldable pub respond : MosseTracker F M → M → F → Img → Best F → Best F
  respond m filter k patch best =
      let resp = idft (mul_spectrums filter (dft (preprocess m patch)) false) in
      let (peak, (x, y)) = highest resp in
      let exclusion : Rect = record {
        x = max_ℤ (pos 0) (x -ℤ pos 5);
        y = max_ℤ (pos 0) (y -ℤ pos 5);
        width = pos 11;
        height = pos 11;
      } in
      let whole : Rect = record { x = pos 0; y = pos 0; width = pos 64; height = pos 64 } in
      let (mean, dev) = mean_std_outside resp (meet exclusion whole) in
      let psr = (peak ⊖ mean) ⊘ (dev ⊕ eps) in
      if best.peak <? peak
      then record { peak = peak; psr = psr; scale = k; loc_x = x; loc_y = y }
      else best

  pub scan : MosseTracker F M → M → Img → List F → Best F → Option (Best F)
  scan m filter img [] best = some best
  scan m filter img (k ∷ ks) best = elim (grab_patch m img k) [
    | none ↦ none
    | some patch ↦ scan m filter img ks (respond m filter k patch best)
  ]

  unfoldable pub moved : Best F → MosseTracker F M → MosseTracker F M
  moved b m =
      let side = fmax m.sz_w m.sz_h ⊗ b.scale in
      let to_img = side ⊘ lit 64 0 in
      let w = of_int m.img_w in
      let h = of_int m.img_h in
      record m {
        pos_x = fclamp (m.pos_x ⊕ (of_int b.loc_x ⊖ lit 32 0) ⊗ to_img) nought w;
        pos_y = fclamp (m.pos_y ⊕ (of_int b.loc_y ⊖ lit 32 0) ⊗ to_img) nought h;
        sz_w = fclamp (m.sz_w ⊗ b.scale) (lit 10 0) w;
        sz_h = fclamp (m.sz_h ⊗ b.scale) (lit 10 0) h;
      }

  -- The filter learns from the frame only while the peak is clear.
  unfoldable pub adapt : Img → F → MosseTracker F M → Option (MosseTracker F M)
  adapt img psr m =
      if lit 8 0 ≤? psr
      then Option.map (λ patch. train (preprocess m patch) (lit 125 3) m) (grab_patch m img one)
      else some m

  abbrev pub result_of : F → MosseTracker F M → SotResult F
  result_of psr m = record {
    box = record {
      x = m.pos_x ⊖ m.sz_w ⊗ half;
      y = m.pos_y ⊖ m.sz_h ⊗ half;
      w = m.sz_w;
      h = m.sz_h;
    };
    score = psr;
    state = tracking;
  }

  abbrev pub no_best : Best F
  no_best = record { peak = neg one; psr = nought; scale = one; loc_x = pos 0; loc_y = pos 0 }

  abbrev pub scales : List F
  scales = lit 985 3 ∷ one ∷ lit 1015 3 ∷ []

  -- `CV_Assert` of `divSpectrums` refuses a filter that is not trained.
  unfoldable pub update : Img → MosseTracker F M → Option (SotResult F × MosseTracker F M)
  update img m = elim m.num [
    | none ↦ none
    | some num ↦ elim m.den [
      | none ↦ none
      | some den ↦ elim (scan m (div_spectrums num (add_real den eps)) img scales no_best) [
        | none ↦ none
        | some best ↦
            Option.map (λ (t : MosseTracker F M). (result_of best.psr t, t))
              (adapt img best.psr (moved best m))
      ]
    ]
  ]
