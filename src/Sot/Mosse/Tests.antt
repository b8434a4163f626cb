-- ===== src/Sot/Mosse/Tests.antt =====
-- A tracker on a picture of 40 by 30, whose matrices are numbers.
use custos_tracker.Prelude.{ℕ, ◌+◌, ◌*◌, ◌/◌, pos, List, [], ◌∷◌, length, All, some, ◌≡◌, refl}
use custos_tracker.Float.Milli.{Milli, milli_float, Milli-IsOrdered}
use custos_tracker.Types.{BBox, SotResult}
use custos_tracker.Subwindow.{crop_subwindow}
use custos_tracker.Subwindow.Tests.{Image, images, images-IsPixels}
use custos_tracker.Sot.Mosse.{Spectra, MosseTracker, side_at, grab_patch, init}
use custos_tracker.Sot.Mosse.Laws.{
  HasPixels, IsInFrame, IsWide, update_all, update_all-IsInFrame, grab_patch-eq-mean,
}

abbrev pub picture : ℕ → Image
picture n = record { cols = pos 40; rows = pos 30; at = λ i j. i + n }

abbrev pub spectra : Spectra Milli Image ℕ
spectra = record {
  lround = λ a. pos (a / 1000);
  grey = λ m. m.at 3 4;
  log_one = λ m. m + 1;
  mean_std = λ m. (m, 1000);
  mean_std_outside = λ m r. (0, 1000);
  normalized = λ m a b. m;
  mul = λ a b. a * b;
  scale = λ a k. a * k / 1000;
  add = λ a b. a + b;
  add_real = λ a k. a + k;
  dft = λ a. a;
  idft = λ a. a;
  mul_spectrums = λ a b c. a * b;
  div_spectrums = λ a b. a / b;
  highest = λ a. (a, (pos 30, pos 34));
  hanning = λ n. 1;
  square = λ n g. g (pos 0) (pos 0);
  rotated = λ m k. m;
  meet = λ a b. a;
}

pub picture-HasPixels : (n : ℕ) → HasPixels images 0 spectra (picture n)
picture-HasPixels n = record { c = 39; r = 29; cols_is = refl; rows_is = refl }

abbrev pub target : BBox Milli
target = record { x = 10000; y = 10000; w = 12000; h = 11000 }

pub picture-IsWide : IsWide images 0 spectra (pos 40) (pos 30)
picture-IsWide = record { x = refl; y = refl; w_wide = refl; h_wide = refl }

update_all-IsInFrame_example :
    (m : MosseTracker Milli ℕ) × ((init images 0 spectra (picture 0) target ≡ some m)
      × ((out : List (SotResult Milli)) × ((update_all images 0 spectra
                (picture 1 ∷ picture 2 ∷ [])
                m
              ≡ some out)
            × ((length out ≡ 2) × All (IsInFrame images 0 spectra (pos 40) (pos 30)) out))))
update_all-IsInFrame_example =
    update_all-IsInFrame images 0 spectra images-IsPixels Milli-IsOrdered (picture 0) target
      (picture 1 ∷ picture 2 ∷ []) (picture-HasPixels 0) picture-IsWide
      (picture-HasPixels 1, (picture-HasPixels 2, tt))

abbrev pub followed : MosseTracker Milli ℕ
followed = record {
  hann = 1;
  gaussian_fft = 1;
  num = some 1;
  den = some 1;
  pos_x = 5000;
  pos_y = 5000;
  sz_w = 8000;
  sz_h = 8000;
  img_w = pos 40;
  img_h = pos 30;
}

grab_patch-eq-mean_example :
    grab_patch images 0 spectra followed (picture 7) 1000
    ≡ crop_subwindow images
        (picture 7)
        followed.pos_x
        followed.pos_y
        (side_at images 0 spectra followed 1000)
        (pos 64)
        7
grab_patch-eq-mean_example = grab_patch-eq-mean images 0 spectra followed (picture 7) 1000
