-- ===== src/Sot/Update/Correlation/Tests.antt =====
-- A tracker over the correlation filter that checks for drift on each frame.
use custos_tracker.Prelude.{ℕ, pos, List, [], ◌∷◌, length, All, some, none, ◌≡◌, refl}
use custos_tracker.Float.Milli.{Milli, milli_float, Milli-IsOrdered}
use custos_tracker.Types.{SotResult, FrameView, bgr8}
use custos_tracker.Mat.{Vision, as_mat}
use custos_tracker.Subwindow.Tests.{Image, images, images-IsPixels}
use custos_tracker.Sot.Config.{SotConfig, default_sot, hsv_hist}
use custos_tracker.Sot.World.{Backends, Detector, mosse}
use custos_tracker.Sot.Mosse.{MosseTracker}
use custos_tracker.Sot.Mosse.Laws.{IsInFrame}
use custos_tracker.Sot.Mosse.Tests.{
  picture, spectra, target, picture-HasPixels, picture-IsWide, followed,
}
use custos_tracker.Sot.Update.{Impl, init, create}
use custos_tracker.Sot.Update.Correlation.{
  correlation, update_frames, IsSeen, update_frames-IsInFrame,
}

abbrev vision : Vision Milli Image Image ℕ
vision = record {
  wrap = λ p w h step. p;
  cols = λ img. img.cols;
  rows = λ img. img.rows;
  meet = λ a b. a;
  hist_l1 = λ img roi. 7;
  hist_l2 = λ img roi. 7 ∷ [];
  bhattacharyya = λ a b. 900;
}

abbrev others : Backends Milli Image ℕ (MosseTracker Milli ℕ)
others = record {
  nano_init = λ img box n. none;
  nano_update = λ img n. none;
  nano_embed = λ img box n. [];
  zf = λ n. [];
  mosse_init = λ img box m. none;
  mosse_update = λ img m. none;
}

abbrev blind : Detector Milli Image ℕ
blind = record { detect = λ frame d. none }

abbrev shown : ℕ → FrameView Image
shown n = record {
  pixels = some (picture n);
  width = pos 40;
  height = pos 30;
  stride_bytes = pos 120;
  fmt = bgr8;
  t_ns = pos 0;
}

abbrev settings : SotConfig Milli
settings = record (default_sot {F = Milli}) {
  lost_patience = pos 2;
  reid = record { embedder = hsv_hist; accept = 50; drift_check_every = pos 1; drift_thr = 400 };
}

abbrev tracker : Impl Milli ℕ ℕ (MosseTracker Milli ℕ) ℕ
tracker = create settings (mosse followed)

shown-IsSeen : (n : ℕ) → IsSeen vision images 0 spectra others blind (shown n)
unfolding as_mat
shown-IsSeen n = record { img = picture n; reads = refl; pixels = picture-HasPixels n }

update_frames-IsInFrame_example :
    (t : Impl Milli ℕ ℕ (MosseTracker Milli ℕ) ℕ) × ((init vision
          (correlation vision images 0 spectra others blind)
          blind
          (shown 0)
          target
          tracker
        ≡ some t)
      × ((out : List (SotResult Milli)) × ((update_frames vision images 0 spectra others blind
                (shown 1 ∷ shown 2 ∷ [])
                t
              ≡ some out)
            × ((length out ≡ 2) × All (IsInFrame images 0 spectra (pos 40) (pos 30)) out))))
unfolding create as_mat
update_frames-IsInFrame_example =
    update_frames-IsInFrame vision images 0 spectra others blind images-IsPixels Milli-IsOrdered
      (shown 0) target (shown 1 ∷ shown 2 ∷ []) tracker followed (picture 0) refl
      (picture-HasPixels 0) picture-IsWide (shown-IsSeen 1, (shown-IsSeen 2, tt)) refl refl
