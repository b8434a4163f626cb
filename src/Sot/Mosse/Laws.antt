-- ===== src/Sot/Mosse/Laws.antt =====
-- What the correlation filter does on images with pixels.
use mathlib.Core.Option
use custos_tracker.Prelude.{
  ℕ, suc, ◌-◌, pos, negsuc, ltb_ℤ, ℤ, max_ℤ, false, List, [], ◌∷◌, length, All, Option, none, some,
  ◌≡◌, refl, ap, ◌∙◌, arith, Bool-cases, inl, inr,
}
use custos_tracker.Float.{Float, ◌⊖◌, ◌⊗◌, ◌<?◌, ◌≤?◌, nought, one, half, fmax, IsOrdered}
use custos_tracker.Types.{BBox, SotResult}
use custos_tracker.Subwindow.{Pixels, subwindow_needs_padding, crop_subwindow}
use custos_tracker.Subwindow.Laws.{IsPixels}
use custos_tracker.Subwindow.Crops.{crop_subwindow_pad, crop_subwindow-Shows}
use custos_tracker.Sot.Nano.Laws.{Within, fclamp-Within}
use custos_tracker.Sot.Mosse.{
  Spectra, MosseTracker, Best, preprocess, side_at, grab_patch, train, augment, placed, init,
  respond, scan, moved, adapt, result_of, no_best, scales, update,
}

max_two : (x : ℤ) → (k : ℕ) × (max_ℤ (pos 2) x ≡ pos (suc k))
max_two (pos n) = elim (Bool-cases (ltb_ℤ (pos 2) (pos n))) [
  | inl e ↦ rw e (n - 1, ap pos (ground arith))
  | inr e ↦ rw e (1, refl)
]
max_two (negsuc n) = let e : ltb_ℤ (pos 2) (negsuc n) ≡ false = ground arith in rw e (1, refl)

module _ {F Img A M : Type 0} ⦃f : Float F⦄ (p : Pixels Img A) (black : A)
    (s : Spectra F Img M) where
  open f use {lit, of_int}

  -- The patch is what a crop with the image's mean for the pad value gives, although the mean is
  -- computed only if the window leaves the image.
  pub grab_patch-eq-mean :
      (m : MosseTracker F M) (img : Img) (k : F)
      → grab_patch p black s m img k
        ≡ crop_subwindow p img m.pos_x m.pos_y (side_at p black s m k) (pos 64) (p.mean img)
  unfolding grab_patch
  grab_patch-eq-mean m img k =
      elim (Bool-cases (subwindow_needs_padding p img m.pos_x m.pos_y (side_at p black s m k))) [
        | inl e ↦ rw (grab_patch, e) refl
        | inr e ↦
            rw (grab_patch, e)
              (crop_subwindow_pad p img m.pos_x m.pos_y (side_at p black s m k) (pos 64) black
                (p.mean img) e)
      ]

  -- A filter that a patch has trained.
  pub record IsTrained (m : MosseTracker F M) : Type 0 where
    pub num : (n : M) × (m.num ≡ some n)
    pub den : (d : M) × (m.den ≡ some d)

  train-IsTrained : (x : M) (lr : F) (m : MosseTracker F M) → IsTrained (train p black s x lr m)
  unfolding train
  train-IsTrained x lr m = record { num = (_, refl); den = (_, refl) }

  augment-IsTrained :
      (base : Img) (ks : List ℤ) (m : MosseTracker F M)
      → IsTrained m
      → IsTrained (augment p black s base ks m)
  unfolding augment
  augment-IsTrained base [] m h = h
  augment-IsTrained base (k ∷ ks) m h = augment-IsTrained base ks _ (train-IsTrained _ _ m)

  -- An image that is not empty.
  pub record HasPixels (img : Img) : Type 0 where
    pub c : ℕ
    pub r : ℕ
    pub cols_is : p.cols img ≡ pos (suc c)
    pub rows_is : p.rows img ≡ pos (suc r)

  -- A result in a frame of the given size: its centre is in the frame, and its size between 10 and the frame's.
  pub record IsInFrame (w h : ℤ) (res : SotResult F) : Type 0 where
    pub x : F
    pub y : F
    pub box_is : res.box ≡ record {
      x = x ⊖ res.box.w ⊗ half;
      y = y ⊖ res.box.h ⊗ half;
      w = res.box.w;
      h = res.box.h;
    }
    pub x_in : Within nought (of_int w) x
    pub y_in : Within nought (of_int h) y
    pub w_in : Within (lit 10 0) (of_int w) res.box.w
    pub h_in : Within (lit 10 0) (of_int h) res.box.h

  -- A frame of ten pixels or more each way.
  pub record IsWide (w h : ℤ) : Type 0 where
    pub x : (of_int w <? nought) ≡ false
    pub y : (of_int h <? nought) ≡ false
    pub w_wide : (of_int w <? lit 10 0) ≡ false
    pub h_wide : (of_int h <? lit 10 0) ≡ false

  -- Images one after the other.
  pub update_all : List Img → MosseTracker F M → Option (List (SotResult F))
  update_all [] m = some []
  update_all (img ∷ imgs) m = elim (update p black s img m) [
    | none ↦ none
    | some (res, m') ↦ Option.map (λ rest. res ∷ rest) (update_all imgs m')
  ]

  module _ (laws : IsPixels p) where
    grab_patch-some :
        (m : MosseTracker F M) (img : Img) (k : F)
        → HasPixels img
        → (patch : Img) × (grab_patch p black s m img k ≡ some patch)
    grab_patch-some m img k h =
        let (n, side_is) = max_two (s.lround (fmax m.sz_w m.sz_h ⊗ k)) in
        let (patch, (_, e)) =
          crop_subwindow-Shows p laws img h.c h.r h.cols_is h.rows_is m.pos_x m.pos_y n 63
            (p.mean img) in
        (
          _,
          grab_patch-eq-mean m img k
              ∙ (ap (λ side. crop_subwindow p img m.pos_x m.pos_y side (pos 64) (p.mean img))
                    side_is
                  ∙ e),
        )

    scan-some :
        (m : MosseTracker F M) (filter : M) (img : Img) (ks : List F) (best : Best F)
        → HasPixels img
        → (b : Best F) × (scan p black s m filter img ks best ≡ some b)
    unfolding scan
    scan-some m filter img [] best h = (best, refl)
    scan-some m filter img (k ∷ ks) best h =
        let (patch, e) = grab_patch-some m img k h in
        let (b, q) = scan-some m filter img ks (respond p black s m filter k patch best) h in
        (b, rw (scan, e) q)

    -- After a frame with pixels: the place is kept, and the filter too unless the peak is clear.
    adapt-some :
        (img : Img) (psr : F) (m : MosseTracker F M)
        → HasPixels img
        → IsTrained m
        → (m' : MosseTracker F M) × ((adapt p black s img psr m ≡ some m')
            × (IsTrained m'
                × ((result_of p black s psr m' ≡ result_of p black s psr m)
                    × ((m'.pos_x ≡ m.pos_x) × ((m'.img_w ≡ m.img_w) × (m'.img_h ≡ m.img_h))))))
    unfolding adapt train
    adapt-some img psr m h t = elim (Bool-cases (lit 8 0 ≤? psr)) [
      | inl e ↦
          let (patch, q) = grab_patch-some m img one h in
          (
            train p black s (preprocess p black s m patch) (lit 125 3) m,
            (rw (adapt, e, q) refl, (train-IsTrained _ _ m, (refl, (refl, (refl, refl))))),
          )
      | inr e ↦ (m, (rw (adapt, e) refl, (t, (refl, (refl, (refl, refl))))))
    ]

    moved-IsInFrame :
        IsOrdered F
        → (b : Best F) (psr : F) (m : MosseTracker F M) → IsWide m.img_w m.img_h
        → IsInFrame m.img_w m.img_h (result_of p black s psr (moved p black s b m))
    unfolding moved
    moved-IsInFrame o b psr m h = record {
      x = (moved p black s b m).pos_x;
      y = (moved p black s b m).pos_y;
      box_is = refl;
      x_in = fclamp-Within o _ nought _ h.x;
      y_in = fclamp-Within o _ nought _ h.y;
      w_in = fclamp-Within o _ (lit 10 0) _ h.w_wide;
      h_in = fclamp-Within o _ (lit 10 0) _ h.h_wide;
    }

    moved-IsTrained :
        (b : Best F) (m : MosseTracker F M) → IsTrained m → IsTrained (moved p black s b m)
    unfolding moved
    moved-IsTrained b m t = record { num = t.num; den = t.den }

    update_runs :
        (img : Img) (m m' : MosseTracker F M) (num den : M) (best : Best F)
        → m.num ≡ some num
        → m.den ≡ some den
        → scan p black s m
            (s.div_spectrums num (s.add_real den (lit 1 5)))
            img
            (scales p black s)
            (no_best p black s)
          ≡ some best
        → adapt p black s img best.psr (moved p black s best m) ≡ some m'
        → update p black s img m ≡ some (result_of p black s best.psr m', m')
    unfolding update
    update_runs img m m' num den best n d found ran = rw (update, n, d, found, ran) refl

    pub update-some :
        IsOrdered F
        → (img : Img) (m : MosseTracker F M) → HasPixels img
        → IsTrained m
        → IsWide m.img_w m.img_h
        → (res : SotResult F) × ((m' : MosseTracker F M) × ((update p black s img m
                ≡ some (res, m'))
              × (IsTrained m'
                  × (IsInFrame m.img_w m.img_h res
                      × ((m'.img_w ≡ m.img_w) × (m'.img_h ≡ m.img_h))))))
    unfolding moved
    update-some o img m h t wide =
        let (num, n) = t.num in
        let (den, d) = t.den in
        let (best, found) =
          scan-some m (s.div_spectrums num (s.add_real den (lit 1 5))) img (scales p black s)
            (no_best p black s) h in
        let placed_m = moved p black s best m in
        let (m', (ran, (trained, (same, (_, (ws, hs)))))) =
          adapt-some img best.psr placed_m h (moved-IsTrained best m t) in
        (
          result_of p black s best.psr m',
          (
            m',
            (
              update_runs img m m' num den best n d found ran,
              (trained, (rw same (moved-IsInFrame o best best.psr m wide), (ws, hs))),
            ),
          ),
        )

    update_all-some :
        IsOrdered F
        → (w h : ℤ) → IsWide w h
        → (imgs : List Img) (m : MosseTracker F M) → All HasPixels imgs
        → IsTrained m
        → m.img_w ≡ w
        → m.img_h ≡ h
        → (out : List (SotResult F)) × ((update_all imgs m ≡ some out)
            × ((length out ≡ length imgs) × All (IsInFrame w h) out))
    unfolding update_all
    update_all-some o w h wide [] m pixels t we he = ([], (refl, (refl, tt)))
    update_all-some o w h wide (img ∷ imgs) m pixels t we he =
        let (res, (m', (e, (t', (here, (ws, hs)))))) =
          update-some o img m pixels.0 t (rw (we, he) wide) in
        let (rest, (q, (len, all))) =
          update_all-some o w h wide imgs m' pixels.1 t' (ws ∙ we) (hs ∙ he) in
        (res ∷ rest, (rw (update_all, e, q) refl, (ap suc len, (rw (we, he) at here, all))))

    -- A target in an image with pixels.
    pub init-IsTrained :
        (img : Img) (target : BBox F)
        → HasPixels img
        → (m : MosseTracker F M) × ((init p black s img target ≡ some m)
            × (IsTrained m × ((m.img_w ≡ p.cols img) × (m.img_h ≡ p.rows img))))
    unfolding init placed train augment
    init-IsTrained img target h =
        let start = placed p black s img target in
        let (base, e) = grab_patch-some start img one h in
        let first = train p black s (preprocess p black s start base) one start in
        (
          augment p black s base (negsuc 3 ∷ negsuc 1 ∷ pos 2 ∷ pos 4 ∷ []) first,
          (
            rw (init, e) refl,
            (
              augment-IsTrained base (negsuc 3 ∷ negsuc 1 ∷ pos 2 ∷ pos 4 ∷ []) first
                  (train-IsTrained (preprocess p black s start base) one start),
              (refl, refl),
            ),
          ),
        )

    pub update_all-IsInFrame :
        IsOrdered F
        → (img : Img) (target : BBox F) (imgs : List Img) → HasPixels img
        → IsWide (p.cols img) (p.rows img)
        → All HasPixels imgs
        → (m : MosseTracker F M) × ((init p black s img target ≡ some m)
            × ((out : List (SotResult F)) × ((update_all imgs m ≡ some out)
                  × ((length out ≡ length imgs) × All (IsInFrame (p.cols img) (p.rows img)) out))))
    update_all-IsInFrame o img target imgs h wide pixels =
        let (m, (e, (t, (ws, hs)))) = init-IsTrained img target h in
        (m, (e, update_all-some o (p.cols img) (p.rows img) wide imgs m pixels t ws hs))
