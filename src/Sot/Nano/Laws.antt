-- ===== src/Sot/Nano/Laws.antt =====
-- What a frame makes of the siamese tracker.
use custos_tracker.Prelude.{
  ℕ, suc, ◌*◌, pos, pos_part, false, length, some, ◌≡◌, ◌⊎◌, refl, sym, Bool-cases, inl, inr,
}
use custos_tracker.Float.{Float, ◌⊗◌, ◌⊘◌, ◌<?◌, nought, fclamp, IsOrdered}
use custos_tracker.Types.{SotResult, tracking}
use custos_tracker.Subwindow.{Pixels}
use custos_tracker.Subwindow.Laws.{IsPixels}
use custos_tracker.Sot.Nano.{NanoTracker, Cell, no_cell, moved, box_of, extent}
use custos_tracker.Sot.Nano.Update.{update}
use custos_tracker.Sot.Nano.Peak.{IsPeak}
use custos_tracker.Sot.Nano.Served.{IsServed, IsAnswer, refresh-some, search-IsPeak, moved-IsServed}

module _ {F : Type 0} ⦃f : Float F⦄ where
  open f use {lit, of_int, sqrt, trunc}

  -- A value that is neither below `lo` nor above `hi`.
  abbrev pub Within : F → F → F → Type 0
  Within lo hi v = ((v <? lo) ≡ false) × ((hi <? v) ≡ false)

  pub fclamp-Within :
      IsOrdered F → (v lo hi : F) → (hi <? lo) ≡ false → Within lo hi (fclamp v lo hi)
  fclamp-Within o v lo hi h = elim (Bool-cases (v <? lo)) [
    | inl e ↦ rw e (o.lt_irrefl lo, h)
    | inr e ↦ elim (Bool-cases (hi <? v)) [
      | inl q ↦ rw (e, q) (h, o.lt_irrefl hi)
      | inr q ↦ rw (e, q) (e, q)
    ]
  ]

  -- What a frame makes of a tracker `t`, and the result.
  pub record IsMoved (t t' : NanoTracker F) (r : SotResult F) : Type 0 where
    pub frozen : t'.zf ≡ t.zf
    pub mixed : (t'.zf_mix ≡ t.zf_mix) ⊎ (length t'.zf_mix ≡ length t.zf)
    pub box : r.box ≡ box_of t'
    pub x : Within nought (of_int t.img_w) t'.pos_x
    pub y : Within nought (of_int t.img_h) t'.pos_y
    pub w : Within (lit 10 0) (of_int t.img_w) t'.sz_w
    pub h : Within (lit 10 0) (of_int t.img_h) t'.sz_h

  -- The frame of the tracker is ten pixels wide and high, or more.
  pub record IsWide (t : NanoTracker F) : Type 0 where
    pub x : (of_int t.img_w <? nought) ≡ false
    pub y : (of_int t.img_h <? nought) ≡ false
    pub w : (of_int t.img_w <? lit 10 0) ≡ false
    pub h : (of_int t.img_h <? lit 10 0) ≡ false

  moved-Within :
      IsOrdered F
      → (t : NanoTracker F) (scale : F) (b : Cell F) → IsWide t
      → let t' = moved t scale b in
        (Within nought (of_int t.img_w) t'.pos_x × Within nought (of_int t.img_h) t'.pos_y)
        × (Within (lit 10 0) (of_int t.img_w) t'.sz_w × Within (lit 10 0) (of_int t.img_h) t'.sz_h)
  unfolding moved
  moved-Within o t scale b h = (
    (fclamp-Within o _ nought _ h.x, fclamp-Within o _ nought _ h.y),
    (fclamp-Within o _ (lit 10 0) _ h.w, fclamp-Within o _ (lit 10 0) _ h.h),
  )

module _ {F Img A : Type 0} ⦃f : Float F⦄ (p : Pixels Img A) (bytes : A → ℕ → ℕ) (laws : IsPixels p)
    (img : Img) (c r : ℕ) (cols_is : p.cols img ≡ pos (suc c))
    (rows_is : p.rows img ≡ pos (suc r)) where
  open f use {lit, of_int, sqrt, trunc}

  pub update-IsMoved :
      IsOrdered F
      → (t : NanoTracker F) (k : ℕ) → IsWide t
      → IsServed t
      → trunc (extent t ⊗ lit 2 0) ≡ pos (suc k)
      → (res : SotResult F) × ((t' : NanoTracker F) × ((update p bytes img t ≡ some (res, t'))
            × (IsMoved t t' res
                × ((best : Cell F) × ((res.score ≡ best.score)
                      × ((cells : ℕ → Cell F) × (IsAnswer p bytes img t
                              (lit 127 0 ⊘ extent t)
                              (extent t ⊗ lit 2 0)
                              cells
                            × IsPeak cells no_cell
                                (pos_part t.score_size * pos_part t.score_size)
                                best)))))))
  unfolding update moved
  update-IsMoved o t k wide served e =
      let scale = lit 127 0 ⊘ extent t in
      let (best, (found, peak)) =
        search-IsPeak p bytes laws img c r cols_is rows_is o t scale (extent t ⊗ lit 2 0) k served
          e in
      let moved_t = moved t scale best in
      let res : SotResult F = record {
        box = box_of moved_t;
        score = best.score;
        state = tracking;
      } in
      let (t', (ran, (frozen, (mixed, (same, (xs, (ys, (ws, hs)))))))) =
        refresh-some p bytes laws img c r cols_is rows_is moved_t res
          (moved-IsServed t scale best served) in
      let ((x, y), (w, h)) = moved-Within o t scale best wide in
      (
        res,
        (
          t',
          (
            rw (update, found) ran,
            (
              record {
                frozen = frozen;
                mixed = mixed;
                box = sym same;
                x = rw xs x;
                y = rw ys y;
                w = rw ws w;
                h = rw hs h;
              },
              (best, (refl, peak)),
            ),
          ),
        ),
      )
