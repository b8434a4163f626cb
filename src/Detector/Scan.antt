-- ===== src/Detector/Scan.antt =====
-- The scan by class finds for each anchor what a scan of the anchor alone finds: the highest class
-- among the best.
use custos_tracker.Prelude.{
  ℕ, zero, suc, ◌+◌, ◌*◌, ◌^◌, ◌<◌, ◌≤◌, pos, negsuc, ℤ, true, false, if◌then◌else◌, replicate, ◌∷◌,
  map, ◌≡◌, refl, sym, ◌∙◌, ap, arith, Bool-cases, inl, inr, ◌⊎◌,
}
use mathlib.Core.Bool.{false≢true}
use custos_tracker.Float.{Float, ◌≤?◌, ◌<?◌, IsOrdered}
use custos_tracker.Geometry.Nms.{iota}
use custos_tracker.Detector.{DecodeScratch, to_int16, scan_row, scan_classes}

pub record Found (F : Type 0) : Type 0 where
  pub best : F
  pub cls : ℤ

map-same : {A : Type 0} (v : A) (a n : ℕ) → map (λ i. v) (iota a n) ≡ replicate n v
map-same v a zero = refl
map-same v a (suc n) = ap (λ vs. v ∷ vs) (map-same v (a + 1) n)

module _ {F : Type 0} ⦃f : Float F⦄ where
  -- The classes of one anchor, one after the other.
  abbrev pub step : F → ℤ → Found F → Found F
  step v c s = if s.best ≤? v then record { best = v; cls = c } else s

  pub scan_anchor : (ℕ → F) → F → ℕ → Found F
  scan_anchor score conf_thr zero = record { best = conf_thr; cls = negsuc 0 }
  scan_anchor score conf_thr (suc c) = step (score c) (to_int16 c) (scan_anchor score conf_thr c)

  -- The scratch arrays of a family of results.
  abbrev pub tabulate : (ℕ → Found F) → ℕ → ℕ → DecodeScratch F
  tabulate g a n = record {
    best = map (λ i. (g i).best) (iota a n);
    best_cls = map (λ i. (g i).cls) (iota a n);
  }

  scan_row-tabulate :
      (row : ℕ → F) (c : ℤ) (g : ℕ → Found F) (a n : ℕ)
      → scan_row row c a (tabulate g a n).best (tabulate g a n).best_cls
        ≡ tabulate (λ i. step (row i) c (g i)) a n
  unfolding scan_row
  scan_row-tabulate row c g a zero = refl
  scan_row-tabulate row c g a (suc n) = elim (Bool-cases ((g a).best ≤? row a)) [
    | inl e ↦ rw (scan_row, e, scan_row-tabulate row c g (a + 1) n) refl
    | inr e ↦ rw (scan_row, e, scan_row-tabulate row c g (a + 1) n) refl
  ]

  -- The scores of an anchor in the tensor.
  abbrev pub scores_at : (ℕ → F) → ℕ → ℕ → ℕ → F
  scores_at out num_anchors a c = out ((4 + c) * num_anchors + a)

  pub scan_classes-tabulate :
      (out : ℕ → F) (num_anchors : ℕ) (conf_thr : F) (c : ℕ)
      → scan_classes out num_anchors conf_thr c
        ≡ tabulate (λ a. scan_anchor (scores_at out num_anchors a) conf_thr c) 0 num_anchors
  unfolding scan_classes scan_anchor
  scan_classes-tabulate out n thr zero =
      rw (scan_classes, map-same thr 0 n, map-same (negsuc 0) 0 n) refl
  scan_classes-tabulate out n thr (suc c) =
      rw (scan_classes, scan_classes-tabulate out n thr c)
        (scan_row-tabulate (λ a. out ((4 + c) * n + a)) (to_int16 c)
          (λ a. scan_anchor (scores_at out n a) thr c) 0 n)

pub to_int16-pos : (c : ℕ) → c < 2 ^ 15 → to_int16 c ≡ pos c
unfolding to_int16
to_int16-pos c h = ground arith

module _ {F : Type 0} ⦃f : Float F⦄ (o : IsOrdered F) (score : ℕ → F) (conf_thr : F) where
  -- No class reaches the threshold.
  abbrev pub IsNone : ℕ → Found F → Type 0
  IsNone n s =
      (s.best ≡ conf_thr) × ((s.cls ≡ negsuc 0) × ((c : ℕ) → c < n → (conf_thr ≤? score c) ≡ false))

  -- The class `k` reaches the threshold, none is higher, and no later one is level.
  abbrev pub IsBest : ℕ → Found F → ℕ → Type 0
  IsBest n s k =
      (k < n)
      × ((s.best ≡ score k)
          × ((s.cls ≡ pos k)
              × (((conf_thr ≤? score k) ≡ true)
                  × (((c : ℕ) → c < n → (score k <? score c) ≡ false)
                      × ((c : ℕ) → k < c → c < n → (score k ≤? score c) ≡ false)))))

  not_above : (u v : F) → (u ≤? v) ≡ false → (u <? v) ≡ false
  not_above u v h = elim (Bool-cases (u <? v)) [
    | inl e ↦ absurd (false≢true (sym h ∙ o.le_of_lt u v e))
    | inr e ↦ e
  ]

  le_not_lt : (u v : F) → (v ≤? u) ≡ true → (u <? v) ≡ false
  le_not_lt u v h = elim (Bool-cases (u <? v)) [
    | inl e ↦ absurd (false≢true (sym (o.lt_irrefl u) ∙ o.lt_of_lt_of_le u v u e h))
    | inr e ↦ e
  ]

  not_lt_trans : (u v w : F) → (u <? w) ≡ false → (u ≤? v) ≡ true → (v <? w) ≡ false
  not_lt_trans u v w h g = elim (Bool-cases (v <? w)) [
    | inl e ↦ absurd (false≢true (sym h ∙ o.lt_of_le_of_lt u v w g e))
    | inr e ↦ e
  ]

  split_lt : (c n : ℕ) → c < suc n → (c < n) ⊎ (c ≡ n)
  split_lt c n h = ground arith

  -- What a scan has found after `n` classes.
  abbrev pub FoundBy : ℕ → Found F → Type 0
  FoundBy n s = IsNone n s ⊎ ((k : ℕ) × IsBest n s k)

  -- A class that reaches the best so far becomes the best.
  wins :
      (n : ℕ) (s : Found F)
      → (s.best ≤? score n) ≡ true
      → FoundBy n s
      → IsBest (suc n) (record { best = score n; cls = pos n }) n
  wins n s e ok =
      let reach : (conf_thr ≤? score n) ≡ true = elim ok [
        | inl h ↦ rw h.0 at e
        | inr (k, h) ↦ o.le_trans conf_thr (score k) (score n) h.1.1.1.0 (rw h.1.0 at e)
      ] in
      (
        omega arith,
        (
          refl,
          (
            refl,
            (
              reach,
              (
                λ c hc. elim (split_lt c n hc) [
                  | inl hl ↦ elim ok [
                    | inl h ↦
                        not_lt_trans conf_thr (score n) (score c)
                          (not_above conf_thr (score c) (h.1.1 c hl)) reach
                    | inr (k, h) ↦
                        not_lt_trans (score k) (score n) (score c) (h.1.1.1.1.0 c hl)
                          (rw h.1.0 at e)
                  ]
                  | inr q ↦ rw q (o.lt_irrefl (score n))
                ],
                λ c hk hc. absurd (omega arith),
              ),
            ),
          ),
        ),
      )

  -- Another class changes nothing.
  loses : (n : ℕ) (s : Found F) → (s.best ≤? score n) ≡ false → FoundBy n s → FoundBy (suc n) s
  loses n s e (inl h) = inl (
    h.0,
    (h.1.0, λ c hc. elim (split_lt c n hc) [ inl hl ↦ h.1.1 c hl | inr q ↦ rw q (rw h.0 at e) ]),
  )
  loses n s e (inr (k, h)) = inr (
    k,
    (
      omega (arith, h.0),
      (
        h.1.0,
        (
          h.1.1.0,
          (
            h.1.1.1.0,
            (
              λ c hc. elim (split_lt c n hc) [
                | inl hl ↦ h.1.1.1.1.0 c hl
                | inr q ↦ rw q (not_above (score k) (score n) (rw h.1.0 at e))
              ],
              λ c hk hc. elim (split_lt c n hc) [
                | inl hl ↦ h.1.1.1.1.1 c hk hl
                | inr q ↦ rw q (rw h.1.0 at e)
              ],
            ),
          ),
        ),
      ),
    ),
  )

  -- The best class of a scan reaches the threshold, no class is higher, and no later one level; it is -1
  -- if no class reaches the threshold.
  pub scan_anchor-Found : (n : ℕ) → n ≤ 2 ^ 15 → FoundBy n (scan_anchor score conf_thr n)
  unfolding scan_anchor
  scan_anchor-Found zero h = inl (refl, (refl, λ c hc. absurd (omega arith)))
  scan_anchor-Found (suc n) h =
      let s = scan_anchor score conf_thr n in
      let ok = scan_anchor-Found n (omega arith) in
      elim (Bool-cases (s.best ≤? score n)) [
        | inl e ↦ rw (scan_anchor, e, to_int16-pos n (omega arith)) (inr (n, wins n s e ok))
        | inr e ↦ rw (scan_anchor, e) (loses n s e ok)
      ]
