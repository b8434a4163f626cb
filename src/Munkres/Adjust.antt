-- ===== src/Munkres/Adjust.antt =====
-- An adjustment makes a zero of the least uncovered cell.
use mathlib.Core.Bool.{false≢true}
use custos_tracker.Prelude.{
  ℕ, zero, suc, ◌+◌, ◌<◌, ◌≤◌, true, false, ◌==◌, ==_iff, none, some, ◌≡◌, ◌⊎◌, refl, sym, ap, ◌∙◌,
  arith, Bool-cases, Option-cases, inl, inr,
}
use custos_tracker.Float.{Float, ◌⊖◌, ◌<?◌}
use custos_tracker.Munkres.{
  Munkres, first_from, find_from, find_uncovered_zero, open_zero, least_in_row, least_from, adjust,
  is_zero,
}
use custos_tracker.Munkres.Search.{first_from-missing}

module _ {F : Type 0} ⦃f : Float F⦄ where
  -- A minimum is what it starts from, if no cell is less, or a cell.
  module _ (s : Munkres F) where
    least_in_row-cases :
        (i : ℕ) (e : F) (j k : ℕ)
        → ((least_in_row s i e j k ≡ e)
            × ((b : ℕ) → j ≤ b → b < j + k → s.col_cov b ≡ false → (s.c i b <? e) ≡ false))
          ⊎ ((b : ℕ) × ((b < j + k) × ((s.col_cov b ≡ false) × (least_in_row s i e j k ≡ s.c i b))))
    unfolding least_in_row
    least_in_row-cases i e j zero = inl (refl, λ b l u. absurd (omega arith))
    least_in_row-cases i e j (suc k) = elim (Bool-cases (s.col_cov j)) [
      | inl q ↦ elim (least_in_row-cases i e (j + 1) k) [
        | inl (same, over_all) ↦ inl (
          rw (least_in_row, q) same,
          λ b l u out. elim (Bool-cases (j == b)) [
            | inl t ↦
                let at : j ≡ b = (==_iff j b).0 t in absurd (false≢true (sym out ∙ (rw at at q)))
            | inr t ↦ over_all b (ground arith) (omega arith) out
          ],
        )
        | inr (b, (u, (out, same))) ↦ inr (b, (omega arith, (out, rw (least_in_row, q) same)))
      ]
      | inr q ↦ elim (Bool-cases (s.c i j <? e)) [
        | inl t ↦ elim (least_in_row-cases i (s.c i j) (j + 1) k) [
          | inl (same, over_all) ↦ inr (j, (omega arith, (q, rw (least_in_row, q, t) same)))
          | inr (b, (u, (out, same))) ↦ inr (b, (omega arith, (out, rw (least_in_row, q, t) same)))
        ]
        | inr t ↦ elim (least_in_row-cases i e (j + 1) k) [
          | inl (same, over_all) ↦ inl (
            rw (least_in_row, q, t) same,
            λ b l u out. elim (Bool-cases (j == b)) [
              | inl w ↦ let at : j ≡ b = (==_iff j b).0 w in rw at at t
              | inr w ↦ over_all b (ground arith) (omega arith) out
            ],
          )
          | inr (b, (u, (out, same))) ↦ inr (b, (omega arith, (out, rw (least_in_row, q, t) same)))
        ]
      ]
    ]

    pub least_from-cases :
        (e : F) (i k : ℕ)
        → ((least_from s e i k ≡ e)
            × ((a b : ℕ)
                → i ≤ a
                → a < i + k
                → b < s.n
                → s.row_cov a ≡ false
                → s.col_cov b ≡ false
                → (s.c a b <? e) ≡ false))
          ⊎ ((a b : ℕ) × ((a < i + k)
                × ((b < s.n)
                    × ((s.row_cov a ≡ false)
                        × ((s.col_cov b ≡ false) × (least_from s e i k ≡ s.c a b))))))
    unfolding least_from
    least_from-cases e i zero = inl (refl, λ a b l u. absurd (omega arith))
    least_from-cases e i (suc k) = elim (Bool-cases (s.row_cov i)) [
      | inl q ↦ elim (least_from-cases e (i + 1) k) [
        | inl (same, over_all) ↦ inl (
          rw (least_from, q) same,
          λ a b l u v ra cb. elim (Bool-cases (i == a)) [
            | inl t ↦
                let at : i ≡ a = (==_iff i a).0 t in absurd (false≢true (sym ra ∙ (rw at at q)))
            | inr t ↦ over_all a b (ground arith) (omega arith) v ra cb
          ],
        )
        | inr (a, b, (u, (v, (r, (c, same))))) ↦
            inr (a, b, (omega arith, (v, (r, (c, rw (least_from, q) same)))))
      ]
      | inr q ↦
          let e' = least_in_row s i e 0 s.n in
          elim (least_from-cases e' (i + 1) k) [
            | inr (a, b, (u, (v, (r, (c, same))))) ↦
                inr (a, b, (omega arith, (v, (r, (c, rw (least_from, q) same)))))
            | inl (same, over_all) ↦ elim (least_in_row-cases i e 0 s.n) [
              | inr (b, (u, (out, here))) ↦
                  inr (
                    i,
                    b,
                    (omega arith, (omega arith, (q, (out, rw (least_from, q) (same ∙ here))))),
                  )
              | inl (here, none_less) ↦ inl (
                rw (least_from, q) (same ∙ here),
                λ a b l u v ra cb. elim (Bool-cases (i == a)) [
                  | inl t ↦
                      let at : i ≡ a = (==_iff i a).0 t in
                      rw at at (none_less b (omega arith) (omega arith) cb)
                  | inr t ↦ rw here at (over_all a b (ground arith) (omega arith) v ra cb)
                ],
              )
            ]
          ]
    ]

    -- If no zero is found, no uncovered cell is one.
    find_from-missing :
        (i k : ℕ)
        → find_from s i k ≡ none
        → (a b : ℕ) → i ≤ a
        → a < i + k
        → b < s.n
        → s.row_cov a ≡ false
        → open_zero s a b ≡ false
    unfolding find_from
    find_from-missing i zero h a b l u v ra = absurd (omega arith)
    find_from-missing i (suc k) h a b l u v ra = elim (Bool-cases (i == a)) [
      | inl t ↦
          let at : i ≡ a = (==_iff i a).0 t in
          let q : s.row_cov i ≡ false = rw at ra in
          elim (Option-cases (first_from (open_zero s i) 0 s.n)) [
            | inl o ↦
                rw at at (first_from-missing (open_zero s i) s.n 0 o b (omega arith) (omega arith))
            | inr (j, o) ↦ cc (rw (find_from, q, o) at h)
          ]
      | inr t ↦ elim (Bool-cases (s.row_cov i)) [
        | inl q ↦
            find_from-missing (i + 1) k (rw (find_from, q) at h) a b (ground arith) (omega arith) v
              ra
        | inr q ↦ elim (Option-cases (first_from (open_zero s i) 0 s.n)) [
          | inl o ↦
              find_from-missing (i + 1) k (rw (find_from, q, o) at h) a b (ground arith)
                (omega arith) v ra
          | inr (j, o) ↦ cc (rw (find_from, q, o) at h)
        ]
      ]
    ]

  -- What a finite cell is: its difference from itself is zero, and if it is not less than the largest finite
  -- number, its difference from that.
  abbrev pub FiniteCells : F → Munkres F → Type 0
  FiniteCells top s =
      (i j : ℕ)
      → i < s.n
      → j < s.n
      → (is_zero (s.c i j ⊖ s.c i j) ≡ true)
        × ((s.c i j <? top) ≡ false → is_zero (s.c i j ⊖ top) ≡ true)

  module _ (top : F) (s : Munkres F) where
    adjusted_cell :
        (a b : ℕ)
        → s.row_cov a ≡ false
        → s.col_cov b ≡ false
        → (adjust top s).c a b ≡ s.c a b ⊖ least_from s top 0 s.n
    unfolding adjust
    adjusted_cell a b ra cb = rw (ra, cb) refl

    -- An uncovered zero, somewhere.
    zero_opens :
        FiniteCells top s
        → (a b : ℕ) → a < s.n
        → b < s.n
        → s.row_cov a ≡ false
        → s.col_cov b ≡ false
        → (a' b' : ℕ) × ((a' < s.n)
            × ((b' < s.n)
                × ((s.row_cov a' ≡ false)
                    × ((s.col_cov b' ≡ false)
                        × (is_zero (s.c a' b' ⊖ least_from s top 0 s.n) ≡ true)))))
    zero_opens fin a b la lb ra cb = elim (least_from-cases s top 0 s.n) [
      | inl (same, over_all) ↦
          let less = over_all a b (omega arith) (omega arith) lb ra cb in
          (a, b, (la, (lb, (ra, (cb, rw same ((fin a b la lb).1 less))))))
      | inr (a', b', (u, (v, (r, (c, same))))) ↦
          let in_range : a' < s.n = omega arith in
          (a', b', (in_range, (v, (r, (c, rw same (fin a' b' in_range v).0)))))
    ]

    -- After an adjustment a zero is found, if a row and a column are uncovered.
    pub adjust_opens :
        FiniteCells top s
        → (a b : ℕ) → a < s.n
        → b < s.n
        → s.row_cov a ≡ false
        → s.col_cov b ≡ false
        → (z : ℕ × ℕ) × (find_uncovered_zero (adjust top s) ≡ some z)
    unfolding adjust
    adjust_opens fin a b la lb ra cb =
        let (a', b', (la', (lb', (r, (c, zero_is))))) = zero_opens fin a b la lb ra cb in
        let cell = adjusted_cell a' b' r c in
        elim (Option-cases (find_uncovered_zero (adjust top s))) [
          | inl q ↦
              let missing =
                find_from-missing (adjust top s) 0 s.n q a' b' (omega arith) (omega arith) lb' r in
              let zero_here : is_zero ((adjust top s).c a' b') ≡ true = ap is_zero cell ∙ zero_is in
              absurd (ground (arith, missing, zero_here, c))
          | inr z ↦ z
        ]
