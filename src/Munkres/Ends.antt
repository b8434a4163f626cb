-- ===== src/Munkres/Ends.antt =====
-- The loops end: no path is without its prime, every adjustment opens a zero, every other round covers a row
-- more, and every pass of the outer loop stars a column more.
use mathlib.Core.Bool.{false≢true}
use custos_tracker.Prelude.{
  ℕ, zero, suc, ◌+◌, ◌<◌, ◌≤◌, Bool, true, false, ◌==◌, ==_iff, length, List, [], ◌∷◌, Option, some,
  ◌≡◌, ◌⊎◌, refl, sym, ap, ◌∙◌, arith, Bool-cases, inl, inr,
}
use custos_tracker.Float.{Float}
use custos_tracker.Munkres.{
  Munkres, starred, find_uncovered_zero, cover, all_covered, adjust, round, inner, outer, Step,
  more, augmented, count_from,
}
use custos_tracker.Munkres.Search.{
  any_from-some, any_from-of, count_from-le, count_from-lt, count_from-short, count_from-full,
}
use custos_tracker.Munkres.Matching.{IsMatching, has_row}
use custos_tracker.Munkres.Path.{Chain}
use custos_tracker.Munkres.Cover.{Covered, chain_size}
use custos_tracker.Munkres.Rounds.{Ready, Done, cover-Covered}
use custos_tracker.Munkres.Loops.{
  Done-from, Advance, longer, adjusted, ended, round-Advance, adjust-Covered, adjust-Done,
}
use custos_tracker.Munkres.Pigeons.{free_partner}
use custos_tracker.Munkres.Adjust.{FiniteCells, adjust_opens}

-- A column without a star.
abbrev FreeColumn : ℕ → (ℕ → ℕ → Bool) → Type 0
FreeColumn n star = (j : ℕ) × ((j < n) × ((i : ℕ) → star i j ≡ false))

Chain-row :
    (n : ℕ) (star prime : ℕ → ℕ → Bool) (ps : List (ℕ × ℕ)) (i : ℕ)
    → Chain n star prime ps
    → has_row i ps ≡ true
    → (j : ℕ) × (star i j ≡ true)
Chain-row n star prime [] i h e = absurd (false≢true e)
Chain-row n star prime ((r, c) ∷ ps) i (link, h) e = elim (Bool-cases (i == r)) [
  | inl q ↦ let same : i ≡ r = (==_iff i r).0 q in rw same link.starred_row
  | inr q ↦ Chain-row n star prime ps i h (ground (arith, q, e))
]

module _ {F : Type 0} (s : Munkres F) where
  -- With a column that has no star, a row and a column are uncovered.
  uncovered :
      (ps : List (ℕ × ℕ))
      → Covered s ps
      → FreeColumn s.n s.star
      → (a b : ℕ) × ((a < s.n) × ((b < s.n) × ((s.row_cov a ≡ false) × (s.col_cov b ≡ false))))
  uncovered ps h (b, (lb, free)) =
      let (a, (la, bare)) = free_partner s.n s.star h.matching.col h.matching.col_lt b lb free in
      (
        a,
        b,
        (
          la,
          (
            lb,
            (
              elim (Bool-cases (s.row_cov a)) [
                | inl q ↦
                    let (j, e) = Chain-row s.n s.star s.prime ps a h.chain (sym (h.rows a) ∙ q) in
                    absurd (false≢true (sym (bare j) ∙ e))
                | inr q ↦ q
              ],
              elim (Bool-cases (s.col_cov b)) [
                | inl q ↦
                    let (i, (e, u)) = h.cols_only b q in absurd (false≢true (sym (free i) ∙ e))
                | inr q ↦ q
              ],
            ),
          ),
        ),
      )

  -- A path stars one column more.
  Done-count :
      (s' : Munkres F)
      → Done s s'
      → count_from (starred s.n s.star) 0 s.n < count_from (starred s'.n s'.star) 0 s'.n
  Done-count s' d =
      let m = d.ready.matching in
      let p = starred s.n s.star in
      let p' = starred s.n s'.star in
      let row_in : (i j : ℕ) → s'.star i j ≡ true → i < 0 + s.n =
        λ i j e. omega (arith, m.row_lt i j e, d.same_n) in
      let (j, (bare, (x, on))) = d.grown.gains in
      let lt : j < s.n = omega (arith, m.col_lt x j on, d.same_n) in
      let before : p j ≡ false = elim (Bool-cases (p j)) [
        | inl q ↦
            let (i, (e, u)) = any_from-some (λ y. s.star y j) s.n 0 q in
            absurd (false≢true (sym (bare i) ∙ e))
        | inr q ↦ q
      ] in
      let after : p' j ≡ true =
        any_from-of (λ y. s'.star y j) s.n 0 x on (omega arith) (row_in x j on) in
      let keeps : (y : ℕ) → y < 0 + s.n → p y ≡ true → p' y ≡ true = λ y l q.
        let (i, (e, u)) = any_from-some (λ z. s.star z y) s.n 0 q in
        let (i', e') = d.grown.keeps i y e in
        any_from-of (λ z. s'.star z y) s.n 0 i' e' (omega arith) (row_in i' y e') in
      rw d.same_n (count_from-lt p p' s.n 0 j keeps (omega arith) (omega arith) before after)

module _ {F : Type 0} ⦃f : Float F⦄ (s : Munkres F) where
  free_column : IsMatching s.n s.star → all_covered s ≡ false → FreeColumn s.n s.star
  free_column m h =
      let most = count_from-le (starred s.n s.star) s.n 0 in
      let short : count_from (starred s.n s.star) 0 s.n < s.n = ground (arith, most, h) in
      let (j, (l, (u, q))) = count_from-short (starred s.n s.star) s.n 0 short in
      (
        j,
        (
          omega arith,
          λ i. elim (Bool-cases (s.star i j)) [
            | inl e ↦
                let on =
                  any_from-of (λ x. s.star x j) s.n 0 i e (omega arith)
                    (omega (arith, m.row_lt i j e)) in
                absurd (false≢true (sym q ∙ on))
            | inr e ↦ e
          ],
        ),
      )

  not_all : IsMatching s.n s.star → FreeColumn s.n s.star → all_covered s ≡ false
  not_all m (j, (lt, free)) = elim (Bool-cases (all_covered s)) [
    | inl e ↦
        let on =
          count_from-full (starred s.n s.star) s.n 0 (ground (arith, e)) j (omega arith)
            (omega arith) in
        let (i, (q, u)) = any_from-some (λ x. s.star x j) s.n 0 on in
        absurd (false≢true (sym (free i) ∙ q))
    | inr e ↦ e
  ]

module _ {F : Type 0} ⦃f : Float F⦄ (top : F) where
  -- The states of a run from a state of the outer loop on, at the starts of the inner loop's rounds. There is
  -- a round only while a column has no star.
  pub data Reach (s0 : Munkres F) : Munkres F → Type 0 where
    begin : Reach s0 (cover s0)
    next :
        (t u : Munkres F) → Reach s0 t → all_covered t ≡ false → round top t ≡ more u → Reach s0 u
    restart :
        (t u : Munkres F)
        → Reach s0 t
        → all_covered t ≡ false
        → round top t ≡ augmented (some u)
        → Reach s0 (cover u)

  module _ (s0 : Munkres F) (finite : (t : Munkres F) → Reach s0 t → FiniteCells top t) where
    -- The fuel that the inner loop needs, with one round less if a zero is there.
    abbrev Enough : ℕ → Munkres F → List (ℕ × ℕ) → Type 0
    Enough k s ps =
        (s.n + s.n + 2 ≤ k + length ps + length ps)
        ⊎ ((s.n + s.n + 1 ≤ k + length ps + length ps)
            × ((z : ℕ × ℕ) × (find_uncovered_zero s ≡ some z)))

    abbrev Result : Munkres F → Option (Munkres F) → Type 0
    Result s o = (s' : Munkres F) × ((o ≡ some s') × (Done s s' × Reach s0 (cover s')))

    inner_ends :
        (k : ℕ) (s : Munkres F) (ps : List (ℕ × ℕ))
        → Covered s ps
        → Reach s0 s
        → FreeColumn s.n s.star
        → Enough k s ps
        → Result s (inner top k s)
    unfolding inner adjust
    inner_ends zero s ps h r free (inl need) = absurd (omega (arith, chain_size s ps h))
    inner_ends zero s ps h r free (inr (need, z)) = absurd (omega (arith, chain_size s ps h))
    inner_ends (suc k) s ps h r free need =
        by (λ u ps'. inner_ends k u ps') (round top s) refl (round-Advance top s ps h) need
      where
        by :
            ((u : Munkres F) (ps' : List (ℕ × ℕ))
              → Covered u ps'
              → Reach s0 u
              → FreeColumn u.n u.star
              → Enough k u ps'
              → Result u (inner top k u))
            → (st : Step F) → round top s ≡ st
            → Advance top s ps st
            → Enough (suc k) s ps
            → Result s (elim st [ more u ↦ inner top k u | augmented o ↦ o ])
        by ih st e (longer u ps' en es l c) need' =
            let enough : u.n + u.n + 2 ≤ k + length ps' + length ps' = elim need' [
              | inl b ↦ omega (arith, en, l)
              | inr (b, z) ↦ omega (arith, en, l)
            ] in
            let (j, (lt, bare)) = free in
            let still : FreeColumn u.n u.star =
              (j, (omega (arith, en), λ i. ap (λ m. m i j) es ∙ bare i)) in
            let (s', (q, (d, r'))) =
              ih u ps' c (next s u r (not_all s h.matching free) e) still (inl enough) in
            (s', (q, (Done-from top s u s' en es d, r')))
        by ih st e (adjusted q) (inl b) =
            let (a, c, (la, (lc, (ra, cc')))) = uncovered s ps h free in
            let open_is = adjust_opens top s (finite s r) a c la lc ra cc' in
            let (s', (q, (d, r'))) =
              ih (adjust top s) ps (adjust-Covered top s ps h)
                (next s (adjust top s) r (not_all s h.matching free) e) free
                (inr (omega arith, open_is)) in
            (s', (q, (adjust-Done top s s' d, r')))
        by ih st e (adjusted q) (inr (b, (z, found))) = cc
        by ih st e (ended u d) need' = (u, (refl, (d, restart s u r (not_all s h.matching free) e)))

    outer_ends :
        (k : ℕ) (s : Munkres F)
        → Ready s
        → Reach s0 (cover s)
        → suc s.n ≤ k + count_from (starred s.n s.star) 0 s.n
        → (s' : Munkres F) × (outer top k s ≡ some s')
    unfolding outer
    outer_ends zero s h r need = absurd (omega (arith, count_from-le (starred s.n s.star) s.n 0))
    outer_ends (suc k) s h r need = elim (Bool-cases (all_covered s)) [
      | inl q ↦ (cover s, rw (outer, q) refl)
      | inr q ↦
          let free = free_column s h.matching q in
          let (u, (e, (d, r'))) =
            inner_ends (s.n + s.n + 2) (cover s) [] (cover-Covered s h) r free
              (inl (omega arith)) in
          let more =
            Done-count s u (record { same_n = d.same_n; ready = d.ready; grown = d.grown }) in
          let (s', e') = outer_ends k u d.ready r' (omega (arith, more, d.same_n)) in
          (s', rw (outer, q, e) e')
    ]

  -- With finite cells in every state of the run, the outer loop ends.
  pub outer-ends :
      (s : Munkres F)
      → Ready s
      → ((t : Munkres F) → Reach s t → FiniteCells top t)
      → (s' : Munkres F) × (outer top (s.n + 1) s ≡ some s')
  outer-ends s h finite = outer_ends s finite (s.n + 1) s h begin (omega arith)
