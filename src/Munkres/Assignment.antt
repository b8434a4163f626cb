-- ===== src/Munkres/Assignment.antt =====
-- What `munkres_solve` promises to `match_by_iou`: no column twice, and an end with a column for each row.
use mathlib.Core.Option
use mathlib.Core.Bool.{false≢true}
use custos_tracker.Prelude.{
  ℕ, zero, suc, ◌+◌, ◌<◌, ◌≤◌, true, false, ◌||◌, ◌==◌, ==_iff, List, [], ◌∷◌, map, length,
  length-map, elem, get_or, get_elem?, Distinct, Option, none, some, ◌≡◌, refl, sym, ap, ◌∙◌, arith,
  Bool-cases, Option-cases, inl, inr,
}
use custos_tracker.Float.{Float}
use custos_tracker.Geometry.Nms.{iota}
use custos_tracker.Tbd.Assoc.{Solver}
use custos_tracker.Tbd.Assoc.Gate.{IsAssignment, columns}
use custos_tracker.Munkres.{
  Munkres, any_from, last_from, starred, all_covered, reduce, star_initial, padded, start, solve,
  row_to_col, max_size, munkres_solve,
}
use custos_tracker.Munkres.Search.{
  any_from-some, any_from-of, last_from-found, last_from-only, count_from-full,
}
use custos_tracker.Munkres.Matching.{IsMatching}
use custos_tracker.Munkres.Pigeons.{free_partner}
use custos_tracker.Munkres.Adjust.{FiniteCells}
use custos_tracker.Munkres.Loops.{Solved}
use custos_tracker.Munkres.Initial.{initial-Ready, initial-n, solve-Solved}
use custos_tracker.Munkres.Ends.{Reach, outer-ends}

nones-Distinct : {A : Type 0} (xs : List A) → Distinct (columns (map (λ x. none) xs))
nones-Distinct [] = tt
nones-Distinct (x ∷ xs) = nones-Distinct xs

get_or-Distinct :
    (o : Option (List (Option ℕ))) (cols : List (Option ℕ))
    → Distinct (columns cols)
    → ((cols' : List (Option ℕ)) → o ≡ some cols' → Distinct (columns cols'))
    → Distinct (columns (Option.get_or o cols))
get_or-Distinct none cols d h = d
get_or-Distinct (some cols') cols d h = h cols' refl

-- The columns of rows are different, if no column belongs to two rows.
module _ (g : ℕ → Option ℕ) (apart : (i i' j : ℕ) → g i ≡ some j → g i' ≡ some j → i ≡ i') where
  columns-row :
      (j i k : ℕ)
      → elem j (columns (map g (iota i k))) ≡ true
      → (x : ℕ) × ((i ≤ x) × (g x ≡ some j))
  columns-row j i zero h = absurd (false≢true h)
  columns-row j i (suc k) h = elim (Option-cases (g i)) [
    | inl e ↦ let (x, (l, q)) = columns-row j (i + 1) k (rw e at h) in (x, (omega arith, q))
    | inr (c, e) ↦
        let split : elem j (c ∷ columns (map g (iota (i + 1) k))) ≡ true = rw e at h in
        elim (Bool-cases (j == c)) [
          | inl t ↦ let same : j ≡ c = (==_iff j c).0 t in (i, (omega arith, rw same e))
          | inr t ↦
              let (x, (l, q)) = columns-row j (i + 1) k (ground (arith, split, t)) in
              (x, (omega arith, q))
        ]
  ]

  columns-Distinct : (i k : ℕ) → Distinct (columns (map g (iota i k)))
  columns-Distinct i zero = tt
  columns-Distinct i (suc k) = elim (Option-cases (g i)) [
    | inl e ↦ rw e (columns-Distinct (i + 1) k)
    | inr (c, e) ↦
        let rest = columns (map g (iota (i + 1) k)) in
        let fresh : elem c rest ≡ false = elim (Bool-cases (elem c rest)) [
          | inl t ↦
              let (x, (l, q)) = columns-row c (i + 1) k t in absurd (omega (arith, apart x i c q e))
          | inr t ↦ t
        ] in
        rw e (fresh, columns-Distinct (i + 1) k)
  ]

pub get_elem?-map-iota :
    {A : Type 0} (g : ℕ → A) (i k x : ℕ) → x < k → get_elem? (map g (iota i k)) x ≡ some (g (i + x))
get_elem?-map-iota g i zero x h = absurd (omega arith)
get_elem?-map-iota g i (suc k) zero h = ap (λ y. some (g y)) (omega arith)
get_elem?-map-iota g i (suc k) (suc x) h =
    get_elem?-map-iota g (i + 1) k x (omega arith) ∙ ap (λ y. some (g y)) (omega arith)

length-map-iota : {A : Type 0} (g : ℕ → A) (i k : ℕ) → length (map g (iota i k)) ≡ k
length-map-iota g i zero = refl
length-map-iota g i (suc k) = ap suc (length-map-iota g (i + 1) k)

module _ {F : Type 0} ⦃f : Float F⦄ (top : F) where
  -- `munkres_solve` as the solver of `match_by_iou`. A run that does not end, which has no result, stands
  -- here with no row assigned.
  abbrev pub assigned : Solver F
  assigned cost = Option.get_or (munkres_solve top cost) (map (λ row. none) cost)

  -- The state before the loops.
  abbrev pub first_state : List (List F) → Munkres F
  first_state cost =
      let rows = length cost in
      let cols = length (get_or cost 0 []) in
      star_initial (reduce top (start top (max_size top rows cols) (padded top cost rows cols)))

  row_to_col-Distinct :
      (rows cols : ℕ) (s : Munkres F)
      → IsMatching s.n s.star
      → Distinct (columns (row_to_col top rows cols s))
  row_to_col-Distinct rows cols s m =
      columns-Distinct (λ i. last_from (λ j. s.star i j) 0 cols none)
        (λ i i' j e e'. elim (last_from-found (λ x. s.star i x) cols 0 none j e) [
          | inl q ↦ cc
          | inr (q, l) ↦ elim (last_from-found (λ x. s.star i' x) cols 0 none j e') [
            | inl q' ↦ cc
            | inr (q', l') ↦ m.col i i' j q q'
          ]
        ])
        0 rows

  result-Distinct :
      (cost : List (List F)) (cols : List (Option ℕ))
      → munkres_solve top cost ≡ some cols
      → Distinct (columns cols)
  unfolding munkres_solve
  result-Distinct cost out h =
      let rows = length cost in
      let cols = length (get_or cost 0 []) in
      let n = max_size top rows cols in
      let c = padded top cost rows cols in
      elim (Bool-cases (rows == 0 || cols == 0)) [
        | inl e ↦
            let same : map (λ row. none) cost ≡ out =
              ap (λ o. Option.get_or o []) (rw (munkres_solve, e) at h) in
            rw same at (nones-Distinct cost)
        | inr e ↦ elim (Option-cases (solve top (start top n c))) [
          | inl q ↦ cc (rw (munkres_solve, e, q) at h)
          | inr (s, q) ↦
              let same : row_to_col top rows cols s ≡ out =
                ap (λ o. Option.get_or o []) (rw (munkres_solve, e, q) at h) in
              rw same at (row_to_col-Distinct rows cols s (solve-Solved top n c s q).matching)
        ]
      ]

  -- `munkres_solve` assigns no column to two rows, whatever the numbers are, NaN and infinities included: this
  -- is what `match_by_iou` relies on.
  pub munkres_solve-IsAssignment : IsAssignment assigned
  munkres_solve-IsAssignment cost =
      get_or-Distinct (munkres_solve top cost) _ (nones-Distinct cost) (result-Distinct cost)

  -- In a full matching every row has a star.
  pub Solved-row :
      (n i : ℕ) (s : Munkres F) → Solved top n s → i < n → (j : ℕ) × (s.star i j ≡ true)
  Solved-row n i s h l = elim (Bool-cases (any_from (λ j. s.star i j) 0 s.n)) [
    | inl e ↦ let (j, (q, u)) = any_from-some (λ j. s.star i j) s.n 0 e in (j, q)
    | inr e ↦
        let m = h.matching in
        let bare : (j : ℕ) → s.star i j ≡ false = λ j. elim (Bool-cases (s.star i j)) [
          | inl q ↦ absurd (
              false≢true (
                sym e
                ∙ any_from-of (λ x. s.star i x) s.n 0 j q (omega arith)
                    (omega (arith, m.col_lt i j q))))
          | inr q ↦ q
        ] in
        let (j, (lj, free)) =
          free_partner s.n (λ x y. s.star y x) (λ x x' y. m.row y x x') (λ x y. m.row_lt y x) i
            (omega (arith, h.same_n)) bare in
        let all =
          count_from-full (starred s.n s.star) s.n 0 (ground (arith, h.full)) j (omega arith)
            (omega arith) in
        let (y, (q, u)) = any_from-some (λ x. s.star x j) s.n 0 all in
        absurd (false≢true (sym (free y) ∙ q))
  ]

  -- If every cell is finite in every state of the run, that is, if its difference from itself is zero and so is
  -- that from the largest finite number unless the cell is less, then `munkres_solve` ends: it
  -- returns an entry for each row, and if there are no more rows than columns, each is a column of the matrix.
  pub munkres_solve-ends :
      (cost : List (List F))
      → ((t : Munkres F) → Reach top (first_state cost) t → FiniteCells top t)
      → (cols : List (Option ℕ)) × ((munkres_solve top cost ≡ some cols)
          × ((length cols ≡ length cost)
              × (length cost ≤ length (get_or cost 0 [])
                  → (i : ℕ) → i < length cost
                  → (j : ℕ) × ((j < length (get_or cost 0 []))
                      × (get_elem? cols i ≡ some (some j))))))
  unfolding munkres_solve solve
  munkres_solve-ends cost finite =
      let rows = length cost in
      let cols = length (get_or cost 0 []) in
      let n = max_size top rows cols in
      let c = padded top cost rows cols in
      elim (Bool-cases (rows == 0 || cols == 0)) [
        | inl e ↦ (
          map (λ row. none) cost,
          (
            rw (munkres_solve, e) refl,
            (length-map cost (λ row. none), λ l i u. absurd (ground (arith, e, l, u))),
          ),
        )
        | inr e ↦
            let (s, q) = outer-ends top (first_state cost) (initial-Ready top n c) finite in
            let done : solve top (start top n c) ≡ some s =
              ap (λ k. custos_tracker.Munkres.outer top (k + 1) (first_state cost))
                (sym (initial-n top n c))
              ∙ q in
            let end = solve-Solved top n c s done in
            (
              row_to_col top rows cols s,
              (
                rw (munkres_solve, e, done) refl,
                (
                  length-map-iota _ 0 rows,
                  λ l i u.
                      let size : n ≡ cols = ground (arith, l) in
                      let (j, on) = Solved-row n i s end (omega (arith, size)) in
                      let m = end.matching in
                      let lt : j < cols = omega (arith, m.col_lt i j on, end.same_n, size) in
                      let only =
                        last_from-only (λ x. s.star i x) cols 0 none j (omega arith) (omega arith)
                          on (λ x t. m.row i x j t on) in
                      let g : ℕ → Option ℕ = λ x. last_from (λ y. s.star x y) 0 cols none in
                      let at : 0 + i ≡ i = omega arith in
                      (
                        j,
                        (
                          lt,
                          get_elem?-map-iota g 0 rows i u ∙ ap (λ x. some (g x)) at ∙ ap some only,
                        ),
                      ),
                ),
              ),
            )
      ]
