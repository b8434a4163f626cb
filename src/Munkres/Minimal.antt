-- ===== src/Munkres/Minimal.antt =====
-- In exact arithmetic `munkres_solve` returns an assignment of least cost.
mod Tests
use mathlib.Core.Option
use mathlib.Core.Bool.{false≢true}
use custos_tracker.Prelude.{
  ℕ, zero, suc, ◌+◌, ◌<◌, ◌≤◌, Bool, true, false, not, ◌&&◌, ◌||◌, if◌then◌else◌, ltb, ◌==◌, ==_iff,
  List, [], ◌∷◌, map, length, get_or, get_elem?, Option, none, some, ◌≡◌, ◌⊎◌, refl, sym, ap, ◌∙◌,
  arith, Bool-cases, Option-cases, inl, inr,
}
use custos_tracker.Float.{Float, ◌≤?◌, nought}
use custos_tracker.Geometry.Nms.{iota}
use custos_tracker.Munkres.{
  Munkres, first_from, last_from, padded, start, solve, row_to_col, max_size, munkres_solve,
}
use custos_tracker.Munkres.Search.{first_from-only, last_from-found, last_from-only}
use custos_tracker.Munkres.Matching.{IsMatching}
use custos_tracker.Munkres.Adjust.{FiniteCells}
use custos_tracker.Munkres.Loops.{Solved}
use custos_tracker.Munkres.Initial.{initial-Ready, initial-n, solve-Solved}
use custos_tracker.Munkres.Ends.{Reach}
use custos_tracker.Munkres.Exact.{IsExact, IsPermutation, total, total_cong, total_le, total-nought}
use custos_tracker.Munkres.Shift.{Shift-least}
use custos_tracker.Munkres.Zeros.{Reduced, initial-Reduced, outer-Reduced}
use custos_tracker.Munkres.Assignment.{
  first_state, Solved-row, get_elem?-map-iota, munkres_solve-ends,
}

-- What a row costs with the column that it is assigned, if there is such a row and it is assigned one.
abbrev pub price : {F : Type 0} ⦃f : Float F⦄ → List (List F) → ℕ → Option (Option ℕ) → F
price cost i (some (some j)) = get_or (get_or cost i []) j nought
price cost i (some none) = nought
price cost i none = nought

get_elem?-map-iota-out :
    {A : Type 0} (g : ℕ → A) (i k y : ℕ) → k ≤ y → get_elem? (map g (iota i k)) y ≡ none
get_elem?-map-iota-out g i zero y h = refl
get_elem?-map-iota-out g i (suc k) zero h = absurd (omega arith)
get_elem?-map-iota-out g i (suc k) (suc y) h = get_elem?-map-iota-out g (i + 1) k y (omega arith)

nones-price :
    {F A : Type 0} ⦃f : Float F⦄ (cost : List (List F)) (xs : List A) (i y : ℕ)
    → price cost i (get_elem? (map (λ r. none) xs) y) ≡ nought
nones-price cost [] i y = refl
nones-price cost (r ∷ xs) i zero = refl
nones-price cost (r ∷ xs) i (suc y) = nones-price cost xs i y

module _ {F : Type 0} ⦃f : Float F⦄ (x : IsExact F) (top : F)
    (top_nonneg : (nought ≤? top) ≡ true) where
  solve-Reduced :
      (n : ℕ) (c0 : ℕ → ℕ → F) (s : Munkres F)
      → solve top (start top n c0) ≡ some s
      → Reduced x top top_nonneg c0 s
  unfolding solve
  solve-Reduced n c0 s e =
      outer-Reduced x top top_nonneg c0 (n + 1) _ s (initial-Ready top n c0)
        (initial-Reduced x top top_nonneg c0 n) e

  -- The stars of a solved matrix: a permutation, of least cost.
  module _ (n : ℕ) (c0 : ℕ → ℕ → F) (s : Munkres F) (e : solve top (start top n c0) ≡ some s) where
    end : Solved top n s
    end = solve-Solved top n c0 s e

    module _ (p : ℕ → ℕ) (on : (i : ℕ) → i < n → s.star i (p i) ≡ true) where
      stars-IsPermutation : IsPermutation n p
      stars-IsPermutation = record {
        lt = λ i l. omega (arith, end.matching.col_lt i (p i) (on i l), end.same_n);
        apart = λ i j li lj q. end.matching.col i j (p j) (rw q at (on i li)) (on j lj);
      }

      pub stars-least :
          (s' : ℕ → ℕ)
          → IsPermutation n s'
          → (total n (λ i. c0 i (p i)) ≤? total n (λ i. c0 i (s' i))) ≡ true
      stars-least s' perm =
          let z = solve-Reduced n c0 s e in
          let size : s.n ≡ n = end.same_n in
          let shift = rw size at z.shift in
          let none_less : (nought ≤? total n (λ i. s.c i (s' i))) ≡ true =
            ap (λ y. y ≤? total n (λ i. s.c i (s' i)))
              (sym (total-nought x n (λ i. nought) (λ i l. refl)))
            ∙ total_le x n (λ i. nought) (λ i. s.c i (s' i))
                (λ i l.
                  z.nonneg i (s' i) (omega (arith, size)) (omega (arith, size, perm.lt i l))) in
          let zero_cost : total n (λ i. s.c i (p i)) ≡ nought =
            total-nought x n (λ i. s.c i (p i)) (λ i l. z.stars i (p i) (on i l)) in
          Shift-least x n c0 s.c shift p s' stars-IsPermutation perm
            (ap (λ y. y ≤? total n (λ i. s.c i (s' i))) zero_cost ∙ none_less)

  -- The star of a row pays for its entry in the result.
  module _ (cost : List (List F)) (s : Munkres F) (m : IsMatching s.n s.star) (i j : ℕ)
      (on : s.star i j ≡ true) where
    abbrev rows : ℕ
    rows = length cost

    entry : ℕ → ℕ → Option ℕ
    entry cols a = last_from (λ b. s.star a b) 0 cols none

    entry_out : (cols : ℕ) → ltb j cols ≡ false → entry cols i ≡ none
    unfolding entry
    entry_out cols out = elim (Option-cases (last_from (λ b. s.star i b) 0 cols none)) [
      | inl q ↦ q
      | inr (b, q) ↦ elim (last_from-found (λ b. s.star i b) cols 0 none b q) [
        | inl bad ↦ cc
        | inr (t, l) ↦ absurd (ground (arith, m.row i b j t on, l, out))
      ]
    ]

    entry_in : (cols : ℕ) → ltb j cols ≡ true → entry cols i ≡ some j
    unfolding entry
    entry_in cols into =
        last_from-only (λ b. s.star i b) cols 0 none j (omega arith) (ground (arith, into)) on
          (λ b t. m.row i b j t on)

    price-row :
        (cols : ℕ)
        → price cost i (get_elem? (row_to_col top rows cols s) i) ≡ padded top cost rows cols i j
    unfolding entry
    price-row cols = elim (Bool-cases (ltb i rows)) [
      | inr out ↦
          let q = get_elem?-map-iota-out (entry cols) 0 rows i (ground (arith, out)) in
          rw (q, out) refl
      | inl into ↦
          let at : 0 + i ≡ i = omega arith in
          let q = get_elem?-map-iota (entry cols) 0 rows i (ground (arith, into)) in
          let here : get_elem? (row_to_col top rows cols s) i ≡ some (entry cols i) =
            q ∙ ap (λ a. some (entry cols a)) at in
          elim (Bool-cases (ltb j cols)) [
            | inl c ↦ rw (here, entry_in cols c, into, c) refl
            | inr c ↦ rw (here, entry_out cols c, into, c) refl
          ]
    ]

  -- The costs of two assignments, in the square that the matrix is padded to.
  abbrev IsLeast : List (List F) → List (Option ℕ) → Type 0
  IsLeast cost cols =
      let n = max_size top (length cost) (length (get_or cost 0 [])) in
      let c = padded top cost (length cost) (length (get_or cost 0 [])) in
      (p : ℕ → ℕ)
      → IsPermutation n p
      → (total n (λ i. price cost i (get_elem? cols i)) ≤? total n (λ i. c i (p i))) ≡ true

  solved-IsLeast :
      (cost : List (List F)) (s : Munkres F)
      → solve top (
          start top
            (max_size top (length cost) (length (get_or cost 0 [])))
            (padded top cost (length cost) (length (get_or cost 0 []))))
        ≡ some s
      → IsLeast cost (row_to_col top (length cost) (length (get_or cost 0 [])) s)
  solved-IsLeast cost s e p perm =
      let rows' = length cost in
      let cols = length (get_or cost 0 []) in
      let n = max_size top rows' cols in
      let c = padded top cost rows' cols in
      let h = solve-Solved top n c s e in
      let col : ℕ → ℕ = λ i. Option.get_or (first_from (λ j. s.star i j) 0 s.n) 0 in
      let on : (i : ℕ) → i < n → s.star i (col i) ≡ true = λ i l.
        let (j, t) = Solved-row top n i s h l in
        let found =
          first_from-only (λ b. s.star i b) s.n 0 j (omega arith)
            (omega (arith, h.matching.col_lt i j t)) t (λ b q. h.matching.row i b j q t) in
        rw found t in
      let same =
        total_cong x n (λ i. price cost i (get_elem? (row_to_col top rows' cols s) i))
          (λ i. c i (col i)) (λ i l. price-row cost s h.matching i (col i) (on i l) cols) in
      ap (λ y. y ≤? total n (λ i. c i (p i))) same ∙ stars-least n c s e col on p perm

  nones-IsLeast :
      (cost : List (List F))
      → (length cost == 0 || length (get_or cost 0 []) == 0) ≡ true
      → IsLeast cost (map (λ row. none) cost)
  nones-IsLeast cost e p perm =
      let cols = length (get_or cost 0 []) in
      let n = max_size top (length cost) cols in
      let c = padded top cost (length cost) cols in
      let free : (i : ℕ) → i < n → c i (p i) ≡ nought = λ i l.
        let out : (ltb i (length cost) && ltb (p i) cols) ≡ false = ground (arith, e) in
        rw out refl in
      let left =
        total-nought x n (λ i. price cost i (get_elem? (map (λ row. none) cost) i))
          (λ i l. nones-price cost cost i i) in
      let right = total-nought x n (λ i. c i (p i)) free in rw (left, right) (x.le_refl nought)

  result-IsLeast :
      (cost : List (List F)) (out : List (Option ℕ))
      → munkres_solve top cost ≡ some out
      → IsLeast cost out
  unfolding munkres_solve
  result-IsLeast cost out h =
      let rows' = length cost in
      let cols = length (get_or cost 0 []) in
      let n = max_size top rows' cols in
      let c = padded top cost rows' cols in
      elim (Bool-cases (rows' == 0 || cols == 0)) [
        | inl e ↦
            let same : map (λ row. none) cost ≡ out =
              ap (λ o. Option.get_or o []) (rw (munkres_solve, e) at h) in
            let here = nones-IsLeast cost e in rw same at here
        | inr e ↦ elim (Option-cases (solve top (start top n c))) [
          | inl q ↦ cc (rw (munkres_solve, e, q) at h)
          | inr (s, q) ↦
              let same : row_to_col top rows' cols s ≡ out =
                ap (λ o. Option.get_or o []) (rw (munkres_solve, e, q) at h) in
              let here = solved-IsLeast cost s q in rw same at here
        ]
      ]

  -- If arithmetic is exact and none but zero is below the tolerance, the largest number is not below zero, and
  -- every cell is finite in every state of the run, then `munkres_solve` returns an assignment of least
  -- cost: no permutation of the padded square costs less.
  pub munkres_solve-IsLeast :
      (cost : List (List F))
      → ((t : Munkres F) → Reach top (first_state top cost) t → FiniteCells top t)
      → (cols : List (Option ℕ)) × ((munkres_solve top cost ≡ some cols) × IsLeast cost cols)
  munkres_solve-IsLeast cost finite =
      let (cols, (e, rest)) = munkres_solve-ends top cost finite in
      (cols, (e, result-IsLeast cost cols e))
