-- ===== src/Munkres/Zeros.antt =====
-- In exact arithmetic: the matrix of a state is a shift of the first one with no cell below zero, and the
-- stars and the primes are on zeros.
use mathlib.Core.Option
use mathlib.Core.Bool.{false≢true}
use custos_tracker.Prelude.{
  ℕ, zero, suc, ◌+◌, ◌<◌, true, false, not, ◌&&◌, if◌then◌else◌, List, [], none, some, ◌≡◌, refl,
  sym, ap, ◌∙◌, arith, Bool-cases, Option-cases, inl, inr,
}
use custos_tracker.Float.{Float, ◌⊕◌, ◌≤?◌, nought}
use custos_tracker.Munkres.{
  Munkres, Starring, put2, find_uncovered_zero, star_in_row, cover, all_covered, adjust, shifted,
  reduce, start, least_from, use_zero, round, inner, outer, star_cell, star_row, star_rows,
  star_initial, Step, more, augmented, is_zero,
}
use custos_tracker.Munkres.Cover.{Covered}
use custos_tracker.Munkres.Rounds.{Ready, Found, Augmented, cover-Covered, find-Found, augment-Done}
use custos_tracker.Munkres.Loops.{
  Advance, longer, adjusted, ended, round-Advance, adjust-Covered, inner-Done,
}
use custos_tracker.Munkres.Initial.{put2-cases}
use custos_tracker.Munkres.Adjust.{least_from-cases}
use custos_tracker.Munkres.Exact.{IsExact}
use custos_tracker.Munkres.Shift.{
  Shift, Shift-trans, less_col, least_from_le, reduce-Shift, reduce_nonneg,
}

module _ {F : Type 0} ⦃f : Float F⦄ (x : IsExact F) (top : F) (top_nonneg : (nought ≤? top) ≡ true)
    (c0 : ℕ → ℕ → F) where
  open x use {add_comm, add_assoc, add_nought, add_le, le_trans, add_sub, sub_nonneg, zero_of}

  pub record Reduced (s : Munkres F) : Type 0 where
    pub shift : Shift x s.n c0 s.c
    pub nonneg : (i j : ℕ) → i < s.n → j < s.n → (nought ≤? s.c i j) ≡ true
    pub stars : (i j : ℕ) → s.star i j ≡ true → s.c i j ≡ nought
    pub primes : (i j : ℕ) → s.prime i j ≡ true → (s.c i j ≡ nought) × (s.col_cov j ≡ false)

  -- An adjustment.
  module _ (s : Munkres F) (ps : List (ℕ × ℕ)) (h : Covered s ps) (z : Reduced s) where
    abbrev least : F
    least = least_from s top 0 s.n

    least_le :
        (i j : ℕ)
        → i < s.n
        → j < s.n
        → s.row_cov i ≡ false
        → s.col_cov j ≡ false
        → (least ≤? s.c i j) ≡ true
    least_le i j li lj = least_from_le x s top 0 s.n i j (omega arith) (omega arith) lj

    least_nonneg : (nought ≤? least) ≡ true
    least_nonneg = elim (least_from-cases s top 0 s.n) [
      | inl (same, rest) ↦ ap (λ y. nought ≤? y) same ∙ top_nonneg
      | inr (a, b, (la, (lb, (ra, (cb, same))))) ↦
          ap (λ y. nought ≤? y) same ∙ z.nonneg a b (omega arith) lb
    ]

    -- A cell in a covered row and an uncovered column, or the other way round, is the same.
    same_cell : (i j : ℕ) → s.row_cov i ≡ not (s.col_cov j) → shifted s least i j ≡ s.c i j
    same_cell i j e = elim (Bool-cases (s.col_cov j)) [
      | inl q ↦ let r : s.row_cov i ≡ false = ground (arith, e, q) in rw (q, r) refl
      | inr q ↦
          let r : s.row_cov i ≡ true = ground (arith, e, q) in rw (q, r) (add_sub (s.c i j) least)
    ]

    cell_nonneg : (i j : ℕ) → i < s.n → j < s.n → (nought ≤? shifted s least i j) ≡ true
    cell_nonneg i j li lj = elim (Bool-cases (s.row_cov i)) [
      | inl r ↦ elim (Bool-cases (s.col_cov j)) [
        | inl q ↦
            rw (r, q)
              (ap (λ y. y ≤? s.c i j ⊕ least) (sym (add_nought nought))
                ∙ add_le nought (s.c i j) nought least (z.nonneg i j li lj) least_nonneg)
        | inr q ↦ rw (r, q, add_sub (s.c i j) least) (z.nonneg i j li lj)
      ]
      | inr r ↦ elim (Bool-cases (s.col_cov j)) [
        | inl q ↦ rw (r, q) (z.nonneg i j li lj)
        | inr q ↦ rw (r, q) (sub_nonneg (s.c i j) least (least_le i j li lj r q))
      ]
    ]

    adjust-Shift : Shift x s.n s.c (shifted s least)
    adjust-Shift = record {
      p = λ i. nought;
      q = λ j. if s.col_cov j then nought else least;
      r = λ i. if s.row_cov i then least else nought;
      t = λ j. nought;
      eq = λ i j li lj. elim (Bool-cases (s.row_cov i)) [
        | inl r ↦ elim (Bool-cases (s.col_cov j)) [
          | inl q ↦
              rw (r, q)
                (ap (λ y. (s.c i j ⊕ least) ⊕ y) (add_nought nought)
                  ∙ add_nought (s.c i j ⊕ least)
                  ∙ sym (ap (λ y. s.c i j ⊕ y) (add_nought least)))
          | inr q ↦
              rw (r, q)
                (ap (λ y. y ⊕ (nought ⊕ least)) (add_sub (s.c i j) least)
                  ∙ ap (λ y. s.c i j ⊕ y) (add_comm nought least))
        ]
        | inr r ↦ elim (Bool-cases (s.col_cov j)) [
          | inl q ↦ rw (r, q) refl
          | inr q ↦ rw (r, q) (less_col x (s.c i j) least (least_le i j li lj r q))
        ]
      ];
    }

    -- A star's row or its column is covered, and not both.
    star_covers : (i j : ℕ) → s.star i j ≡ true → s.row_cov i ≡ not (s.col_cov j)
    star_covers i j e = elim (Bool-cases (s.row_cov i)) [
      | inl r ↦ elim (Bool-cases (s.col_cov j)) [
        | inl q ↦
            let (a, (e', out)) = h.cols_only j q in
            let same : a ≡ i = h.matching.col a i j e' e in
            absurd (false≢true (sym (rw same at out) ∙ r))
        | inr q ↦ rw (r, q) refl
      ]
      | inr r ↦ let q = h.cols_of i j e r in rw (r, q) refl
    ]

    pub adjust-Reduced : Reduced (adjust top s)
    unfolding adjust
    adjust-Reduced = record {
      shift = Shift-trans x s.n c0 s.c _ z.shift adjust-Shift;
      nonneg = cell_nonneg;
      stars = λ i j e. same_cell i j (star_covers i j e) ∙ z.stars i j e;
      primes = λ i j e.
          let (at, open_col) = z.primes i j e in
          let row : s.row_cov i ≡ true = h.rows i ∙ h.primes i j e in
          (same_cell i j (rw (row, open_col) refl) ∙ at, open_col);
    }

  -- A new prime.
  prime_zero :
      (s : Munkres F) (zr zc i j : ℕ)
      → Reduced s
      → Found s zr zc
      → put2 zr zc true s.prime i j ≡ true
      → (s.c i j ≡ nought) × (s.col_cov j ≡ false)
  prime_zero s zr zc i j z g e = elim (put2-cases zr zc i j s.prime e) [
    | inl (a, b) ↦ rw (a, b) (zero_of (s.c zr zc) g.zero_there, g.col_open)
    | inr o ↦ z.primes i j o
  ]

  path-Reduced :
      (s s' : Munkres F) (zr zc : ℕ) → Reduced s → Found s zr zc → Augmented s zr zc s' → Reduced s'
  path-Reduced s s' zr zc z g a = record {
    shift = rw (a.done.same_n, a.same_c) z.shift;
    nonneg = rw (a.done.same_n, a.same_c) z.nonneg;
    stars = λ i j e. ap (λ m. m i j) a.same_c ∙ elim (a.sources i j e) [
      | inl o ↦ z.stars i j o
      | inr o ↦ (prime_zero s zr zc i j z g o).0
    ];
    primes = λ i j e. absurd (false≢true (sym (a.done.ready.primes_clear i j) ∙ e));
  }

  abbrev StepReduced : Step F → Type 0
  StepReduced (more u) = Reduced u
  StepReduced (augmented none) = Unit
  StepReduced (augmented (some u)) = Reduced u

  use_zero-Reduced :
      (s : Munkres F) (ps : List (ℕ × ℕ)) (zr zc : ℕ)
      → Covered s ps
      → Found s zr zc
      → Reduced s
      → StepReduced (use_zero top zr zc s)
  unfolding use_zero
  use_zero-Reduced s ps zr zc h g z = elim (Option-cases (star_in_row s.n s.star zr)) [
    | inl q ↦
        let (s', a) = augment-Done s ps zr zc h g q in
        rw (use_zero, q, a.same) (path-Reduced s s' zr zc z g a)
    | inr (col, q) ↦
        rw (use_zero, q)
          (record {
            shift = z.shift;
            nonneg = z.nonneg;
            stars = z.stars;
            primes = λ i j e.
                let (at, open_col) = prime_zero s zr zc i j z g e in (at, ground (arith, open_col));
          })
  ]

  round-Reduced :
      (s : Munkres F) (ps : List (ℕ × ℕ)) → Covered s ps → Reduced s → StepReduced (round top s)
  unfolding round
  round-Reduced s ps h z = elim (Option-cases (find_uncovered_zero s)) [
    | inl q ↦ rw (round, q) (adjust-Reduced s ps h z)
    | inr ((zr, zc), q) ↦ rw (round, q) (use_zero-Reduced s ps zr zc h (find-Found s zr zc q) z)
  ]

  inner-Reduced :
      (k : ℕ) (s s' : Munkres F) (ps : List (ℕ × ℕ))
      → Covered s ps
      → Reduced s
      → inner top k s ≡ some s'
      → Reduced s'
  unfolding inner
  inner-Reduced zero s s' ps h z e = cc
  inner-Reduced (suc k) s s' ps h z e =
      by (λ u ps'. inner-Reduced k u s' ps') (round top s) (round-Advance top s ps h)
        (round-Reduced s ps h z) e
    where
      by :
          ((u : Munkres F) (ps' : List (ℕ × ℕ))
            → Covered u ps'
            → Reduced u
            → inner top k u ≡ some s'
            → Reduced s')
          → (st : Step F) → Advance top s ps st
          → StepReduced st
          → elim st [ more u ↦ inner top k u | augmented o ↦ o ] ≡ some s'
          → Reduced s'
      by ih st (longer u ps' en es l c) z' e' = ih u ps' c z' e'
      by ih st (adjusted q) z' e' = ih (adjust top s) ps (adjust-Covered top s ps h) z' e'
      by ih st (ended u d) z' e' =
          let same : u ≡ s' = ap (λ o. Option.get_or o u) e' in rw same at z'

  cover-Reduced : (s : Munkres F) → Ready s → Reduced s → Reduced (cover s)
  cover-Reduced s r z = record {
    shift = z.shift;
    nonneg = z.nonneg;
    stars = z.stars;
    primes = λ i j e. absurd (false≢true (sym (r.primes_clear i j) ∙ e));
  }

  pub outer-Reduced :
      (k : ℕ) (s s' : Munkres F) → Ready s → Reduced s → outer top k s ≡ some s' → Reduced s'
  unfolding outer
  outer-Reduced zero s s' r z e = cc
  outer-Reduced (suc k) s s' r z e = elim (Bool-cases (all_covered s)) [
    | inl q ↦
        let same : cover s ≡ s' = ap (λ o. Option.get_or o s) (rw (outer, q) at e) in
        let here = cover-Reduced s r z in rw same at here
    | inr q ↦ elim (Option-cases (inner top (s.n + s.n + 2) (cover s))) [
      | inl o ↦ cc (rw (outer, q, o) at e)
      | inr (u, o) ↦
          let d = inner-Done top (s.n + s.n + 2) (cover s) u [] (cover-Covered s r) o in
          let z' =
            inner-Reduced (s.n + s.n + 2) (cover s) u [] (cover-Covered s r) (cover-Reduced s r z)
              o in
          outer-Reduced k u s' d.ready z' (rw (outer, q, o) at e)
    ]
  ]

  -- The first stars are on zeros.
  abbrev OnZeros : (ℕ → ℕ → F) → Starring → Type 0
  OnZeros c t = (i j : ℕ) → t.star i j ≡ true → c i j ≡ nought

  module _ (n : ℕ) (c : ℕ → ℕ → F) where
    star_cell-OnZeros : (i j : ℕ) (t : Starring) → OnZeros c t → OnZeros c (star_cell c i j t)
    unfolding star_cell
    star_cell-OnZeros i j t h =
        elim (Bool-cases (not (t.row_used i) && not (t.col_used j) && is_zero (c i j))) [
          | inl e ↦
              let at : c i j ≡ nought = zero_of (c i j) (ground (arith, e)) in
              rw (star_cell, e)
                (λ a b q. elim (put2-cases i j a b t.star q) [
                  | inl (ea, eb) ↦ rw (ea, eb) at
                  | inr o ↦ h a b o
                ])
          | inr e ↦ rw (star_cell, e) h
        ]

    star_row-OnZeros : (i j k : ℕ) (t : Starring) → OnZeros c t → OnZeros c (star_row c i j k t)
    unfolding star_row
    star_row-OnZeros i j zero t h = h
    star_row-OnZeros i j (suc k) t h =
        star_row-OnZeros i (j + 1) k (star_cell c i j t) (star_cell-OnZeros i j t h)

    star_rows-OnZeros : (i k : ℕ) (t : Starring) → OnZeros c t → OnZeros c (star_rows n c i k t)
    unfolding star_rows
    star_rows-OnZeros i zero t h = h
    star_rows-OnZeros i (suc k) t h =
        star_rows-OnZeros (i + 1) k (star_row c i 0 n t) (star_row-OnZeros i 0 n t h)

  pub initial-Reduced : (n : ℕ) → Reduced (star_initial (reduce top (start top n c0)))
  unfolding star_initial reduce
  initial-Reduced n = record {
    shift = reduce-Shift x top n c0;
    nonneg = reduce_nonneg x top n c0;
    stars =
        star_rows-OnZeros n (reduce top (start top n c0)).c 0 n _ (λ i j e. absurd (false≢true e));
    primes = λ i j e. absurd (false≢true e);
  }
