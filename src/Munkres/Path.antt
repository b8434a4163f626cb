-- ===== src/Munkres/Path.antt =====
-- The path from an uncovered zero: each prime's column was uncovered when it was set, so a star in it has a
-- row that was covered before, and the path goes from prime to earlier prime.
use mathlib.Core.Bool.{false≢true}
use custos_tracker.Prelude.{
  ℕ, zero, suc, ◌<◌, Bool, true, false, ◌==◌, ==_iff, length, List, [], ◌∷◌, some, ◌≡◌, ◌⊎◌, refl,
  sym, ◌∙◌, arith, Bool-cases, inl, inr,
}
use custos_tracker.Munkres.{prime_in_row, path_from}
use custos_tracker.Munkres.Search.{first_from-none, first_from-only, first_from-found}
use custos_tracker.Munkres.Matching.{IsMatching, has_row, has_col, over, cells, Alternates}

-- A covered row with its prime, after those of `ps`.
pub record Link (n : ℕ) (star prime : ℕ → ℕ → Bool) (r c : ℕ) (ps : List (ℕ × ℕ)) : Type 0 where
  pub fresh : has_row r ps ≡ false
  pub earlier : (i : ℕ) → star i c ≡ true → has_row i ps ≡ true
  pub found : prime_in_row n prime r ≡ some c
  pub col_lt : c < n
  pub starred_row : (j : ℕ) × (star r j ≡ true)

-- The covered rows with their primes, the last one first.
abbrev pub Chain : ℕ → (ℕ → ℕ → Bool) → (ℕ → ℕ → Bool) → List (ℕ × ℕ) → Type 0
Chain n star prime [] = Unit
Chain n star prime ((r, c) ∷ ps) = Link n star prime r c ps × Chain n star prime ps

module _ (n : ℕ) (star prime : ℕ → ℕ → Bool) (m : IsMatching n star) where
  -- A column whose star is in no row of the chain is none of its columns.
  Chain-has_col :
      (ps : List (ℕ × ℕ)) (x d : ℕ)
      → Chain n star prime ps
      → star x d ≡ true
      → has_row x ps ≡ false
      → has_col d ps ≡ false
  Chain-has_col [] x d h e out = refl
  Chain-has_col ((r, c) ∷ ps) x d (link, h) e out = elim (Bool-cases (d == c)) [
    | inl q ↦
        let same : d ≡ c = (==_iff d c).0 q in
        let inside : has_row x ps ≡ true = link.earlier x (rw same at e) in ground arith
    | inr q ↦ let ih = Chain-has_col ps x d h e (ground arith) in ground arith
  ]

  -- A path from a column, as a part of the chain.
  pub record Trace (ps : List (ℕ × ℕ)) (c : ℕ) : Type 0 where
    pub l : List (ℕ × ℕ)
    pub alternates : Alternates n star c l
    pub rows : (i : ℕ) → has_row i ps ≡ false → has_row i l ≡ false
    pub cols : (j : ℕ) → has_col j ps ≡ false → has_col j l ≡ false
    pub sources : (i j : ℕ) → over l star i j ≡ true → (star i j ≡ true) ⊎ (prime i j ≡ true)
    pub path : (k : ℕ) → length ps < k → path_from n star prime k c ≡ some (cells c l)

  no_star : (c : ℕ) → ((i : ℕ) → star i c ≡ false) → Trace [] c
  unfolding path_from
  no_star c none_is = record {
    l = [];
    alternates = none_is;
    rows = λ i h. h;
    cols = λ j h. h;
    sources = λ i j e. inl e;
    path = path;
  }
    where
      path : (k : ℕ) → 0 < k → path_from n star prime k c ≡ some []
      path zero h = absurd (omega arith)
      path (suc k) h =
          let e = first_from-none (λ i. star i c) n 0 (λ i l. none_is i) in rw (path_from, e) refl

  next :
      (ps : List (ℕ × ℕ)) (r c' c : ℕ)
      → Chain n star prime ((r, c') ∷ ps)
      → star r c ≡ true
      → Trace ps c'
      → Trace ((r, c') ∷ ps) c
  unfolding path_from
  next ps r c' c (link, h) e t =
      let other : (c == c') ≡ false = elim (Bool-cases (c == c')) [
        | inl q ↦
            let same : c ≡ c' = (==_iff c c').0 q in
            absurd (false≢true (sym link.fresh ∙ link.earlier r (rw same at e)))
        | inr q ↦ q
      ] in
      let apart = t.cols c (Chain-has_col ps r c h e link.fresh) in
      record {
        l = (r, c') ∷ t.l;
        alternates = (e, (t.rows r link.fresh, ((ground arith), (link.col_lt, t.alternates))));
        rows = λ i q. let a = t.rows i (ground arith) in ground arith;
        cols = λ j q. let a = t.cols j (ground arith) in ground arith;
        sources = λ i j e'. elim (Bool-cases (i == r)) [
          | inl q ↦
              let at_r : i ≡ r = (==_iff i r).0 q in
              let at_c : j ≡ c' = (==_iff j c').0 (rw q at e') in
              inr (rw (at_r, at_c) (first_from-found (λ x. prime r x) n 0 c' link.found).0)
          | inr q ↦ t.sources i j (rw q at e')
        ];
        path = path;
      }
    where
      path :
          (k : ℕ)
          → suc (length ps) < k
          → path_from n star prime k c ≡ some ((r, c) ∷ (r, c') ∷ cells c' t.l)
      path zero l = absurd (omega arith)
      path (suc k) l =
          let one =
            first_from-only (λ i. star i c) n 0 r (omega arith) (omega (arith, m.row_lt r c e)) e
              (λ x q. m.col x r c q e) in
          rw (path_from, one, link.found, t.path k (omega arith)) refl

  pub trace :
      (ps : List (ℕ × ℕ)) (c : ℕ)
      → Chain n star prime ps
      → ((i : ℕ) → star i c ≡ true → has_row i ps ≡ true)
      → Trace ps c
  trace [] c h earlier =
      no_star c (λ i. elim (Bool-cases (star i c)) [
        | inl e ↦ absurd (false≢true (earlier i e))
        | inr e ↦ e
      ])
  trace ((r, c') ∷ ps) c (link, h) earlier = elim (Bool-cases (star r c)) [
    | inl e ↦ next ps r c' c (link, h) e (trace ps c' h link.earlier)
    | inr e ↦
        let t = trace ps c h (λ i s. elim (Bool-cases (i == r)) [
          | inl q ↦
              let same : i ≡ r = (==_iff i r).0 q in absurd (false≢true (sym e ∙ (rw same at s)))
          | inr q ↦ let inside = earlier i s in ground arith
        ]) in
        record {
          l = t.l;
          alternates = t.alternates;
          rows = λ i q. t.rows i (ground arith);
          cols = λ j q. t.cols j (ground arith);
          sources = t.sources;
          path = λ k l. t.path k (omega arith);
        }
  ]
