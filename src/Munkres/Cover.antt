-- ===== src/Munkres/Cover.antt =====
-- What the inner loop keeps: the covered rows are those of the chain of primes, and a column is covered
-- exactly if its star's row is not.
use mathlib.Core.Bool.{false≢true}
use mathlib.Core.Path.{fun_ext}
use custos_tracker.Prelude.{
  ℕ, ◌<◌, ◌≤◌, Bool, true, false, ◌==◌, ==_iff, length, List, [], ◌∷◌, some, ◌≡◌, refl, sym, ap,
  ◌∙◌, arith, Bool-cases, inl, inr,
}
use custos_tracker.Munkres.{Munkres, put, put2, count_from, prime_in_row, star_in_row}
use custos_tracker.Munkres.Search.{first_from-only, count_from-lt, count_from-le}
use custos_tracker.Munkres.Matching.{IsMatching, has_row}
use custos_tracker.Munkres.Path.{Chain}

pub record Covered {F : Type 0} (s : Munkres F) (ps : List (ℕ × ℕ)) : Type 0 where
  pub matching : IsMatching s.n s.star
  pub chain : Chain s.n s.star s.prime ps
  pub rows : (i : ℕ) → s.row_cov i ≡ has_row i ps
  pub cols_of : (i j : ℕ) → s.star i j ≡ true → s.row_cov i ≡ false → s.col_cov j ≡ true
  pub cols_only :
      (j : ℕ) → s.col_cov j ≡ true → (i : ℕ) × ((s.star i j ≡ true) × (s.row_cov i ≡ false))
  pub primes : (i j : ℕ) → s.prime i j ≡ true → has_row i ps ≡ true
  pub size : length ps ≤ count_from s.row_cov 0 s.n

-- A prime in another row leaves the chain.
module _ (n : ℕ) (star prime : ℕ → ℕ → Bool) (zr zc : ℕ) where
  prime_elsewhere :
      (r : ℕ)
      → (r == zr) ≡ false
      → prime_in_row n (put2 zr zc true prime) r ≡ prime_in_row n prime r
  prime_elsewhere r e =
      let same : (λ j. put2 zr zc true prime r j) ≡ (λ j. prime r j) = fun_ext (λ j. rw e refl) in
      ap (λ p. custos_tracker.Munkres.first_from p 0 n) same

  pub Chain-prime :
      (ps : List (ℕ × ℕ))
      → has_row zr ps ≡ false
      → Chain n star prime ps
      → Chain n star (put2 zr zc true prime) ps
  Chain-prime [] h c = tt
  Chain-prime ((r, c) ∷ ps) h (link, rest) =
      let e : (zr == r) ≡ false = ground arith in
      let e' : (r == zr) ≡ false = ground arith in
      (
        record {
          fresh = link.fresh;
          earlier = link.earlier;
          found = prime_elsewhere r e' ∙ link.found;
          col_lt = link.col_lt;
          starred_row = link.starred_row;
        },
        Chain-prime ps (ground arith) rest,
      )

module _ {F : Type 0} (s : Munkres F) (ps : List (ℕ × ℕ)) (h : Covered s ps) where
  -- A star in an uncovered column has a covered row.
  pub col-earlier :
      (c : ℕ) → s.col_cov c ≡ false → (i : ℕ) → s.star i c ≡ true → has_row i ps ≡ true
  col-earlier c out i e = elim (Bool-cases (s.row_cov i)) [
    | inl q ↦ sym (h.rows i) ∙ q
    | inr q ↦ absurd (false≢true (sym out ∙ h.cols_of i c e q))
  ]

  pub chain_size : length ps ≤ s.n
  chain_size = omega (arith, h.size, count_from-le s.row_cov s.n 0)

  module _ (zr zc col : ℕ) (zr_lt : zr < s.n) (zc_lt : zc < s.n) (row_open : s.row_cov zr ≡ false)
      (col_open : s.col_cov zc ≡ false) where
    pub fresh : has_row zr ps ≡ false
    fresh = sym (h.rows zr) ∙ row_open

    primed : prime_in_row s.n (put2 zr zc true s.prime) zr ≡ some zc
    primed =
        let e : (zr == zr) ≡ true = (==_iff zr zr).1 refl in
        let e' : (zc == zc) ≡ true = (==_iff zc zc).1 refl in
        first_from-only (λ j. put2 zr zc true s.prime zr j) s.n 0 zc (omega arith) (omega arith)
          (rw (e, e') refl)
          (λ x q. elim (Bool-cases (x == zc)) [
            | inl t ↦ (==_iff x zc).0 t
            | inr t ↦ absurd (false≢true (sym fresh ∙ h.primes zr x (rw (e, t) at q)))
          ])

    -- A round that primes a zero in a row with a star: the row is covered and the star's column is not.
    pub cover_row-Covered :
        s.star zr col ≡ true
        → Covered
            (record s {
              prime = put2 zr zc true s.prime;
              row_cov = put zr true s.row_cov;
              col_cov = put col false s.col_cov;
            })
            ((zr, zc) ∷ ps)
    cover_row-Covered e = record {
      matching = h.matching;
      chain = (
        record {
          fresh = fresh;
          earlier = col-earlier zc col_open;
          found = primed;
          col_lt = zc_lt;
          starred_row = (col, e);
        },
        Chain-prime s.n s.star s.prime zr zc ps fresh h.chain,
      );
      rows = λ i. let q = h.rows i in ground (arith, q);
      cols_of = λ i j t q. elim (Bool-cases (j == col)) [
        | inl k ↦
            let same : j ≡ col = (==_iff j col).0 k in
            let own : i ≡ zr = h.matching.col i zr col (rw same at t) e in
            let on : (i == zr) ≡ true = (==_iff i zr).1 own in
            absurd (false≢true (sym q ∙ rw on refl))
        | inr k ↦ let cov = h.cols_of i j t (ground arith) in ground (arith, cov, k)
      ];
      cols_only = λ j q. elim (Bool-cases (j == col)) [
        | inl k ↦ absurd (false≢true (rw k at q))
        | inr k ↦
            let (i, (t, out)) = h.cols_only j (rw k at q) in
            (
              i,
              (
                t,
                elim (Bool-cases (i == zr)) [
                  | inl o ↦
                      let own : i ≡ zr = (==_iff i zr).0 o in
                      let same : j ≡ col = h.matching.row zr j col (rw own at t) e in
                      absurd (false≢true (sym k ∙ (==_iff j col).1 same))
                  | inr o ↦ rw o out
                ],
              ),
            )
      ];
      primes = λ i j q. elim (Bool-cases (i == zr)) [
        | inl o ↦ rw o refl
        | inr o ↦ rw o (h.primes i j (rw o at q))
      ];
      size =
          let on : (zr == zr) ≡ true = (==_iff zr zr).1 refl in
          let more =
            count_from-lt s.row_cov (put zr true s.row_cov) s.n 0 zr (λ j l q. ground (arith, q))
              (omega arith) (omega arith) row_open (rw on refl) in
          omega (arith, more, h.size);
    }
