-- ===== src/Munkres/Rounds.antt =====
-- A round of the inner loop: it primes a zero and covers its row, or adjusts the matrix, or ends with a path
-- that gives one more star.
use mathlib.Core.Option
use mathlib.Core.Bool.{false≢true}
use custos_tracker.Prelude.{
  ℕ, zero, suc, ◌+◌, ◌<◌, ◌≤◌, Bool, true, false, List, [], ◌∷◌, Option, none, some, ◌≡◌, refl, sym,
  ap, ◌∙◌, ◌⊎◌, ◌==◌, arith, Bool-cases, Option-cases, inl, inr,
}
use custos_tracker.Float.{Float}
use custos_tracker.Munkres.{
  Munkres, put2, first_from, find_from, find_uncovered_zero, open_zero, star_in_row, cover, augment,
  is_zero,
}
use custos_tracker.Munkres.Search.{first_from-found, first_from-missing, any_from-some, any_from-of}
use custos_tracker.Munkres.Matching.{
  IsMatching, over, over_new-IsMatching, flip-over_new, over_new-keeps, over_new-gains,
}
use custos_tracker.Munkres.Path.{trace}
use custos_tracker.Munkres.Cover.{Covered, Chain-prime, col-earlier, chain_size, fresh}

-- A state of the outer loop, with the covers and the primes cleared.
pub record Ready {F : Type 0} (s : Munkres F) : Type 0 where
  pub matching : IsMatching s.n s.star
  pub rows_clear : (i : ℕ) → s.row_cov i ≡ false
  pub primes_clear : (i j : ℕ) → s.prime i j ≡ false

-- Every column keeps a star, and a column without one gets one.
pub record Grown (star star' : ℕ → ℕ → Bool) : Type 0 where
  pub keeps : (i j : ℕ) → star i j ≡ true → (x : ℕ) × (star' x j ≡ true)
  pub gains : (j : ℕ) × (((i : ℕ) → star i j ≡ false) × ((x : ℕ) × (star' x j ≡ true)))

-- What a path makes of a state.
pub record Done {F : Type 0} (s s' : Munkres F) : Type 0 where
  pub same_n : s'.n ≡ s.n
  pub ready : Ready s'
  pub grown : Grown s.star s'.star

module _ {F : Type 0} ⦃f : Float F⦄ where
  pub cover-Covered : (s : Munkres F) → Ready s → Covered (cover s) []
  cover-Covered s r = record {
    matching = r.matching;
    chain = tt;
    rows = r.rows_clear;
    cols_of = λ i j e q.
        any_from-of (λ x. s.star x j) s.n 0 i e (omega arith)
          (omega (arith, r.matching.row_lt i j e));
    cols_only = λ j q.
        let (i, (e, u)) = any_from-some (λ x. s.star x j) s.n 0 q in (i, (e, r.rows_clear i));
    primes = λ i j q. absurd (false≢true (sym (r.primes_clear i j) ∙ q));
    size = omega arith;
  }

  -- A zero that is found is uncovered.
  pub record Found (s : Munkres F) (zr zc : ℕ) : Type 0 where
    pub row_lt : zr < s.n
    pub col_lt : zc < s.n
    pub row_open : s.row_cov zr ≡ false
    pub col_open : s.col_cov zc ≡ false
    pub zero_there : is_zero (s.c zr zc) ≡ true

  find_from-Found :
      (s : Munkres F) (k i zr zc : ℕ)
      → i + k ≤ s.n
      → find_from s i k ≡ some (zr, zc)
      → Found s zr zc
  unfolding find_from
  find_from-Found s zero i zr zc l h = cc
  find_from-Found s (suc k) i zr zc l h = elim (Bool-cases (s.row_cov i)) [
    | inl e ↦ find_from-Found s k (i + 1) zr zc (omega arith) (rw (find_from, e) at h)
    | inr e ↦ elim (Option-cases (first_from (open_zero s i) 0 s.n)) [
      | inl q ↦ find_from-Found s k (i + 1) zr zc (omega arith) (rw (find_from, e, q) at h)
      | inr (j, q) ↦
          let both : Path (Option (ℕ × ℕ)) (some (i, j)) (some (zr, zc)) =
            rw (find_from, e, q) at h in
          let at_i : i ≡ zr = ap (λ o. (Option.get_or {A = ℕ × ℕ} o (i, j)).0) both in
          let at_j : j ≡ zc = ap (λ o. (Option.get_or {A = ℕ × ℕ} o (i, j)).1) both in
          let (z, (b, u)) = first_from-found (open_zero s i) s.n 0 j q in
          let out : s.col_cov j ≡ false = ground (arith, z) in
          let zero_at : is_zero (s.c i j) ≡ true = ground (arith, z) in
          record {
            row_lt = omega (arith, at_i);
            col_lt = omega (arith, at_j, u);
            row_open = rw at_i at e;
            col_open = rw at_j at out;
            zero_there = rw (at_i, at_j) at zero_at;
          }
    ]
  ]

  pub find-Found :
      (s : Munkres F) (zr zc : ℕ) → find_uncovered_zero s ≡ some (zr, zc) → Found s zr zc
  find-Found s zr zc h = find_from-Found s s.n 0 zr zc (omega arith) h

  -- What a path does: a new star was a star or a prime before, and the matrix is the same.
  pub record Augmented (s : Munkres F) (zr zc : ℕ) (s' : Munkres F) : Type 0 where
    pub same : augment zr zc (record s { prime = put2 zr zc true s.prime }) ≡ some s'
    pub done : Done s s'
    pub same_c : s'.c ≡ s.c
    pub sources :
        (i j : ℕ) → s'.star i j ≡ true → (s.star i j ≡ true) ⊎ (put2 zr zc true s.prime i j ≡ true)

  -- A path from a zero in a row without a star.
  pub augment-Done :
      (s : Munkres F) (ps : List (ℕ × ℕ)) (zr zc : ℕ)
      → Covered s ps
      → Found s zr zc
      → star_in_row s.n s.star zr ≡ none
      → (s' : Munkres F) × Augmented s zr zc s'
  unfolding augment
  augment-Done s ps zr zc h z none_is =
      let clear = fresh s ps h zr zc 0 z.row_lt z.col_lt z.row_open z.col_open in
      let chain = Chain-prime s.n s.star s.prime zr zc ps clear h.chain in
      let t =
        trace s.n s.star (put2 zr zc true s.prime) h.matching ps zc chain
          (col-earlier s ps h zc z.col_open) in
      let path = t.path (s.n + 1) (omega (arith, chain_size s ps h)) in
      let bare : (j : ℕ) → s.star zr j ≡ false = λ j. elim (Bool-cases (s.star zr j)) [
        | inl e ↦
            let no =
              first_from-missing (λ x. s.star zr x) s.n 0 none_is j (omega arith)
                (omega (arith, h.matching.col_lt zr j e)) in
            absurd (false≢true (sym no ∙ e))
        | inr e ↦ e
      ] in
      let apart = t.rows zr clear in
      let flips = flip-over_new s.n s.star h.matching t.l zr zc t.alternates apart bare in
      let end : Munkres F = record s {
        star = over ((zr, zc) ∷ t.l) s.star;
        prime = λ i j. false;
        row_cov = λ i. false;
        col_cov = λ j. false;
      } in
      let into : (i j : ℕ)
          → over ((zr, zc) ∷ t.l) s.star i j ≡ true
          → (s.star i j ≡ true) ⊎ (put2 zr zc true s.prime i j ≡ true) =
        λ i j e. elim (Bool-cases (i == zr)) [
          | inl q ↦ let q' : (j == zc) ≡ true = rw q at e in inr (rw (q, q') refl)
          | inr q ↦ t.sources i j (rw q at e)
        ] in
      (
        end,
        record {
          same = rw (augment, path) (ap (λ m. some (record end { star = m })) flips);
          done = record {
            same_n = refl;
            ready = record {
              matching =
                  over_new-IsMatching s.n s.star h.matching t.l zr zc z.row_lt z.col_lt
                    t.alternates;
              rows_clear = λ i. refl;
              primes_clear = λ i j. refl;
            };
            grown = record {
              keeps = λ i j e.
                  over_new-keeps s.n s.star h.matching t.l zr zc i j t.alternates apart bare e;
              gains = over_new-gains s.n s.star h.matching t.l zr zc t.alternates apart;
            };
          };
          same_c = refl;
          sources = into;
        },
      )
