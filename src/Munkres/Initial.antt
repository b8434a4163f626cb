-- ===== src/Munkres/Initial.antt =====
-- The first stars are a matching, and what `solve` returns is one that covers every column.
use mathlib.Core.Bool.{false≢true}
use custos_tracker.Prelude.{
  ℕ, zero, suc, ◌+◌, ◌<◌, ◌≤◌, Bool, true, false, not, ◌&&◌, ◌==◌, ==_iff, some, ◌≡◌, ◌⊎◌, refl,
  sym, ◌∙◌, arith, Bool-cases, inl, inr,
}
use custos_tracker.Float.{Float}
use custos_tracker.Munkres.{
  Munkres, Starring, put, put2, reduce, start, star_cell, star_row, star_rows, star_initial, solve,
  is_zero,
}
use custos_tracker.Munkres.Matching.{IsMatching}
use custos_tracker.Munkres.Rounds.{Ready}
use custos_tracker.Munkres.Loops.{Solved, outer-Solved}

-- The used rows and columns are those with stars.
record IsStarring (n : ℕ) (t : Starring) : Type 0 where
  matching : IsMatching n t.star
  row_used : (i j : ℕ) → t.star i j ≡ true → t.row_used i ≡ true
  col_used : (i j : ℕ) → t.star i j ≡ true → t.col_used j ≡ true

-- A star that is set, or one that was there.
pub put2-cases :
    (i j a b : ℕ) (m : ℕ → ℕ → Bool)
    → put2 i j true m a b ≡ true
    → ((a ≡ i) × (b ≡ j)) ⊎ (m a b ≡ true)
put2-cases i j a b m h = elim (Bool-cases (a == i && b == j)) [
  | inl e ↦ inl ((==_iff a i).0 (ground arith), (==_iff b j).0 (ground arith))
  | inr e ↦ inr (rw e at h)
]

put_on : (i a : ℕ) (p : ℕ → Bool) → p a ≡ true → put i true p a ≡ true
put_on i a p h = ground (arith, h)

put_at : (i a : ℕ) (p : ℕ → Bool) → a ≡ i → put i true p a ≡ true
put_at i a p h = let e : (a == i) ≡ true = (==_iff a i).1 h in rw e refl

module _ (n : ℕ) (i j : ℕ) (t : Starring) (h : IsStarring n t) where
  -- A star in an unused row and an unused column.
  star-IsMatching :
      i < n
      → j < n
      → t.row_used i ≡ false
      → t.col_used j ≡ false
      → IsMatching n (put2 i j true t.star)
  star-IsMatching li lj ri cj = record {
    row = λ a b b' p q. elim (put2-cases i j a b t.star p) [
      | inl (ea, eb) ↦ elim (put2-cases i j a b' t.star q) [
        | inl (ea', eb') ↦ eb ∙ sym eb'
        | inr o ↦ absurd (false≢true (sym ri ∙ (rw ea at (h.row_used a b' o))))
      ]
      | inr o ↦ elim (put2-cases i j a b' t.star q) [
        | inl (ea, eb) ↦ absurd (false≢true (sym ri ∙ (rw ea at (h.row_used a b o))))
        | inr o' ↦ h.matching.row a b b' o o'
      ]
    ];
    col = λ a a' b p q. elim (put2-cases i j a b t.star p) [
      | inl (ea, eb) ↦ elim (put2-cases i j a' b t.star q) [
        | inl (ea', eb') ↦ ea ∙ sym ea'
        | inr o ↦ absurd (false≢true (sym cj ∙ (rw eb at (h.col_used a' b o))))
      ]
      | inr o ↦ elim (put2-cases i j a' b t.star q) [
        | inl (ea, eb) ↦ absurd (false≢true (sym cj ∙ (rw eb at (h.col_used a b o))))
        | inr o' ↦ h.matching.col a a' b o o'
      ]
    ];
    row_lt = λ a b p. elim (put2-cases i j a b t.star p) [
      | inl (ea, eb) ↦ omega (arith, ea)
      | inr o ↦ h.matching.row_lt a b o
    ];
    col_lt = λ a b p. elim (put2-cases i j a b t.star p) [
      | inl (ea, eb) ↦ omega (arith, eb)
      | inr o ↦ h.matching.col_lt a b o
    ];
  }

module _ {F : Type 0} ⦃f : Float F⦄ where
  module _ (n : ℕ) (i j : ℕ) (t : Starring) (h : IsStarring n t) where
    star_cell-IsStarring : (c : ℕ → ℕ → F) → i < n → j < n → IsStarring n (star_cell c i j t)
    unfolding star_cell
    star_cell-IsStarring c li lj =
        elim (Bool-cases (not (t.row_used i) && not (t.col_used j) && is_zero (c i j))) [
          | inl e ↦
              let ri : t.row_used i ≡ false = ground (arith, e) in
              let cj : t.col_used j ≡ false = ground (arith, e) in
              rw (star_cell, e)
                (record {
                  matching = star-IsMatching n i j t h li lj ri cj;
                  row_used = λ a b p. elim (put2-cases i j a b t.star p) [
                    | inl (ea, eb) ↦ put_at i a t.row_used ea
                    | inr o ↦ put_on i a t.row_used (h.row_used a b o)
                  ];
                  col_used = λ a b p. elim (put2-cases i j a b t.star p) [
                    | inl (ea, eb) ↦ put_at j b t.col_used eb
                    | inr o ↦ put_on j b t.col_used (h.col_used a b o)
                  ];
                })
          | inr e ↦ rw (star_cell, e) h
        ]

  module _ (n : ℕ) (c : ℕ → ℕ → F) where
    star_row-IsStarring :
        (i j k : ℕ) (t : Starring)
        → i < n
        → j + k ≤ n
        → IsStarring n t
        → IsStarring n (star_row c i j k t)
    unfolding star_row
    star_row-IsStarring i j zero t li l h = h
    star_row-IsStarring i j (suc k) t li l h =
        star_row-IsStarring i (j + 1) k (star_cell c i j t) li (omega arith)
          (star_cell-IsStarring n i j t h c li (omega arith))

    star_rows-IsStarring :
        (i k : ℕ) (t : Starring) → i + k ≤ n → IsStarring n t → IsStarring n (star_rows n c i k t)
    unfolding star_rows
    star_rows-IsStarring i zero t l h = h
    star_rows-IsStarring i (suc k) t l h =
        star_rows-IsStarring (i + 1) k (star_row c i 0 n t) (omega arith)
          (star_row-IsStarring i 0 n t (omega arith) (omega arith) h)

  -- What `solve` starts its loops with.
  pub initial-Ready :
      (top : F) (n : ℕ) (c : ℕ → ℕ → F) → Ready (star_initial (reduce top (start top n c)))
  unfolding star_initial reduce
  initial-Ready top n c =
      let empty : IsMatching n (λ i j. false) = record {
        row = λ i j j' e. absurd (false≢true e);
        col = λ i i' j e. absurd (false≢true e);
        row_lt = λ i j e. absurd (false≢true e);
        col_lt = λ i j e. absurd (false≢true e);
      } in
      let none_used : IsStarring n
          (record { star = λ i j. false; row_used = λ i. false; col_used = λ j. false }) =
        record {
          matching = empty;
          row_used = λ i j e. absurd (false≢true e);
          col_used = λ i j e. absurd (false≢true e);
        } in
      record {
        matching =
            (star_rows-IsStarring n (reduce top (start top n c)).c 0 n _ (omega arith)
              none_used).matching;
        rows_clear = λ i. refl;
        primes_clear = λ i j. refl;
      }

  pub initial-n :
      (top : F) (n : ℕ) (c : ℕ → ℕ → F) → (star_initial (reduce top (start top n c))).n ≡ n
  unfolding star_initial reduce
  initial-n top n c = refl

  pub solve-Solved :
      (top : F) (n : ℕ) (c : ℕ → ℕ → F) (s' : Munkres F)
      → solve top (start top n c) ≡ some s'
      → Solved top n s'
  unfolding solve
  solve-Solved top n c s' e =
      let first = star_initial (reduce top (start top n c)) in
      let end = outer-Solved top (n + 1) first s' (initial-Ready top n c) e in
      record { same_n = end.same_n ∙ initial-n top n c; matching = end.matching; full = end.full }
