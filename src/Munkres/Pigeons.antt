-- ===== src/Munkres/Pigeons.antt =====
-- Counting: rows with stars in different columns are no more than the columns.
use mathlib.Core.Bool.{false≢true}
use custos_tracker.Prelude.{
  ℕ, zero, suc, ◌<◌, ◌≤◌, Bool, true, false, not, ◌&&◌, ltb, ◌==◌, ==_iff, ◌≡◌, refl, sym, ◌∙◌,
  arith, Bool-cases, inl, inr,
}
use custos_tracker.Munkres.{count_from, any_from}
use custos_tracker.Munkres.Search.{
  any_from-some, any_from-of, count_from-le, count_from-lt, count_from-short, count_from-full,
}

module _ (n : ℕ) (rel : ℕ → ℕ → Bool)
    (apart : (i i' j : ℕ) → rel i j ≡ true → rel i' j ≡ true → i ≡ i')
    (below : (i j : ℕ) → rel i j ≡ true → j < n) where
  pigeons :
      (k : ℕ) (q : ℕ → Bool)
      → ((i : ℕ) → i < k → (j : ℕ) × ((rel i j ≡ true) × (q j ≡ true)))
      → k ≤ count_from q 0 n
  pigeons zero q h = omega arith
  pigeons (suc k) q h =
      let (j, (e, on)) = h k (omega arith) in
      let less : ℕ → Bool = λ x. q x && not (x == j) in
      let rest = pigeons k less (λ i l.
        let (j', (e', on')) = h i (omega arith) in
        let other : (j' == j) ≡ false = elim (Bool-cases (j' == j)) [
          | inl t ↦
              let same : j' ≡ j = (==_iff j' j).0 t in
              absurd (omega (arith, apart i k j (rw same at e') e))
          | inr t ↦ t
        ] in
        (j', (e', ground (arith, on', other)))) in
      let self : (j == j) ≡ true = (==_iff j j).1 refl in
      let out : less j ≡ false = ground (arith, self) in
      let more =
        count_from-lt less q n 0 j (λ x l t. ground (arith, t)) (omega arith)
          (omega (arith, below k j e)) out on in
      omega (arith, rest, more)

  -- If a column has no star, there is a row that has none.
  pub free_partner :
      (c : ℕ)
      → c < n
      → ((i : ℕ) → rel i c ≡ false)
      → (i : ℕ) × ((i < n) × ((j : ℕ) → rel i j ≡ false))
  free_partner c lt free =
      let full : ℕ → Bool = λ i. any_from (λ j. rel i j) 0 n in
      let most = count_from-le full n 0 in
      elim (Bool-cases (ltb (count_from full 0 n) n)) [
        | inl e ↦
            let (i, (l, (u, q))) = count_from-short full n 0 (ground arith) in
            (
              i,
              (
                omega arith,
                λ j. elim (Bool-cases (rel i j)) [
                  | inl t ↦ absurd (
                      false≢true (
                        sym q
                        ∙ any_from-of (λ x. rel i x) n 0 j t (omega arith)
                            (omega (arith, below i j t))))
                  | inr t ↦ t
                ],
              ),
            )
        | inr e ↦
            let all : count_from full 0 n ≡ n = ground arith in
            let self : (c == c) ≡ true = (==_iff c c).1 refl in
            let other : ℕ → Bool = λ j. not (j == c) in
            let out : other c ≡ false = ground (arith, self) in
            let many = pigeons n other (λ i l.
              let on = count_from-full full n 0 all i (omega arith) (omega arith) in
              let (j, (t, u)) = any_from-some (λ x. rel i x) n 0 on in
              (
                j,
                (
                  t,
                  elim (Bool-cases (j == c)) [
                    | inl s ↦
                        let same : j ≡ c = (==_iff j c).0 s in
                        absurd (false≢true (sym (free i) ∙ (rw same at t)))
                    | inr s ↦ ground (arith, s)
                  ],
                ),
              )) in
            let fewer =
              count_from-lt other (λ x. true) n 0 c (λ x b t. refl) (omega arith) (omega arith) out
                refl in
            absurd (omega (arith, many, fewer, count_from-le (λ x. true) n 0))
      ]
