-- ===== src/Munkres/Search.antt =====
-- The searches of the loops.
use mathlib.Core.Bool.{false≢true}
use custos_tracker.Prelude.{
  ℕ, zero, suc, ◌+◌, ◌<◌, ◌≤◌, Bool, true, false, Option, none, some, ◌≡◌, ◌⊎◌, refl, sym, ◌∙◌,
  arith, ◌==◌, ==_iff, leb, leb→le, Bool-cases, inl, inr,
}
use custos_tracker.Munkres.{first_from, last_from, any_from, count_from}

module _ (p : ℕ → Bool) where
  pub first_from-none : (k i : ℕ) → ((j : ℕ) → j < i + k → p j ≡ false) → first_from p i k ≡ none
  unfolding first_from
  first_from-none zero i h = refl
  first_from-none (suc k) i h =
      let e : p i ≡ false = h i (omega arith) in
      rw (first_from, e) (first_from-none k (i + 1) (λ j l. h j (omega arith)))

  -- If `j` is the only one, it is found.
  pub first_from-only :
      (k i j : ℕ)
      → i ≤ j
      → j < i + k
      → p j ≡ true
      → ((x : ℕ) → p x ≡ true → x ≡ j)
      → first_from p i k ≡ some j
  unfolding first_from
  first_from-only zero i j l h e only = absurd (omega arith)
  first_from-only (suc k) i j l h e only = elim (Bool-cases (p i)) [
    | inl q ↦ let same : i ≡ j = only i q in rw (first_from, q, same) refl
    | inr q ↦
        let below : i < j = elim (Bool-cases (leb j i)) [
          | inl s ↦
              let same : i ≡ j = omega (arith, leb→le j i s) in
              absurd (false≢true (sym q ∙ (rw same e)))
          | inr s ↦ ground arith
        ] in
        rw (first_from, q) (first_from-only k (i + 1) j (omega arith) (omega arith) e only)
  ]

  pub first_from-found :
      (k i j : ℕ) → first_from p i k ≡ some j → (p j ≡ true) × ((i ≤ j) × (j < i + k))
  unfolding first_from
  first_from-found zero i j h = cc
  first_from-found (suc k) i j h = elim (Bool-cases (p i)) [
    | inl q ↦
        let same : i ≡ j = cc (rw (first_from, q) at h) in
        (rw same at q, (omega (arith, same), omega (arith, same)))
    | inr q ↦
        let (e, (l, u)) = first_from-found k (i + 1) j (rw (first_from, q) at h) in
        (e, (omega arith, omega arith))
  ]

  pub first_from-missing :
      (k i : ℕ) → first_from p i k ≡ none → (j : ℕ) → i ≤ j → j < i + k → p j ≡ false
  unfolding first_from
  first_from-missing zero i h j l u = absurd (omega arith)
  first_from-missing (suc k) i h j l u = elim (Bool-cases (p i)) [
    | inl q ↦ cc (rw (first_from, q) at h)
    | inr q ↦ elim (Bool-cases (i == j)) [
      | inl s ↦ let same : i ≡ j = (==_iff i j).0 s in rw same at q
      | inr s ↦
          first_from-missing k (i + 1) (rw (first_from, q) at h) j (ground arith) (omega arith)
    ]
  ]

  pub any_from-some :
      (k i : ℕ) → any_from p i k ≡ true → (j : ℕ) × ((p j ≡ true) × ((i ≤ j) × (j < i + k)))
  unfolding any_from
  any_from-some zero i h = absurd (false≢true h)
  any_from-some (suc k) i h = elim (Bool-cases (p i)) [
    | inl q ↦ (i, (q, (omega arith, omega arith)))
    | inr q ↦
        let (j, (e, (l, u))) = any_from-some k (i + 1) (rw (any_from, q) at h) in
        (j, (e, (omega arith, omega arith)))
  ]

  pub any_from-of : (k i j : ℕ) → p j ≡ true → i ≤ j → j < i + k → any_from p i k ≡ true
  unfolding any_from
  any_from-of zero i j e l u = absurd (omega arith)
  any_from-of (suc k) i j e l u = elim (Bool-cases (p i)) [
    | inl q ↦ rw (any_from, q) refl
    | inr q ↦ elim (Bool-cases (i == j)) [
      | inl s ↦ let same : i ≡ j = (==_iff i j).0 s in absurd (false≢true (sym q ∙ rw same e))
      | inr s ↦ rw (any_from, q) (any_from-of k (i + 1) j e (ground arith) (omega arith))
    ]
  ]

  pub last_from-found :
      (k i : ℕ) (best : Option ℕ) (j : ℕ)
      → last_from p i k best ≡ some j
      → (best ≡ some j) ⊎ ((p j ≡ true) × (j < i + k))
  unfolding last_from
  last_from-found zero i best j h = inl h
  last_from-found (suc k) i best j h = elim (Bool-cases (p i)) [
    | inl q ↦ elim (last_from-found k (i + 1) (some i) j (rw (last_from, q) at h)) [
      | inl e ↦ let same : i ≡ j = cc in inr (rw same at q, omega (arith, same))
      | inr (e, l) ↦ inr (e, omega arith)
    ]
    | inr q ↦ elim (last_from-found k (i + 1) best j (rw (last_from, q) at h)) [
      | inl e ↦ inl e
      | inr (e, l) ↦ inr (e, omega arith)
    ]
  ]

  last_from-kept : (k i j : ℕ) → ((x : ℕ) → i ≤ x → p x ≡ false) → last_from p i k (some j) ≡ some j
  unfolding last_from
  last_from-kept zero i j h = refl
  last_from-kept (suc k) i j h =
      let e : p i ≡ false = h i (omega arith) in
      rw (last_from, e) (last_from-kept k (i + 1) j (λ x l. h x (omega arith)))

  pub last_from-only :
      (k i : ℕ) (best : Option ℕ) (j : ℕ)
      → i ≤ j
      → j < i + k
      → p j ≡ true
      → ((x : ℕ) → p x ≡ true → x ≡ j)
      → last_from p i k best ≡ some j
  unfolding last_from
  last_from-only zero i best j l u e only = absurd (omega arith)
  last_from-only (suc k) i best j l u e only = elim (Bool-cases (i == j)) [
    | inl s ↦
        let same : i ≡ j = (==_iff i j).0 s in
        let t : p i ≡ true = rw same e in
        rw (last_from, t, same)
          (last_from-kept k (j + 1) j (λ x b. elim (Bool-cases (p x)) [
            | inl q ↦ absurd (omega (arith, only x q))
            | inr q ↦ q
          ]))
    | inr s ↦
        let rest =
          λ (b : Option ℕ). last_from-only k (i + 1) b j (ground arith) (omega arith) e only in
        elim (Bool-cases (p i)) [
          | inl q ↦ rw (last_from, q) (rest (some i))
          | inr q ↦ rw (last_from, q) (rest best)
        ]
  ]

  pub count_from-le : (k i : ℕ) → count_from p i k ≤ k
  unfolding count_from
  count_from-le zero i = omega arith
  count_from-le (suc k) i = ground (arith, count_from-le k (i + 1))

-- A test that holds wherever another does, and once where the other does not, holds more often.
module _ (p q : ℕ → Bool) where
  pub count_from_mono :
      (k i : ℕ)
      → ((j : ℕ) → j < i + k → p j ≡ true → q j ≡ true)
      → count_from p i k ≤ count_from q i k
  unfolding count_from
  count_from_mono zero i h = omega arith
  count_from_mono (suc k) i h =
      let rest = count_from_mono k (i + 1) (λ j l. h j (omega arith)) in
      elim (Bool-cases (p i)) [
        | inl e ↦ let e' : q i ≡ true = h i (omega arith) e in rw (count_from, e, e') (omega arith)
        | inr e ↦ ground (arith, rest, e)
      ]

  pub count_from-lt :
      (k i x : ℕ)
      → ((j : ℕ) → j < i + k → p j ≡ true → q j ≡ true)
      → i ≤ x
      → x < i + k
      → p x ≡ false
      → q x ≡ true
      → count_from p i k < count_from q i k
  unfolding count_from
  count_from-lt zero i x h l u e e' = absurd (omega arith)
  count_from-lt (suc k) i x h l u e e' = elim (Bool-cases (i == x)) [
    | inl s ↦
        let same : i ≡ x = (==_iff i x).0 s in
        let a : p i ≡ false = rw same e in
        let b : q i ≡ true = rw same e' in
        let rest = count_from_mono k (i + 1) (λ j l. h j (omega arith)) in
        rw (count_from, a, b) (omega arith)
    | inr s ↦
        let rest =
          count_from-lt k (i + 1) x (λ j l. h j (omega arith)) (ground arith) (omega arith) e e' in
        elim (Bool-cases (p i)) [
          | inl t ↦
              let t' : q i ≡ true = h i (omega arith) t in rw (count_from, t, t') (omega arith)
          | inr t ↦ ground (arith, rest, t)
        ]
  ]

-- A count that is not full has an index that does not pass, and one that is full has none.
pub count_from-short :
    (p : ℕ → Bool) (k i : ℕ)
    → count_from p i k < k
    → (j : ℕ) × ((i ≤ j) × ((j < i + k) × (p j ≡ false)))
unfolding count_from
count_from-short p zero i h = absurd (omega arith)
count_from-short p (suc k) i h = elim (Bool-cases (p i)) [
  | inl e ↦
      let short : suc (count_from p (i + 1) k) < suc k = rw (count_from, e) at h in
      let (j, (l, (u, q))) = count_from-short p k (i + 1) (omega arith) in
      (j, (omega arith, (omega arith, q)))
  | inr e ↦ (i, (omega arith, (omega arith, e)))
]

pub count_from-full :
    (p : ℕ → Bool) (k i : ℕ) → count_from p i k ≡ k → (j : ℕ) → i ≤ j → j < i + k → p j ≡ true
count_from-full p k i h j l u = elim (Bool-cases (p j)) [
  | inl e ↦ e
  | inr e ↦
      let more = count_from-lt p (λ x. true) k i j (λ x b t. refl) l u e refl in
      absurd (omega (arith, more, count_from-le (λ x. true) k i))
]
