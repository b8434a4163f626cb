-- ===== src/Munkres/Exact.antt =====
-- Exact arithmetic, and sums over the rows of a matrix.
use mathlib.Core.Bool.{false≢true}
use custos_tracker.Prelude.{
  ℕ, zero, suc, ◌<◌, Bool, true, false, ◌&&◌, if◌then◌else◌, ltb, ◌==◌, ==_iff, ◌≡◌, refl, sym, ap,
  ◌∙◌, arith, Bool-cases, inl, inr,
}
use custos_tracker.Float.{Float, ◌⊕◌, ◌⊖◌, ◌<?◌, ◌≤?◌, nought}
use custos_tracker.Munkres.{is_zero, any_from}
use custos_tracker.Munkres.Search.{any_from-some, any_from-of}
use custos_tracker.Munkres.Pigeons.{free_partner}

-- Numbers that are added and subtracted with no rounding, none of which but zero is taken for zero.
pub record IsExact (F : Type 0) ⦃f : Float F⦄ : Type 0 where
  pub add_comm : (a b : F) → a ⊕ b ≡ b ⊕ a
  pub add_assoc : (a b c : F) → (a ⊕ b) ⊕ c ≡ a ⊕ (b ⊕ c)
  pub add_nought : (a : F) → a ⊕ nought ≡ a
  pub sub_add : (a b : F) → (b ≤? a) ≡ true → (a ⊖ b) ⊕ b ≡ a
  pub add_sub : (a b : F) → (a ⊕ b) ⊖ b ≡ a
  pub sub_nonneg : (a b : F) → (b ≤? a) ≡ true → (nought ≤? a ⊖ b) ≡ true
  pub add_le : (a b c d : F) → (a ≤? b) ≡ true → (c ≤? d) ≡ true → (a ⊕ c ≤? b ⊕ d) ≡ true
  pub le_cancel : (a b c : F) → (a ⊕ c ≤? b ⊕ c) ≡ true → (a ≤? b) ≡ true
  pub le_refl : (a : F) → (a ≤? a) ≡ true
  pub le_trans : (a b c : F) → (a ≤? b) ≡ true → (b ≤? c) ≡ true → (a ≤? c) ≡ true
  pub le_of_lt : (a b : F) → (a <? b) ≡ true → (a ≤? b) ≡ true
  pub le_of_not_lt : (a b : F) → (a <? b) ≡ false → (b ≤? a) ≡ true
  pub zero_of : (a : F) → is_zero a ≡ true → a ≡ nought

-- The sum of the first values of a function.
pub total : {F : Type 0} ⦃f : Float F⦄ → ℕ → (ℕ → F) → F
total zero g = nought
total (suc k) g = g k ⊕ total k g

-- A permutation of the numbers below `n`.
pub record IsPermutation (n : ℕ) (p : ℕ → ℕ) : Type 0 where
  pub lt : (i : ℕ) → i < n → p i < n
  pub apart : (i j : ℕ) → i < n → j < n → p i ≡ p j → i ≡ j

pub IsPermutation-onto :
    (n : ℕ) (p : ℕ → ℕ) → IsPermutation n p → (j : ℕ) → j < n → (i : ℕ) × ((i < n) × (p i ≡ j))
IsPermutation-onto n p h j lt =
    let rel : ℕ → ℕ → Bool = λ i x. ltb i n && (p i == x) in
    let at : (i x : ℕ) → rel i x ≡ true → (i < n) × (p i ≡ x) =
      λ i x e. (ground (arith, e), (==_iff (p i) x).0 (ground (arith, e))) in
    let once : (i i' x : ℕ) → rel i x ≡ true → rel i' x ≡ true → i ≡ i' = λ i i' x e e'.
      let (l, q) = at i x e in let (l', q') = at i' x e' in h.apart i i' l l' (q ∙ sym q') in
    let below : (i x : ℕ) → rel i x ≡ true → x < n =
      λ i x e. let (l, q) = at i x e in omega (arith, h.lt i l, q) in
    elim (Bool-cases (any_from (λ i. rel i j) 0 n)) [
      | inl e ↦ let (i, (q, u)) = any_from-some (λ i. rel i j) n 0 e in (i, at i j q)
      | inr e ↦
          let free : (i : ℕ) → rel i j ≡ false = λ i. elim (Bool-cases (rel i j)) [
            | inl q ↦ absurd (
                false≢true (
                  sym e
                  ∙ any_from-of (λ y. rel y j) n 0 i q (omega arith) (omega (arith, (at i j q).0))))
            | inr q ↦ q
          ] in
          let (i, (l, none_is)) = free_partner n rel once below j lt free in
          let inside : ltb i n ≡ true = ground arith in
          let self : (p i == p i) ≡ true = (==_iff (p i) (p i)).1 refl in
          absurd (false≢true (sym (none_is (p i)) ∙ ground (arith, inside, self)))
    ]

module _ {F : Type 0} ⦃f : Float F⦄ (x : IsExact F) where
  open x use {add_comm, add_assoc, add_nought, add_le, le_refl}

  pub interchange : (a b c d : F) → (a ⊕ b) ⊕ (c ⊕ d) ≡ (a ⊕ c) ⊕ (b ⊕ d)
  interchange a b c d =
      add_assoc a b (c ⊕ d)
      ∙ ap (λ y. a ⊕ y) (sym (add_assoc b c d) ∙ ap (λ y. y ⊕ d) (add_comm b c) ∙ add_assoc c b d)
      ∙ sym (add_assoc a c (b ⊕ d))

  pub total_add : (k : ℕ) (g h : ℕ → F) → total k (λ i. g i ⊕ h i) ≡ total k g ⊕ total k h
  unfolding total
  total_add zero g h = sym (add_nought nought)
  total_add (suc k) g h =
      ap (λ y. (g k ⊕ h k) ⊕ y) (total_add k g h) ∙ interchange (g k) (h k) (total k g) (total k h)

  pub total_cong : (k : ℕ) (g h : ℕ → F) → ((i : ℕ) → i < k → g i ≡ h i) → total k g ≡ total k h
  unfolding total
  total_cong zero g h e = refl
  total_cong (suc k) g h e =
      ap (λ y. y ⊕ total k g) (e k (omega arith))
      ∙ ap (λ y. h k ⊕ y) (total_cong k g h (λ i l. e i (omega arith)))

  pub total_le :
      (k : ℕ) (g h : ℕ → F)
      → ((i : ℕ) → i < k → (g i ≤? h i) ≡ true)
      → (total k g ≤? total k h) ≡ true
  unfolding total
  total_le zero g h e = le_refl nought
  total_le (suc k) g h e =
      add_le (g k) (h k) (total k g) (total k h) (e k (omega arith))
        (total_le k g h (λ i l. e i (omega arith)))

  pub total-nought : (k : ℕ) (g : ℕ → F) → ((i : ℕ) → i < k → g i ≡ nought) → total k g ≡ nought
  unfolding total
  total-nought zero g e = refl
  total-nought (suc k) g e =
      ap (λ y. y ⊕ total k g) (e k (omega arith))
      ∙ add_comm nought (total k g)
      ∙ add_nought (total k g)
      ∙ total-nought k g (λ i l. e i (omega arith))

  total_swap :
      (m k : ℕ) (g : ℕ → ℕ → F)
      → total m (λ i. total k (λ j. g i j)) ≡ total k (λ j. total m (λ i. g i j))
  unfolding total
  total_swap zero k g = sym (total-nought k (λ j. nought) (λ i l. refl))
  total_swap (suc m) k g =
      ap (λ y. total k (λ j. g m j) ⊕ y) (total_swap m k g)
      ∙ sym (total_add k (λ j. g m j) (λ j. total m (λ i. g i j)))

  -- A sum with one term.
  total_one :
      (k : ℕ) (g : ℕ → F) (a : ℕ)
      → a < k
      → ((i : ℕ) → i < k → (i == a) ≡ false → g i ≡ nought)
      → total k g ≡ g a
  unfolding total
  total_one zero g a l h = absurd (omega arith)
  total_one (suc k) g a l h = elim (Bool-cases (k == a)) [
    | inl e ↦
        let same : k ≡ a = (==_iff k a).0 e in
        ap (λ y. g k ⊕ y) (total-nought k g (λ i u. h i (omega arith) (ground (arith, u, same))))
        ∙ add_nought (g k)
        ∙ ap g same
    | inr e ↦
        ap (λ y. y ⊕ total k g) (h k (omega arith) e)
        ∙ add_comm nought (total k g)
        ∙ add_nought (total k g)
        ∙ total_one k g a (ground (arith, e)) (λ i u. h i (omega arith))
  ]

  -- A permutation leaves a sum.
  pub total-permuted :
      (n : ℕ) (p : ℕ → ℕ) (t : ℕ → F) → IsPermutation n p → total n (λ i. t (p i)) ≡ total n t
  total-permuted n p t h =
      let cell : ℕ → ℕ → F = λ i j. if p i == j then t j else nought in
      let hit : (i j : ℕ) → p i ≡ j → cell i j ≡ t j =
        λ i j e. let q : (p i == j) ≡ true = (==_iff (p i) j).1 e in rw q refl in
      let row : (i : ℕ) → i < n → total n (λ j. cell i j) ≡ t (p i) = λ i l.
        total_one n (λ j. cell i j) (p i) (h.lt i l)
          (λ j u e. let q : (p i == j) ≡ false = ground (arith, e) in rw q refl)
        ∙ hit i (p i) refl in
      let col : (j : ℕ) → j < n → total n (λ i. cell i j) ≡ t j = λ j l.
        let (a, (la, at)) = IsPermutation-onto n p h j l in
        total_one n (λ i. cell i j) a la
          (λ i u e. elim (Bool-cases (p i == j)) [
            | inl q ↦
                let same : i ≡ a = h.apart i a u la ((==_iff (p i) j).0 q ∙ sym at) in
                absurd (false≢true (sym e ∙ (==_iff i a).1 same))
            | inr q ↦ rw q refl
          ])
        ∙ hit a j at in
      sym (total_cong n (λ i. total n (λ j. cell i j)) (λ i. t (p i)) row)
      ∙ total_swap n n cell
      ∙ total_cong n (λ j. total n (λ i. cell i j)) t col
