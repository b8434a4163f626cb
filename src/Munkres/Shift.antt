-- ===== src/Munkres/Shift.antt =====
-- Matrices that differ by a number for each row and for each column have the same least assignments.
use custos_tracker.Prelude.{
  ℕ, zero, suc, ◌+◌, ◌-◌, ◌<◌, ◌≤◌, true, false, ◌==◌, ==_iff, ◌≡◌, sym, ap, ◌∙◌, arith, Bool-cases,
  inl, inr,
}
use custos_tracker.Float.{Float, ◌⊕◌, ◌⊖◌, ◌<?◌, ◌≤?◌, nought, fmin}
use custos_tracker.Munkres.{Munkres, min_from, less_rows, reduce, start, least_in_row, least_from}
use custos_tracker.Munkres.Exact.{
  IsExact, IsPermutation, total, interchange, total_add, total_cong, total-permuted,
}

module _ {F : Type 0} ⦃f : Float F⦄ (x : IsExact F) where
  open x use {
    add_comm, add_assoc, add_nought, add_le, le_refl, le_trans, le_cancel, sub_add, sub_nonneg,
    le_of_lt, le_of_not_lt,
  }

  pub record Shift (n : ℕ) (c0 c : ℕ → ℕ → F) : Type 0 where
    pub p : ℕ → F
    pub q : ℕ → F
    pub r : ℕ → F
    pub t : ℕ → F
    pub eq : (i j : ℕ) → i < n → j < n → c i j ⊕ (p i ⊕ q j) ≡ c0 i j ⊕ (r i ⊕ t j)

  right_comm : (a b c : F) → (a ⊕ b) ⊕ c ≡ (a ⊕ c) ⊕ b
  right_comm a b c = add_assoc a b c ∙ ap (λ y. a ⊕ y) (add_comm b c) ∙ sym (add_assoc a c b)

  -- Two shifts of a cell, one after the other.
  chained :
      (c c' c0 p q p' q' r t r' t' : F)
      → c ⊕ (p ⊕ q) ≡ c0 ⊕ (r ⊕ t)
      → c' ⊕ (p' ⊕ q') ≡ c ⊕ (r' ⊕ t')
      → c' ⊕ ((p' ⊕ p) ⊕ (q' ⊕ q)) ≡ c0 ⊕ ((r ⊕ r') ⊕ (t ⊕ t'))
  chained c c' c0 p q p' q' r t r' t' e e' =
      ap (λ y. c' ⊕ y) (interchange x p' p q' q)
      ∙ sym (add_assoc c' (p' ⊕ q') (p ⊕ q))
      ∙ ap (λ y. y ⊕ (p ⊕ q)) e'
      ∙ right_comm c (r' ⊕ t') (p ⊕ q)
      ∙ ap (λ y. y ⊕ (r' ⊕ t')) e
      ∙ add_assoc c0 (r ⊕ t) (r' ⊕ t')
      ∙ ap (λ y. c0 ⊕ y) (interchange x r t r' t')

  pub Shift-trans : (n : ℕ) (c0 c c' : ℕ → ℕ → F) → Shift n c0 c → Shift n c c' → Shift n c0 c'
  Shift-trans n c0 c c' h h' = record {
    p = λ i. h'.p i ⊕ h.p i;
    q = λ j. h'.q j ⊕ h.q j;
    r = λ i. h.r i ⊕ h'.r i;
    t = λ j. h.t j ⊕ h'.t j;
    eq = λ i j li lj.
        chained (c i j) (c' i j) (c0 i j) (h.p i) (h.q j) (h'.p i) (h'.q j) (h.r i) (h.t j) (h'.r i)
          (h'.t j) (h.eq i j li lj) (h'.eq i j li lj);
  }

  module _ (n : ℕ) (c0 c : ℕ → ℕ → F) (h : Shift n c0 c) where
    sum_of :
        (g : ℕ → ℕ → F) (u v : ℕ → F) (s : ℕ → ℕ)
        → IsPermutation n s
        → total n (λ i. g i (s i) ⊕ (u i ⊕ v (s i)))
          ≡ total n (λ i. g i (s i)) ⊕ (total n u ⊕ total n v)
    sum_of g u v s perm =
        total_add x n (λ i. g i (s i)) (λ i. u i ⊕ v (s i))
        ∙ ap (λ y. total n (λ i. g i (s i)) ⊕ y)
            (total_add x n u (λ i. v (s i)) ∙ ap (λ y. total n u ⊕ y) (total-permuted x n s v perm))

    shift_total :
        (s : ℕ → ℕ)
        → IsPermutation n s
        → total n (λ i. c i (s i)) ⊕ (total n h.p ⊕ total n h.q)
          ≡ total n (λ i. c0 i (s i)) ⊕ (total n h.r ⊕ total n h.t)
    shift_total s perm =
        sym (sum_of c h.p h.q s perm)
        ∙ total_cong x n _ _ (λ i l. h.eq i (s i) l (perm.lt i l))
        ∙ sum_of c0 h.r h.t s perm

    pub Shift-least :
        (s s' : ℕ → ℕ)
        → IsPermutation n s
        → IsPermutation n s'
        → (total n (λ i. c i (s i)) ≤? total n (λ i. c i (s' i))) ≡ true
        → (total n (λ i. c0 i (s i)) ≤? total n (λ i. c0 i (s' i))) ≡ true
    Shift-least s s' perm perm' le =
        let k = total n h.p ⊕ total n h.q in
        let both =
          add_le (total n (λ i. c i (s i))) (total n (λ i. c i (s' i))) k k le (le_refl k) in
        le_cancel _ _ (total n h.r ⊕ total n h.t)
          (sym (ap2 (shift_total s perm) (shift_total s' perm')) ∙ both)
      where
        ap2 : {a a' b b' : F} → a ≡ a' → b ≡ b' → (a ≤? b) ≡ (a' ≤? b')
        ap2 {a = a} {b' = b'} e e' = ap (λ y. a ≤? y) e' ∙ ap (λ y. y ≤? b') e

  -- The least of some values.
  pub fmin_le : (a b : F) → ((fmin a b ≤? a) ≡ true) × ((fmin a b ≤? b) ≡ true)
  fmin_le a b = elim (Bool-cases (b <? a)) [
    | inl e ↦ rw e (le_of_lt b a e, le_refl b)
    | inr e ↦ rw e (le_refl a, le_of_not_lt b a e)
  ]

  min_from_start : (m : F) (g : ℕ → F) (i k : ℕ) → (min_from m g i k ≤? m) ≡ true
  unfolding min_from
  min_from_start m g i zero = le_refl m
  min_from_start m g i (suc k) =
      le_trans _ (fmin m (g i)) m (min_from_start (fmin m (g i)) g (i + 1) k) (fmin_le m (g i)).0

  min_from_le :
      (m : F) (g : ℕ → F) (i k j : ℕ) → i ≤ j → j < i + k → (min_from m g i k ≤? g j) ≡ true
  unfolding min_from
  min_from_le m g i zero j l u = absurd (omega arith)
  min_from_le m g i (suc k) j l u = elim (Bool-cases (i == j)) [
    | inl e ↦
        let same : i ≡ j = (==_iff i j).0 e in
        let here =
          le_trans _ (fmin m (g i)) (g i) (min_from_start (fmin m (g i)) g (i + 1) k)
            (fmin_le m (g i)).1 in
        sym (ap (λ y. min_from (fmin m (g i)) g (i + 1) k ≤? g y) same) ∙ here
    | inr e ↦ min_from_le (fmin m (g i)) g (i + 1) k j (ground arith) (omega arith)
  ]

  -- A cell less a number for its row or for its column.
  less_row : (c m : F) → (m ≤? c) ≡ true → (c ⊖ m) ⊕ (m ⊕ nought) ≡ c ⊕ (nought ⊕ nought)
  less_row c m h =
      ap (λ y. (c ⊖ m) ⊕ y) (add_nought m)
      ∙ sub_add c m h
      ∙ sym (ap (λ y. c ⊕ y) (add_nought nought) ∙ add_nought c)

  pub less_col : (c m : F) → (m ≤? c) ≡ true → (c ⊖ m) ⊕ (nought ⊕ m) ≡ c ⊕ (nought ⊕ nought)
  less_col c m h = ap (λ y. (c ⊖ m) ⊕ y) (add_comm nought m) ∙ less_row c m h

  -- The reduced matrix: a shift of the first one, with no cell below zero.
  module _ (top : F) (n : ℕ) (c0 : ℕ → ℕ → F) where
    row_min : (i j : ℕ) → j < n → (min_from (c0 i 0) (c0 i) 1 (n - 1) ≤? c0 i j) ≡ true
    row_min i zero l = min_from_start (c0 i 0) (c0 i) 1 (n - 1)
    row_min i (suc j) l = min_from_le (c0 i 0) (c0 i) 1 (n - 1) (suc j) (omega arith) (omega arith)

    col_min :
        (i j : ℕ)
        → i < n
        → (min_from top (λ k. less_rows n c0 k j) 0 n ≤? less_rows n c0 i j) ≡ true
    col_min i j l = min_from_le top (λ k. less_rows n c0 k j) 0 n i (omega arith) (omega arith)

    pub reduce-Shift : Shift n c0 (reduce top (start top n c0)).c
    unfolding reduce
    reduce-Shift =
        Shift-trans n c0 (less_rows n c0) _
          (record {
            p = λ i. min_from (c0 i 0) (c0 i) 1 (n - 1);
            q = λ j. nought;
            r = λ i. nought;
            t = λ j. nought;
            eq = λ i j li lj. less_row (c0 i j) _ (row_min i j lj);
          })
          (record {
            p = λ i. nought;
            q = λ j. min_from top (λ k. less_rows n c0 k j) 0 n;
            r = λ i. nought;
            t = λ j. nought;
            eq = λ i j li lj. less_col (less_rows n c0 i j) _ (col_min i j li);
          })

    pub reduce_nonneg :
        (i j : ℕ) → i < n → j < n → (nought ≤? (reduce top (start top n c0)).c i j) ≡ true
    unfolding reduce
    reduce_nonneg i j li lj = sub_nonneg (less_rows n c0 i j) _ (col_min i j li)

  -- The least uncovered cell.
  module _ (s : Munkres F) where
    least_in_row_start : (i : ℕ) (e : F) (j k : ℕ) → (least_in_row s i e j k ≤? e) ≡ true
    unfolding least_in_row
    least_in_row_start i e j zero = le_refl e
    least_in_row_start i e j (suc k) = elim (Bool-cases (s.col_cov j)) [
      | inl q ↦ rw (least_in_row, q) (least_in_row_start i e (j + 1) k)
      | inr q ↦
          rw (least_in_row, q)
            (le_trans _ (fmin e (s.c i j)) e (least_in_row_start i (fmin e (s.c i j)) (j + 1) k)
              (fmin_le e (s.c i j)).0)
    ]

    least_in_row_le :
        (i : ℕ) (e : F) (j k b : ℕ)
        → j ≤ b
        → b < j + k
        → s.col_cov b ≡ false
        → (least_in_row s i e j k ≤? s.c i b) ≡ true
    unfolding least_in_row
    least_in_row_le i e j zero b l u h = absurd (omega arith)
    least_in_row_le i e j (suc k) b l u h = elim (Bool-cases (j == b)) [
      | inl t ↦
          let same : j ≡ b = (==_iff j b).0 t in
          let q : s.col_cov j ≡ false = rw same h in
          let here =
            le_trans _ (fmin e (s.c i j)) (s.c i j)
              (least_in_row_start i (fmin e (s.c i j)) (j + 1) k) (fmin_le e (s.c i j)).1 in
          rw (least_in_row, q)
            (sym (ap (λ y. least_in_row s i (fmin e (s.c i j)) (j + 1) k ≤? s.c i y) same) ∙ here)
      | inr t ↦ elim (Bool-cases (s.col_cov j)) [
        | inl q ↦
            rw (least_in_row, q) (least_in_row_le i e (j + 1) k b (ground arith) (omega arith) h)
        | inr q ↦
            rw (least_in_row, q)
              (least_in_row_le i (fmin e (s.c i j)) (j + 1) k b (ground arith) (omega arith) h)
      ]
    ]

    least_from_start : (e : F) (i k : ℕ) → (least_from s e i k ≤? e) ≡ true
    unfolding least_from
    least_from_start e i zero = le_refl e
    least_from_start e i (suc k) = elim (Bool-cases (s.row_cov i)) [
      | inl q ↦ rw (least_from, q) (least_from_start e (i + 1) k)
      | inr q ↦
          rw (least_from, q)
            (le_trans _ (least_in_row s i e 0 s.n) e
              (least_from_start (least_in_row s i e 0 s.n) (i + 1) k)
              (least_in_row_start i e 0 s.n))
    ]

    pub least_from_le :
        (e : F) (i k a b : ℕ)
        → i ≤ a
        → a < i + k
        → b < s.n
        → s.row_cov a ≡ false
        → s.col_cov b ≡ false
        → (least_from s e i k ≤? s.c a b) ≡ true
    unfolding least_from
    least_from_le e i zero a b l u v ra cb = absurd (omega arith)
    least_from_le e i (suc k) a b l u v ra cb = elim (Bool-cases (i == a)) [
      | inl t ↦
          let same : i ≡ a = (==_iff i a).0 t in
          let q : s.row_cov i ≡ false = rw same ra in
          let here =
            le_trans _ (least_in_row s i e 0 s.n) (s.c i b)
              (least_from_start (least_in_row s i e 0 s.n) (i + 1) k)
              (least_in_row_le i e 0 s.n b (omega arith) (omega arith) cb) in
          rw (least_from, q)
            (sym (ap (λ y. least_from s (least_in_row s i e 0 s.n) (i + 1) k ≤? s.c y b) same)
              ∙ here)
      | inr t ↦ elim (Bool-cases (s.row_cov i)) [
        | inl q ↦
            rw (least_from, q) (least_from_le e (i + 1) k a b (ground arith) (omega arith) v ra cb)
        | inr q ↦
            rw (least_from, q)
              (least_from_le (least_in_row s i e 0 s.n) (i + 1) k a b (ground arith) (omega arith) v
                ra cb)
      ]
    ]
