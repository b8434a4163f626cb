-- ===== src/Geometry/Nms/Sorting.antt =====
-- Insertion sort meets what the development assumes of `std::sort`.
use mathlib.Core.List.{Perm, Pairwise, Pairwise-cons, mem-cons, not-mem-nil}
use mathlib.Core.List.Perm
use mathlib.Core.Logic.Or
use mathlib.Core.Bool.{false≢true}
use custos_tracker.Prelude.{
  ℕ, List, [], ◌∷◌, Bool, true, false, if◌then◌else◌, ◌≡◌, sym, ◌∙◌, Bool-cases, inl, inr,
}
use custos_tracker.Geometry.Nms.{Sort, IsSort}

module _ (before : ℕ → ℕ → Bool) where
  abbrev pub insert_by : ℕ → List ℕ → List ℕ
  insert_by a [] = a ∷ []
  insert_by a (x ∷ xs) = if before x a then x ∷ insert_by a xs else a ∷ x ∷ xs

  insert_by-perm : (a : ℕ) (xs : List ℕ) → Perm (insert_by a xs) (a ∷ xs)
  insert_by-perm a [] = Perm.refl _
  insert_by-perm a (x ∷ xs) = elim (Bool-cases (before x a)) [
    | inl e ↦ rw e (Perm.trans (Perm.cons x (insert_by-perm a xs)) (Perm.swap a x xs))
    | inr e ↦ rw e (Perm.refl _)
  ]

  module _ (irrefl : (a : ℕ) → before a a ≡ false)
      (trans : (a b c : ℕ) → before a b ≡ true → before b c ≡ true → before a c ≡ true)
      (cotrans : (a b c : ℕ) → before a c ≡ true → before a b ≡ false → before b c ≡ true) where
    asym : (a b : ℕ) → before a b ≡ true → before b a ≡ false
    asym a b h = elim (Bool-cases (before b a)) [
      | inl e ↦ absurd (false≢true (sym (irrefl a) ∙ trans a b a h e))
      | inr e ↦ e
    ]

    back : (a x b : ℕ) → before x a ≡ false → before b x ≡ false → before b a ≡ false
    back a x b e h = elim (Bool-cases (before b a)) [
      | inl q ↦ absurd (false≢true (sym e ∙ cotrans b x a q h))
      | inr q ↦ q
    ]

    insert_by-Pairwise :
        (a : ℕ) (xs : List ℕ)
        → Pairwise (λ a b. before b a ≡ false) xs
        → Pairwise (λ a b. before b a ≡ false) (insert_by a xs)
    insert_by-Pairwise a [] p = Pairwise-cons.1 ((λ b m. absurd (not-mem-nil m)), p)
    insert_by-Pairwise a (x ∷ xs) p = elim (Bool-cases (before x a)) [
      | inl e ↦ rw e (
          Pairwise-cons.1 (
            (λ b m.
                Or.elim (hlevel) (mem-cons.0 ((Perm.mem_iff (insert_by-perm a xs)).0 m))
                  (λ q. rw q (asym x a e)) (λ q. (Pairwise-cons.0 p).0 b q)),
            insert_by-Pairwise a xs (Pairwise-cons.0 p).1,
          ))
      | inr e ↦ rw e (
          Pairwise-cons.1 (
            (λ b m.
                Or.elim (hlevel) (mem-cons.0 m) (λ q. rw q e)
                  (λ q. back a x b e ((Pairwise-cons.0 p).0 b q))),
            p,
          ))
    ]

abbrev pub insertion_sort : Sort
insertion_sort before [] = []
insertion_sort before (x ∷ xs) = insert_by before x (insertion_sort before xs)

insertion_sort-perm : (before : ℕ → ℕ → Bool) (xs : List ℕ) → Perm (insertion_sort before xs) xs
insertion_sort-perm before [] = Perm.refl _
insertion_sort-perm before (x ∷ xs) =
    Perm.trans (insert_by-perm before x _) (Perm.cons x (insertion_sort-perm before xs))

insertion_sort-Pairwise :
    (before : ℕ → ℕ → Bool) (xs : List ℕ)
    → ((a : ℕ) → before a a ≡ false)
    → ((a b c : ℕ) → before a b ≡ true → before b c ≡ true → before a c ≡ true)
    → ((a b c : ℕ) → before a c ≡ true → before a b ≡ false → before b c ≡ true)
    → Pairwise (λ a b. before b a ≡ false) (insertion_sort before xs)
insertion_sort-Pairwise before [] i t c = Pairwise.nil
insertion_sort-Pairwise before (x ∷ xs) i t c =
    insert_by-Pairwise before i t c x _ (insertion_sort-Pairwise before xs i t c)

pub insertion_sort-IsSort : IsSort insertion_sort
insertion_sort-IsSort = record { perm = insertion_sort-perm; ordered = insertion_sort-Pairwise }
