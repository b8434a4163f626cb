-- ===== src/Geometry/Nms/Laws.antt =====
-- What `nms` returns, for any `std::sort`.
use mathlib.Core.List.{
  Mem, Nodup, Nodup-cons, Nodup-nil, Pairwise, Sublistᴰ, mem-cons, mem-cons_self, mem-cons_of_mem,
  not-mem-nil,
}
use mathlib.Core.List.Perm
use mathlib.Core.List.Pairwise
use mathlib.Core.List.Nodup
use mathlib.Core.Logic.Or
use mathlib.Core.Bool.{false≢true}
use custos_tracker.Prelude.{
  elem, Distinct, ℕ, zero, suc, ◌+◌, ◌<◌, ◌≤◌, List, [], ◌∷◌, Bool, true, false, ◌||◌, ◌==◌, get_or,
  replicate, length, arith, ◌≡◌, refl, All, Bool-cases, inl, inr, ◌∙◌, sym, ap, ==_iff, All-map,
  All-intro, ◌⊎◌,
}
use custos_tracker.Float.{Float, ◌<?◌, nought, IsOrdered, IsNumber}
use custos_tracker.Types.{BBox}
use custos_tracker.Geometry.Nms.{overlaps, higher, nms_order, nms, iota, Sort, IsSort}
use custos_tracker.Geometry.Nms.Greedy.{blocked, select, sweep-eq-select}

||-false : (a b : Bool) → (a || b) ≡ false → (a ≡ false) × (b ≡ false)
||-false a b h = ground arith

||-true : (a b : Bool) → (a || b) ≡ true → (a ≡ true) ⊎ (b ≡ true)
||-true a b h = ground arith

module _ (over : ℕ → ℕ → Bool) where
  -- No item overlaps a later one.
  abbrev pub Separated : List ℕ → Type 0
  Separated [] = Unit
  Separated (i ∷ is) = All (λ j. over i j ≡ false) is × Separated is

  select-blocked : (kept is : List ℕ) → All (λ j. blocked over kept j ≡ false) (select over kept is)
  unfolding select
  select-blocked kept [] = tt
  select-blocked kept (i ∷ is) =
      let weaken = λ (j : ℕ) (h : blocked over (i ∷ kept) j ≡ false).
        ||-false (over i j) (blocked over kept j) h in
      ground (
        arith,
        select-blocked kept is,
        All-map (λ j. blocked over (i ∷ kept) j ≡ false) (λ j. blocked over kept j ≡ false)
            (select over (i ∷ kept) is) (λ j h. (weaken j h).1) (select-blocked (i ∷ kept) is),
      )

  select-Separated : (kept is : List ℕ) → Separated (select over kept is)
  unfolding select
  select-Separated kept [] = tt
  select-Separated kept (i ∷ is) = ground (
    arith,
    select-Separated kept is,
    select-Separated (i ∷ kept) is,
    All-map (λ j. blocked over (i ∷ kept) j ≡ false) (λ j. over i j ≡ false)
        (select over (i ∷ kept) is) (λ j h. (||-false (over i j) (blocked over kept j) h).0)
        (select-blocked (i ∷ kept) is),
  )

  -- Each index is chosen, or one chosen before or in the walk overlaps it.
  abbrev Covered : List ℕ → List ℕ → ℕ → Type 0
  Covered kept chosen j = (elem j chosen || (blocked over kept j || blocked over chosen j)) ≡ true

  select-Covered : (kept is : List ℕ) → All (Covered kept (select over kept is)) is
  unfolding select
  select-Covered kept [] = tt
  select-Covered kept (i ∷ is) = ground (
    arith,
    select-Covered kept is,
    ==_iff i i,
    All-map (Covered (i ∷ kept) (select over (i ∷ kept) is))
        (Covered kept (i ∷ select over (i ∷ kept) is)) is (λ j h. ground arith)
        (select-Covered (i ∷ kept) is),
  )

  select-Sublistᴰ : (kept is : List ℕ) → Sublistᴰ (select over kept is) is
  unfolding select
  select-Sublistᴰ kept [] = Sublistᴰ.slnil
  select-Sublistᴰ kept (i ∷ is) = elim (Bool-cases (blocked over kept i)) [
    | inl e ↦ rw e (Sublistᴰ.cons (select-Sublistᴰ kept is))
    | inr e ↦ rw e (Sublistᴰ.cons-cons refl (select-Sublistᴰ (i ∷ kept) is))
  ]

  select-All {κ} : (P : ℕ → Type κ) (kept is : List ℕ) → All P is → All P (select over kept is)
  unfolding select
  select-All P kept [] h = tt
  select-All P kept (i ∷ is) h = elim (Bool-cases (blocked over kept i)) [
    | inl e ↦ rw e (select-All P kept is h.1)
    | inr e ↦ rw e (h.0, select-All P (i ∷ kept) is h.1)
  ]

-- From the library's membership to the Boolean one.
Mem-elem : {a : ℕ} (xs : List ℕ) → Mem a xs → elem a xs ≡ true
Mem-elem [] m = absurd (not-mem-nil m)
Mem-elem {a} (x ∷ xs) m =
    Or.elim (hlevel) (mem-cons.0 m) (λ e. ground (arith, ==_iff a x))
      (λ m'. ground (arith, Mem-elem xs m'))

elem-Mem : (a : ℕ) (xs : List ℕ) → elem a xs ≡ true → Mem a xs
elem-Mem a [] h = absurd (false≢true h)
elem-Mem a (x ∷ xs) h = elim (Bool-cases (a == x)) [
  | inl e ↦ rw ((==_iff a x).0 e) mem-cons_self
  | inr e ↦ mem-cons_of_mem x (elem-Mem a xs (ground arith))
]

Nodup-Distinct : (xs : List ℕ) → Nodup xs → Distinct xs
Nodup-Distinct [] h = tt
Nodup-Distinct (x ∷ xs) h = elim (Bool-cases (elem x xs)) [
  | inl e ↦ absurd ((Nodup-cons.0 h).0 (elem-Mem x xs e))
  | inr e ↦ (e, Nodup-Distinct xs (Nodup-cons.0 h).1)
]

All-of_Mem {κ} : (P : ℕ → Type κ) (xs : List ℕ) → ((a : ℕ) → Mem a xs → P a) → All P xs
All-of_Mem P [] f = tt
All-of_Mem P (x ∷ xs) f = (f x mem-cons_self, All-of_Mem P xs (λ a m. f a (mem-cons_of_mem x m)))

elem-All : (P : ℕ → Type 0) (xs : List ℕ) (a : ℕ) → All P xs → elem a xs ≡ true → P a
elem-All P [] a h e = absurd (false≢true e)
elem-All P (x ∷ xs) a h e = elim (Bool-cases (a == x)) [
  | inl q ↦ rw ((==_iff a x).0 q) h.0
  | inr q ↦ elem-All P xs a h.1 (ground arith)
]

elem-iota : (i n a : ℕ) → i ≤ a → a < i + n → elem a (iota i n) ≡ true
elem-iota i zero a h k = absurd (omega arith)
elem-iota i (suc n) a h k = ground (arith, ==_iff a i, elem-iota (i + 1) n a)

iota_bounds : (i n a : ℕ) → elem a (iota i n) ≡ true → (i ≤ a) × (a < i + n)
iota_bounds i zero a h = absurd (false≢true h)
iota_bounds i (suc n) a h = ground (arith, ==_iff a i, iota_bounds (i + 1) n a)

iota-Nodup : (i n : ℕ) → Nodup (iota i n)
iota-Nodup i zero = Nodup-nil
iota-Nodup i (suc n) = Nodup-cons.1 (
  (λ m. absurd (omega (arith, (iota_bounds (i + 1) n i (Mem-elem (iota (i + 1) n) m)).0))),
  iota-Nodup (i + 1) n,
)

length-replicate-false : (n : ℕ) → length (replicate n false) ≡ n
length-replicate-false zero = refl
length-replicate-false (suc n) = ap suc (length-replicate-false n)

get_or-replicate-false : (n j : ℕ) → get_or (replicate n false) j false ≡ false
get_or-replicate-false zero j = refl
get_or-replicate-false (suc n) zero = refl
get_or-replicate-false (suc n) (suc j) = get_or-replicate-false n j

module _ {F : Type 0} ⦃f : Float F⦄ (o : IsOrdered F) (scores : List F)
    (numbers : All IsNumber scores) where
  get_or-IsNumber : (xs : List F) (i : ℕ) → All IsNumber xs → IsNumber (get_or xs i nought)
  get_or-IsNumber [] i h = o.lit_refl 0 0
  get_or-IsNumber (x ∷ xs) zero h = h.0
  get_or-IsNumber (x ∷ xs) (suc i) h = get_or-IsNumber xs i h.1

  higher_cotrans :
      (a b c : ℕ) → higher scores a c ≡ true → higher scores a b ≡ false → higher scores b c ≡ true
  unfolding higher
  higher_cotrans a b c p q = elim (Bool-cases (get_or scores c nought <? get_or scores b nought)) [
    | inl e ↦ e
    | inr e ↦
        absurd (false≢true (sym q ∙ o.lt_cotrans _ _ _ (get_or-IsNumber scores b numbers) p e))
  ]

module _ {F : Type 0} ⦃f : Float F⦄ (sort : Sort) (sorts : IsSort sort) (boxes : List (BBox F))
    (scores : List F) where
  order-Nodup : Nodup (nms_order sort boxes scores)
  unfolding nms_order
  order-Nodup =
      Perm.nodup (Perm.symm (sorts.perm (higher scores) (iota 0 (length boxes))))
        (iota-Nodup 0 (length boxes))

  order-elem : (i : ℕ) → i < length boxes → elem i (nms_order sort boxes scores) ≡ true
  unfolding nms_order
  order-elem i h = Mem-elem _ (
      (Perm.mem_iff (sorts.perm (higher scores) (iota 0 (length boxes)))).1
        (elem-Mem i _ (elem-iota 0 (length boxes) i (omega arith) (omega arith))))

  order-lt : All (λ j. j < length (replicate (length boxes) false)) (nms_order sort boxes scores)
  unfolding nms_order
  order-lt = All-of_Mem _ _ λ a m. rw (length-replicate-false (length boxes)) (
      omega (
        arith,
        (iota_bounds 0 (length boxes) a (
            Mem-elem _
              ((Perm.mem_iff (sorts.perm (higher scores) (iota 0 (length boxes)))).0 m))).1,
      ))

  -- The loops with their flags return the greedy selection from the sorted order: an index is kept
  -- unless one kept before it overlaps it by more than the threshold.
  pub nms-eq-select :
      (iou_thr : F)
      → nms sort boxes scores iou_thr
        ≡ select (overlaps boxes iou_thr) [] (nms_order sort boxes scores)
  unfolding nms
  nms-eq-select iou_thr =
      sweep-eq-select (overlaps boxes iou_thr) _ [] _ _ order-lt
        (All-of_Mem _ _ (λ a m. Mem-elem _ m)) (Nodup-Distinct _ order-Nodup)
        (All-intro (λ j. get_or (replicate (length boxes) false) j false ≡ false) _
          (get_or-replicate-false (length boxes)))

  pub nms-All_lt : (iou_thr : F) → All (λ j. j < length boxes) (nms sort boxes scores iou_thr)
  nms-All_lt iou_thr = rw (nms-eq-select iou_thr) (
      select-All (overlaps boxes iou_thr) (λ j. j < length boxes) [] _
        (rw (length-replicate-false (length boxes)) at order-lt))

  -- No kept box overlaps one that is kept after it by more than the threshold.
  pub nms-Separated :
      (iou_thr : F) → Separated (overlaps boxes iou_thr) (nms sort boxes scores iou_thr)
  nms-Separated iou_thr =
      rw (nms-eq-select iou_thr) (select-Separated (overlaps boxes iou_thr) [] _)

  -- Every box is kept or overlaps a kept one by more than the threshold.
  pub nms_covers :
      (iou_thr : F) (i : ℕ)
      → i < length boxes
      → let kept = nms sort boxes scores iou_thr in
        (elem i kept ≡ true) ⊎ (blocked (overlaps boxes iou_thr) kept i ≡ true)
  nms_covers iou_thr i h =
      let over = overlaps boxes iou_thr in
      rw (nms-eq-select iou_thr) (
        ||-true (elem i (select over [] (nms_order sort boxes scores))) _
          (elem-All _ _ i (select-Covered over [] (nms_order sort boxes scores)) (order-elem i h)))

  -- If no score is NaN, the kept indices come in order of descending scores, none of them twice.
  pub nms_descending :
      IsOrdered F
      → All IsNumber scores
      → (iou_thr : F)
      → let kept = nms sort boxes scores iou_thr in
        Pairwise (λ a b. higher scores b a ≡ false) kept × Nodup kept
  unfolding higher nms_order
  nms_descending o numbers iou_thr =
      let sub = select-Sublistᴰ (overlaps boxes iou_thr) [] (nms_order sort boxes scores) in
      rw (nms-eq-select iou_thr) (
        Pairwise.sublistᴰ sub (
            sorts.ordered (higher scores) (iota 0 (length boxes)) (λ a. o.lt_irrefl _)
              (λ a b c p q. o.lt_of_lt_of_le _ _ _ q (o.le_of_lt _ _ p))
              (λ a b c p q. higher_cotrans o scores numbers a b c p q)),
        Nodup.sublist ∣ sub ∣₁ order-Nodup,
      )
