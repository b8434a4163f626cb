-- ===== src/Geometry/Nms.antt =====
-- `nms` of core/src/common/geometry.cpp: greedy suppression over a sorted order of indices.
-- `std::sort` is a parameter, a function of a comparison and a list; `IsSort` states what the code
-- relies on. The two loops are `sweep` and, inside it, `mark`.
pub mod Greedy
pub mod Laws
pub mod Sorting
mod Tests
use mathlib.Core.List.{Perm, Pairwise}
use custos_tracker.Prelude.{
  ℕ, zero, suc, ◌+◌, List, [], ◌∷◌, Bool, true, false, ◌||◌, if◌then◌else◌, ◌==◌, get_or, set,
  replicate, length, ◌≡◌,
}
use custos_tracker.Float.{Float, ◌<?◌, nought}
use custos_tracker.Types.{BBox, zero_box}
use custos_tracker.Geometry.Boxes.{iou}

-- i, i + 1, …, as `std::iota` writes them.
abbrev pub iota : ℕ → ℕ → List ℕ
iota i zero = []
iota i (suc n) = i ∷ iota (i + 1) n

abbrev pub Sort : Type 0
Sort = (ℕ → ℕ → Bool) → List ℕ → List ℕ

-- `std::sort` permutes its input, and no later item comes before an earlier one in the given order,
-- if that is a strict weak order.
pub record IsSort (sort : Sort) : Type 0 where
  pub perm : (before : ℕ → ℕ → Bool) (xs : List ℕ) → Perm (sort before xs) xs
  pub ordered :
      (before : ℕ → ℕ → Bool) (xs : List ℕ)
      → ((a : ℕ) → before a a ≡ false)
      → ((a b c : ℕ) → before a b ≡ true → before b c ≡ true → before a c ≡ true)
      → ((a b c : ℕ) → before a c ≡ true → before a b ≡ false → before b c ≡ true)
      → Pairwise (λ a b. before b a ≡ false) (sort before xs)

module _ (over : ℕ → ℕ → Bool) where
  -- The inner loop: every index of the order that `i` overlaps is suppressed, but for `i`.
  pub flag : ℕ → ℕ → List Bool → List Bool
  flag i j suppressed =
      if j == i || get_or suppressed j false
      then suppressed
      else if over i j
      then set suppressed j true
      else suppressed

  pub mark : ℕ → List ℕ → List Bool → List Bool
  mark i [] suppressed = suppressed
  mark i (j ∷ js) suppressed = mark i js (flag i j suppressed)

  -- The outer loop over what is left of the order.
  pub sweep : List ℕ → List ℕ → List Bool → List ℕ
  sweep order [] suppressed = []
  sweep order (i ∷ is) suppressed =
      let kept = i ∷ sweep order is (mark i order suppressed) in
      let skipped = sweep order is suppressed in if get_or suppressed i false then skipped else kept

module _ {ℓ} {F : Type ℓ} ⦃f : Float F⦄ where
  pub overlaps : List (BBox F) → F → ℕ → ℕ → Bool
  overlaps boxes iou_thr i j = iou_thr <? iou (get_or boxes i zero_box) (get_or boxes j zero_box)

  pub higher : List F → ℕ → ℕ → Bool
  higher scores a b = get_or scores b nought <? get_or scores a nought

  pub nms_order : Sort → List (BBox F) → List F → List ℕ
  nms_order sort boxes scores = sort (higher scores) (iota 0 (length boxes))

  pub nms : Sort → List (BBox F) → List F → F → List ℕ
  nms sort boxes scores iou_thr =
      let order = nms_order sort boxes scores in
      sweep (overlaps boxes iou_thr) order order (replicate (length boxes) false)
