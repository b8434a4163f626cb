-- ===== src/Geometry/Nms/Greedy.antt =====
-- The two loops of `nms`, with their array of flags, compute the greedy selection by recursion.
use custos_tracker.Prelude.{
  elem, Distinct, ℕ, zero, suc, ◌<◌, List, [], ◌∷◌, Bool, true, false, not, ◌&&◌, ◌||◌,
  if◌then◌else◌, ◌==◌, get_or, set, length, length-set, arith, ◌≡◌, refl, All, ◌∙◌,
}
use custos_tracker.Geometry.Nms.{flag, mark, sweep}

get_or-set :
    (xs : List Bool) (i j : ℕ)
    → i < length xs
    → get_or (set xs i true) j false ≡ (j == i || get_or xs j false)
get_or-set [] i j h = elim h [ ]
get_or-set (x ∷ xs) zero zero h = refl
get_or-set (x ∷ xs) zero (suc j) h = ground arith
get_or-set (x ∷ xs) (suc i) zero h = ground arith
get_or-set (x ∷ xs) (suc i) (suc j) h = ground (arith, get_or-set xs i j)

module _ (over : ℕ → ℕ → Bool) where
  abbrev pub blocked : List ℕ → ℕ → Bool
  blocked [] j = false
  blocked (k ∷ ks) j = over k j || blocked ks j

  -- Walk the order and keep an index unless one kept earlier overlaps it.
  unfoldable pub select : List ℕ → List ℕ → List ℕ
  select kept [] = []
  select kept (i ∷ is) =
      let chosen = i ∷ select (i ∷ kept) is in
      let passed = select kept is in if blocked kept i then passed else chosen

  length-flag : (i j : ℕ) (s : List Bool) → length (flag over i j s) ≡ length s
  unfolding flag
  length-flag i j s = ground (arith, length-set s j true)

  get_or-flag :
      (i k : ℕ) (s : List Bool) (j : ℕ)
      → k < length s
      → get_or (flag over i k s) j false
        ≡ (get_or s j false || (j == k && not (j == i) && over i j))
  unfolding flag
  get_or-flag i k s j h = ground (arith, get_or-set s k j)

  All-lt-flag :
      (i k : ℕ) (s : List Bool) (js : List ℕ)
      → All (λ j. j < length s) js
      → All (λ j. j < length (flag over i k s)) js
  All-lt-flag i k s [] h = tt
  All-lt-flag i k s (j ∷ js) h = (omega (arith, length-flag i k s), All-lt-flag i k s js h.1)

  get_or-mark :
      (i : ℕ) (js : List ℕ) (s : List Bool) (j : ℕ)
      → All (λ k. k < length s) js
      → get_or (mark over i js s) j false
        ≡ (get_or s j false || (elem j js && not (j == i) && over i j))
  unfolding mark
  get_or-mark i [] s j h = ground arith
  get_or-mark i (k ∷ ks) s j h = ground (
    arith,
    get_or-flag i k s j h.0,
    get_or-mark i ks (flag over i k s) j (All-lt-flag i k s ks h.1),
  )

  length-mark : (i : ℕ) (js : List ℕ) (s : List Bool) → length (mark over i js s) ≡ length s
  unfolding mark
  length-mark i [] s = refl
  length-mark i (k ∷ ks) s = length-mark i ks (flag over i k s) ∙ length-flag i k s

  -- The flag of an index says whether a kept one overlaps it.
  abbrev pub Agree : List ℕ → List ℕ → List Bool → Type 0
  Agree kept is s = All (λ j. get_or s j false ≡ blocked kept j) is

  Agree-mark :
      (order kept is : List ℕ) (i : ℕ) (s : List Bool)
      → All (λ j. j < length s) order
      → All (λ j. elem j order ≡ true) is
      → elem i is ≡ false
      → Agree kept is s
      → Agree (i ∷ kept) is (mark over i order s)
  Agree-mark order kept [] i s b e d a = tt
  Agree-mark order kept (j ∷ js) i s b e d a = (
    ground (arith, get_or-mark i order s j b),
    Agree-mark order kept js i s b e.1 (ground arith) a.1,
  )

  All-lt-mark :
      (i : ℕ) (ks : List ℕ) (s : List Bool) (js : List ℕ)
      → All (λ j. j < length s) js
      → All (λ j. j < length (mark over i ks s)) js
  All-lt-mark i ks s [] h = tt
  All-lt-mark i ks s (j ∷ js) h = (omega (arith, length-mark i ks s), All-lt-mark i ks s js h.1)

  pub sweep-eq-select :
      (order kept is : List ℕ) (s : List Bool)
      → All (λ j. j < length s) order
      → All (λ j. elem j order ≡ true) is
      → Distinct is
      → Agree kept is s
      → sweep over order is s ≡ select kept is
  unfolding sweep select
  sweep-eq-select order kept [] s b e d a = refl
  sweep-eq-select order kept (i ∷ is) s b e d a = ground (
    arith,
    sweep-eq-select order kept is s b e.1 d.1 a.1,
    sweep-eq-select order (i ∷ kept) is (mark over i order s) (All-lt-mark i order s order b) e.1
        d.1 (Agree-mark order kept is i s b e.1 d.0 a.1),
  )
