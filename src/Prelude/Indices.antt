-- ===== src/Prelude/Indices.antt =====
-- Laws of lists of indices, and of lists read and changed by index.
use Prim.Native.Nat.{ℕ, zero, suc, ◌+◌, ◌<◌}
use mathlib.Core.Path.{◌≡◌, refl, ap}
use mathlib.Core.Bool.{Bool, true, false, ◌&&◌, ◌||◌}
use mathlib.Core.List.{List, [], ◌∷◌, ◌++◌, map}
use mathlib.Core.Option
use mathlib.Core.Option.{Option, none, some}
use native.Mathlib.Omega.{arith}
use custos_tracker.Prelude.Tests.{if◌then◌else◌, ◌==◌, ==_iff}
use custos_tracker.Prelude.Lists.{
  elem, Distinct, keep, positions, modify, unflagged, get_elem?, get_or, set, length, All,
}

pub elem-keep : (p : ℕ → Bool) (xs : List ℕ) (i : ℕ) → elem i (keep p xs) ≡ (elem i xs && p i)
elem-keep p [] i = refl
elem-keep p (x ∷ xs) i = ground (arith, elem-keep p xs i, ==_iff i x)

pub Distinct-keep : (p : ℕ → Bool) (xs : List ℕ) → Distinct xs → Distinct (keep p xs)
Distinct-keep p [] d = tt
Distinct-keep p (x ∷ xs) d = ground (arith, Distinct-keep p xs d.1, elem-keep p xs x)

pub elem-append : (xs ys : List ℕ) (i : ℕ) → elem i (xs ++ ys) ≡ (elem i xs || elem i ys)
elem-append [] ys i = refl
elem-append (x ∷ xs) ys i = ground (arith, elem-append xs ys i)

-- Two lists with no common item.
abbrev pub Apart : List ℕ → List ℕ → Type 0
Apart [] ys = Unit
Apart (x ∷ xs) ys = (elem x ys ≡ false) × Apart xs ys

pub Distinct-append :
    (xs ys : List ℕ) → Distinct xs → Distinct ys → Apart xs ys → Distinct (xs ++ ys)
Distinct-append [] ys p q a = q
Distinct-append (x ∷ xs) ys p q a =
    (ground (arith, elem-append xs ys x), Distinct-append xs ys p.1 q a.1)

pub Apart-intro : (xs ys : List ℕ) → ((i : ℕ) → elem i xs ≡ true → elem i ys ≡ false) → Apart xs ys
Apart-intro [] ys h = tt
Apart-intro (x ∷ xs) ys h =
    (h x (ground (arith, ==_iff x x)), Apart-intro xs ys (λ i e. h i (ground arith)))

module _ {ℓ} {A : Type ℓ} where
  abbrev pub holds : (A → Bool) → Option A → Bool
  holds p none = false
  holds p (some a) = p a

  pub positions_low :
      (p : A → Bool) (k : ℕ) (xs : List A) (j : ℕ) → j < k → elem j (positions p k xs) ≡ false
  positions_low p k [] j h = refl
  positions_low p k (x ∷ xs) j h = ground (arith, positions_low p (k + 1) xs j, ==_iff j k)

  pub elem-positions_from :
      (p : A → Bool) (k : ℕ) (xs : List A) (i : ℕ)
      → elem (k + i) (positions p k xs) ≡ holds p (get_elem? xs i)
  elem-positions_from p k [] i = refl
  elem-positions_from p k (x ∷ xs) zero =
      let e : k + 0 ≡ k = omega arith in
      rw e (ground (arith, positions_low p (k + 1) xs k, ==_iff k k))
  elem-positions_from p k (x ∷ xs) (suc i) =
      let e : k + suc i ≡ k + 1 + i = omega arith in
      let ne : ((k + 1 + i) == k) ≡ false = ground arith in
      rw e (ground (arith, elem-positions_from p (k + 1) xs i, ne))

  pub elem-positions :
      (p : A → Bool) (xs : List A) (i : ℕ) → elem i (positions p 0 xs) ≡ holds p (get_elem? xs i)
  elem-positions p xs i = let e : 0 + i ≡ i = omega arith in rw e at (elem-positions_from p 0 xs i)

  pub Distinct-positions : (p : A → Bool) (k : ℕ) (xs : List A) → Distinct (positions p k xs)
  Distinct-positions p k [] = tt
  Distinct-positions p k (x ∷ xs) =
      ground (arith, Distinct-positions p (k + 1) xs, positions_low p (k + 1) xs k)

  pub get_elem?-modify :
      (i : ℕ) (g : A → A) (xs : List A) (j : ℕ)
      → get_elem? (modify i g xs) j
        ≡ (if i == j then Option.map g (get_elem? xs j) else get_elem? xs j)
  get_elem?-modify i g [] j = ground arith
  get_elem?-modify zero g (x ∷ xs) zero = refl
  get_elem?-modify zero g (x ∷ xs) (suc j) = ground arith
  get_elem?-modify (suc i) g (x ∷ xs) zero = ground arith
  get_elem?-modify (suc i) g (x ∷ xs) (suc j) = ground (arith, get_elem?-modify i g xs j)

  pub length-modify : (i : ℕ) (g : A → A) (xs : List A) → length (modify i g xs) ≡ length xs
  length-modify i g [] = refl
  length-modify zero g (x ∷ xs) = refl
  length-modify (suc i) g (x ∷ xs) = ap suc (length-modify i g xs)

  pub All-get_elem? {κ} :
      (P : A → Type κ) (xs : List A) → ((i : ℕ) (a : A) → get_elem? xs i ≡ some a → P a) → All P xs
  All-get_elem? P [] h = tt
  All-get_elem? P (x ∷ xs) h = (h 0 x refl, All-get_elem? P xs (λ i a e. h (suc i) a e))

  -- A predicate on what has no flag set.
  pub All-unflagged {κ} :
      (P : A → Type κ) (flags : List Bool) (xs : List A)
      → ((i : ℕ) (x : A) → get_elem? xs i ≡ some x → get_or flags i false ≡ false → P x)
      → All P (unflagged flags xs)
  All-unflagged P flags [] h = tt
  All-unflagged P [] (x ∷ xs) h = All-get_elem? P (x ∷ xs) (λ i a e. h i a e refl)
  All-unflagged P (true ∷ bs) (x ∷ xs) h = All-unflagged P bs xs (λ i a e b. h (suc i) a e b)
  All-unflagged P (false ∷ bs) (x ∷ xs) h =
      (h 0 x refl refl, All-unflagged P bs xs (λ i a e b. h (suc i) a e b))

pub get_or-set :
    (xs : List Bool) (i j : ℕ)
    → j < length xs
    → get_or (set xs i true) j false ≡ (j == i || get_or xs j false)
get_or-set [] i j h = elim h [ ]
get_or-set (x ∷ xs) zero zero h = refl
get_or-set (x ∷ xs) zero (suc j) h = ground arith
get_or-set (x ∷ xs) (suc i) zero h = ground arith
get_or-set (x ∷ xs) (suc i) (suc j) h = ground (arith, get_or-set xs i j)

pub get_elem?-map {ℓ κ} :
    {A : Type ℓ} {B : Type κ} (g : A → B) (xs : List A) (i : ℕ)
    → get_elem? (map g xs) i ≡ Option.map g (get_elem? xs i)
get_elem?-map g [] i = refl
get_elem?-map g (x ∷ xs) zero = refl
get_elem?-map g (x ∷ xs) (suc i) = get_elem?-map g xs i

pub get_elem?-lt {ℓ} :
    {A : Type ℓ} (xs : List A) (i : ℕ) (a : A) → get_elem? xs i ≡ some a → i < length xs
get_elem?-lt [] i a e = cc
get_elem?-lt (x ∷ xs) zero a e = omega arith
get_elem?-lt (x ∷ xs) (suc i) a e = omega (arith, get_elem?-lt xs i a e)

pub unflagged-append {ℓ} :
    {A : Type ℓ} (flags : List Bool) (xs ys : List A)
    → length flags ≡ length xs
    → unflagged flags (xs ++ ys) ≡ unflagged flags xs ++ ys
unflagged-append [] [] [] e = refl
unflagged-append [] [] (y ∷ ys) e = refl
unflagged-append [] (x ∷ xs) ys e = refl
unflagged-append (b ∷ bs) [] ys e = ground arith
unflagged-append (true ∷ bs) (x ∷ xs) ys e = unflagged-append bs xs ys (omega (arith, e))
unflagged-append (false ∷ bs) (x ∷ xs) ys e =
    ap (◌∷◌ x) (unflagged-append bs xs ys (omega (arith, e)))
