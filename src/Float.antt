-- ===== src/Float.antt =====
-- `float` and `double`. The development computes with no floating-point format: every definition that
-- touches one takes the type and its operations as this record, an instance argument. The laws
-- that a theorem needs are in `IsOrdered`: they hold of IEEE 754 comparisons with NaN included.
pub mod Milli
use custos_tracker.Prelude.{ℕ, ℤ, Bool, true, false, ◌≡◌, if◌then◌else◌, not, ◌&&◌, ◌||◌}

-- `float` and `double` are one type; where the code of the parameters casts a `double` to `float`, the rounding
-- is `to_float`.
-- `lit d k` is the literal with digits `d`, the last `k` of them behind the point: 0.05f is `lit 5 2`.
pub record Float {ℓ} (F : Type ℓ) : Type ℓ where
  pub lit : ℕ → ℕ → F
  pub add : F → F → F
  pub sub : F → F → F
  pub mul : F → F → F
  pub div : F → F → F
  pub neg : F → F
  pub abs : F → F
  pub sqrt : F → F
  pub exp : F → F
  pub hypot : F → F → F
  pub floor : F → F
  pub trunc : F → ℤ
  pub of_int : ℤ → F
  pub to_float : F → F
  pub lt : F → F → Bool
  pub le : F → F → Bool

module _ {ℓ} {F : Type ℓ} ⦃f : Float F⦄ where
  open f use {add, sub, mul, div, lt, le, lit}

  infixl 65 ◌⊕◌ ◌⊖◌
  infixl 70 ◌⊗◌ ◌⊘◌
  infix 50 ◌<?◌ ◌≤?◌
  abbrev pub ◌⊕◌ : F → F → F
  ◌⊕◌ = add

  abbrev pub ◌⊖◌ : F → F → F
  ◌⊖◌ = sub

  abbrev pub ◌⊗◌ : F → F → F
  ◌⊗◌ = mul

  abbrev pub ◌⊘◌ : F → F → F
  ◌⊘◌ = div

  -- `a < b` and `a <= b`. The code's `a > b` is `b <? a`, and its `a >= b` is `b ≤? a`.
  abbrev pub ◌<?◌ : F → F → Bool
  ◌<?◌ = lt

  abbrev pub ◌≤?◌ : F → F → Bool
  ◌≤?◌ = le

  -- `a == b`, as the code compares with a literal.
  abbrev pub feq : F → F → Bool
  feq a b = a ≤? b && b ≤? a

  abbrev pub nought : F
  nought = lit 0 0

  abbrev pub one : F
  one = lit 1 0

  abbrev pub half : F
  half = lit 5 1

  -- `std::max`, `std::min` and `std::clamp` of the C++ standard, which also say what they do on NaN.
  abbrev pub fmax : F → F → F
  fmax a b = if a <? b then b else a

  abbrev pub fmin : F → F → F
  fmin a b = if b <? a then b else a

  abbrev pub fclamp : F → F → F → F
  fclamp v lo hi = if v <? lo then lo else if hi <? v then hi else v

-- Laws of `<` and `<=` that hold for all values of an IEEE 754 format, NaN included: a value that is
-- not `<=` itself is NaN, and no literal is.
pub record IsOrdered {ℓ} (F : Type ℓ) ⦃f : Float F⦄ : Type ℓ where
  pub lt_irrefl : (x : F) → f.lt x x ≡ false
  pub le_of_lt : (x y : F) → f.lt x y ≡ true → f.le x y ≡ true
  pub le_trans : (x y z : F) → f.le x y ≡ true → f.le y z ≡ true → f.le x z ≡ true
  pub lt_of_lt_of_le : (x y z : F) → f.lt x y ≡ true → f.le y z ≡ true → f.lt x z ≡ true
  pub lt_of_le_of_lt : (x y z : F) → f.le x y ≡ true → f.lt y z ≡ true → f.lt x z ≡ true
  pub lt_cotrans :
      (x y z : F) → f.le y y ≡ true → f.lt x z ≡ true → f.lt x y ≡ false → f.lt y z ≡ true
  pub lit_refl : (d k : ℕ) → f.le (f.lit d k) (f.lit d k) ≡ true

abbrev pub IsNumber {ℓ} : {F : Type ℓ} ⦃f : Float F⦄ → F → Type 0
IsNumber ⦃f⦄ x = f.le x x ≡ true
