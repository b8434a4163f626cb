-- ===== src/Subwindow/Axis.antt =====
-- One axis of a window: what is visible of it, and where it lies in the image.
use custos_tracker.Prelude.{
  ℕ, suc, ◌+◌, ◌-◌, ◌≤◌, ◌<◌, pos, negsuc, pos_part, ℤ, ◌+ℤ◌, ◌-ℤ◌, ltb_ℤ, leb_ℤ, eqb_ℤ, Bool, true,
  false, ◌∙◌, ◌&&◌, ltb, leb, ◌≡◌, arith, sub_ℕ, Bool-cases, inl, inr, ◌⊎◌,
}
use custos_tracker.Subwindow.{low_pad, high_pad, visible}

-- A coordinate of an image of size `m`.
abbrev pub inside : ℕ → ℤ → Bool
inside m z = leb_ℤ (pos 0) z && ltb_ℤ z (pos m)

pub sub_le : (a b : ℕ) → b ≤ a → sub_ℕ a b ≡ pos (a - b)
sub_le a b h = ground arith

low_pos : (k : ℕ) → low_pad (pos k) ≡ pos 0
unfolding ◌-ℤ◌
low_pos k = ground arith

low_neg : (k : ℕ) → low_pad (negsuc k) ≡ pos (suc k)
unfolding ◌-ℤ◌
low_neg k = ground arith

high_pos : (k n m : ℕ) → high_pad (pos k) (pos (suc n)) (pos m) ≡ pos (k + suc n - m)
unfolding ◌-ℤ◌ ◌+ℤ◌
high_pos k n m = ground arith

high_neg : (k n m : ℕ) → high_pad (negsuc k) (pos (suc n)) (pos m) ≡ pos (n - k - m)
unfolding ◌-ℤ◌ ◌+ℤ◌
high_neg k n m = ground arith

-- An axis of a window of `n` pixels on `m` pixels: `low` come before the image, and `width` are visible,
-- from the pixel `first` of the image on.
pub record Axis (lo : ℤ) (n m : ℕ) : Type 0 where
  pub low : ℕ
  pub high : ℕ
  pub first : ℕ
  pub width : ℕ
  pub low_is : low_pad lo ≡ pos low
  pub high_is : high_pad lo (pos n) (pos m) ≡ pos high
  pub first_is : lo +ℤ pos low ≡ pos first
  pub width_is : n ≡ low + width + high
  pub fits : first + width ≤ m
  pub shown : (x : ℕ) → x < n → inside m (lo +ℤ pos x) ≡ (leb low x && ltb x (low + width))
  pub place : (x : ℕ) → low ≤ x → pos_part (lo +ℤ pos x) ≡ first + (x - low)

-- An axis on which nothing is visible.
pub record Hidden (lo : ℤ) (n m : ℕ) : Type 0 where
  pub dark : ltb_ℤ (pos 0) (visible (pos n) (low_pad lo) (high_pad lo (pos n) (pos m))) ≡ false
  pub hidden : (x : ℕ) → x < n → inside m (lo +ℤ pos x) ≡ false
  pub pads : (eqb_ℤ (low_pad lo) (pos 0) && eqb_ℤ (high_pad lo (pos n) (pos m)) (pos 0)) ≡ false

pub axis : (lo : ℤ) (n m : ℕ) → Axis lo (suc n) m ⊎ Hidden lo (suc n) m
unfolding ◌+ℤ◌ ◌-ℤ◌
axis (pos k) n m = elim (Bool-cases (ltb k m)) [
  | inl e ↦ inl (record {
    low = 0;
    high = k + suc n - m;
    first = k;
    width = suc n - (k + suc n - m);
    low_is = low_pos k;
    high_is = high_pos k n m;
    first_is = ground arith;
    width_is = ground arith;
    fits = ground arith;
    shown = λ x h. ground arith;
    place = λ x h. ground arith;
  })
  | inr e ↦ inr (record {
    dark = rw (low_pos k, high_pos k n m) (ground arith);
    hidden = λ x h. ground arith;
    pads = rw (low_pos k, high_pos k n m) (ground arith);
  })
]
axis (negsuc k) n m = elim (Bool-cases (ltb k n)) [
  | inl e ↦ inl (record {
    low = suc k;
    high = n - k - m;
    first = 0;
    width = n - k - (n - k - m);
    low_is = low_neg k;
    high_is = high_neg k n m;
    first_is = ground arith;
    width_is = ground arith;
    fits = ground arith;
    shown = λ x h. ground arith;
    place = λ x h. ground arith;
  })
  | inr e ↦ inr (record {
    dark = rw (low_neg k, high_neg k n m) (ground arith);
    hidden = λ x h. ground arith;
    pads = rw (low_neg k, high_neg k n m) (ground arith);
  })
]

pub visible-Axis :
    (lo : ℤ) (n m : ℕ) (a : Axis lo n m)
    → visible (pos n) (low_pad lo) (high_pad lo (pos n) (pos m)) ≡ pos a.width
unfolding ◌-ℤ◌
visible-Axis lo n m a = rw (a.low_is, a.high_is) (ground (arith, a.width_is))

-- An axis without padding lies in the image.
pub whole-Axis :
    (lo : ℤ) (n m : ℕ) (a : Axis lo n m)
    → eqb_ℤ (low_pad lo) (pos 0) ≡ true
    → eqb_ℤ (high_pad lo (pos n) (pos m)) (pos 0) ≡ true
    → (a.low ≡ 0) × ((a.width ≡ n) × (lo ≡ pos a.first))
unfolding ◌+ℤ◌
whole-Axis lo n m a p q =
    let l : a.low ≡ 0 = ground (arith, rw a.low_is at p) in
    let h : a.high ≡ 0 = ground (arith, rw a.high_is at q) in
    (l, (omega (arith, a.width_is, l, h), add_nought lo ∙ rw l at a.first_is))
  where
    add_nought : (z : ℤ) → z ≡ z +ℤ pos 0
    add_nought z = ground arith

-- All of it is shown.
pub whole_shown :
    (lo : ℤ) (n m : ℕ) (a : Axis lo n m)
    → a.low ≡ 0
    → a.width ≡ n
    → (x : ℕ) → x < n
    → (inside m (lo +ℤ pos x) ≡ true) × (pos_part (lo +ℤ pos x) ≡ a.first + x)
whole_shown lo n m a l w x h =
    let least : a.low ≤ x = omega (arith, l) in
    let seen : (leb a.low x && ltb x (a.low + a.width)) ≡ true = ground arith in
    (a.shown x h ∙ seen, a.place x least ∙ omega (arith, l))
