-- ===== src/Munkres.antt =====
-- core/src/common/munkres.cpp: the assignment of rows to columns. A matrix of the program is a function of
-- its row and column, read below `n` only. An index of -1 is `none`. The loops that search for a zero
-- and for a path have no bound in the source; here they have fuel, and `none` is its end.
pub mod Search
pub mod Matching
pub mod Path
pub mod Cover
pub mod Rounds
pub mod Loops
pub mod Initial
pub mod Pigeons
pub mod Adjust
pub mod Ends
pub mod Exact
pub mod Shift
pub mod Zeros
pub mod Assignment
pub mod Minimal
mod Tests
use mathlib.Core.Option
use custos_tracker.Prelude.{
  ℕ, zero, suc, ◌+◌, ◌-◌, ◌*◌, Bool, true, false, not, ◌&&◌, ◌||◌, if◌then◌else◌, ltb, ◌==◌, get_or,
  length, List, [], ◌∷◌, map, Option, none, some,
}
use custos_tracker.Float.{Float, ◌⊕◌, ◌⊖◌, ◌<?◌, nought, fmin}
use custos_tracker.Geometry.Nms.{iota}

pub record Munkres (F : Type 0) : Type 0 where
  pub n : ℕ
  pub c : ℕ → ℕ → F
  pub star : ℕ → ℕ → Bool
  pub prime : ℕ → ℕ → Bool
  pub row_cov : ℕ → Bool
  pub col_cov : ℕ → Bool

-- The first of `k` indices from `i` on that passes a test, the last one, their number, and whether there is one.
pub first_from : (ℕ → Bool) → ℕ → ℕ → Option ℕ
first_from p i zero = none
first_from p i (suc k) = let rest = first_from p (i + 1) k in if p i then some i else rest

pub last_from : (ℕ → Bool) → ℕ → ℕ → Option ℕ → Option ℕ
last_from p i zero best = best
last_from p i (suc k) best = last_from p (i + 1) k (if p i then some i else best)

pub count_from : (ℕ → Bool) → ℕ → ℕ → ℕ
count_from p i zero = 0
count_from p i (suc k) = let rest = count_from p (i + 1) k in if p i then suc rest else rest

pub any_from : (ℕ → Bool) → ℕ → ℕ → Bool
any_from p i zero = false
any_from p i (suc k) = p i || any_from p (i + 1) k

-- A write into a vector and into a matrix.
abbrev pub put : {A : Type 0} → ℕ → A → (ℕ → A) → ℕ → A
put i v p a = if a == i then v else p a

abbrev pub put2 : ℕ → ℕ → Bool → (ℕ → ℕ → Bool) → ℕ → ℕ → Bool
put2 i j v m a b = if a == i && b == j then v else m a b

abbrev pub star_in_row : ℕ → (ℕ → ℕ → Bool) → ℕ → Option ℕ
star_in_row n star row = first_from (λ j. star row j) 0 n

abbrev pub star_in_col : ℕ → (ℕ → ℕ → Bool) → ℕ → Option ℕ
star_in_col n star col = first_from (λ i. star i col) 0 n

abbrev pub prime_in_row : ℕ → (ℕ → ℕ → Bool) → ℕ → Option ℕ
prime_in_row n prime row = first_from (λ j. prime row j) 0 n

-- The path from a column on: its star, the prime in the row of that, and so on.
pub path_from : ℕ → (ℕ → ℕ → Bool) → (ℕ → ℕ → Bool) → ℕ → ℕ → Option (List (ℕ × ℕ))
path_from n star prime zero col = none
path_from n star prime (suc k) col = elim (star_in_col n star col) [
  | none ↦ some []
  | some r ↦ elim (prime_in_row n prime r) [
    | none ↦ none
    | some col' ↦ Option.map (λ rest. (r, col) ∷ (r, col') ∷ rest) (path_from n star prime k col')
  ]
]

-- The cells of a path become stars and no stars in turn.
pub flip : Bool → List (ℕ × ℕ) → (ℕ → ℕ → Bool) → ℕ → ℕ → Bool
flip even [] star = star
flip even ((i, j) ∷ cells) star = flip (not even) cells (put2 i j even star)

-- The columns with a star.
abbrev pub starred : ℕ → (ℕ → ℕ → Bool) → ℕ → Bool
starred n star j = any_from (λ i. star i j) 0 n

-- The stars that are set first, with the rows and columns that have one.
pub record Starring : Type 0 where
  pub star : ℕ → ℕ → Bool
  pub row_used : ℕ → Bool
  pub col_used : ℕ → Bool

module _ {F : Type 0} ⦃f : Float F⦄ where
  open f use {lit, abs}

  abbrev pub is_zero : F → Bool
  is_zero v = abs v <? lit 1 9

  pub min_from : F → (ℕ → F) → ℕ → ℕ → F
  min_from m g i zero = m
  min_from m g i (suc k) = min_from (fmin m (g i)) g (i + 1) k

  abbrev less_rows : ℕ → (ℕ → ℕ → F) → ℕ → ℕ → F
  less_rows n c i j = c i j ⊖ min_from (c i 0) (c i) 1 (n - 1)

  -- `top` is the largest finite number, of `std::numeric_limits`.
  unfoldable pub reduce : F → Munkres F → Munkres F
  reduce top s =
      let c = less_rows s.n s.c in record s { c = λ i j. c i j ⊖ min_from top (λ k. c k j) 0 s.n }

  unfoldable pub star_cell : (ℕ → ℕ → F) → ℕ → ℕ → Starring → Starring
  star_cell c i j t =
      if not (t.row_used i) && not (t.col_used j) && is_zero (c i j)
      then record {
        star = put2 i j true t.star;
        row_used = put i true t.row_used;
        col_used = put j true t.col_used;
      }
      else t

  pub star_row : (ℕ → ℕ → F) → ℕ → ℕ → ℕ → Starring → Starring
  star_row c i j zero t = t
  star_row c i j (suc k) t = star_row c i (j + 1) k (star_cell c i j t)

  pub star_rows : ℕ → (ℕ → ℕ → F) → ℕ → ℕ → Starring → Starring
  star_rows n c i zero t = t
  star_rows n c i (suc k) t = star_rows n c (i + 1) k (star_row c i 0 n t)

  unfoldable pub star_initial : Munkres F → Munkres F
  star_initial s =
      let t : Starring = record { star = s.star; row_used = λ i. false; col_used = λ j. false } in
      record s { star = (star_rows s.n s.c 0 s.n t).star }

  -- The columns with stars are covered; and whether these are all.
  abbrev pub cover : Munkres F → Munkres F
  cover s = record s { col_cov = starred s.n s.star }

  abbrev pub all_covered : Munkres F → Bool
  all_covered s = count_from (starred s.n s.star) 0 s.n == s.n

  abbrev pub open_zero : Munkres F → ℕ → ℕ → Bool
  open_zero s i j = not (s.col_cov j) && is_zero (s.c i j)

  pub find_from : Munkres F → ℕ → ℕ → Option (ℕ × ℕ)
  find_from s i zero = none
  find_from s i (suc k) =
      let rest = find_from s (i + 1) k in
      if s.row_cov i
      then rest
      else elim (first_from (open_zero s i) 0 s.n) [ none ↦ rest | some j ↦ some (i, j) ]

  abbrev pub find_uncovered_zero : Munkres F → Option (ℕ × ℕ)
  find_uncovered_zero s = find_from s 0 s.n

  -- The least of the uncovered cells, by rows.
  pub least_in_row : Munkres F → ℕ → F → ℕ → ℕ → F
  least_in_row s i e j zero = e
  least_in_row s i e j (suc k) =
      least_in_row s i (if s.col_cov j then e else fmin e (s.c i j)) (j + 1) k

  pub least_from : Munkres F → F → ℕ → ℕ → F
  least_from s e i zero = e
  least_from s e i (suc k) =
      least_from s (if s.row_cov i then e else least_in_row s i e 0 s.n) (i + 1) k

  abbrev pub shifted : Munkres F → F → ℕ → ℕ → F
  shifted s e i j =
      let v = if s.row_cov i then s.c i j ⊕ e else s.c i j in if s.col_cov j then v else v ⊖ e

  unfoldable pub adjust : F → Munkres F → Munkres F
  adjust top s = record s { c = shifted s (least_from s top 0 s.n) }

  -- A prime without a star in its row: the path from it, and the covers and primes are cleared.
  unfoldable pub augment : ℕ → ℕ → Munkres F → Option (Munkres F)
  augment zr zc s =
      Option.map
        (λ path. record s {
          star = flip true ((zr, zc) ∷ path) s.star;
          prime = λ i j. false;
          row_cov = λ i. false;
          col_cov = λ j. false;
        })
        (path_from s.n s.star s.prime (s.n + 1) zc)

-- A round of the inner loop: `more` of it, or its end after a path.
pub data Step (F : Type 0) : Type 0 where
  more : Munkres F → Step F
  augmented : Option (Munkres F) → Step F

module _ {F : Type 0} ⦃f : Float F⦄ (top : F) where
  open f use {lit}

  -- With an uncovered zero.
  unfoldable pub use_zero : ℕ → ℕ → Munkres F → Step F
  use_zero zr zc s =
      let s' = record s { prime = put2 zr zc true s.prime } in
      elim (star_in_row s.n s.star zr) [
        | none ↦ augmented (augment zr zc s')
        | some col ↦
            more (record s' { row_cov = put zr true s.row_cov; col_cov = put col false s.col_cov })
      ]

  unfoldable pub round : Munkres F → Step F
  round s = elim (find_uncovered_zero s) [
    | none ↦ more (adjust top s)
    | some (zr, zc) ↦ use_zero zr zc s
  ]

  -- The inner loop, with a round for each step of fuel.
  pub inner : ℕ → Munkres F → Option (Munkres F)
  inner zero s = none
  inner (suc k) s = elim (round s) [ more s' ↦ inner k s' | augmented o ↦ o ]

  pub outer : ℕ → Munkres F → Option (Munkres F)
  outer zero s = none
  outer (suc k) s = elim (all_covered s) [
    | true ↦ some (cover s)
    | false ↦ elim (inner (s.n + s.n + 2) (cover s)) [ none ↦ none | some s' ↦ outer k s' ]
  ]

  abbrev pub padded : List (List F) → ℕ → ℕ → ℕ → ℕ → F
  padded cost rows cols i j =
      if ltb i rows && ltb j cols then get_or (get_or cost i []) j nought else nought

  abbrev pub start : ℕ → (ℕ → ℕ → F) → Munkres F
  start n c = record {
    n = n;
    c = c;
    star = λ i j. false;
    prime = λ i j. false;
    row_cov = λ i. false;
    col_cov = λ j. false;
  }

  unfoldable pub solve : Munkres F → Option (Munkres F)
  solve s = outer (s.n + 1) (star_initial (reduce top s))

  -- The columns of the rows.
  abbrev pub row_to_col : ℕ → ℕ → Munkres F → List (Option ℕ)
  row_to_col rows cols s = map (λ i. last_from (λ j. s.star i j) 0 cols none) (iota 0 rows)

  abbrev pub max_size : ℕ → ℕ → ℕ
  max_size rows cols = if ltb rows cols then cols else rows

  unfoldable pub munkres_solve : List (List F) → Option (List (Option ℕ))
  munkres_solve cost =
      let rows = length cost in
      let cols = length (get_or cost 0 []) in
      if rows == 0 || cols == 0
      then some (map (λ row. none) cost)
      else Option.map (row_to_col rows cols)
          (solve (start (max_size rows cols) (padded cost rows cols)))
