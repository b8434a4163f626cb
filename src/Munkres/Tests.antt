-- ===== src/Munkres/Tests.antt =====
-- Runs on small matrices, in whole units of the solver's tolerance of which 1,000 is the most.
use custos_tracker.Prelude.{
  ℕ, pos, pos_part, ◌+◌, ◌-◌, ◌*◌, ◌/◌, ◌^◌, ◌≤◌, ◌<◌, true, false, if◌then◌else◌, ltb, leb, List,
  [], ◌∷◌, length, get_elem?, Distinct, Option, some, ◌≡◌, refl, arith,
}
use custos_tracker.Float.{Float, ◌⊖◌, ◌<?◌}
use custos_tracker.Tbd.Assoc.Gate.{columns}
use custos_tracker.Munkres.{
  munkres_solve, reduce, star_cell, star_row, star_rows, star_initial, solve, inner, outer, round,
  use_zero, adjust, augment, path_from, flip, first_from, last_from, count_from, any_from,
  find_from, least_from, least_in_row, min_from, is_zero,
}
use custos_tracker.Munkres.Assignment.{assigned, munkres_solve-IsAssignment, munkres_solve-ends}

abbrev Unit9 : Type 0
Unit9 = ℕ

abbrev most : Unit9
most = 1000

instance abbrev unit_float : Float Unit9
unit_float = record {
  lit = λ d k. d * 10 ^ 9 / 10 ^ k;
  add = λ a b. if leb most (a + b) then most else a + b;
  sub = λ a b. if leb most a then most - b else a - b;
  mul = ◌*◌;
  div = ◌/◌;
  neg = λ a. 0;
  abs = λ a. a;
  sqrt = λ a. a;
  exp = λ a. a;
  hypot = ◌+◌;
  floor = λ a. a;
  trunc = λ a. pos a;
  of_int = λ n. pos_part n;
  to_float = λ a. a;
  lt = ltb;
  le = leb;
}

-- A matrix that needs an adjustment and a path, and one with more columns than rows.
abbrev square : List (List Unit9)
square = (1 ∷ 2 ∷ 3 ∷ []) ∷ (2 ∷ 4 ∷ 6 ∷ []) ∷ (3 ∷ 6 ∷ 9 ∷ []) ∷ []

abbrev wide : List (List Unit9)
wide = (5 ∷ 1 ∷ 7 ∷ []) ∷ (5 ∷ 1 ∷ 9 ∷ []) ∷ []

solve_square : munkres_solve most square ≡ some (some 2 ∷ some 1 ∷ some 0 ∷ [])
unfolding munkres_solve solve star_initial reduce star_rows star_row star_cell outer inner round
    use_zero adjust augment path_from flip first_from last_from count_from any_from find_from
    least_from least_in_row min_from
solve_square = refl

solve_wide : munkres_solve most wide ≡ some (some 1 ∷ some 0 ∷ [])
unfolding munkres_solve solve star_initial reduce star_rows star_row star_cell outer inner round
    use_zero adjust augment path_from flip first_from last_from count_from any_from find_from
    least_from least_in_row min_from
solve_wide = refl

munkres_solve-IsAssignment_example : Distinct (columns (assigned most square))
munkres_solve-IsAssignment_example = munkres_solve-IsAssignment most square

zero_self : (x : Unit9) → is_zero (x ⊖ x) ≡ true
zero_self x = ground arith

zero_most : (x : Unit9) → (x <? most) ≡ false → is_zero (x ⊖ most) ≡ true
zero_most x h = ground (arith, h)

munkres_solve-ends_example :
    (cols : List (Option ℕ)) × ((munkres_solve most square ≡ some cols)
      × ((length cols ≡ 3)
          × (3 ≤ 3 → (i : ℕ) → i < 3 → (j : ℕ) × ((j < 3) × (get_elem? cols i ≡ some (some j))))))
munkres_solve-ends_example =
    munkres_solve-ends most square (λ t r i j li lj. (zero_self (t.c i j), zero_most (t.c i j)))
