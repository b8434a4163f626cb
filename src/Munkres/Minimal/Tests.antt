-- ===== src/Munkres/Minimal/Tests.antt =====
-- Least costs in natural numbers, which are exact where the solver subtracts.
use mathlib.Core.Bool.{false≢true}
use custos_tracker.Prelude.{
  ℕ, zero, suc, pos, pos_part, ◌+◌, ◌-◌, ◌*◌, ◌/◌, ◌^◌, ◌<◌, true, ltb, leb, List, [], ◌∷◌,
  get_elem?, Option, some, ◌≡◌, refl, sym, ◌∙◌, arith,
}
use custos_tracker.Float.{Float, ◌⊖◌, ◌<?◌, ◌≤?◌}
use custos_tracker.Munkres.{
  Munkres, padded, munkres_solve, cover, all_covered, reduce, star_cell, star_row, star_rows,
  star_initial, solve, inner, outer, round, use_zero, adjust, augment, path_from, flip, first_from,
  last_from, count_from, any_from, find_from, least_from, least_in_row, min_from, is_zero,
}
use custos_tracker.Munkres.Adjust.{FiniteCells}
use custos_tracker.Munkres.Ends.{Reach, begin, next, restart}
use custos_tracker.Munkres.Exact.{IsExact, IsPermutation, total}
use custos_tracker.Munkres.Assignment.{first_state}
use custos_tracker.Munkres.Minimal.{price, munkres_solve-IsLeast}

abbrev Whole : Type 0
Whole = ℕ

abbrev most : Whole
most = 1000

instance abbrev whole_float : Float Whole
whole_float = record {
  lit = λ d k. d * 10 ^ 9 / 10 ^ k;
  add = ◌+◌;
  sub = ◌-◌;
  mul = ◌*◌;
  div = ◌/◌;
  neg = λ a. 0;
  abs = λ a. a;
  sqrt = λ a. a;
  exp = λ a. a;
  hypot = ◌+◌;
  floor = λ a. a;
  trunc = λ a. pos a;
  of_int = λ n. pos_part n;
  to_float = λ a. a;
  lt = ltb;
  le = leb;
}

Whole-IsExact : IsExact Whole
Whole-IsExact = record {
  add_comm = λ a b. omega arith;
  add_assoc = λ a b c. omega arith;
  add_nought = λ a. omega arith;
  sub_add = λ a b h. ground (arith, h);
  add_sub = λ a b. omega arith;
  sub_nonneg = λ a b h. ground (arith, h);
  add_le = λ a b c d h k. ground (arith, h, k);
  le_cancel = λ a b c h. ground (arith, h);
  le_refl = λ a. ground arith;
  le_trans = λ a b c h k. ground (arith, h, k);
  le_of_lt = λ a b h. ground (arith, h);
  le_of_not_lt = λ a b h. ground (arith, h);
  zero_of = λ a h. ground (arith, h);
}

-- Each row's least cell is in the other row's worse column, and a matrix that needs a path.
abbrev crossed : List (List Whole)
crossed = (2 ∷ 1 ∷ []) ∷ (1 ∷ 2 ∷ []) ∷ []

abbrev square : List (List Whole)
square = (1 ∷ 2 ∷ 3 ∷ []) ∷ (2 ∷ 4 ∷ 6 ∷ []) ∷ (3 ∷ 6 ∷ 9 ∷ []) ∷ []

solve_square : munkres_solve most square ≡ some (some 2 ∷ some 1 ∷ some 0 ∷ [])
unfolding munkres_solve solve star_initial reduce star_rows star_row star_cell outer inner round
    use_zero adjust augment path_from flip first_from last_from count_from any_from find_from
    least_from least_in_row min_from
solve_square = refl

crossed_covered : all_covered (cover (first_state most crossed)) ≡ true
unfolding solve star_initial reduce star_rows star_row star_cell count_from any_from min_from
crossed_covered = refl

crossed_cell : (i j : ℕ) → i < 2 → j < 2 → ((first_state most crossed).c i j <? most) ≡ true
unfolding star_initial reduce star_rows star_row star_cell min_from
crossed_cell zero zero l u = refl
crossed_cell zero (suc zero) l u = refl
crossed_cell zero (suc (suc j)) l u = absurd (omega arith)
crossed_cell (suc zero) zero l u = refl
crossed_cell (suc zero) (suc zero) l u = refl
crossed_cell (suc zero) (suc (suc j)) l u = absurd (omega arith)
crossed_cell (suc (suc i)) j l u = absurd (omega arith)

zero_self : (x : Whole) → is_zero (x ⊖ x) ≡ true
zero_self x = ground arith

crossed_run :
    (t : Munkres Whole)
    → Reach most (first_state most crossed) t
    → (all_covered t ≡ true) × FiniteCells most t
unfolding star_initial reduce
crossed_run t begin = (
  crossed_covered,
  λ i j li lj. (
    zero_self ((first_state most crossed).c i j),
    λ e. absurd (false≢true (sym e ∙ crossed_cell i j li lj)),
  ),
)
crossed_run t (next s u r h e) = absurd (false≢true (sym h ∙ (crossed_run s r).0))
crossed_run t (restart s u r h e) = absurd (false≢true (sym h ∙ (crossed_run s r).0))

munkres_solve-IsLeast_example :
    (cols : List (Option ℕ)) × ((munkres_solve most crossed ≡ some cols)
      × ((p : ℕ → ℕ)
          → IsPermutation 2 p
          → (total 2 (λ i. price crossed i (get_elem? cols i))
              ≤? total 2 (λ i. padded most crossed 2 2 i (p i)))
            ≡ true))
munkres_solve-IsLeast_example =
    munkres_solve-IsLeast Whole-IsExact most refl crossed (λ t r. (crossed_run t r).1)
