-- ===== src/Float/Milli.antt =====
-- A concrete number type that meets the interface: thousandths, in ℕ and cut off below zero. The
-- witnesses of the theorems about code with floats run on it.
use custos_tracker.Prelude.{
  ℕ, pos, pos_part, zero, suc, ◌+◌, ◌-◌, ◌*◌, ◌/◌, ◌^◌, true, false, ltb, leb, arith,
}
use custos_tracker.Float.{Float, IsOrdered}

-- The integer square root, by descent from an upper bound.
abbrev root_from : ℕ → ℕ → ℕ
root_from zero n = 0
root_from (suc r) n = elim (leb (suc r * suc r) n) [ true ↦ suc r | false ↦ root_from r n ]

abbrev pub Milli : Type 0
Milli = ℕ

instance abbrev pub milli_float : Float Milli
milli_float = record {
  lit = λ d k. d * 1000 / 10 ^ k;
  add = ◌+◌;
  sub = ◌-◌;
  mul = λ a b. a * b / 1000;
  div = λ a b. a * 1000 / b;
  neg = λ a. 0;
  abs = λ a. a;
  sqrt = λ a. root_from (a + 1000) (a * 1000);
  exp = λ a. 1000 + a;
  hypot = λ a b. root_from (a + b) (a * a + b * b);
  floor = λ a. a / 1000 * 1000;
  trunc = λ a. pos (a / 1000);
  of_int = λ n. pos_part n * 1000;
  to_float = λ a. a / 10 * 10;
  lt = ltb;
  le = leb;
}

pub Milli-IsOrdered : IsOrdered Milli
Milli-IsOrdered = ground arith
