-- ===== src/Double/Tests.antt =====
-- The operations of `double` read as operations on natural numbers.
use mozolm.Base.{ℕ, ◌+◌, ◌-◌, ◌/◌, refl, ltb, leb, ◌==◌}
use mozolm.Double.{Double, IsExact}

-- An instance of the interface, to run the code: the operations that the tests do not reach are
-- arbitrary.
abbrev pub naturals : Double ℕ
naturals = record {
  of_ℕ = λ n. n;
  add = λ a b. a + b;
  sub = λ a b. a;
  mul = λ a b. a;
  div = λ a b. a / b;
  neg = λ a. a;
  exp = λ a. a;
  log = λ a. a;
  lt = ltb;
  le = leb;
  eq = λ a b. a == b;
  infinity = 1_000_000;
  to_float = λ a. a;
  neg_log_sum = λ a b. a + b;
  kahan_sum = λ a b k. (a + b, k);
  neg_log_diff = λ a b. a - b;
}

pub naturals-IsExact : IsExact naturals
naturals-IsExact a b h = refl
