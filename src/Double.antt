-- ===== src/Double.antt =====
-- The floating-point numbers of mozolm/models: `double` and the functions of <cmath> and of the
-- OpenGrm n-gram library that the code calls are parameters, with the laws of IEEE 754 and of those
-- functions that a property needs stated beside them.
pub mod Tests
use mozolm.Base.{ℕ, ◌+◌, ◌^◌, ◌≤◌, ◌≡◌, Bool}

pub record Double (D : Type 0) : Type 0 where
  -- A conversion from an integer.
  pub of_ℕ : ℕ → D
  pub add : D → D → D
  pub sub : D → D → D
  pub mul : D → D → D
  pub div : D → D → D
  pub neg : D → D
  pub exp : D → D
  pub log : D → D
  pub lt : D → D → Bool
  pub le : D → D → Bool
  pub eq : D → D → Bool
  pub infinity : D
  -- The nearest `float`, of which the weights of an FST are.
  pub to_float : D → D
  -- `ngram::NegLogSum(a, b)`, -log(exp(-a) + exp(-b)).
  pub neg_log_sum : D → D → D
  -- The same with a Kahan correction: the sum and the new correction.
  pub kahan_sum : D → D → D → D × D
  -- `ngram::NegLogDiff(a, b)`, -log(exp(-a) - exp(-b)).
  pub neg_log_diff : D → D → D

-- Integers up to 2^53 are exact: the sum of two of them is the double of their sum.
abbrev pub exact_limit : ℕ
exact_limit = 2 ^ 53

abbrev pub IsExact : {D : Type 0} → Double D → Type 0
IsExact {D} d = (a b : ℕ) → a + b ≤ exact_limit → d.add (d.of_ℕ a) (d.of_ℕ b) ≡ d.of_ℕ (a + b)
