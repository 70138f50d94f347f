-- ===== src/Client/Helper/Positions.antt =====
-- `GetRandomPosition` of mozolm/grpc/client_helper.cc.
use mozolm.Base.{
  ℕ, zero, suc, ◌+◌, ◌-◌, ◌<◌, ◌≤◌, ◌≡◌, ◌⊎◌, inl, inr, refl, ◌∙◌, true, false, List, [], ◌∷◌,
  arith, length, Bool-cases,
}
use mozolm.Double.{Double}
use mozolm.Utf8.{Bytes}
use mozolm.Client.Helper.{position_loop, position_of}

module _ {D : Type 0} (d : Double D) where
  -- The sum of the first `k` probabilities on top of a number.
  pub sum_to : D → ℕ → List (D × Bytes) → D
  sum_to total zero hyps = total
  sum_to total (suc k) [] = total
  sum_to total (suc k) (h ∷ hyps) = sum_to (d.add total h.0) k hyps

  -- `n` is the first count of probabilities whose sum is not below the threshold, or that of all.
  pub record StopsAt (thresh total : D) (hyps : List (D × Bytes)) (n : ℕ) : Type 0 where
    pub bounded : n ≤ length hyps
    pub below : (k : ℕ) → k < n → d.lt (sum_to total k hyps) thresh ≡ true
    pub reached : (n ≡ length hyps) ⊎ (d.lt (sum_to total n hyps) thresh ≡ false)

  position_loop-StopsAt :
      (thresh total : D) (p : ℕ) (hyps : List (D × Bytes))
      → (n : ℕ) × (position_loop d thresh p total hyps ≡ p + n) × StopsAt thresh total hyps n
  unfolding position_loop sum_to
  position_loop-StopsAt thresh total p [] = (
    0,
    omega arith,
    record { bounded = omega arith; below = λ k less. absurd (omega arith); reached = inl refl },
  )
  position_loop-StopsAt thresh total p (h ∷ hyps) = elim (Bool-cases (d.lt total thresh)) [
    | inr stop ↦ (
      0,
      rw stop (omega arith),
      record { bounded = omega arith; below = λ k less. absurd (omega arith); reached = inr stop },
    )
    | inl go ↦
        let (n, e, at) = position_loop-StopsAt thresh (d.add total h.0) (p + 1) hyps in
        (
          suc n,
          rw go (e ∙ omega arith),
          record {
            bounded = let b = at.bounded in omega arith;
            below = below_suc thresh total h hyps n go at.below;
            reached = elim at.reached [ inl all ↦ inl (omega arith) | inr stop ↦ inr stop ];
          },
        )
  ]
    where
      below_suc :
          (thresh total : D) (h : D × Bytes) (hyps : List (D × Bytes)) (n : ℕ)
          → d.lt total thresh ≡ true
          → ((k : ℕ) → k < n → d.lt (sum_to (d.add total h.0) k hyps) thresh ≡ true)
          → (k : ℕ) → k < suc n
          → d.lt (sum_to total k (h ∷ hyps)) thresh ≡ true
      below_suc thresh total h hyps n go below zero less = go
      below_suc thresh total h hyps n go below (suc k) less = below k (omega arith)

  -- For hypotheses that are not empty, GetRandomPosition returns the number of one of them: the one whose
  -- probability lifts the sum from below the threshold to it, the last one where no sum reaches the
  -- threshold, and the first one where the threshold is no more than zero.
  pub position_of-StopsAt :
      (zero_d thresh : D) (hyps : List (D × Bytes))
      → 0 < length hyps
      → (position_of d zero_d thresh hyps < length hyps)
        × (n : ℕ) × StopsAt thresh zero_d hyps n
        × (position_of d zero_d thresh hyps ≡ n - 1)
  unfolding position_of
  position_of-StopsAt zero_d thresh hyps nonempty =
      let (n, e, at) = position_loop-StopsAt thresh zero_d 0 hyps in
      let bounded = at.bounded in (omega arith, n, at, omega arith)
