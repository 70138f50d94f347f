-- ===== src/Client/Helper/KBest.antt =====
-- `OneKbestSample` of mozolm/grpc/client_helper.cc.
use mozolm.Base.{
  ℕ, zero, suc, ◌+◌, ◌<◌, ◌≤◌, ◌≡◌, inl, inr, refl, ap, ◌∙◌, Option, none, some, List, [], ◌∷◌,
  arith, length, take, get_elem?,
}
use mozolm.Base.Int.{pos, minus_one}
use mozolm.Base.Program.{Outcome, ok, err, fault, ◌>>=◌, or_fault, bind_ok, bind_err}
use mozolm.Double.{Double}
use mozolm.Utf8.{Bytes, Utf8Library}
use mozolm.Client.{Scored}
use mozolm.Client.Helper.{Outside, ClientHelper, get_lm_scores, k_best_loop, one_kbest_sample}

module _ {D W : Type 0} (d : Double D) (zero_d : D) (out : Outside D W)
    (sort : List (D × Bytes) → List (D × Bytes)) (u : Utf8Library) (h : ClientHelper D W) where
  -- The text with some hypotheses behind it.
  pub listed : Bytes → List (D × Bytes) → Bytes
  listed result [] = result
  listed result (p ∷ hyps) = listed (out.with_hypothesis result p) hyps

  abbrev drop : ℕ → List (D × Bytes) → List (D × Bytes)
  drop zero hyps = hyps
  drop (suc i) [] = []
  drop (suc i) (p ∷ hyps) = drop i hyps

  -- What the loop has before it from number `i` on.
  ahead :
      (i : ℕ) (hyps : List (D × Bytes)) (p : D × Bytes) (rest : List (D × Bytes))
      → drop i hyps ≡ p ∷ rest
      → (get_elem? hyps i ≡ some p) × (drop (suc i) hyps ≡ rest)
  ahead zero [] p rest e = absurd (cc)
  ahead zero (q ∷ hyps) p rest e = (cc, cc)
  ahead (suc i) [] p rest e = absurd (cc)
  ahead (suc i) (q ∷ hyps) p rest e = ahead i hyps p rest e

  behind : (i : ℕ) (hyps : List (D × Bytes)) → drop i hyps ≡ [] → get_elem? hyps i ≡ none
  behind zero [] e = refl
  behind zero (q ∷ hyps) e = absurd (cc)
  behind (suc i) [] e = refl
  behind (suc i) (q ∷ hyps) e = behind i hyps e

  k_best_loop_lem :
      (k i : ℕ) (hyps left : List (D × Bytes)) (result : Bytes) (w : W)
      → drop i hyps ≡ left
      → (k ≤ length left
          → k_best_loop d zero_d out sort u h k i hyps result w
            ≡ ok (listed result (take k left)) w)
        × (length left < k → k_best_loop d zero_d out sort u h k i hyps result w ≡ fault)
  unfolding k_best_loop listed
  k_best_loop_lem zero i hyps left result w e = (λ enough. refl, λ few. absurd (omega arith))
  k_best_loop_lem (suc k) i hyps [] result w e =
      (λ enough. absurd (omega arith), λ few. rw (behind i hyps e, or_fault) refl)
  k_best_loop_lem (suc k) i hyps (p ∷ left) result w e =
      let (at_i, next) = ahead i hyps p left e in
      let count_up : i + 1 ≡ suc i = omega arith in
      let (all, short) =
        k_best_loop_lem k (i + 1) hyps left (out.with_hypothesis result p) w
          (ap (λ n. drop n hyps) count_up ∙ next) in
      (
        λ enough. rw (at_i, or_fault) (all (omega arith)),
        λ few. rw (at_i, or_fault) (short (omega arith)),
      )

  -- OneKbestSample for a count, where the server has given scores: with no more than the hypotheses it
  -- lists the first of them, as many as the count, behind the title; with more it reads out of bounds.
  -- Where the request fails it fails in the same way.
  pub one_kbest_sample_lem :
      (k : ℕ) (context : Bytes) (w : W)
      → ((scores : Scored D) (v : W)
          → get_lm_scores d zero_d out sort u h context minus_one w ≡ ok scores v
          → (k ≤ length scores.1
              → one_kbest_sample d zero_d out sort u h (pos k) context w
                ≡ ok (listed (out.k_best_title (pos k)) (take k scores.1)) v)
            × (length scores.1 < k
                → one_kbest_sample d zero_d out sort u h (pos k) context w ≡ fault))
        × ((c : mozolm.Base.Program.Code) (v : W)
            → get_lm_scores d zero_d out sort u h context minus_one w ≡ err c v
            → one_kbest_sample d zero_d out sort u h (pos k) context w ≡ err c v)
  unfolding one_kbest_sample
  one_kbest_sample_lem k context w = (
    λ scores v e.
        let answered = bind_ok (get_lm_scores d zero_d out sort u h context minus_one) _ w e in
        let (all, short) =
          k_best_loop_lem k 0 scores.1 scores.1 (out.k_best_title (pos k)) v refl in
        (λ enough. answered ∙ all enough, λ few. answered ∙ short few),
    λ c v e. bind_err (get_lm_scores d zero_d out sort u h context minus_one) _ w e,
  )
