-- ===== src/Model/Tests.antt =====
-- `GetTopHypotheses` at a concrete response, with an insertion sort for `std::sort`.
use mathlib.Core.List.{Perm}
use mathlib.Core.List.Perm
use mozolm.Base.{
  ℕ, ◌≡◌, inl, inr, refl, false, List, [], ◌∷◌, arith, ltb, Bool-cases, All, if◌then◌else◌,
}
use mozolm.Base.Int.{pos}
use mozolm.Base.Program.{value}
use mozolm.Double.Tests.{naturals}
use mozolm.Utf8.{Bytes}
use mozolm.Model.{LmScores, get_top_hypotheses}
use mozolm.Model.TopHypotheses.{IsDescending, IsSort, IsTop, get_top_hypotheses_lem}

abbrev insert : ℕ × Bytes → List (ℕ × Bytes) → List (ℕ × Bytes)
insert x [] = x ∷ []
insert x (y ∷ ys) = let rest = insert x ys in if ltb x.0 y.0 then y ∷ rest else x ∷ y ∷ ys

abbrev sorted : List (ℕ × Bytes) → List (ℕ × Bytes)
sorted [] = []
sorted (x ∷ xs) = insert x (sorted xs)

insert-All :
    (P : ℕ × Bytes → Type 0) (x : ℕ × Bytes) (ys : List (ℕ × Bytes))
    → P x
    → All P ys
    → All P (insert x ys)
insert-All P x [] p ps = (p, tt)
insert-All P x (y ∷ ys) p (q, qs) = elim (Bool-cases (ltb x.0 y.0)) [
  | inl less ↦ rw (insert, less) (q, insert-All P x ys p qs)
  | inr more ↦ rw (insert, more) (p, (q, qs))
]

above :
    (a b : ℕ × Bytes) (ys : List (ℕ × Bytes))
    → ltb a.0 b.0 ≡ false
    → All (λ (r : ℕ × Bytes). ltb b.0 r.0 ≡ false) ys
    → All (λ (r : ℕ × Bytes). ltb a.0 r.0 ≡ false) ys
above a b [] e ps = tt
above a b (y ∷ ys) e (p, ps) = (ground arith, above a b ys e ps)

insert-IsDescending :
    (x : ℕ × Bytes) (ys : List (ℕ × Bytes))
    → IsDescending naturals ys
    → IsDescending naturals (insert x ys)
insert-IsDescending x [] s = (tt, tt)
insert-IsDescending x (y ∷ ys) (a, s) = elim (Bool-cases (ltb x.0 y.0)) [
  | inl less ↦
      rw (insert, less)
        (insert-All (λ r. ltb y.0 r.0 ≡ false) x ys (ground arith) a, insert-IsDescending x ys s)
  | inr more ↦ rw (insert, more) ((more, above x y ys more a), (a, s))
]

insert-Perm : (x : ℕ × Bytes) (ys : List (ℕ × Bytes)) → Perm (insert x ys) (x ∷ ys)
insert-Perm x [] = Perm.refl (x ∷ [])
insert-Perm x (y ∷ ys) = elim (Bool-cases (ltb x.0 y.0)) [
  | inl less ↦ rw (insert, less) (Perm.trans (Perm.cons y (insert-Perm x ys)) (Perm.swap x y ys))
  | inr more ↦ rw (insert, more) (Perm.refl (x ∷ y ∷ ys))
]

sorted-IsSort : IsSort naturals sorted
sorted-IsSort = record { permutes = permutes; descends = descends }
  where
    permutes : (hs : List (ℕ × Bytes)) → Perm (sorted hs) hs
    permutes [] = Perm.nil
    permutes (h ∷ hs) = Perm.trans (insert-Perm h (sorted hs)) (Perm.cons h (permutes hs))

    descends : (hs : List (ℕ × Bytes)) → IsDescending naturals (sorted hs)
    descends [] = tt
    descends (h ∷ hs) = insert-IsDescending h (sorted hs) (descends hs)

abbrev answer : LmScores ℕ
answer = record {
  symbols = (1 ∷ []) ∷ (2 ∷ []) ∷ (3 ∷ []) ∷ [];
  probabilities = 2 ∷ 5 ∷ 3 ∷ [];
  normalization = 10;
}

get_top_hypotheses_lem_example :
    (hyps : List (ℕ × Bytes)) × (get_top_hypotheses sorted answer (pos 2) ≡ value hyps)
    × IsTop naturals sorted answer (pos 2) hyps
get_top_hypotheses_lem_example =
    get_top_hypotheses_lem naturals sorted sorted-IsSort answer (pos 2) (λ e. absurd (ground arith))
      refl (omega arith) refl
