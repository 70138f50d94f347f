-- ===== src/Client/Helper/Indices.antt =====
-- `FindStringIndex` of mozolm/grpc/client_helper.cc.
use mozolm.Base.{
  ℕ, zero, suc, ◌+◌, ◌<◌, ◌≡◌, ◌≢◌, ◌⊎◌, inl, inr, refl, sym, ap, ◌∙◌, subst, false, some, List, [],
  ◌∷◌, arith, get_elem?, same_bytes, same_bytes_iff, All, Bool-cases,
}
use mozolm.Base.Int.{ℤ, pos, negsuc, minus_one}
use mozolm.Utf8.{Bytes}
use mozolm.Client.Helper.{string_index_loop, find_string_index}

-- `pos i` is the first number of an entry with the symbol, -1 says that there is none.
abbrev pub IsFirst : {D : Type 0} → Bytes → List (D × Bytes) → ℤ → Type 0
IsFirst {D} utf8_sym hyps (pos i) =
    ((p : D) × (get_elem? hyps i ≡ some (p, utf8_sym)))
    × ((j : ℕ) (h : D × Bytes) → j < i → get_elem? hyps j ≡ some h → utf8_sym ≢ h.1)
IsFirst utf8_sym hyps (negsuc k) = (k ≡ 0) × All (λ h. utf8_sym ≢ h.1) hyps

differs : (a b : Bytes) → same_bytes a b ≡ false → a ≢ b
differs a b e same = let equal = (same_bytes_iff a b).1 same in absurd (cc)

module _ {D : Type 0} where
  -- Where the search from number `idx` on stops.
  Stops : Bytes → ℕ → List (D × Bytes) → Type 0
  Stops utf8_sym idx hyps =
      ((i : ℕ) × (string_index_loop utf8_sym idx hyps ≡ pos (idx + i))
        × IsFirst utf8_sym hyps (pos i))
      ⊎ ((string_index_loop utf8_sym idx hyps ≡ minus_one) × IsFirst utf8_sym hyps minus_one)

  string_index_loop-Stops :
      (utf8_sym : Bytes) (idx : ℕ) (hyps : List (D × Bytes)) → Stops utf8_sym idx hyps
  unfolding Stops string_index_loop
  string_index_loop-Stops utf8_sym idx [] = inr (refl, (refl, tt))
  string_index_loop-Stops utf8_sym idx ((p, s) ∷ hyps) = elim (Bool-cases (same_bytes utf8_sym s)) [
    | inl same ↦
        let equal = (same_bytes_iff utf8_sym s).0 same in
        inl (
          0,
          rw same (ap pos (omega arith)),
          ((p, ap (λ t. some (p, t)) (sym equal)), λ j h less. absurd (omega arith)),
        )
    | inr other ↦ elim (string_index_loop-Stops utf8_sym (idx + 1) hyps) [
      | inr (e, (z, none_has)) ↦ inr (rw other e, (z, (differs utf8_sym s other, none_has)))
      | inl (i, e, (found, before)) ↦ inl (
        suc i,
        rw other (e ∙ ap pos (omega arith)),
        (found, earlier utf8_sym p s hyps i (differs utf8_sym s other) before),
      )
    ]
  ]
    where
      earlier :
          (utf8_sym : Bytes) (p : D) (s : Bytes) (hyps : List (D × Bytes)) (i : ℕ)
          → utf8_sym ≢ s
          → ((j : ℕ) (h : D × Bytes) → j < i → get_elem? hyps j ≡ some h → utf8_sym ≢ h.1)
          → (j : ℕ) (h : D × Bytes) → j < suc i
          → get_elem? ((p, s) ∷ hyps) j ≡ some h
          → utf8_sym ≢ h.1
      earlier utf8_sym p s hyps i other before zero h less e =
          λ same. let entry : (p, s) ≡ h = cc in other (same ∙ sym (ap (λ t. t.1) entry))
      earlier utf8_sym p s hyps i other before (suc j) h less e = before j h (omega arith) e

  -- FindStringIndex returns the number of the first entry with the symbol, and -1 where no entry has it.
  pub find_string_index_lem :
      (hyps : List (D × Bytes)) (utf8_sym : Bytes)
      → IsFirst utf8_sym hyps (find_string_index hyps utf8_sym)
  unfolding find_string_index Stops
  find_string_index_lem hyps utf8_sym = elim (string_index_loop-Stops utf8_sym 0 hyps) [
    | inl (i, e, first) ↦ subst (IsFirst utf8_sym hyps) (sym (e ∙ ap pos (omega arith))) first
    | inr (e, first) ↦ subst (IsFirst utf8_sym hyps) (sym e) first
  ]
