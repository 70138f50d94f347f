-- ===== src/Bigram/Valid.antt =====
-- The invariant of the bigram model, and the two ways between symbols and states.
use mozolm.Base.{
  ℕ, ◌+◌, ◌≡◌, ◌⊎◌, ◌≤◌, ◌<◌, inl, inr, some, List, [], ◌∷◌, arith, length, get_elem?, All,
  Option-cases,
}
use mozolm.Base.Int.{ℤ, pos, negsuc, minus_one, at}
use mozolm.Double.{Double, exact_limit}
use mozolm.Bigram.{Bigram, state_or_start, sym_state}

abbrev pub sum : List ℕ → ℕ
sum [] = 0
sum (x ∷ xs) = x + sum xs

pub start_lt : (state : ℤ) (n : ℕ) → 0 < n → state_or_start state n < n
start_lt (pos i) n h = ground arith
start_lt (negsuc i) n h = h

-- An entry of `vocab_indices` is -1 or the state of its symbol, and each state has its symbol's entry.
pub record IsIndexed (utf8_indices vocab_indices : List ℤ) : Type 0 where
  pub to_index :
      (i : ℕ) (c : ℤ) → get_elem? utf8_indices i ≡ some c → at vocab_indices c ≡ some (pos i)
  pub from_index :
      (c s : ℤ)
      → at vocab_indices c ≡ some s
      → (s ≡ minus_one) ⊎ ((i : ℕ) × (s ≡ pos i) × (get_elem? utf8_indices i ≡ some c))

module _ {D : Type 0} (d : Double D) where
  -- The normaliser of a row is the sum of its counts, as long as doubles hold that sum exactly.
  pub record IsValid (m : Bigram D) : Type 0 where
    pub nonempty : 0 < length m.utf8_indices
    pub normalizers : length m.utf8_normalizer ≡ length m.utf8_indices
    pub rows : length m.bigram_counts ≡ length m.utf8_indices
    pub columns : All (λ row. length row ≡ length m.utf8_indices) m.bigram_counts
    pub indexed : IsIndexed m.utf8_indices m.vocab_indices
    pub sums :
        (i : ℕ) (row : List ℕ) (x : D)
        → get_elem? m.bigram_counts i ≡ some row
        → get_elem? m.utf8_normalizer i ≡ some x
        → sum row ≤ exact_limit
        → x ≡ d.of_ℕ (sum row)

  -- The state of a symbol is -1 where the vocabulary lacks it.
  pub sym_state_cases :
      (m : Bigram D) (c : ℤ)
      → IsValid m
      → (sym_state m c ≡ minus_one)
        ⊎ ((i : ℕ) × (sym_state m c ≡ pos i) × (get_elem? m.utf8_indices i ≡ some c))
  unfolding sym_state
  sym_state_cases m c v = elim (Option-cases (at m.vocab_indices c)) [
    | inl e ↦ inl (rw e)
    | inr (s, e) ↦ elim (v.indexed.from_index c s e) [
      | inl a ↦ inl (rw (e, a))
      | inr (i, a, b) ↦ inr (i, rw (e, a), b)
    ]
  ]
