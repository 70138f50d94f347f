-- ===== src/Bigram/Tests.antt =====
-- The bigram model at concrete inputs: three symbols, doubles read as natural numbers.
use mozolm.Base.{
  Option, ℕ, zero, suc, ◌≡◌, ◌⊎◌, ◌≤◌, inl, inr, refl, true, some, List, [], ◌∷◌, arith, length,
  get_elem?, none,
}
use mozolm.Base.Int.{ℤ, pos, negsuc, minus_one, at}
use mozolm.Base.Program.{ok}
use mozolm.Double.{exact_limit}
use mozolm.Double.Tests.{naturals, naturals-IsExact}
use mozolm.Utf8.{Bytes, encode_unicode_char}
use mozolm.Utf8.Tests.{ascii}
use mozolm.Model.{LmScores}
use mozolm.Bigram.{Bigram, state_or_start, extract_lm_scores, update_lm_counts}
use mozolm.Bigram.Valid.{sum, IsIndexed, IsValid}
use mozolm.Bigram.Reading.{Files}
use mozolm.Bigram.Update.{transitions, IsUpdated, update_lm_counts_lem}
use mozolm.Bigram.Scores.{scored, extract_lm_scores_lem}

-- 0 is the start, 2 and 3 are symbols; 1 is no symbol.
abbrev pub small : Bigram ℕ
small = record {
  utf8_indices = pos 0 ∷ pos 2 ∷ pos 3 ∷ [];
  vocab_indices = pos 0 ∷ minus_one ∷ pos 1 ∷ pos 2 ∷ [];
  utf8_normalizer = 3 ∷ 6 ∷ 3 ∷ [];
  bigram_counts = (1 ∷ 1 ∷ 1 ∷ []) ∷ (1 ∷ 4 ∷ 1 ∷ []) ∷ (1 ∷ 1 ∷ 1 ∷ []) ∷ [];
}

small-IsIndexed : IsIndexed small.utf8_indices small.vocab_indices
small-IsIndexed = record { to_index = to; from_index = from }
  where
    to :
        (i : ℕ) (c : ℤ)
        → get_elem? small.utf8_indices i ≡ some c
        → at small.vocab_indices c ≡ some (pos i)
    to zero c e = ground arith
    to (suc zero) c e = ground arith
    to (suc (suc zero)) c e = ground arith
    to (suc (suc (suc i))) c e = cc

    from :
        (c s : ℤ)
        → at small.vocab_indices c ≡ some s
        → (s ≡ minus_one) ⊎ ((i : ℕ) × (s ≡ pos i) × (get_elem? small.utf8_indices i ≡ some c))
    from (pos zero) s e = inr (0, ground arith, refl)
    from (pos (suc zero)) s e = inl (ground arith)
    from (pos (suc (suc zero))) s e = inr (1, ground arith, refl)
    from (pos (suc (suc (suc zero)))) s e = inr (2, ground arith, refl)
    from (pos (suc (suc (suc (suc c))))) s e = cc
    from (negsuc c) s e = cc

pub small-IsValid : IsValid naturals small
small-IsValid = record {
  nonempty = omega arith;
  normalizers = refl;
  rows = refl;
  columns = (refl, (refl, (refl, tt)));
  indexed = small-IsIndexed;
  sums = sums;
}
  where
    sums :
        (i : ℕ) (row : List ℕ) (x : ℕ)
        → get_elem? small.bigram_counts i ≡ some row
        → get_elem? small.utf8_normalizer i ≡ some x
        → sum row ≤ exact_limit
        → x ≡ sum row
    sums zero row x a b h = ground arith
    sums (suc zero) row x a b h = ground arith
    sums (suc (suc zero)) row x a b h = ground arith
    sums (suc (suc (suc i))) row x a b h = cc

abbrev letters : List ℤ
letters = pos 2 ∷ pos 3 ∷ pos 9 ∷ pos 2 ∷ []

update_small :
    update_lm_counts naturals ascii (negsuc 4) letters (pos 10) small
    ≡ ok true (record small {
      utf8_normalizer = 23 ∷ 16 ∷ 3 ∷ [];
      bigram_counts = (1 ∷ 21 ∷ 1 ∷ []) ∷ (1 ∷ 4 ∷ 11 ∷ []) ∷ (1 ∷ 1 ∷ 1 ∷ []) ∷ [];
    })
unfolding update_lm_counts
update_small = refl

abbrev pub updated : Bigram ℕ
updated = record small {
  utf8_normalizer = 8 ∷ 6 ∷ 8 ∷ [];
  bigram_counts = (1 ∷ 1 ∷ 6 ∷ []) ∷ (1 ∷ 4 ∷ 1 ∷ []) ∷ (1 ∷ 6 ∷ 1 ∷ []) ∷ [];
}

update_lm_counts_lem_example :
    (n : Bigram ℕ) × (update_lm_counts naturals ascii (pos 1) letters (pos 10) small ≡ ok true n)
    × IsUpdated naturals small 10
        (transitions small.vocab_indices
          (state_or_start (pos 1) (length small.utf8_indices))
          letters)
        n
update_lm_counts_lem_example =
    update_lm_counts_lem naturals ascii naturals-IsExact small (pos 1) letters 9 small-IsValid
      (omega arith)

abbrev pub no_scores : LmScores ℕ
no_scores = record { symbols = []; probabilities = []; normalization = 0 }

extract_lm_scores_lem_example :
    (row : List ℕ) × (x : ℕ) × (get_elem? small.bigram_counts
        (state_or_start (pos 7) (length small.utf8_indices))
      ≡ some row)
    × (extract_lm_scores naturals ascii (pos 7) no_scores small
        ≡ ok (true, scored naturals no_scores ((0 ∷ []) ∷ (2 ∷ []) ∷ (3 ∷ []) ∷ []) row x) small)
    × (sum row ≤ exact_limit → x ≡ sum row)
unfolding encode_unicode_char
extract_lm_scores_lem_example =
    extract_lm_scores_lem naturals ascii small (pos 7) no_scores
      ((0 ∷ []) ∷ (2 ∷ []) ∷ (3 ∷ []) ∷ []) small-IsValid (refl, (refl, (refl, tt)))

-- A file with the symbols 0, 2 and 3, and a model with these symbols and no index yet.
abbrev number : Bytes → Option ℤ
number [] = none
number (b ∷ bs) = some (pos b)

abbrev three_symbols : Files
three_symbols = record {
  lines = λ name. some ((0 ∷ []) ∷ (2 ∷ []) ∷ (3 ∷ []) ∷ []);
  fields = λ s. s ∷ [];
  stoi = number;
  stol = number;
}

abbrev unindexed : Bigram ℕ
unindexed = record small { vocab_indices = [] }
