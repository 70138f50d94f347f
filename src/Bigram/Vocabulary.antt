-- ===== src/Bigram/Vocabulary.antt =====
-- The symbols that `ReadVocabSymbols` of mozolm/models/simple_bigram_char_model.cc reads.
use mathlib.Core.List.{map}
use mozolm.Base.{
  ℕ, suc, ◌≤◌, ◌≡◌, ◌==◌, refl, ap, Bool, true, false, Option, none, some, List, [], ◌∷◌, arith,
  length, if◌then◌else◌, subst,
}
use mozolm.Base.Int.{ℤ, pos, negsuc, minus_one, leb_ℤ}
use mozolm.Base.Program.{
  Program, Outcome, ok, err, fault, pure, fail, or_fault, internal, not_found, ◌>>=◌,
}
use mozolm.Utf8.{Bytes}
use mozolm.Bigram.{Bigram}
use mozolm.Double.{Double}
use mozolm.Bigram.Reading.{Files, vocab_loop, read_vocab_symbols}
use mozolm.Bigram.Indexing.{Ascends, nothing, and_then}

-- What comes after an index.
abbrev after : ℤ → ℕ
after (pos n) = suc n
after (negsuc n) = 0

not_negative : (last : ℤ) (c : ℕ) → leb_ℤ minus_one last ≡ true → leb_ℤ (negsuc c) last ≡ true
not_negative (pos n) c e = refl
not_negative (negsuc n) c e = ground arith

module _ {D : Type 0} (f : Files) where
  -- Where the loop succeeds, the indices are not negative and ascend.
  abbrev Gives : ℕ → Outcome (Bigram D) (List ℤ) → Type 0
  Gives b (ok indices t) = (cs : List ℕ) × (indices ≡ map pos cs) × Ascends b cs
  Gives b (err c t) = Unit
  Gives b fault = Unit

  Gives-if :
      (b : ℕ) (test : Bool) (x y : Program (Bigram D) (List ℤ)) (m : Bigram D)
      → (test ≡ true → Gives b (x m))
      → (test ≡ false → Gives b (y m))
      → Gives b ((if test then x else y) m)
  Gives-if b true x y m p q = p refl
  Gives-if b false x y m p q = q refl

  -- An index in front.
  Gives-front :
      (last : ℤ) (c : ℕ) (o : Program (Bigram D) (List ℤ)) (m : Bigram D)
      → leb_ℤ (pos c) last ≡ false
      → Gives (suc c) (o m)
      → Gives (after last) ((o >>= λ indices. pure (pos c ∷ indices)) m)
  Gives-front last c o m more given = by_outcome (o m) refl given
    where
      above : (l : ℤ) → leb_ℤ (pos c) l ≡ false → after l ≤ c
      above (pos n) e = ground arith
      above (negsuc n) e = omega arith

      by_outcome :
          (r : Outcome (Bigram D) (List ℤ))
          → o m ≡ r
          → Gives (suc c) r
          → Gives (after last) ((o >>= λ indices. pure (pos c ∷ indices)) m)
      by_outcome (ok indices t) e (cs, is, ascends) =
          rw (e, ◌>>=◌) (c ∷ cs, ap (λ xs. pos c ∷ xs) is, and_then (above last more) ascends)
      by_outcome (err k t) e given = rw (e, ◌>>=◌) tt
      by_outcome fault e given = rw (e, ◌>>=◌) tt

  vocab_loop-Gives :
      (last : ℤ) (ls : List Bytes) (m : Bigram D)
      → leb_ℤ minus_one last ≡ true
      → Gives (after last) (vocab_loop f last ls m)
  unfolding vocab_loop
  vocab_loop-Gives last [] m big = ([], refl, nothing)
  vocab_loop-Gives last (str ∷ rest) m big =
      Gives-if (after last) (length str == 0) _ _ m (λ _. tt)
        (λ _. by_fields (f.fields str) (λ c. vocab_loop-Gives (pos c) rest m refl))
    where
      by_symbol :
          (utf8_sym : Option ℤ)
          → ((c : ℕ) → Gives (suc c) (vocab_loop f (pos c) rest m))
          → Gives (after last) (
              (or_fault utf8_sym >>= λ utf8_sym.
              let others = vocab_loop f utf8_sym rest >>= λ indices. pure (utf8_sym ∷ indices) in
              if leb_ℤ utf8_sym last then fail internal else others)
                m)
      by_symbol none more = tt
      by_symbol (some (pos c)) more =
          Gives-if (after last) (leb_ℤ (pos c) last) _ _ m (λ _. tt)
            (λ above. Gives-front last c (vocab_loop f (pos c) rest) m above (more c))
      by_symbol (some (negsuc c)) more =
          Gives-if (after last) (leb_ℤ (negsuc c) last) _ _ m (λ _. tt)
            (λ above. let below = not_negative last c big in absurd (cc))

      by_fields :
          (fs : List Bytes)
          → ((c : ℕ) → Gives (suc c) (vocab_loop f (pos c) rest m))
          → let step : Program (Bigram D) (List ℤ) = elim fs [
            | field ∷ [] ↦ ◌>>=◌ (or_fault (f.stoi field)) λ utf8_sym.
                let others =
                  ◌>>=◌ (vocab_loop f utf8_sym rest) (λ indices. pure (utf8_sym ∷ indices)) in
                if leb_ℤ utf8_sym last then fail internal else others
            | _ ↦ fail internal
          ] in
            Gives (after last) (step m)
      by_fields [] more = tt
      by_fields (field ∷ []) more = by_symbol (f.stoi field) more
      by_fields (field ∷ other ∷ fs) more = tt

  pub read_vocab_symbols-Ascends :
      (in_vocab : Bytes) (indices : List ℤ) (m t : Bigram D)
      → read_vocab_symbols f in_vocab m ≡ ok indices t
      → (cs : List ℕ) × (indices ≡ map pos cs) × Ascends 0 cs
  unfolding read_vocab_symbols
  read_vocab_symbols-Ascends in_vocab indices m t read =
      subst (Gives 0) read (by_lines (f.lines in_vocab))
    where
      by_lines :
          (o : Option (List Bytes))
          → let step : Program (Bigram D) (List ℤ) = elim o [
            | none ↦ fail not_found
            | some ls ↦ vocab_loop f minus_one ls
          ] in
            Gives 0 (step m)
      by_lines none = tt
      by_lines (some ls) = vocab_loop-Gives minus_one ls m refl
