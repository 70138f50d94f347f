-- ===== src/Bigram/Indexing.antt =====
-- The index of the vocabulary that `Read` of mozolm/models/simple_bigram_char_model.cc builds.
use mathlib.Core.List.{map}
use mozolm.Base.{
  ℕ, zero, suc, ◌+◌, ◌≡◌, ◌↔◌, ◌⊎◌, ◌≤◌, ◌<◌, inl, inr, refl, sym, ap, ◌∙◌, Option, some, List, [],
  ◌∷◌, arith, length, length-set, get_elem?, get_elem?-map, get_elem?-map_inv, lt-of-get_elem?,
  get_elem?_of_lt, set, Option-cases, leb, false, ltb, subst, Bool-cases,
}
use mozolm.Base.Int.{ℤ, pos, negsuc, minus_one, at}
use mozolm.Base.Program.{ok, bind_ok, or_fault}
use mozolm.Double.{Double}
use mozolm.Utf8.{Utf8Library}
use mozolm.Bigram.{Bigram, state_sym, sym_state}
use mozolm.Bigram.Valid.{IsIndexed}
use mozolm.Bigram.Reading.{Files, back, resize, size_after, index_loop, index_vocabulary}

-- From a number on, the list ascends.
pub data Ascends : ℕ → List ℕ → Type 0 where
  nothing : {b : ℕ} → Ascends b []
  and_then : {b c : ℕ} {cs : List ℕ} → b ≤ c → Ascends (suc c) cs → Ascends b (c ∷ cs)

-- An entry of the index from `b` on: -1, or the state of its symbol.
abbrev IsEntry : ℕ → List ℕ → ℕ → ℤ → Type 0
IsEntry i cs j s = (s ≡ minus_one) ⊎ ((k : ℕ) × (s ≡ pos (i + k)) × (get_elem? cs k ≡ some j))

set_at : (xs : List ℤ) (i : ℕ) (v : ℤ) → i < length xs → get_elem? (set xs i v) i ≡ some v
set_at [] i v h = absurd (omega arith)
set_at (x ∷ xs) zero v h = refl
set_at (x ∷ xs) (suc i) v h = set_at xs i v (omega arith)

set_other :
    (xs : List ℤ) (i j : ℕ) (v : ℤ) → (i < j) ⊎ (j < i) → get_elem? (set xs i v) j ≡ get_elem? xs j
set_other [] i j v h = refl
set_other (x ∷ xs) zero zero v h = absurd (ground arith)
set_other (x ∷ xs) zero (suc j) v h = refl
set_other (x ∷ xs) (suc i) zero v h = refl
set_other (x ∷ xs) (suc i) (suc j) v h = set_other xs i j v (ground arith)

at_symbol :
    (i c : ℕ) (cs : List ℕ) (filled : List ℤ)
    → get_elem? filled c ≡ some (pos i)
    → ((k x : ℕ) → get_elem? cs k ≡ some x → get_elem? filled x ≡ some (pos (i + 1 + k)))
    → (k x : ℕ) → get_elem? (c ∷ cs) k ≡ some x
    → get_elem? filled x ≡ some (pos (i + k))
at_symbol i c cs filled p rest zero x e =
    let same : c ≡ x = ground arith in
    subst (λ y. get_elem? filled y ≡ some (pos (i + 0))) same
      (p ∙ ap (λ n. some (pos n)) (omega arith))
at_symbol i c cs filled p rest (suc k) x e = rest k x e ∙ ap (λ n. some (pos n)) (omega arith)

later : (i c : ℕ) (cs : List ℕ) (j : ℕ) (s : ℤ) → IsEntry (i + 1) cs j s → IsEntry i (c ∷ cs) j s
later i c cs j s (inl e) = inl e
later i c cs j s (inr (k, is_s, found)) = inr (suc k, is_s ∙ ap pos (omega arith), found)

at_same : (xs : List ℤ) {c j : ℕ} {o : Option ℤ} → c ≡ j → get_elem? xs c ≡ o → get_elem? xs j ≡ o
at_same xs {c} {j} {o} same e = subst (λ y. get_elem? xs y ≡ o) same e

first_entry : {i : ℕ} {s : ℤ} {o : Option ℤ} → o ≡ some (pos i) → o ≡ some s → s ≡ pos (i + 0)
first_entry {i} {s} p e = let same : s ≡ pos i = cc in same ∙ ap pos (omega arith)

abbrev last : ℕ → List ℕ → ℕ
last c [] = c
last c (x ∷ xs) = last x xs

back-last : (c : ℕ) (cs : List ℕ) → back (pos c) (map pos cs) ≡ pos (last c cs)
back-last c [] = refl
back-last c (x ∷ xs) = back-last x xs

below-last :
    (b c : ℕ) (cs : List ℕ)
    → Ascends b (c ∷ cs)
    → (k x : ℕ) → get_elem? (c ∷ cs) k ≡ some x
    → x ≤ last c cs
below-last b c [] ascends zero x e = ground arith
below-last b c [] ascends (suc k) x e = absurd (cc)
below-last b c (y ∷ ys) (and_then _ (and_then less ascends)) zero x e =
    let rest = below-last (suc c) y ys (and_then less ascends) 0 y refl in
    let same : c ≡ x = ground arith in omega arith
below-last b c (y ∷ ys) (and_then _ ascends) (suc k) x e = below-last (suc c) y ys ascends k x e

length-resize : (n : ℕ) → length (resize [] n minus_one) ≡ n
length-resize zero = refl
length-resize (suc n) = ap suc (length-resize n)

resize_blank : (n j : ℕ) (s : ℤ) → get_elem? (resize [] n minus_one) j ≡ some s → s ≡ minus_one
resize_blank zero j s e = absurd (cc)
resize_blank (suc n) zero s e = cc
resize_blank (suc n) (suc j) s e = resize_blank n j s e

module _ {D : Type 0} (d : Double D) (u : Utf8Library) (f : Files) where
  record Filled (i b : ℕ) (cs : List ℕ) (vocab : List ℤ) (m : Bigram D) : Type 0 where
    filled : List ℤ
    run : index_loop d u f i (map pos cs) vocab m ≡ ok filled m
    kept : (j : ℕ) → j < b → get_elem? filled j ≡ get_elem? vocab j
    to_index : (k c : ℕ) → get_elem? cs k ≡ some c → get_elem? filled c ≡ some (pos (i + k))
    from_index : (j : ℕ) (s : ℤ) → b ≤ j → get_elem? filled j ≡ some s → IsEntry i cs j s

  index_loop_lem :
      (i b : ℕ) (cs : List ℕ) (vocab : List ℤ) (m : Bigram D)
      → Ascends b cs
      → ((k c : ℕ) → get_elem? cs k ≡ some c → c < length vocab)
      → ((j : ℕ) (s : ℤ) → b ≤ j → get_elem? vocab j ≡ some s → s ≡ minus_one)
      → Filled i b cs vocab m
  unfolding index_loop
  index_loop_lem i b [] vocab m ascends below blank = record {
    filled = vocab;
    run = refl;
    kept = λ j h. refl;
    to_index = λ k c e. absurd (cc);
    from_index = λ j s h e. inl (blank j s h e);
  }
  index_loop_lem i b (c ∷ cs) vocab m (and_then from_b ascends) below blank =
      let within : c < length vocab = below 0 c refl in
      let rest =
        index_loop_lem (i + 1) (suc c) cs (set vocab c (pos i)) m ascends
          (λ k x e. omega (arith, below (suc k) x e, length-set vocab c (pos i)))
          (λ j s h e.
            blank j s (omega arith) (sym (set_other vocab c j (pos i) (inl (omega arith))) ∙ e)) in
      record {
        filled = rest.filled;
        run = let in_range : leb (length vocab) c ≡ false = ground arith in rw in_range rest.run;
        kept = λ j h. rest.kept j (omega arith) ∙ set_other vocab c j (pos i) (inr (omega arith));
        to_index =
            at_symbol i c cs rest.filled (rest.kept c (omega arith) ∙ set_at vocab c (pos i) within)
              rest.to_index;
        from_index = λ j s h e. elim (Bool-cases (ltb j c)) [
          | inl less ↦ inl (
              blank j s h (
                sym (set_other vocab c j (pos i) (inr (ground arith)))
                ∙ sym (rest.kept j (ground arith))
                ∙ e))
          | inr more ↦ elim (Bool-cases (ltb c j)) [
            | inl above ↦ later i c cs j s (rest.from_index j s (ground arith) e)
            | inr same ↦
                let is_c : c ≡ j = ground arith in
                let found : get_elem? rest.filled c ≡ some (pos i) =
                  rest.kept c (omega arith) ∙ set_at vocab c (pos i) within in
                inr (0, (first_entry (at_same rest.filled is_c found) e), ap some is_c)
          ]
        ];
      }

  Filled-IsIndexed :
      (cs : List ℕ) (vocab : List ℤ) (m : Bigram D) (r : Filled 0 0 cs vocab m)
      → IsIndexed (map pos cs) r.filled
  Filled-IsIndexed cs vocab m r = record {
    to_index = λ i c e.
        let (x, found, is_c) = get_elem?-map_inv pos cs i e in
        subst (λ y. at r.filled y ≡ some (pos i)) is_c
          (r.to_index i x found ∙ ap (λ n. some (pos n)) (omega arith));
    from_index = from;
  }
    where
      from :
          (c s : ℤ)
          → at r.filled c ≡ some s
          → (s ≡ minus_one) ⊎ ((i : ℕ) × (s ≡ pos i) × (get_elem? (map pos cs) i ≡ some c))
      from (negsuc c) s e = absurd (cc)
      from (pos c) s e = elim (r.from_index c s (omega arith) e) [
        | inl unknown ↦ inl unknown
        | inr (k, is_s, found) ↦ inr (k, is_s ∙ ap pos (omega arith), get_elem?-map pos cs k found)
      ]

  run_lem :
      (c : ℕ) (cs : List ℕ) (m : Bigram D) (size : ℕ) (blank filled : List ℤ)
      → size_after (back (pos c) (map pos cs)) ≡ some size
      → resize m.vocab_indices size minus_one ≡ blank
      → index_loop d u f 0 (map pos (c ∷ cs)) blank m ≡ ok filled m
      → index_vocabulary d u f (map pos (c ∷ cs)) m ≡ ok tt (record m { vocab_indices = filled })
  unfolding index_vocabulary
  run_lem c cs m size blank filled sized resized run =
      bind_ok (or_fault (size_after (back (pos c) (map pos cs)))) _ m (rw (sized, or_fault) refl)
      ∙ bind_ok (index_loop d u f 0 (map pos (c ∷ cs)) (resize m.vocab_indices size minus_one)) _ m
          (ap (λ v. index_loop d u f 0 (map pos (c ∷ cs)) v m) resized ∙ run)

  index_vocabulary-IsIndexed :
      (c : ℕ) (cs : List ℕ) (m : Bigram D)
      → Ascends 0 (c ∷ cs)
      → m.vocab_indices ≡ []
      → (vocab : List ℤ) × (index_vocabulary d u f (map pos (c ∷ cs)) m
          ≡ ok tt (record m { vocab_indices = vocab }))
        × IsIndexed (map pos (c ∷ cs)) vocab
  index_vocabulary-IsIndexed c cs m ascends new =
      let size = suc (last c cs) in
      let r =
        index_loop_lem 0 0 (c ∷ cs) (resize [] size minus_one) m ascends
          (λ k x e. omega (arith, below-last 0 c cs ascends k x e, length-resize size))
          (λ j s h e. resize_blank size j s e) in
      (
        r.filled,
        run_lem c cs m size (resize [] size minus_one) r.filled (ap size_after (back-last c cs))
            (ap (λ xs. resize xs size minus_one) new) r.run,
        Filled-IsIndexed (c ∷ cs) (resize [] size minus_one) m r,
      )

  sym_state-state_sym :
      (n : Bigram D) (s : ℤ) (i : ℕ)
      → IsIndexed n.utf8_indices n.vocab_indices
      → (sym_state n s ≡ pos i) ↔ ((i < length n.utf8_indices) × (state_sym n (pos i) ≡ s))
  unfolding sym_state state_sym
  sym_state-state_sym n s i indexed = (
    λ e. elim (Option-cases (at n.vocab_indices s)) [
      | inl lacks ↦ absurd (ground arith)
      | inr (x, is_x) ↦ elim (indexed.from_index s x is_x) [
        | inl unknown ↦ absurd (ground arith)
        | inr (j, a, b) ↦
            let same : i ≡ j = ground arith in rw same (lt-of-get_elem? n.utf8_indices j b, rw b)
      ]
    ],
    λ h.
        let (x, b) = get_elem?_of_lt n.utf8_indices i h.0 in
        let same : x ≡ s = ground arith in rw (indexed.to_index i s (at_sym b same)),
  )
    where
      at_sym : {a b : ℤ} {o : Option ℤ} → o ≡ some a → a ≡ b → o ≡ some b
      at_sym p q = cc

  -- The end of Read, where the symbols of the vocabulary ascend and are not negative, as Read has checked:
  -- it succeeds, sets the index only, and from then on a symbol leads to a state exactly when it is the
  -- symbol of that state.
  pub index_vocabulary-sym_state :
      (c : ℕ) (cs : List ℕ) (m : Bigram D)
      → Ascends 0 (c ∷ cs)
      → m.utf8_indices ≡ map pos (c ∷ cs)
      → m.vocab_indices ≡ []
      → (n : Bigram D) × (index_vocabulary d u f m.utf8_indices m ≡ ok tt n)
        × (n ≡ record m { vocab_indices = n.vocab_indices })
        × ((s : ℤ) (i : ℕ)
            → (sym_state n s ≡ pos i) ↔ ((i < length n.utf8_indices) × (state_sym n (pos i) ≡ s)))
  index_vocabulary-sym_state c cs m ascends vocabulary new =
      let (vocab, run, indexed) = index_vocabulary-IsIndexed c cs m ascends new in
      let n = record m { vocab_indices = vocab } in
      (
        n,
        ap (λ x. index_vocabulary d u f x m) vocabulary ∙ run,
        refl,
        λ s i. sym_state-state_sym n s i (subst (λ x. IsIndexed x vocab) (sym vocabulary) indexed),
      )
