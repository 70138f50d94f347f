-- ===== src/Bigram/Update.antt =====
-- `SimpleBigramCharModel::UpdateLMCounts`: what it adds, and where.
use mozolm.Base.{
  ℕ, zero, suc, ◌+◌, ◌*◌, ◌^◌, ◌≡◌, ◌≤◌, ◌<◌, inl, inr, refl, sym as sym_path, ◌∙◌, subst, true,
  ◌&&◌, none, some, List, [], ◌∷◌, arith, if◌then◌else◌, ◌==◌, ltb, length, length-set, get_elem?,
  set, get_elem?-set, lt-of-get_elem?, get_elem?_of_lt, All, All-set, All-get_elem?,
}
use mozolm.Base.Int.{ℤ, pos, negsuc, at}
use mozolm.Base.Program.{ok, ◌>>◌, bind_ok}
use mozolm.Double.{Double, exact_limit, IsExact}
use mozolm.Utf8.{Utf8Library}
use mozolm.Bigram.{
  Bigram, or_minus_one, state_or_start, sym_state, add_normalizer, add_count, update_loop,
  update_lm_counts,
}
use mozolm.Bigram.Valid.{sum, IsValid, start_lt, sym_state_cases}

-- The count of a bigram; 0 outside the matrix.
abbrev pub row_cell : List ℕ → ℕ → ℕ
row_cell row j = elim (get_elem? row j) [ none ↦ 0 | some c ↦ c ]

abbrev pub cell : List (List ℕ) → ℕ → ℕ → ℕ
cell counts i j = elim (get_elem? counts i) [ none ↦ 0 | some row ↦ row_cell row j ]

-- The pairs of states that a string passes through, from a state. A symbol that the vocabulary lacks
-- makes no pair, and leads to the start state.
pub transitions : List ℤ → ℕ → List ℤ → List (ℕ × ℕ)
transitions vocab_indices state [] = []
transitions vocab_indices state (c ∷ cs) = elim (or_minus_one (at vocab_indices c)) [
  | negsuc k ↦ transitions vocab_indices 0 cs
  | pos next ↦ (state, next) ∷ transitions vocab_indices next cs
]

pub occurrences : ℕ → ℕ → List (ℕ × ℕ) → ℕ
occurrences i j [] = 0
occurrences i j ((a, b) ∷ ts) = (if (a == i) && (b == j) then 1 else 0) + occurrences i j ts

-- `k` more updates by `count` overflow no count.
abbrev pub HasRoom : ℕ → ℕ → List (List ℕ) → Type 0
HasRoom count k counts = All (λ row. sum row + count * k < 2 ^ 63) counts

HasRoom-pred :
    (count k : ℕ) (counts : List (List ℕ)) → HasRoom count (suc k) counts → HasRoom count k counts
HasRoom-pred count k [] h = tt
HasRoom-pred count k (row ∷ counts) (p, h) = (grind arith, HasRoom-pred count k counts h)

sum-set :
    (row : List ℕ) (j old c : ℕ)
    → get_elem? row j ≡ some old
    → sum (set row j (old + c)) ≡ sum row + c
sum-set [] j old c e = absurd (cc)
sum-set (x ∷ row) zero old c e = let same : x ≡ old = ground arith in omega arith
sum-set (x ∷ row) (suc j) old c e = omega (arith, sum-set row j old c e)

cell-le-sum : (row : List ℕ) (j old : ℕ) → get_elem? row j ≡ some old → old ≤ sum row
cell-le-sum [] j old e = absurd (cc)
cell-le-sum (x ∷ row) zero old e = let same : x ≡ old = ground arith in omega arith
cell-le-sum (x ∷ row) (suc j) old e = omega (arith, cell-le-sum row j old e)

cell-set :
    (counts : List (List ℕ)) (i j a b v : ℕ) (row : List ℕ)
    → get_elem? counts i ≡ some row
    → j < length row
    → cell (set counts i (set row j v)) a b ≡ (if (i == a) && (j == b) then v else cell counts a b)
cell-set counts i j a b v row e h = ground (
  arith,
  get_elem?-set counts i a (set row j v),
  lt-of-get_elem? counts i e,
  get_elem?-set row j b v,
)

module _ {D : Type 0} (d : Double D) where
  -- What one counted transition leaves behind.
  record IsCounted (m : Bigram D) (i j c k : ℕ) (n : Bigram D) : Type 0 where
    valid : IsValid d n
    room : HasRoom c k n.bigram_counts
    same_indices : n.utf8_indices ≡ m.utf8_indices
    same_vocab : n.vocab_indices ≡ m.vocab_indices
    cells :
        (a b : ℕ)
        → cell n.bigram_counts a b
          ≡ cell m.bigram_counts a b + (if (i == a) && (j == b) then c else 0)

  -- The model after an update: valid, over the same vocabulary, each bigram counted `c` times more for
  -- each time that it occurs among the transitions `ts`.
  pub record IsUpdated (m : Bigram D) (c : ℕ) (ts : List (ℕ × ℕ)) (n : Bigram D) : Type 0 where
    pub valid : IsValid d n
    pub same_indices : n.utf8_indices ≡ m.utf8_indices
    pub same_vocab : n.vocab_indices ≡ m.vocab_indices
    pub cells :
        (a b : ℕ) → cell n.bigram_counts a b ≡ cell m.bigram_counts a b + c * occurrences a b ts

module _ {D : Type 0} (d : Double D) (u : Utf8Library) (exact : IsExact d) where
  abbrev counted : Bigram D → ℕ → ℕ → ℕ → D → List ℕ → ℕ → Bigram D
  counted m i j c x row old = record m {
    utf8_normalizer = set m.utf8_normalizer i (d.add x (d.of_ℕ c));
    bigram_counts = set m.bigram_counts i (set row j (old + c));
  }

  module _ (m : Bigram D) (v : IsValid d m) (i j c : ℕ) (x : D) (row : List ℕ) (old : ℕ)
      (at_x : get_elem? m.utf8_normalizer i ≡ some x)
      (at_row : get_elem? m.bigram_counts i ≡ some row) (at_old : get_elem? row j ≡ some old) where
    counted-sums :
        (a : ℕ) (r : List ℕ) (y : D)
        → get_elem? (counted m i j c x row old).bigram_counts a ≡ some r
        → get_elem? (counted m i j c x row old).utf8_normalizer a ≡ some y
        → sum r ≤ exact_limit
        → y ≡ d.of_ℕ (sum r)
    counted-sums a r y er ey h = ground (
      arith,
      get_elem?-set m.bigram_counts i a (set row j (old + c)),
      get_elem?-set m.utf8_normalizer i a (d.add x (d.of_ℕ c)),
      lt-of-get_elem? m.bigram_counts i at_row,
      lt-of-get_elem? m.utf8_normalizer i at_x,
      v.sums i row x at_row at_x,
      v.sums a r y,
      sum-set row j old c at_old,
      exact (sum row) c,
    )

    counted_call :
        ltb (old + c) (2 ^ 63) ≡ true
        → ◌>>◌ (add_normalizer d u i c) (add_count d u i j c) m ≡ ok tt (counted m i j c x row old)
    unfolding add_normalizer add_count
    counted_call fits = ground arith

    counted-IsValid : IsValid d (counted m i j c x row old)
    counted-IsValid = record {
      nonempty = v.nonempty;
      normalizers = length-set m.utf8_normalizer i _ ∙ v.normalizers;
      rows = length-set m.bigram_counts i _ ∙ v.rows;
      columns =
          All-set _ m.bigram_counts i _ v.columns
            (length-set row j _ ∙ All-get_elem? _ m.bigram_counts i v.columns at_row);
      indexed = v.indexed;
      sums = counted-sums;
    }

    counted-IsCounted :
        (k : ℕ)
        → HasRoom c (suc k) m.bigram_counts
        → IsCounted d m i j c k (counted m i j c x row old)
    counted-IsCounted k room = record {
      valid = counted-IsValid;
      room = All-set _ m.bigram_counts i _ (HasRoom-pred c k m.bigram_counts room) (
          omega (arith, sum-set row j old c at_old, All-get_elem? _ m.bigram_counts i room at_row));
      same_indices = refl;
      same_vocab = refl;
      cells = λ a b. ground (
        arith,
        cell-set m.bigram_counts i j a b (old + c) row at_row (lt-of-get_elem? row j at_old),
      );
    }

  -- Both `+=` of a counted transition, at states of the model.
  count_lem :
      (m : Bigram D) (i j c k : ℕ)
      → IsValid d m
      → i < length m.utf8_indices
      → j < length m.utf8_indices
      → HasRoom c (suc k) m.bigram_counts
      → (n : Bigram D) × (◌>>◌ (add_normalizer d u i c) (add_count d u i j c) m ≡ ok tt n)
        × IsCounted d m i j c k n
  count_lem m i j c k v hi hj room =
      let (x, at_x) = get_elem?_of_lt m.utf8_normalizer i (omega (arith, v.normalizers)) in
      let (row, at_row) = get_elem?_of_lt m.bigram_counts i (omega (arith, v.rows)) in
      let width = All-get_elem? _ m.bigram_counts i v.columns at_row in
      let (old, at_old) = get_elem?_of_lt row j (omega (arith, width)) in
      let room_here = All-get_elem? _ m.bigram_counts i room at_row in
      let fits : ltb (old + c) (2 ^ 63) ≡ true =
        ground (arith, cell-le-sum row j old at_old, below c k (sum row) room_here) in
      (
        counted m i j c x row old,
        counted_call m v i j c x row old at_x at_row at_old fits,
        counted-IsCounted m v i j c x row old at_x at_row at_old k room,
      )
    where
      below : (c k s : ℕ) → s + c * suc k < 2 ^ 63 → s + c < 2 ^ 63
      below c k s h = grind arith

  IsUpdated-cons :
      (m n p : Bigram D) (i j c k : ℕ) (ts : List (ℕ × ℕ))
      → IsCounted d m i j c k n
      → IsUpdated d n c ts p
      → IsUpdated d m c ((i, j) ∷ ts) p
  unfolding occurrences
  IsUpdated-cons m n p i j c k ts r q = record {
    valid = q.valid;
    same_indices = q.same_indices ∙ r.same_indices;
    same_vocab = q.same_vocab ∙ r.same_vocab;
    cells = λ a b. ground (arith, q.cells a b, r.cells a b);
  }

  update_loop_lem :
      (c : ℕ) (syms : List ℤ) (m : Bigram D) (state : ℕ)
      → IsValid d m
      → state < length m.utf8_indices
      → HasRoom c (length syms) m.bigram_counts
      → (n : Bigram D) × (update_loop d u c state syms m ≡ ok true n)
        × IsUpdated d m c (transitions m.vocab_indices state syms) n
  unfolding update_loop transitions occurrences sym_state
  update_loop_lem c [] m state v h room = (
    m,
    refl,
    record { valid = v; same_indices = refl; same_vocab = refl; cells = λ a b. omega arith },
  )
  update_loop_lem c (sym ∷ syms) m state v h room = elim (sym_state_cases d m sym v) [
    | inl missing ↦
        let (n, e, r) =
          update_loop_lem c syms m 0 v v.nonempty
            (HasRoom-pred c (length syms) m.bigram_counts room) in
        (n, rw (missing, update_loop) e, rw (missing, transitions) r)
    | inr (next, found, at_next) ↦
        let here = lt-of-get_elem? m.utf8_indices next at_next in
        let (n, e, r) = count_lem m state next c (length syms) v h here room in
        let (p, f, q) =
          update_loop_lem c syms n next r.valid
            (subst (λ l. next < length l) (sym_path r.same_indices) here) r.room in
        (
          p,
          rw (found, update_loop)
              (bind_ok (◌>>◌ (add_normalizer d u state c) (add_count d u state next c))
                  (λ _. update_loop d u c next syms) m e
                ∙ f),
          rw (found, transitions)
              (IsUpdated-cons m n p state next c (length syms) _ r
                (subst (λ l. IsUpdated d n c (transitions l next syms) p) r.same_vocab q)),
        )
  ]

  -- An update by a positive count, from any state, in a valid model in which no count can overflow:
  -- it returns true; the model stays valid and keeps its vocabulary; and each count grows by the given
  -- count for each time that its bigram occurs among the transitions of the symbols, which start from
  -- state 0 where the given state is out of range.
  pub update_lm_counts_lem :
      (m : Bigram D) (state : ℤ) (syms : List ℤ) (c : ℕ)
      → IsValid d m
      → HasRoom (suc c) (length syms) m.bigram_counts
      → (n : Bigram D) × (update_lm_counts d u state syms (pos (suc c)) m ≡ ok true n)
        × IsUpdated d m
            (suc c)
            (transitions m.vocab_indices (state_or_start state (length m.utf8_indices)) syms)
            n
  unfolding update_lm_counts
  update_lm_counts_lem m state syms c v room =
      update_loop_lem (suc c) syms m (state_or_start state (length m.utf8_indices)) v
        (start_lt state (length m.utf8_indices) v.nonempty) room
