-- ===== src/Ngram/Walks.antt =====
-- `NextState` of mozolm/models/ngram_char_fst_model.cc: the walk along the back-offs.
use mozolm.Base.{ℕ, zero, suc, ◌≡◌, ◌<◌, refl, ◌∙◌, Option, none, some, arith, leb, false}
use mozolm.Base.Int.{ℤ, pos, minus_one}
use mozolm.Base.Program.{ok, bind_ok, or_fault, calculated}
use mozolm.Double.{Double}
use mozolm.Utf8.{Bytes, Utf8Library, encode_unicode_char}
use mozolm.Ngram.{
  NGramLibrary, NGramModel, check_current_state, matched, next_or_backoff, next_loop, checked_label,
  next_from, next_state,
}

module _ {D F T : Type 0} (d : Double D) (l : NGramLibrary D F T) where
  -- The back-off of a state is a state that stands lower, so a walk along the back-offs ends.
  abbrev pub IsRanked : F → (ℕ → ℕ) → Type 0
  IsRanked f rank =
      (s : ℕ) (b : ℕ × D)
      → s < l.num_states f
      → l.get_backoff s f ≡ some b
      → (b.0 < l.num_states f) × (rank b.0 < rank s)

  -- Where a label leads from a state: along its arc at the first state of the back-offs that has one,
  -- and to no state where none has.
  pub data Walk (f : F) (label : ℤ) : ℕ → ℤ → Type 0 where
    found : {s : ℕ} (arc : D × ℕ) → l.find_arc s label f ≡ some arc → Walk f label s (pos arc.1)
    lost :
        {s : ℕ} → l.find_arc s label f ≡ none → l.get_backoff s f ≡ none → Walk f label s minus_one
    backed_off :
        {s : ℕ} {t : ℤ} (b : ℕ × D)
        → l.find_arc s label f ≡ none
        → l.get_backoff s f ≡ some b
        → Walk f label b.0 t
        → Walk f label s t

  pub matched_ok :
      (s : ℕ) (label : ℤ) (f : F) (o : Option (D × ℕ))
      → s < l.num_states f
      → l.find_arc s label f ≡ o
      → matched d l s label f tt ≡ ok o tt
  matched_ok s label f o less e =
      let within : leb (l.num_states f) s ≡ false = ground arith in rw (within, e) refl

  module _ (f : F) (label : ℤ) (rank : ℕ → ℕ) (ranked : IsRanked f rank) where
    abbrev Arrives : ℕ → ℕ → Type 0
    Arrives n s = (t : ℤ) × (next_loop d l n f label s tt ≡ ok t tt) × Walk f label s t

    module _ (n s : ℕ) (less : s < l.num_states f) where
      round :
          (o : Option (D × ℕ)) (t : ℤ)
          → l.find_arc s label f ≡ o
          → next_or_backoff d l (next_loop d l n f label) f s o tt ≡ ok t tt
          → next_loop d l (suc n) f label s tt ≡ ok t tt
      unfolding next_loop
      round o t e rest =
          bind_ok (matched d l s label f) (next_or_backoff d l (next_loop d l n f label) f s) tt
            (matched_ok s label f o less e)
          ∙ rest

      not_found :
          (o : Option (ℕ × D))
          → l.find_arc s label f ≡ none
          → l.get_backoff s f ≡ o
          → ((b : ℕ × D) → l.get_backoff s f ≡ some b → Arrives n b.0)
          → Arrives (suc n) s
      unfolding next_or_backoff
      not_found none e back rest =
          (minus_one, round none minus_one e (rw (back, next_or_backoff) refl), lost e back)
      not_found (some b) e back rest =
          let (t, called, walk) = rest b back in
          (t, round none t e (rw (back, next_or_backoff) called), backed_off b e back walk)

      by_arc :
          (o : Option (D × ℕ))
          → l.find_arc s label f ≡ o
          → ((b : ℕ × D) → l.get_backoff s f ≡ some b → Arrives n b.0)
          → Arrives (suc n) s
      unfolding next_or_backoff
      by_arc (some arc) e rest = (pos arc.1, round (some arc) (pos arc.1) e refl, found arc e)
      by_arc none e rest = not_found (l.get_backoff s f) e refl rest

    next_loop_lem : (n s : ℕ) → s < l.num_states f → rank s < n → Arrives n s
    next_loop_lem zero s less enough = absurd (omega arith)
    next_loop_lem (suc n) s less enough = by_arc n s less (l.find_arc s label f) refl (λ b back.
        let (within, lower) = ranked s b less back in next_loop_lem n b.0 within (omega arith))

  module _ (u : Utf8Library) where
    -- `NextState` of a model whose back-offs all lead to lower states, from a state of the model (which a
    -- negative number stands for as well, the unigram state or else the start state), with fuel for
    -- the back-offs: it returns, leaves the model alone, and leads where the label of the code point
    -- leads: along its arc at the first state of the back-offs that has one, and to -1 where none has.
    -- The code point is one that can be encoded, and the model has a symbol table.
    pub next_state-Walk :
        (fuel : ℕ) (rank : ℕ → ℕ) (m : NGramModel F) (symbols : T) (state c : ℤ) (u_char : Bytes)
        (s : ℕ)
        → IsRanked m.fst rank
        → l.input_symbols m.fst ≡ some symbols
        → encode_unicode_char u c ≡ some u_char
        → check_current_state d l state m.fst ≡ some s
        → s < l.num_states m.fst
        → rank s < fuel
        → (t : ℤ) × (next_state d l u fuel state c m ≡ ok t m)
          × Walk m.fst (checked_label d l m symbols u_char c) s t
    unfolding next_state next_from
    next_state-Walk fuel rank m symbols state c u_char s ranked table encoded checked less enough =
        let label = checked_label d l m symbols u_char c in
        let (t, called, walk) = next_loop_lem m.fst label rank ranked fuel s less enough in
        (
          t,
          rw (encoded, or_fault)
              (rw (table, or_fault) (rw (checked, next_from) (rw (called, calculated) refl))),
          walk,
        )
