-- ===== src/Ppm/Training/Texts.antt =====
-- mozolm/models/ppm_as_fst_model.cc: the training from texts, and the vocabulary. The counter of n-grams
-- is a parameter.
use mozolm.Base.{
  ℕ, zero, suc, Bool, true, false, Option, none, some, List, [], ◌∷◌, map, if◌then◌else◌, leb, ◌==◌,
  ◌||◌, not, length,
}
use mozolm.Base.Int.{ℤ, pos, negsuc}
use mozolm.Base.Program.{
  Program, ok, err, fault, fail, pure, internal, get, put, or_fault, ◌>>=◌, ◌>>◌, calculated,
}
use mozolm.Double.{Double}
use mozolm.Fst.{Arc, FstLibrary, SymbolLibrary}
use mozolm.Utf8.{Bytes, Utf8Library, str_split_by_char}
use mozolm.Ppm.Blending.{backoff}
use mozolm.Ppm.Training.{contains, calculate_update_exclusions}

-- `ngram::NGramCounter`: `Count`, which may fail, and `GetFst`.
pub record NgramCounter (F C : Type 0) : Type 0 where
  pub count : F → C → Bool × C
  pub get_fst : C → F → F

-- `fst_`, `syms_` and `ngram_counter_` in the training.
pub record Trained (F T C : Type 0) : Type 0 where
  pub fst : F
  pub syms : T
  pub ngram_counter : C

module _ {D F T C : Type 0} (d : Double D) (l : FstLibrary D F) (t : SymbolLibrary F T)
    (g : NgramCounter F C) (u : Utf8Library) where
  -- An arc from a state to itself, of a symbol with one count.
  abbrev pub looping_arc : ℕ → ℕ → F → F
  looping_arc s label f =
      l.add_arc s (record { ilabel = label; weight = d.of_ℕ 0; nextstate = s }) f

  -- One symbol of `AddExtraCharacters`. `AddSymbol` gives a label that is not negative.
  pub add_character : ℕ → Bytes → Program (Trained F T C) (Unit {0})
  add_character unigram_state sym m = elim (l.find_symbol sym m.fst) [
    | pos idx ↦ ok tt m
    | negsuc i ↦
        let added = l.add_symbol sym m.fst in
        elim (l.find_symbol sym added) [
          | negsuc j ↦ fault
          | pos idx ↦
              ok tt
                (record m { fst = looping_arc unigram_state idx added; syms = t.add sym m.syms })
        ]
  ]

  pub add_characters : ℕ → List Bytes → Program (Trained F T C) (Unit {0})
  unfolding add_character
  add_characters unigram_state [] = pure tt
  add_characters unigram_state (sym ∷ syms) =
      add_character unigram_state sym >> add_characters unigram_state syms

  -- `GetBackoffState(*fst_, fst_->Start())`, an error where there is none.
  pub unigram_of : Program (Trained F T C) ℕ
  unigram_of m = ◌>>=◌ (calculated (backoff d l m.fst (l.start m.fst))) found m
    where
      found : Option ℕ → Program (Trained F T C) ℕ
      found none = fail internal
      found (some b) = pure b

  -- `AddExtraCharacters`.
  pub add_extra_characters : Bytes → Program (Trained F T C) (Unit {0})
  unfolding add_characters unigram_of
  add_extra_characters input_string = do
    syms ← or_fault (str_split_by_char u input_string)
    unigram_state ← unigram_of
    add_characters unigram_state syms

  -- The loop of `AddPriorCounts` over the symbols, and whether one was added.
  pub priors_loop : ℕ → List ℕ → List ℤ → Bool → F → Bool × F
  priors_loop unigram_state has_unigram [] syms_added f = (syms_added, f)
  priors_loop unigram_state has_unigram (negsuc s ∷ labels) syms_added f =
      priors_loop unigram_state has_unigram labels syms_added f
  priors_loop unigram_state has_unigram (pos s ∷ labels) syms_added f =
      let there = s == 0 || contains s has_unigram in
      priors_loop unigram_state has_unigram labels (syms_added || not there)
        (if there then f else looping_arc unigram_state s f)

  -- One more count on an arc.
  abbrev pub prior_arc : Arc D → Arc D
  prior_arc a = record a { weight = d.to_float (d.neg_log_sum a.weight (d.of_ℕ 0)) }

  abbrev pub labels_of : List (Arc D) → List ℕ
  labels_of arcs = map (λ (a : Arc D). a.ilabel) arcs

  -- The counts of `AddPriorCounts` at the unigram state.
  pub with_prior_counts : ℕ → T → F → F
  unfolding priors_loop
  with_prior_counts unigram_state syms f =
      let arcs = l.arcs unigram_state f in
      let counted = l.with_arcs unigram_state (map prior_arc arcs) f in
      let final =
        l.set_final unigram_state
          (d.to_float (d.neg_log_sum (l.final unigram_state counted) (d.of_ℕ 0))) counted in
      let added = priors_loop unigram_state (labels_of arcs) (t.labels syms) false final in
      if added.0 then l.arc_sort added.1 else added.1

  -- `AddPriorCounts`.
  pub add_prior_counts : Program (Trained F T C) (Unit {0})
  unfolding with_prior_counts unigram_of
  add_prior_counts = do
    unigram_state ← unigram_of
    m ← get
    put (record m { fst = with_prior_counts unigram_state m.syms m.fst })

  -- A label of `GetSymsVector`, which has to be positive.
  abbrev pub positive_label : ℤ → Program (Trained F T C) ℕ
  positive_label (negsuc i) m = err internal m
  positive_label (pos zero) m = err internal m
  positive_label (pos (suc i)) m = ok (suc i) m

  -- One symbol of `GetSymsVector`.
  pub get_sym : Bool → Bytes → Program (Trained F T C) ℕ
  get_sym add_sym sym m = elim (t.find sym m.syms) [
    | pos i ↦ positive_label (pos i) m
    | negsuc i ↦
        if add_sym
        then (let added = t.add sym m.syms in
            positive_label (t.find sym added)
              (record m { syms = added; fst = l.add_symbol sym m.fst }))
        else err internal m
  ]

  pub syms_loop : Bool → List Bytes → Program (Trained F T C) (List ℕ)
  unfolding get_sym
  syms_loop add_sym [] = pure []
  syms_loop add_sym (sym ∷ syms) = do
    i ← get_sym add_sym sym
    rest ← syms_loop add_sym syms
    pure (i ∷ rest)

  -- `GetSymsVector`.
  pub get_syms_vector : Bytes → Bool → Program (Trained F T C) (List ℕ)
  unfolding syms_loop
  get_syms_vector input_string add_sym =
      or_fault (str_split_by_char u input_string) >>= syms_loop add_sym

  -- The loop of `String2Fst` from a state on.
  pub chain : ℕ → List ℕ → F → F
  chain curr_state [] f = l.set_final curr_state (d.of_ℕ 0) f
  chain curr_state (sym ∷ syms) f =
      let next_state = l.num_states f in
      chain next_state syms (
        l.add_arc curr_state (record { ilabel = sym; weight = d.of_ℕ 0; nextstate = next_state })
          (l.add_state f))

  -- `String2Fst`.
  pub string_to_fst : Bytes → Program (Trained F T C) F
  unfolding get_syms_vector chain
  string_to_fst input_string = do
    syms ← get_syms_vector input_string true
    let curr_state = l.num_states l.empty in
        pure (chain curr_state syms (l.set_start curr_state (l.add_state l.empty)))

  -- A text counted by `TrainFromText`.
  pub count_text : F → Program (Trained F T C) (Unit {0})
  count_text f m =
      let counted = g.count f m.ngram_counter in
      let next = record m { ngram_counter = counted.1 } in
      if leb (l.num_states f) 0
      then err internal m
      else if counted.0
      then ok tt next
      else err internal next

  pub count_texts : List Bytes → Program (Trained F T C) (Unit {0})
  unfolding string_to_fst count_text
  count_texts [] = pure tt
  count_texts (input_line ∷ istrings) =
      (if length input_line == 0 then pure tt else string_to_fst input_line >>= count_text)
      >> count_texts istrings

  -- The model of no texts.
  abbrev pub empty_model : F → F
  empty_model f =
      let start_state = l.num_states f in
      let one = l.add_state f in
      let unigram_state = l.num_states one in
      let final =
        l.set_final unigram_state (d.of_ℕ 0) (l.set_start start_state (l.add_state one)) in
      l.add_arc start_state (record { ilabel = 0; weight = d.of_ℕ 0; nextstate = unigram_state })
        final

  -- `CalculateUpdateExclusions` of the transducer.
  pub exclude_updates : Program (Trained F T C) (Unit {0})
  exclude_updates m = elim (calculate_update_exclusions d l m.fst) [
    | fault ↦ fault
    | err c f ↦ err c (record m { fst = f })
    | ok a f ↦ ok tt (record m { fst = f })
  ]

  -- The branch of `TrainFromText` for texts.
  pub train : List Bytes → Program (Trained F T C) (Unit {0})
  unfolding count_texts exclude_updates add_prior_counts
  train istrings = do
    count_texts istrings
    m ← get
    put (record m { fst = l.arc_sort (g.get_fst m.ngram_counter m.fst) })
    exclude_updates
    add_prior_counts

  -- `TrainFromText`.
  pub train_from_text : List Bytes → Program (Trained F T C) (Unit {0})
  unfolding train
  train_from_text istrings = do
    (if length istrings == 0
        then (λ m. ok tt (record m { fst = empty_model m.fst }))
        else train istrings)
    m ← get
    put (record m { fst = t.set_symbols m.syms m.fst })
