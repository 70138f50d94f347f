-- ===== src/Ngram/Costs.antt =====
-- `ExtractLMScores` of mozolm/models/ngram_char_fst_model.cc: the cost of each symbol along the back-offs.
use mathlib.Core.List.{foldl}
use mozolm.Base.{
  ℕ, zero, suc, ◌-◌, ◌≡◌, ◌<◌, refl, ap, ◌∙◌, Option, none, some, List, [], ◌∷◌, map, arith, true,
}
use mozolm.Base.Int.{ℤ}
use mozolm.Base.Program.{ok, ◌>>=◌, bind_ok, or_fault, calculated, pure}
use mozolm.Double.{Double}
use mozolm.Utf8.{Utf8Library}
use mozolm.Model.{LmScores, softmax_renormalize}
use mozolm.Ngram.{
  NGramLibrary, NGramModel, check_current_state, matched, cost_or_backoff, cost_loop,
  label_cost_in_state, labels_from, costs_of, filled, answer, extract_lm_scores,
}
use mozolm.Ngram.Walks.{IsRanked, matched_ok}

module _ {D F T : Type 0} (d : Double D) (l : NGramLibrary D F T) where
  abbrev put_before : D → Option (List D) → Option (List D)
  put_before w none = none
  put_before w (some ws) = some (w ∷ ws)

  -- The weights on the way from a state to the arc of a label: those of the back-offs, and that of the
  -- arc; `none` where no state on the way has one.
  pub data Weights (f : F) (label : ℤ) : ℕ → Option (List D) → Type 0 where
    found :
        {s : ℕ} (arc : D × ℕ)
        → l.find_arc s label f ≡ some arc
        → Weights f label s (some (arc.0 ∷ []))
    lost : {s : ℕ} → l.find_arc s label f ≡ none → l.get_backoff s f ≡ none → Weights f label s none
    backed_off :
        {s : ℕ} {ws : Option (List D)} (b : ℕ × D)
        → l.find_arc s label f ≡ none
        → l.get_backoff s f ≡ some b
        → Weights f label b.0 ws
        → Weights f label s (put_before b.1 ws)

  -- Their product from a cost on.
  abbrev pub product : D → Option (List D) → D
  product cost none = l.zero_weight
  product cost (some ws) = foldl l.times cost ws

  product-put_before :
      (cost w : D) (ws : Option (List D))
      → product (l.times cost w) ws ≡ product cost (put_before w ws)
  product-put_before cost w none = refl
  product-put_before cost w (some ws) = refl

  module _ (f : F) (rank : ℕ → ℕ) (ranked : IsRanked d l f rank) where
    module _ (label : ℤ) where
      abbrev Costs : ℕ → D → ℕ → Type 0
      Costs n cost s =
          (ws : Option (List D)) × (cost_loop d l n f label cost s tt ≡ ok (product cost ws) tt)
          × Weights f label s ws

      module _ (n s : ℕ) (cost : D) (less : s < l.num_states f) where
        round :
            (o : Option (D × ℕ)) (c : D)
            → l.find_arc s label f ≡ o
            → cost_or_backoff d l (cost_loop d l n f label) f cost s o tt ≡ ok c tt
            → cost_loop d l (suc n) f label cost s tt ≡ ok c tt
        unfolding cost_loop
        round o c e rest =
            bind_ok (matched d l s label f) (cost_or_backoff d l (cost_loop d l n f label) f cost s)
              tt (matched_ok d l s label f o less e)
            ∙ rest

        not_found :
            (o : Option (ℕ × D))
            → l.find_arc s label f ≡ none
            → l.get_backoff s f ≡ o
            → ((b : ℕ × D) → l.get_backoff s f ≡ some b → Costs n (l.times cost b.1) b.0)
            → Costs (suc n) cost s
        unfolding cost_or_backoff
        not_found none e back rest =
            (none, round none l.zero_weight e (rw (back, cost_or_backoff) refl), lost e back)
        not_found (some b) e back rest =
            let (ws, called, weights) = rest b back in
            let same = product-put_before cost b.1 ws in
            (
              put_before b.1 ws,
              round none (product cost (put_before b.1 ws)) e
                  (rw (back, cost_or_backoff) (called ∙ ap (λ c. ok c tt) same)),
              backed_off b e back weights,
            )

        by_arc :
            (o : Option (D × ℕ))
            → l.find_arc s label f ≡ o
            → ((b : ℕ × D) → l.get_backoff s f ≡ some b → Costs n (l.times cost b.1) b.0)
            → Costs (suc n) cost s
        unfolding cost_or_backoff
        by_arc (some arc) e rest =
            (some (arc.0 ∷ []), round (some arc) (l.times cost arc.0) e refl, found arc e)
        by_arc none e rest = not_found (l.get_backoff s f) e refl rest

      cost_loop_lem : (n s : ℕ) (cost : D) → s < l.num_states f → rank s < n → Costs n cost s
      cost_loop_lem zero s cost less enough = absurd (omega arith)
      cost_loop_lem (suc n) s cost less enough =
          by_arc n s cost less (l.find_arc s label f) refl (λ b back.
            let (within, lower) = ranked s b less back in
            cost_loop_lem n b.0 (l.times cost b.1) within (omega arith))

    -- The weights of each label.
    pub data AllWeights (s : ℕ) : List ℤ → List (Option (List D)) → Type 0 where
      no_labels : AllWeights s [] []
      one_label :
          {label : ℤ} {labels : List ℤ} {ws : Option (List D)} {all : List (Option (List D))}
          → Weights f label s ws
          → AllWeights s labels all
          → AllWeights s (label ∷ labels) (ws ∷ all)

    costs_of_lem :
        (fuel s : ℕ) (labels : List ℤ)
        → s < l.num_states f
        → rank s < fuel
        → (all : List (Option (List D))) × (costs_of d l fuel f (some s) labels tt
            ≡ ok (map (product l.one) all) tt)
          × AllWeights s labels all
    unfolding costs_of label_cost_in_state
    costs_of_lem fuel s [] less enough = ([], refl, no_labels)
    costs_of_lem fuel s (label ∷ labels) less enough =
        let (ws, called, weights) = cost_loop_lem label fuel s l.one less enough in
        let (all, rest, all_weights) = costs_of_lem fuel s labels less enough in
        (
          ws ∷ all,
          bind_ok (label_cost_in_state d l fuel f (some s) label)
                (λ c. costs_of d l fuel f (some s) labels >>= λ cs. pure (c ∷ cs)) tt called
              ∙ bind_ok (costs_of d l fuel f (some s) labels) (λ cs. pure (product l.one ws ∷ cs))
                  tt rest,
          one_label weights all_weights,
        )

  module _ (u : Utf8Library) where
    -- The costs of at least one label.
    some_costs :
        {f : F} {rank : ℕ → ℕ} {ranked : IsRanked d l f rank} {s : ℕ} {label : ℤ} {labels : List ℤ}
        (all : List (Option (List D)))
        → AllWeights f rank ranked s (label ∷ labels) all
        → (costs : List D) × (softmax_renormalize d (d.of_ℕ 0) d.kahan_sum (map (product l.one) all)
            ≡ some costs)
    unfolding softmax_renormalize
    some_costs [] weights = elim weights [ ]
    some_costs (ws ∷ all) (one_label weights rest) = (_, refl)

    answer_lem :
        (fuel s : ℕ) (m : NGramModel F) (symbols : T) (response : LmScores D) (labels : List ℤ)
        (cs costs : List D)
        → costs_of d l fuel m.fst (some s) labels tt ≡ ok cs tt
        → softmax_renormalize d (d.of_ℕ 0) d.kahan_sum cs ≡ some costs
        → answer d l u fuel m symbols response (some s) labels m
          ≡ ok (true, filled d l symbols labels response costs) m
    unfolding answer
    answer_lem fuel s m symbols response labels cs costs called renormalized =
        rw (called, calculated) (rw (renormalized, or_fault) refl)

    extract_answer :
        (fuel : ℕ) (m : NGramModel F) (symbols : T) (state : ℤ) (response : LmScores D)
        → l.input_symbols m.fst ≡ some symbols
        → extract_lm_scores d l u fuel state response m
          ≡ answer d l u fuel m symbols response
              (check_current_state d l state m.fst)
              (labels_from d l (l.num_symbols symbols - 1) 1 symbols)
              m
    unfolding extract_lm_scores
    extract_answer fuel m symbols state response table = rw (table, or_fault) refl

    -- `ExtractLMScores` of a model whose back-offs all lead to lower states, from a state of the model
    -- (which a negative number stands for as well), with fuel for the back-offs, where the table has a
    -- symbol besides the first: it returns true and leaves the model alone. The response lists every
    -- symbol but the first, with the renormalised costs as probabilities. The cost of a symbol is the
    -- product, from one on, of the weights of the back-offs up to the first state that has an arc for
    -- its label and of the arc's weight, and zero where none has.
    pub extract_lm_scores-Weights :
        (fuel : ℕ) (rank : ℕ → ℕ) (m : NGramModel F) (symbols : T) (state : ℤ) (s k : ℕ)
        (response : LmScores D)
        → (ranked : IsRanked d l m.fst rank) → l.input_symbols m.fst ≡ some symbols
        → l.num_symbols symbols - 1 ≡ suc k
        → check_current_state d l state m.fst ≡ some s
        → s < l.num_states m.fst
        → rank s < fuel
        → (all : List (Option (List D))) × (costs : List D) × AllWeights m.fst rank ranked s
            (labels_from d l (suc k) 1 symbols)
            all
          × (softmax_renormalize d (d.of_ℕ 0) d.kahan_sum (map (product l.one) all) ≡ some costs)
          × (extract_lm_scores d l u fuel state response m
              ≡ ok (true, filled d l symbols (labels_from d l (suc k) 1 symbols) response costs) m)
    extract_lm_scores-Weights fuel rank m symbols state s k response ranked table several checked
          less enough =
        let labels = labels_from d l (suc k) 1 symbols in
        let (all, called, weights) = costs_of_lem m.fst rank ranked fuel s labels less enough in
        let (costs, renormalized) = some_costs all weights in
        (
          all,
          costs,
          weights,
          renormalized,
          extract_answer fuel m symbols state response table
              ∙ ap
                  (λ o.
                    answer d l u fuel m symbols response o
                      (labels_from d l (l.num_symbols symbols - 1) 1 symbols) m)
                  checked
              ∙ ap
                  (λ n.
                    answer d l u fuel m symbols response (some s) (labels_from d l n 1 symbols) m)
                  several
              ∙ answer_lem fuel s m symbols response labels (map (product l.one) all) costs called
                  renormalized,
        )
