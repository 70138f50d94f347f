-- ===== src/Hub/Mixing.antt =====
-- mozolm/models/language_model_hub.cc: `InitializeModels`, and the mixing of the models' scores in
-- `ExtractLMScores`. Parameters are the sort of <algorithm>, the order in which the hash map is walked,
-- the test of two strings and the double 0.
pub mod Values
pub mod Tests
use mozolm.Base.{
  ℕ, zero, suc, ◌+◌, Bool, true, false, Option, none, some, List, [], ◌∷◌, ◌++◌, map, if◌then◌else◌,
  ltb, length,
}
use mozolm.Base.Int.{ℤ, pos, negsuc, minus_one, at}
use mozolm.Base.Program.{Outcome, Program, ok, err, fault}
use mozolm.Double.{Double}
use mozolm.Utf8.{Bytes}
use mozolm.Model.{LmScores, LanguageModel}
use mozolm.Hub.{Hub, initialize_start_hub_state}
use mozolm.Hub.State.{HubState, model_state}

-- `ModelHubConfig::MixtureType`; `unknown` is a number that the enumeration does not name.
pub data MixtureType : Type 0 where
  none_type interpolation unknown : MixtureType

-- `ModelHubConfig` of model_config.proto: the type, the weight of each configured model, and the
-- number of states to keep.
pub record ModelHubConfig (D : Type 0) : Type 0 where
  pub mixture_type : MixtureType
  pub weights : List D
  pub maximim_maintained_states : ℤ

abbrev pub k_max_hub_states : ℕ
k_max_hub_states = 10000

-- The number of states to keep, where the configured one is at least 10.
abbrev pub states_to_keep : ℤ → ℕ
states_to_keep (pos n) = if ltb n 10 then k_max_hub_states else n
states_to_keep (negsuc n) = k_max_hub_states

abbrev pub start_hub_state : ℕ → HubState
start_hub_state n = record {
  model_states = zeros n;
  prev_state = minus_one;
  next_states = [];
  state_sym = pos 0;
}
  where
    zeros : ℕ → List ℤ
    zeros zero = []
    zeros (suc n) = pos 0 ∷ zeros n

module _ {D : Type 0} (d : Double D) (zero_d : D) where
  -- The normalised weights of an interpolation; one weight where there is nothing to mix.
  unfoldable pub log_sum : D → List D → D
  log_sum total [] = total
  log_sum total (w ∷ ws) = log_sum (d.neg_log_sum total w) ws

  unfoldable pub initial_weights : ModelHubConfig D → Option (List D)
  unfolding log_sum
  initial_weights config = elim config.mixture_type [
    | none_type ↦ some (zero_d ∷ [])
    | unknown ↦ none
    | interpolation ↦ elim config.weights [
      | [] ↦ some (zero_d ∷ [])
      | w ∷ ws ↦ elim ws [
        | [] ↦ some (zero_d ∷ [])
        | v ∷ vs ↦ some (map (λ x. d.sub x (log_sum w (v ∷ vs))) (w ∷ v ∷ vs))
      ]
    ]
  ]

  -- `AddModel`.
  abbrev pub add_model : {M : Type 0} → M → Hub D M → Hub D M
  add_model m hub = record hub { language_models = hub.language_models ++ m ∷ [] }

  -- `InitializeModels`; the weights are cleared before a mixture of an unknown type is refused.
  unfoldable pub initialize_models :
      {M : Type 0} → LanguageModel D M → ModelHubConfig D → Program (Hub D M) Bool
  unfolding initial_weights
  initialize_models o config hub = elim (initial_weights config) [
    | none ↦ ok false (record hub { mixture_weights = [] })
    | some weights ↦
        let cleared = record hub {
          mixture_weights = weights;
          hub_states = start_hub_state (length hub.language_models) ∷ [];
        } in
        elim (initialize_start_hub_state o cleared) [
          | fault ↦ fault
          | err c h ↦ ok false h
          | ok _ h ↦ ok true (record h {
            max_hub_states = states_to_keep config.maximim_maintained_states;
            last_created_hub_state = 0;
          })
        ]
  ]

-- `flat_hash_map` as an association list with one entry for a key.
module _ {D : Type 0} (d : Double D) (same_bytes : Bytes → Bytes → Bool) where
  pub find_value : Bytes → List (Bytes × D) → Option D
  find_value key [] = none
  find_value key ((k, v) ∷ rest) = if same_bytes k key then some v else find_value key rest

  pub insert_or_assign : Bytes → D → List (Bytes × D) → List (Bytes × D)
  insert_or_assign key value [] = (key, value) ∷ []
  insert_or_assign key value ((k, v) ∷ rest) =
      if same_bytes k key then (k, value) ∷ rest else (k, v) ∷ insert_or_assign key value rest

  -- The new value of a key: in the negative log scale, summed with an old one.
  pub mixed_value : D → D → Option D → D
  mixed_value probability mix_weight none = d.add (d.neg (d.log probability)) mix_weight
  mixed_value probability mix_weight (some old) =
      d.neg_log_sum (d.add (d.neg (d.log probability)) mix_weight) old

  -- The loop of `MixResults`; fewer symbols than probabilities is an access out of bounds.
  pub mix_loop : D → List Bytes → List D → List (Bytes × D) → Option (List (Bytes × D))
  unfolding find_value insert_or_assign mixed_value
  mix_loop mix_weight symbols [] mixed = some mixed
  mix_loop mix_weight [] (p ∷ ps) mixed = none
  mix_loop mix_weight (key ∷ keys) (p ∷ ps) mixed =
      let value = mixed_value p mix_weight (find_value key mixed) in
      mix_loop mix_weight keys ps (insert_or_assign key value mixed)

  pub mixed_norm : D → List (Bytes × D) → D
  mixed_norm norm [] = norm
  mixed_norm norm ((k, v) ∷ rest) = mixed_norm (d.neg_log_sum norm v) rest

  module _ (zero_d : D) (order sort : List (Bytes × D) → List (Bytes × D)) where
    -- `ExtractMixture`: `norm` is read only where there is an entry.
    pub extract_mixture : List (Bytes × D) → D → LmScores D → LmScores D
    unfolding mixed_norm
    extract_mixture mixed normalization response = elim (order mixed) [
      | [] ↦ record response { normalization = normalization }
      | e ∷ es ↦
          let norm = mixed_norm e.1 es in
          let values = sort (e ∷ es) in
          record {
            symbols = response.symbols ++ map (λ v. v.0) values;
            probabilities =
                response.probabilities ++ map (λ v. d.exp (d.add (d.neg v.1) norm)) values;
            normalization = normalization;
          }
    ]

    -- The loop of `ExtractLMScores` over the weights: whether all models answered, the mixed values and
    -- normalization, and the models from number `i` on.
    pub scores_loop :
        {M : Type 0}
        → LanguageModel D M
        → HubState
        → ℕ
        → List D
        → List (Bytes × D)
        → D
        → List M
        → Outcome (List M) (Bool × List (Bytes × D) × D)
    unfolding mix_loop
    scores_loop o h i [] mixed normalization ms = ok (true, mixed, normalization) ms
    scores_loop o h i (w ∷ ws) mixed normalization [] = fault
    scores_loop o h i (w ∷ ws) mixed normalization (m ∷ ms) =
        let empty : LmScores D = record {
          symbols = [];
          probabilities = [];
          normalization = zero_d;
        } in
        elim (o.extract_lm_scores (model_state h (pos i)) empty m) [
          | fault ↦ fault
          | err c m' ↦ err c (m' ∷ ms)
          | ok r m' ↦ elim r.0 [
            | false ↦ ok (false, mixed, normalization) (m' ∷ ms)
            | true ↦ elim (mix_loop w r.1.symbols r.1.probabilities mixed) [
              | none ↦ fault
              | some next ↦
                  let total = d.add normalization (d.mul r.1.normalization (d.exp (d.neg w))) in
                  elim (scores_loop o h (i + 1) ws next total ms) [
                    | fault ↦ fault
                    | err c ms' ↦ err c (m' ∷ ms')
                    | ok a ms' ↦ ok a (m' ∷ ms')
                  ]
            ]
          ]
        ]

    -- The answer of the first model, where there is nothing to mix.
    unfoldable pub first_scores :
        {M : Type 0}
        → LanguageModel D M
        → HubState
        → LmScores D
        → Program (Hub D M) (Bool × LmScores D)
    first_scores o h response hub = elim hub.language_models [
      | [] ↦ fault
      | m ∷ ms ↦ elim (o.extract_lm_scores (model_state h (pos 0)) response m) [
        | fault ↦ fault
        | err c m' ↦ err c (record hub { language_models = m' ∷ ms })
        | ok a m' ↦ ok a (record hub { language_models = m' ∷ ms })
      ]
    ]

    unfoldable pub extract_lm_scores :
        {M : Type 0} → LanguageModel D M → ℤ → LmScores D → Program (Hub D M) (Bool × LmScores D)
    unfolding scores_loop first_scores extract_mixture
    extract_lm_scores o state response hub = elim (at hub.hub_states state) [
      | none ↦ ok (false, response) hub
      | some h ↦
          if ltb (length hub.mixture_weights) 2
          then first_scores o h response hub
          else elim (scores_loop o h 0 hub.mixture_weights [] zero_d hub.language_models) [
            | fault ↦ fault
            | err c ms ↦ err c (record hub { language_models = ms })
            | ok a ms ↦
                let hub' = record hub { language_models = ms } in
                if a.0
                then ok (true, extract_mixture a.1 a.2 response) hub'
                else ok (false, response) hub'
          ]
    ]
