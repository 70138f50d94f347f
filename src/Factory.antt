-- ===== src/Factory.antt =====
-- mozolm/models/model_factory.cc: models made and read by their configuration, and the hub of them.
pub mod Made
pub mod Tests
use mozolm.Base.{ℕ, zero, suc, Bool, true, false, Option, none, some, List, [], ◌∷◌, ◌++◌, map}
use mozolm.Base.Int.{ℤ, pos}
use mozolm.Base.Program.{Outcome, Program, ok, err, fault, fail, pure, unimplemented, ◌>>=◌}
use mozolm.Double.{Double}
use mozolm.Fst.{FstLibrary, SymbolLibrary}
use mozolm.Utf8.{Utf8Library}
use mozolm.Model.{LanguageModel, LmScores}
use mozolm.Bigram.{Bigram, bigram_model}
use mozolm.Bigram.Reading.{Files, Storage}
use mozolm.Ngram.{NGramLibrary, NGramModel, ngram_model}
use mozolm.Hub.{Hub}
use mozolm.Hub.Mixing.{MixtureType, ModelHubConfig, add_model, initialize_models}
use mozolm.Ppm.{Ppm}
use mozolm.Ppm.Scores.{next_state, extract_lm_scores}
use mozolm.Ppm.Updating.{update_lm_counts}
use mozolm.Ppm.Training.Texts.{NgramCounter}
use mozolm.Ppm.Reading.{ModelStorage, PpmAsFstOptions, Sources, left, read}

-- `ModelConfig::ModelType`; `unknown_type` is a number that the enumeration does not name.
pub data ModelType : Type 0 where
  simple_char_bigram char_ngram_fst ppm_as_fst unknown_type : ModelType

pub record ModelConfig (D : Type 0) : Type 0 where
  pub model_type : ModelType
  pub storage : ModelStorage D
  pub weight : D

-- `ModelHubConfig` with the configurations of its models.
pub record HubConfig (D : Type 0) : Type 0 where
  pub model_config : List (ModelConfig D)
  pub mixture_type : MixtureType
  pub maximim_maintained_states : ℤ

-- A model behind a pointer to `LanguageModel`.
pub data AnyModel (B N P : Type 0) : Type 0 where
  bigram : B → AnyModel B N P
  ngram : N → AnyModel B N P
  ppm : P → AnyModel B N P

-- The outcome of a call of a model, as one of the pointer.
abbrev pub as_any {ℓ} : {S R : Type 0} {A : Type ℓ} → (S → R) → Outcome S A → Outcome R A
as_any f (ok a s) = ok a (f s)
as_any f (err c s) = err c (f s)
as_any f fault = fault

module _ {D B N P : Type 0} (b : LanguageModel D B) (n : LanguageModel D N)
    (p : LanguageModel D P) where
  -- A virtual call goes to the model's own function.
  abbrev pub dispatch {ℓ} :
      {A : Type ℓ} → Program B A → Program N A → Program P A → Program (AnyModel B N P) A
  dispatch f g h (bigram m) = as_any bigram (f m)
  dispatch f g h (ngram m) = as_any ngram (g m)
  dispatch f g h (ppm m) = as_any ppm (h m)

  abbrev pub start_state_of : AnyModel B N P → ℤ
  start_state_of (bigram m) = b.start_state m
  start_state_of (ngram m) = n.start_state m
  start_state_of (ppm m) = p.start_state m

  abbrev pub any_model : LanguageModel D (AnyModel B N P)
  any_model = record {
    start_state = start_state_of;
    next_state = λ s c. dispatch (b.next_state s c) (n.next_state s c) (p.next_state s c);
    extract_lm_scores = λ s r.
        dispatch (b.extract_lm_scores s r) (n.extract_lm_scores s r) (p.extract_lm_scores s r);
    update_lm_counts = λ s cs k.
        dispatch (b.update_lm_counts s cs k) (n.update_lm_counts s cs k)
          (p.update_lm_counts s cs k);
  }

module _ {D F : Type 0} (d : Double D) (l : FstLibrary D F) (u : Utf8Library) (fuel : ℕ) where
  -- The PPM model behind the interface.
  abbrev pub ppm_model : LanguageModel D (Ppm D F)
  ppm_model = record {
    start_state = λ p. pos p.start_state;
    next_state = next_state d l u fuel;
    extract_lm_scores = extract_lm_scores d l u fuel;
    update_lm_counts = update_lm_counts d l u fuel;
  }

module _ {D F T C G S : Type 0} (d : Double D) (l : FstLibrary D F) (t : SymbolLibrary F T)
    (g : NgramCounter F C) (u : Utf8Library) (r : Sources F T C) (files : Files) (fuel : ℕ)
    (q : NGramLibrary D G S) where
  abbrev pub Made : Type 0
  Made = AnyModel (Bigram D) (NGramModel G) (Ppm D F)

  -- `SimpleBigramCharModel` as it is constructed.
  abbrev pub new_bigram : Bigram D
  new_bigram = record {
    utf8_indices = [];
    vocab_indices = [];
    utf8_normalizer = [];
    bigram_counts = [];
  }

  abbrev pub read_bigram : ModelStorage D → Program (Unit {0}) (Bigram D)
  read_bigram storage s = left (
      mozolm.Bigram.Reading.read d u files
        (record { vocabulary_file = storage.vocabulary_file; model_file = storage.model_file })
        new_bigram)

  -- `MakeModel` of a type.
  pub make_typed_model : ModelType → ModelStorage D → Program (Unit {0}) Made
  make_typed_model simple_char_bigram storage = read_bigram storage >>= λ m. pure (bigram m)
  make_typed_model char_ngram_fst storage =
      mozolm.Ngram.read d q
        (record { model_file = storage.model_file; vocabulary_file = storage.vocabulary_file })
      >>= λ m. pure (ngram m)
  make_typed_model ppm_as_fst storage = read d l t g u r fuel storage >>= λ m. pure (ppm m)
  make_typed_model unknown_type storage = fail unimplemented

  -- `MakeModel` of a configuration.
  pub make_model : ModelConfig D → Program (Unit {0}) Made
  unfolding make_typed_model
  make_model config = make_typed_model config.model_type config.storage

  -- The models of `MakeModelHub`, up to the first failure.
  pub make_models : List (ModelConfig D) → Program (Unit {0}) (List Made)
  unfolding make_model
  make_models [] = pure []
  make_models (config ∷ configs) = do m ← make_model config; ms ← make_models configs; pure (m ∷ ms)

  -- `ModelConfig()`.
  abbrev pub default_config : ModelConfig D
  default_config = record {
    model_type = simple_char_bigram;
    storage = record {
      model_file = [];
      vocabulary_file = [];
      ppm_options = record {
        max_order = pos 0;
        alpha = d.of_ℕ 0;
        beta = d.of_ℕ 0;
        static_model = false;
        model_is_fst = false;
        max_cache_size = pos 0;
      };
    };
    weight = d.of_ℕ 0;
  }

  -- The configurations, or a single default one.
  abbrev pub configured : List (ModelConfig D) → List (ModelConfig D)
  configured [] = default_config ∷ []
  configured (c ∷ cs) = c ∷ cs

  abbrev pub weights_of : List (ModelConfig D) → List D
  weights_of [] = []
  weights_of (c ∷ cs) = c.weight ∷ weights_of cs

  abbrev pub hub_options : HubConfig D → ModelHubConfig D
  hub_options config = record {
    mixture_type = config.mixture_type;
    weights = weights_of config.model_config;
    maximim_maintained_states = config.maximim_maintained_states;
  }

  -- The calls of `AddModel`.
  pub add_models : D → List Made → Hub D Made → Hub D Made
  add_models zero_d [] hub = hub
  add_models zero_d (m ∷ ms) hub = add_models zero_d ms (add_model d zero_d m hub)

  -- The hub that `InitializeModels` leaves, whether it succeeds or not.
  abbrev pub initialized : Outcome (Hub D Made) Bool → Program (Unit {0}) (Hub D Made)
  initialized (ok b hub) = pure hub
  initialized (err c hub) = pure hub
  initialized fault = λ s. fault

  -- `MakeModelHub`, where `hub` is a hub as it is constructed.
  pub make_model_hub : D → HubConfig D → Hub D Made → Program (Unit {0}) (Hub D Made)
  unfolding make_models add_models
  make_model_hub zero_d config hub = make_models (configured config.model_config) >>= λ ms.
      initialized (
        initialize_models d zero_d
          (any_model (bigram_model d u) (ngram_model d q u fuel) (ppm_model d l u fuel))
          (hub_options config) (add_models zero_d ms hub))
