-- ===== src/Ppm/Reading.antt =====
-- `Read` of mozolm/models/ppm_as_fst_model.cc, on a model that is new. The files, the format of
-- transducers in files and the counter of n-grams are parameters.
pub mod Prepared
pub mod Tests
use mozolm.Base.{
  ℕ, zero, suc, ◌+◌, ◌-◌, ◌%◌, ◌^◌, Bool, true, false, Option, none, some, List, [], ◌∷◌,
  if◌then◌else◌, ltb, leb, ◌||◌, ◌&&◌, not, ◌==◌, length, replicate,
}
use mozolm.Base.Int.{ℤ, pos, negsuc}
use mozolm.Base.Program.{
  Outcome, Program, ok, err, fault, fail, pure, internal, not_found, or_fault, get, put, ◌>>=◌,
  ◌>>◌, calculated,
}
use mozolm.Double.{Double}
use mozolm.Fst.{FstLibrary, SymbolLibrary}
use mozolm.Utf8.{Bytes, Utf8Library}
use mozolm.Ppm.{Ppm}
use mozolm.Ppm.Ordering.{calculate_state_orders}
use mozolm.Ppm.Training.Texts.{NgramCounter, Trained, add_extra_characters, train_from_text}

-- `PpmAsFstOptions`.
pub record PpmAsFstOptions (D : Type 0) : Type 0 where
  pub max_order : ℤ
  pub alpha : D
  pub beta : D
  pub static_model : Bool
  pub model_is_fst : Bool
  pub max_cache_size : ℤ

-- `ModelStorage`.
pub record ModelStorage (D : Type 0) : Type 0 where
  pub model_file : Bytes
  pub vocabulary_file : Bytes
  pub ppm_options : PpmAsFstOptions D

-- The lines of a text file; a transducer with its input symbols, where the file holds both; and a new
-- counter for an order.
pub record Sources (F T C : Type 0) : Type 0 where
  pub lines : Bytes → Option (List Bytes)
  pub read_fst : Bytes → Option (F × T)
  pub new_counter : ℕ → C

abbrev pub k_max_cache : ℕ
k_max_cache = 2000

abbrev pub k_max_order : ℕ
k_max_order = 4

-- `max_order() > 0 ? max_order() : kMaxOrder`.
abbrev pub order_option : ℤ → ℕ
order_option (pos zero) = k_max_order
order_option (pos (suc n)) = suc n
order_option (negsuc n) = k_max_order

-- The assignment of an `int64` that is not negative to an `int`.
abbrev pub to_int : ℕ → ℤ
to_int n = let r = n % 2 ^ 32 in if ltb r (2 ^ 31) then pos r else negsuc (2 ^ 32 - 1 - r)

-- `max_cache_size() > max_order_ ? max_cache_size() : kMaxCache`.
abbrev pub cache_option : ℕ → ℤ → ℤ
cache_option max_order (negsuc n) = pos k_max_cache
cache_option max_order (pos n) = if ltb max_order n then to_int n else pos k_max_cache

-- The size of the cache once the order is known.
abbrev pub enough_cache : ℕ → ℤ → ℕ
enough_cache max_order (negsuc n) = max_order + 1
enough_cache max_order (pos n) = if ltb n max_order then max_order + 1 else n

-- The state that a call leaves, as its value.
abbrev pub left {ℓ κ} : {S : Type ℓ} {A : Type κ} → Outcome S A → Outcome (Unit {0}) S
left (ok a s) = ok s tt
left (err c s) = err c tt
left fault = fault

module _ {D F T C : Type 0} (d : Double D) (l : FstLibrary D F) (t : SymbolLibrary F T)
    (g : NgramCounter F C) (u : Utf8Library) (r : Sources F T C) where
  -- A hyper-parameter between 0 and 1, and the default elsewhere.
  abbrev pub within_one : D → D → D
  within_one x default = if d.le x (d.of_ℕ 0) || d.le (d.of_ℕ 1) x then default else x

  -- `TrainFromText` of a file.
  pub train_from_file : Bytes → Program (Trained F T C) (Unit {0})
  train_from_file input_file = elim (r.lines input_file) [
    | none ↦ fail not_found
    | some istrings ↦ train_from_text d l t g u istrings
  ]

  -- The transducer and the symbols that `Read` starts from.
  abbrev pub untrained : ℕ → Trained F T C
  untrained max_order = record {
    fst = t.set_symbols t.empty_table l.empty;
    syms = t.add epsilon_symbol t.empty_table;
    ngram_counter = r.new_counter max_order;
  }
    where
      -- "<epsilon>"
      epsilon_symbol : Bytes
      epsilon_symbol = 60 ∷ 101 ∷ 112 ∷ 115 ∷ 105 ∷ 108 ∷ 111 ∷ 110 ∷ 62 ∷ []

  -- The model from its file: a transducer, or a text to train on.
  pub model_from_file : ModelStorage D → Program (Unit {0}) (Trained F T C)
  unfolding train_from_file
  model_from_file storage s =
      let max_order = order_option storage.ppm_options.max_order in
      if not (length storage.model_file == 0) && storage.ppm_options.model_is_fst
      then (elim (r.read_fst storage.model_file) [
        | none ↦ fault
        | some read ↦
            ok (record { fst = read.0; syms = read.1; ngram_counter = r.new_counter max_order }) s
      ])
      else left (train_from_file storage.model_file (untrained max_order))

  pub vocabulary_loop : List Bytes → Program (Trained F T C) (Unit {0})
  vocabulary_loop [] = pure tt
  vocabulary_loop (input_line ∷ rest) =
      add_extra_characters d l t g u input_line >> vocabulary_loop rest

  -- The characters of the vocabulary file, if there is one.
  pub with_vocabulary : Bytes → Trained F T C → Program (Unit {0}) (Trained F T C)
  unfolding vocabulary_loop
  with_vocabulary vocabulary_file m s =
      if length vocabulary_file == 0 then ok m s else (elim (r.lines vocabulary_file) [
        | none ↦ err not_found s
        | some vocabulary ↦ left (vocabulary_loop vocabulary m)
      ])

  -- The model with its options, before its orders and its cache.
  abbrev pub with_options : PpmAsFstOptions D → F → Ppm D F
  with_options options f = record {
    max_order = order_option options.max_order;
    alpha = within_one options.alpha (d.div (d.of_ℕ 1) (d.of_ℕ 2));
    beta = within_one options.beta (d.div (d.of_ℕ 3) (d.of_ℕ 4));
    static_model = options.static_model;
    state_orders = [];
    fst = f;
    max_cache_size = 0;
    cache_accessed = 0;
    cache_index = [];
    state_cache = [];
    start_state = 0;
  }

  -- The end of `Read`, once the orders are there.
  abbrev pub with_empty_cache : PpmAsFstOptions D → Ppm D F → Ppm D F
  with_empty_cache options p = record p {
    max_cache_size =
        enough_cache p.max_order
          (cache_option (order_option options.max_order) options.max_cache_size);
    cache_index = replicate (l.num_states p.fst) none;
    start_state = l.start p.fst;
  }

  -- What `Read` does from `CalculateStateOrders` on.
  pub prepared : ℕ → PpmAsFstOptions D → F → Program (Unit {0}) (Ppm D F)
  prepared fuel options f s =
      elim (calculate_state_orders d l fuel (not options.static_model) (with_options options f)) [
        | ok a p ↦ ok (with_empty_cache options p) s
        | err c p ↦ err c s
        | fault ↦ fault
      ]

  -- `Read`; the model is given up after an error.
  pub read : ℕ → ModelStorage D → Program (Unit {0}) (Ppm D F)
  unfolding model_from_file with_vocabulary prepared
  read fuel storage = do
    m ← model_from_file storage
    extended ← with_vocabulary storage.vocabulary_file m
    prepared fuel storage.ppm_options extended.fst
