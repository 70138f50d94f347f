-- ===== src/Ppm/Reading/Tests.antt =====
-- The model of a small transducer, as it is read.
use mozolm.Base.{ℕ, ◌+◌, true, false, none, List, [], ◌∷◌, ◌++◌}
use mozolm.Base.Int.{ℤ, pos}
use mozolm.Fst.{SymbolLibrary}
use mozolm.Fst.Tests.{ListFst, tiny, found_at}
use mozolm.Utf8.{Bytes}
use mozolm.Ppm.{Ppm}
use mozolm.Ppm.Training.Texts.{NgramCounter}
use mozolm.Ppm.Reading.{PpmAsFstOptions, Sources}

abbrev pub numbered : ℕ → List Bytes → List ℤ
numbered i [] = []
numbered i (s ∷ ss) = pos i ∷ numbered (i + 1) ss

-- A symbol table as the list of its symbols.
abbrev pub tables : SymbolLibrary ListFst (List Bytes)
tables = record {
  empty_table = [];
  find = λ s t. found_at 0 s t;
  add = λ s t. t ++ s ∷ [];
  labels = λ t. numbered 0 t;
  set_symbols = λ t f. record f { symbols = t };
}

-- A counter that keeps the transducers, and makes the small one of any.
abbrev pub counter : NgramCounter ListFst (List ListFst)
counter = record { count = λ f c. (true, f ∷ c); get_fst = λ c f. tiny }

abbrev pub no_files : Sources ListFst (List Bytes) (List ListFst)
no_files = record { lines = λ name. none; read_fst = λ name. none; new_counter = λ n. [] }

abbrev defaults : PpmAsFstOptions ℕ
defaults = record {
  max_order = pos 0;
  alpha = 0;
  beta = 0;
  static_model = false;
  model_is_fst = true;
  max_cache_size = pos 0;
}
