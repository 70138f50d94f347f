-- ===== src/Factory/Tests.antt =====
-- A hub of no configured models.
use mozolm.Base.{ℕ, none, List, []}
use mozolm.Base.Int.{pos}
use mozolm.Base.Program.{Outcome, ok, err, fault}
use mozolm.Double.Tests.{naturals}
use mozolm.Fst.Tests.{lists}
use mozolm.Utf8.Tests.{ascii}
use mozolm.Bigram.Reading.{Files}
use mozolm.Ngram.Tests.{two_states}
use mozolm.Hub.{Hub}
use mozolm.Hub.Mixing.{none_type}
use mozolm.Ppm.Reading.Tests.{tables, counter, no_files}
use mozolm.Factory.{HubConfig, Made, make_models, configured}

abbrev no_text : Files
no_text = record { lines = λ name. none; fields = λ s. []; stoi = λ s. none; stol = λ s. none }

abbrev Model : Type 0
Model = Made naturals lists tables counter ascii no_files no_text 5 two_states

abbrev no_models : HubConfig ℕ
no_models = record {
  model_config = [];
  mixture_type = none_type;
  maximim_maintained_states = pos 0;
}

abbrev new_hub : Hub ℕ Model
new_hub = record {
  hub_states = [];
  last_created_hub_state = 0;
  max_hub_states = 0;
  mixture_weights = [];
  language_models = [];
}

abbrev made : Outcome (Unit {0}) (List Model)
made =
    make_models naturals lists tables counter ascii no_files no_text 5 two_states
      (configured naturals lists tables counter ascii no_files no_text 5 two_states []) tt

abbrev values_of : Outcome (Unit {0}) (List Model) → List Model
values_of (ok ms s) = ms
values_of (err c s) = []
values_of fault = []
