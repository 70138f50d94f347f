-- ===== src/Factory/Made.antt =====
-- The hub that `MakeModelHub` of mozolm/models/model_factory.cc makes.
use mozolm.Base.{ℕ, List}
use mozolm.Double.{Double}
use mozolm.Fst.{FstLibrary, SymbolLibrary}
use mozolm.Utf8.{Utf8Library}
use mozolm.Model.{LanguageModel}
use mozolm.Bigram.{bigram_model}
use mozolm.Bigram.Reading.{Files}
use mozolm.Ngram.{NGramLibrary, ngram_model}
use mozolm.Hub.{Hub}
use mozolm.Ppm.Training.Texts.{NgramCounter}
use mozolm.Ppm.Reading.{Sources}
use mozolm.Factory.{any_model, ppm_model, Made}

module _ {D F T C G S : Type 0} (d : Double D) (l : FstLibrary D F) (t : SymbolLibrary F T)
    (g : NgramCounter F C) (u : Utf8Library) (r : Sources F T C) (files : Files) (fuel : ℕ)
    (q : NGramLibrary D G S) (zero_d : D) where
  abbrev Model : Type 0
  Model = Made d l t g u r files fuel q

  abbrev pub models : LanguageModel D Model
  models = any_model (bigram_model d u) (ngram_model d q u fuel) (ppm_model d l u fuel)
