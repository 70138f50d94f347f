-- ===== src/Bigram/Transitions.antt =====
-- The bigram model of mozolm/models/simple_bigram_char_model.cc as a part of a hub: its `NextState` is a
-- function of the symbol, whatever the state.
use mozolm.Base.{refl}
use mozolm.Base.Int.{ℤ}
use mozolm.Double.{Double}
use mozolm.Utf8.{Utf8Library}
use mozolm.Model.{HasTransitions}
use mozolm.Bigram.{Bigram, sym_state, next_state, bigram_model}

abbrev pub bigram_transitions : {D : Type 0} → Bigram D → ℤ → ℤ → ℤ
bigram_transitions m s c = sym_state m c

pub bigram_model-HasTransitions :
    {D : Type 0} (d : Double D) (u : Utf8Library) (m : Bigram D)
    → HasTransitions (bigram_model d u) m (bigram_transitions m)
unfolding next_state
bigram_model-HasTransitions d u m s c = refl
