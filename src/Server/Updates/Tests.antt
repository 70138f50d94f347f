-- ===== src/Server/Updates/Tests.antt =====
-- An update at a server with bigram models.
use mozolm.Base.{ℕ, ◌≡◌, refl, inr, some, List, [], ◌∷◌, arith, get_elem?, same_bytes}
use mozolm.Base.Int.{pos}
use mozolm.Base.Program.{ok}
use mozolm.Base.Keeps.{Keeps}
use mozolm.Double.Tests.{naturals}
use mozolm.Utf8.{
  Bytes, str_split_by_char_to_unicode, str_split_by_char, split_loop, decode_each,
  decode_single_unicode_char, decode_unicode_char,
}
use mozolm.Utf8.Tests.{ascii}
use mozolm.Bigram.{Bigram}
use mozolm.Bigram.Transitions.{bigram_transitions}
use mozolm.Hub.{Hub}
use mozolm.Hub.State.{HubState}
use mozolm.Hub.Placing.{next_slot}
use mozolm.Hub.Tests.{model, raw, hub0, first, all_transitions}
use mozolm.Hub.Initial.{initial-IsConsistent}
use mozolm.Hub.Stepping.{Steps, stepped}
use mozolm.Server.{handle_get_next_state, manage_update_lm_scores}
use mozolm.Server.Updates.{updated, manage_update_lm_scores-Keeps}

abbrev unsorted : List (Bytes × ℕ) → List (Bytes × ℕ)
unsorted values = values

manage_update_lm_scores-Keeps_example :
    (j : ℕ) × (hub' : Hub ℕ (Bigram ℕ)) × (next : HubState) × (get_elem? hub'.hub_states j
      ≡ some next)
    × (next.model_states
        ≡ stepped bigram_transitions 0 raw.language_models first.model_states (pos 2))
    × (manage_update_lm_scores naturals ascii model same_bytes 0 unsorted unsorted
          (record { state = pos 0; utf8_sym = pos 2 ∷ []; count = pos 1 })
          hub0
        ≡ updated naturals ascii model same_bytes 0 unsorted unsorted 0 (pos 2) (pos 1) j hub')
    × Keeps
        (λ t.
          handle_get_next_state naturals ascii model same_bytes 0 unsorted unsorted
            (record { context = 2 ∷ []; state = pos 0 })
            t
          ≡ ok (pos j) t)
        (manage_update_lm_scores naturals ascii model same_bytes 0 unsorted unsorted
          (record { state = pos 0; utf8_sym = pos 2 ∷ []; count = pos 1 })
          hub0)
unfolding next_slot str_split_by_char_to_unicode str_split_by_char split_loop decode_each
    decode_single_unicode_char decode_unicode_char
manage_update_lm_scores-Keeps_example =
    manage_update_lm_scores-Keeps naturals ascii model same_bytes 0 unsorted unsorted
      bigram_transitions (2 ∷ []) (pos 2) (pos 1) hub0 0 first
      (initial-IsConsistent model (Steps bigram_transitions raw.language_models) raw (2 ∷ 3 ∷ [])
        (pos 10))
      (all_transitions raw.language_models) refl (inr (omega arith)) refl
