-- ===== src/Ppm/Serving/Tests.antt =====
-- An update of a small model, and the scores after it.
use mozolm.Base.{ℕ, ◌≡◌, refl, Bool, true, [], ◌∷◌}
use mozolm.Base.Int.{pos}
use mozolm.Base.Program.{Outcome, ok}
use mozolm.Double.Tests.{naturals}
use mozolm.Fst.Tests.{ListFst, lists, lists-IsFst}
use mozolm.Utf8.{encode_unicode_char}
use mozolm.Utf8.Tests.{ascii}
use mozolm.Model.{softmax_renormalize}
use mozolm.Ppm.{
  Ppm, state_values, refreshed, lower_order_cache_updated, lower_loop, lower_next, entry_updated,
  checked_entry, touched, update_cache_at_state, update_above, lower_values, ensure_index,
  get_new_cache_index, next_access, write_entry, ensure_cache_at_state, store_entry,
}
use mozolm.Ppm.Tests.{unread, unread-IsSized, state_after}
use mozolm.Ppm.Blending.{
  backoff, no_observations, non_empty_values, initial_values, arcs_loop, final_values, renormalized,
  update_at, update_index_prob,
}
use mozolm.Ppm.Scores.{
  cached_at, get_arc_origin_state, get_destination_state, next_state, next_by_symbol,
  destination_or_no_context,
}
use mozolm.Ppm.Updating.{
  symbol_index, update_model, update_lm_counts, increment_backoff_arc, count_backoff_arc,
  update_counts, update_highest_found_state, arc_with, needs_new_state, needs_new_order, count_arc,
  update_loop, update_step, count_symbol, more_counts, after_counts,
}
use mozolm.Ppm.Sized.{IsSized}
use mozolm.Ppm.Serving.{update, done, then_call, Calls-IsSized}

abbrev updated : Outcome (Ppm ℕ ListFst) Bool
updated = update_lm_counts naturals lists ascii 5 (pos 0) (pos 97 ∷ []) (pos 1) unread

updated-true : updated ≡ ok true (state_after updated)
unfolding update_lm_counts update_loop update_step count_symbol more_counts after_counts
    symbol_index encode_unicode_char next_state next_by_symbol destination_or_no_context
    get_arc_origin_state cached_at ensure_cache_at_state refreshed lower_order_cache_updated
    lower_loop lower_next entry_updated checked_entry touched update_cache_at_state update_above
    lower_values store_entry ensure_index get_new_cache_index next_access write_entry state_values
    backoff no_observations non_empty_values initial_values arcs_loop final_values renormalized
    update_at update_index_prob softmax_renormalize update_model increment_backoff_arc
    count_backoff_arc update_counts update_highest_found_state arc_with needs_new_state
    needs_new_order count_arc get_destination_state
updated-true = refl

Calls-IsSized_example : IsSized lists 2 3 (state_after updated)
Calls-IsSized_example =
    Calls-IsSized naturals lists ascii 5 2 3 lists-IsFst
      (then_call done (update (pos 0) (pos 97 ∷ []) (pos 1) true updated-true)) unread-IsSized
