-- ===== src/Ppm/Tests.antt =====
-- The PPM model at concrete inputs: two states over one symbol, doubles read as natural numbers.
use mozolm.Base.{
  ℕ, zero, suc, ◌≡◌, ◌≤◌, ◌<◌, refl, true, false, Option, none, some, List, [], ◌∷◌, arith, length,
  get_elem?,
}
use mozolm.Base.Int.{ℤ, pos, minus_one}
use mozolm.Base.Program.{Outcome, ok, err, fault}
use mozolm.Base.Keeps.{Keeps}
use mozolm.Utf8.{encode_unicode_char}
use mozolm.Utf8.Tests.{ascii}
use mozolm.Double.Tests.{naturals}
use mozolm.Model.{LmScores, softmax_renormalize}
use mozolm.Fst.Tests.{ListFst, lists, lists-IsFst, tiny}
use mozolm.Ppm.{
  CacheEntry, Ppm, find_oldest_last_accessed_cache, ensure_cache_at_state, store_entry,
}
use mozolm.Ppm.{
  state_values, refreshed, lower_order_cache_updated, lower_loop, lower_next, entry_updated,
  checked_entry, touched, update_cache_at_state, update_above, lower_values, ensure_index,
  get_new_cache_index, next_access, write_entry,
}
use mozolm.Ppm.Blending.{
  Values, backoff, no_observations, non_empty_values, initial_values, arcs_loop, final_values,
  renormalized, update_at, update_index_prob,
}
use mozolm.Ppm.Placing.{with_cache, IsCache}
use mozolm.Ppm.Storing.{IsStored, store_entry_lem}
use mozolm.Ppm.Oldest.{NoneBefore, find_oldest_last_accessed_cache_lem}
use mozolm.Ppm.Cache.{IsIndexed}
use mozolm.Ppm.Reference.{reference, lower_reference}
use mozolm.Ppm.Fresh.{IsCalculatedAt, Ensures}
use mozolm.Ppm.Sized.{IsSized}
use mozolm.Ppm.Scores.{
  cached_at, get_destination_state, fill_lm_scores, get_arc_origin_state, next_state,
  extract_lm_scores,
}
use mozolm.Ppm.Updating.{
  symbol_index, update_model, update_lm_counts, increment_backoff_arc, count_backoff_arc,
  update_counts, update_highest_found_state, arc_with, needs_new_state, needs_new_order, count_arc,
}
use mozolm.Ppm.Updating.Sizes.{update_lm_counts-IsSized}
use mozolm.Ppm.Answers.{Answers, extract_lm_scores-fill_lm_scores, next_state-destination_states}
use mozolm.Ppm.Transparent.{ensure_cache_at_state_lem}

abbrev pub unread : Ppm ℕ ListFst
unread = record {
  max_order = 2;
  alpha = 5;
  beta = 9;
  static_model = false;
  state_orders = some 1 ∷ some 0 ∷ [];
  fst = tiny;
  max_cache_size = 3;
  cache_accessed = 0;
  cache_index = none ∷ none ∷ [];
  state_cache = [];
  start_state = 0;
}

unread-IsIndexed : IsIndexed unread.cache_index unread.state_cache
unread-IsIndexed = record { slots = λ k e at_k. cc; index = index }
  where
    index :
        (s k : ℕ)
        → get_elem? unread.cache_index s ≡ some (some k)
        → (e : CacheEntry ℕ) × (get_elem? unread.state_cache k ≡ some e) × (e.state ≡ s)
    index zero k e = absurd (cc)
    index (suc zero) k e = absurd (cc)
    index (suc (suc s)) k e = absurd (cc)

unread-IsCache : {P : ℕ → Values ℕ → Type 0} → IsCache P 2 3 unread.cache_index unread.state_cache
unread-IsCache = record {
  indexed = unread-IsIndexed;
  size = refl;
  room = omega arith;
  fits = omega arith;
  right = λ k e at_k. absurd (cc);
}

abbrev pub at_start : Values ℕ
at_start = record {
  arc_origin_states = 1 ∷ 0 ∷ [];
  destination_states = 0 ∷ 0 ∷ [];
  neg_log_probabilities = 11 ∷ 10 ∷ [];
  normalization = 6;
}

at_start-IsCalculatedAt : IsCalculatedAt naturals lists unread 2 0 at_start
unfolding reference lower_reference backoff state_values no_observations non_empty_values
    initial_values arcs_loop final_values renormalized update_at update_index_prob
    softmax_renormalize
at_start-IsCalculatedAt = refl

ensure_cache_at_state_lem_example : Ensures naturals lists 5 2 0 at_start unread
ensure_cache_at_state_lem_example =
    ensure_cache_at_state_lem naturals lists 5 2 0 at_start unread unread-IsCache
      at_start-IsCalculatedAt (omega arith) (omega arith)

-- Two entries, of which the second has never been accessed.
abbrev accessed : ℤ → CacheEntry ℕ
accessed a = record { state = 0; last_accessed = a; last_updated = minus_one; values = at_start }

find_oldest_last_accessed_cache_lem_example :
    (k : ℕ) × (e : CacheEntry ℕ) × (find_oldest_last_accessed_cache
        (accessed (pos 3) ∷ accessed minus_one ∷ [])
      ≡ some k)
    × (get_elem? (accessed (pos 3) ∷ accessed minus_one ∷ []) k ≡ some e)
    × NoneBefore e.last_accessed (accessed (pos 3) ∷ accessed minus_one ∷ [])
find_oldest_last_accessed_cache_lem_example =
    find_oldest_last_accessed_cache_lem (accessed (pos 3) ∷ accessed minus_one ∷ []) (omega arith)

abbrev IsShort : Values ℕ → Type 0
IsShort v = length v.neg_log_probabilities ≤ 2

store_entry_lem_example :
    (ci : List (Option ℕ)) × (sc : List (CacheEntry ℕ)) × (store_entry 0 at_start unread
      ≡ ok tt (with_cache unread 1 ci sc))
    × IsStored (λ s v. IsShort v) unread 2 0 at_start 1 ci sc
store_entry_lem_example =
    store_entry_lem (λ s v. IsShort v) unread 2 0 at_start unread-IsCache (omega arith)
      (omega arith) (omega arith)

-- The scores of no text.
abbrev no_scores : LmScores ℕ
no_scores = record { symbols = []; probabilities = []; normalization = 0 }

abbrev scores : LmScores ℕ
scores = record { symbols = [] ∷ (97 ∷ []) ∷ []; probabilities = 11 ∷ 10 ∷ []; normalization = 6 }

scores-filled : fill_lm_scores naturals lists at_start tiny no_scores ≡ some scores
unfolding fill_lm_scores
scores-filled = refl

extract_lm_scores-fill_lm_scores_example :
    Answers naturals lists ascii
      (extract_lm_scores naturals lists ascii 5 (pos 0) no_scores)
      unread
      (true, scores)
extract_lm_scores-fill_lm_scores_example =
    extract_lm_scores-fill_lm_scores naturals lists ascii 5 2 0 at_start unread unread-IsCache
      at_start-IsCalculatedAt (omega arith) (omega arith) no_scores scores scores-filled

a-encoded : encode_unicode_char ascii (pos 97) ≡ some (97 ∷ [])
unfolding encode_unicode_char
a-encoded = refl

next_state-destination_states_example :
    Answers naturals lists ascii (next_state naturals lists ascii 5 (pos 0) (pos 97)) unread (pos 0)
next_state-destination_states_example =
    next_state-destination_states naturals lists ascii 5 2 0 at_start unread unread-IsCache
      at_start-IsCalculatedAt (omega arith) (omega arith) (pos 97) (97 ∷ []) 0 0 a-encoded refl refl

pub unread-IsSized : IsSized lists 2 3 unread
unread-IsSized = record {
  max_order = refl;
  max_cache = refl;
  orders = refl;
  indices = refl;
  below = below;
  fits = omega arith;
}
  where
    below : (s o : ℕ) → get_elem? unread.state_orders s ≡ some (some o) → o < 2
    below zero o e = ground (arith, e)
    below (suc zero) o e = ground (arith, e)
    below (suc (suc s)) o e = absurd (cc)

update_lm_counts-IsSized_example :
    Keeps
      (IsSized lists 2 3)
      (update_lm_counts naturals lists ascii 5 (pos 0) (pos 97 ∷ []) (pos 1) unread)
update_lm_counts-IsSized_example =
    update_lm_counts-IsSized naturals lists ascii 5 2 3 lists-IsFst (pos 0) (pos 97 ∷ []) (pos 1)
      unread unread-IsSized

abbrev pub state_after : {A : Type 0} → Outcome (Ppm ℕ ListFst) A → Ppm ℕ ListFst
state_after (ok a p) = p
state_after (err c p) = p
state_after fault = unread

abbrev origin_found : Outcome (Ppm ℕ ListFst) ℕ
origin_found = get_arc_origin_state naturals lists ascii 5 (pos 0) (pos 1) unread

abbrev once : Outcome (Ppm ℕ ListFst) ℕ
once = update_model naturals lists ascii 5 5 0 0 1 (state_after origin_found)

abbrev twice : Outcome (Ppm ℕ ListFst) ℕ
twice = update_model naturals lists ascii 5 5 0 0 1 (state_after once)

at_origin : origin_found ≡ ok 0 (state_after origin_found)
unfolding get_arc_origin_state cached_at ensure_cache_at_state refreshed lower_order_cache_updated
    lower_loop lower_next entry_updated checked_entry touched update_cache_at_state update_above
    lower_values store_entry ensure_index get_new_cache_index next_access write_entry state_values
    backoff no_observations non_empty_values initial_values arcs_loop final_values renormalized
    update_at update_index_prob softmax_renormalize
at_origin = refl

counted_once : once ≡ ok 0 (state_after once)
unfolding get_arc_origin_state cached_at ensure_cache_at_state refreshed lower_order_cache_updated
    lower_loop lower_next entry_updated checked_entry touched update_cache_at_state update_above
    lower_values store_entry ensure_index get_new_cache_index next_access write_entry state_values
    backoff no_observations non_empty_values initial_values arcs_loop final_values renormalized
    update_at update_index_prob softmax_renormalize update_model increment_backoff_arc
    count_backoff_arc update_counts update_highest_found_state arc_with needs_new_state
    needs_new_order count_arc get_destination_state
counted_once = refl

counted_twice : twice ≡ ok 0 (state_after twice)
unfolding get_arc_origin_state cached_at ensure_cache_at_state refreshed lower_order_cache_updated
    lower_loop lower_next entry_updated checked_entry touched update_cache_at_state update_above
    lower_values store_entry ensure_index get_new_cache_index next_access write_entry state_values
    backoff no_observations non_empty_values initial_values arcs_loop final_values renormalized
    update_at update_index_prob softmax_renormalize update_model increment_backoff_arc
    count_backoff_arc update_counts update_highest_found_state arc_with needs_new_state
    needs_new_order count_arc get_destination_state
counted_twice = refl

a-known : symbol_index naturals lists ascii 5 (pos 97) tiny ≡ some (pos 1)
unfolding symbol_index encode_unicode_char
a-known = refl
