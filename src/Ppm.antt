-- ===== src/Ppm.antt =====
-- mozolm/models/ppm_as_fst_model.h and .cc: the PPM model, its counts in an FST and its cache of the
-- probabilities at a state. A recursion along the back-offs runs on fuel; one without an end overflows
-- the stack, which is a fault.
pub mod Blending
pub mod Cache
pub mod Oldest
pub mod Placing
pub mod Storing
pub mod Reference
pub mod Scores
pub mod Updating
pub mod Fresh
pub mod Transparent
pub mod Sized
pub mod Answers
pub mod Ordering
pub mod Training
pub mod Reading
pub mod Serving
pub mod Tests
use mozolm.Base.{
  ℕ, zero, suc, ◌+◌, ◌-◌, ◌^◌, ◌≡◌, ◌||◌, ◌&&◌, Bool, true, false, Option, none, some, List, [],
  ◌∷◌, ◌++◌, map, not, if◌then◌else◌, ltb, leb, length, get_elem?, set, ◌==◌,
}
use mozolm.Base.Int.{ℤ, pos, negsuc, minus_one, ltb_ℤ}
use mozolm.Base.Program.{
  Outcome, ok, err, fault, Program, pure, fail, or_fault, get, put, internal, ◌>>=◌, ◌>>◌,
  calculated,
}
use mozolm.Double.{Double}
use mozolm.Fst.{Arc, FstLibrary}
use Blending.{Values, backoff, no_observations, non_empty_values}

-- `PpmStateCache`: the state and the accesses, with what `UpdateCache` sets beside them. An access is -1
-- in an entry that is new.
pub record CacheEntry (D : Type 0) : Type 0 where
  pub state : ℕ
  pub last_accessed : ℤ
  pub last_updated : ℤ
  pub values : Values D

-- `PpmAsFstModel`. `none` is -1 in `state_orders` and `cache_index`.
pub record Ppm (D F : Type 0) : Type 0 where
  pub max_order : ℕ
  pub alpha : D
  pub beta : D
  pub static_model : Bool
  pub state_orders : List (Option ℕ)
  pub fst : F
  pub max_cache_size : ℕ
  pub cache_accessed : ℕ
  pub cache_index : List (Option ℕ)
  pub state_cache : List (CacheEntry D)
  pub start_state : ℕ

-- `cache_accessed_++` on an `int`; an overflow is undefined.
abbrev pub max_int : ℕ
max_int = 2 ^ 31 - 1

module _ {D : Type 0} where
  -- The loop of `FindOldestLastAccessedCache` from entry `i` on, with the least access so far.
  pub oldest_loop : ℕ → ℕ → ℤ → List (CacheEntry D) → ℕ
  oldest_loop i least oldest [] = least
  oldest_loop i least oldest (e ∷ es) =
      let older = ltb_ℤ e.last_accessed oldest in
      oldest_loop (i + 1) (if older then i else least) (if older then e.last_accessed else oldest)
        es

  -- `FindOldestLastAccessedCache`; an empty cache is an access out of bounds.
  pub find_oldest_last_accessed_cache : List (CacheEntry D) → Option ℕ
  unfolding oldest_loop
  find_oldest_last_accessed_cache [] = none
  find_oldest_last_accessed_cache (e ∷ es) = some (oldest_loop 1 0 e.last_accessed es)

  -- `PpmStateCache(s)`, whose values are not set; `unset` stands for them.
  abbrev pub new_entry : Values D → ℕ → CacheEntry D
  new_entry unset s = record {
    state = s;
    last_accessed = minus_one;
    last_updated = minus_one;
    values = unset;
  }

  -- `UpdateCache` of entry `k`.
  abbrev pub updated_entry : CacheEntry D → Values D → ℕ → CacheEntry D
  updated_entry e v access = record e {
    last_accessed = pos access;
    last_updated = pos access;
    values = v;
  }

abbrev pub same_index : Option ℕ → ℕ → Bool
same_index none j = false
same_index (some i) j = i == j

module _ {D F : Type 0} where
  unfoldable pub next_access : Program (Ppm D F) ℕ
  next_access p =
      if ltb p.cache_accessed max_int
      then ok p.cache_accessed (record p { cache_accessed = p.cache_accessed + 1 })
      else fault

  -- The branch of `GetNewCacheIndex` that takes over an entry of a full cache.
  pub replace_entry : Values D → ℕ → ℕ → CacheEntry D → Program (Ppm D F) (Unit {0})
  replace_entry unset s index old p = elim (get_elem? p.cache_index old.state) [
    | none ↦ fault
    | some old_index ↦
        if same_index old_index index
        then ok tt (record p {
          cache_index = set (set p.cache_index old.state none) s (some index);
          state_cache = set p.state_cache index (new_entry unset s);
        })
        else err internal p
  ]

  unfoldable pub get_new_cache_index : Values D → ℕ → Program (Ppm D F) (Unit {0})
  unfolding replace_entry find_oldest_last_accessed_cache
  get_new_cache_index unset s p =
      if ltb (length p.state_cache) p.max_cache_size
      then ok tt (record p {
        cache_index = set p.cache_index s (some (length p.state_cache));
        state_cache = p.state_cache ++ new_entry unset s ∷ [];
      })
      else (elim (find_oldest_last_accessed_cache p.state_cache) [
        | none ↦ fault
        | some index ↦ elim (get_elem? p.state_cache index) [
          | none ↦ fault
          | some old ↦ replace_entry unset s index old p
        ]
      ])

  -- `state_cache_[cache_index_[s]].UpdateCache(...)`.
  unfoldable pub write_entry : ℕ → Values D → ℕ → Program (Ppm D F) (Unit {0})
  write_entry s v access p = elim (get_elem? p.cache_index s) [
    | none ↦ fault
    | some none ↦ fault
    | some (some k) ↦ elim (get_elem? p.state_cache k) [
      | none ↦ fault
      | some e ↦ ok tt (record p { state_cache = set p.state_cache k (updated_entry e v access) })
    ]
  ]

  -- An entry for a state that has none.
  unfoldable pub ensure_index : Values D → ℕ → Program (Ppm D F) (Unit {0})
  unfolding get_new_cache_index
  ensure_index unset s p = elim (get_elem? p.cache_index s) [
    | none ↦ fault
    | some none ↦ get_new_cache_index unset s p
    | some (some k) ↦ ok tt p
  ]

  -- The end of `UpdateCacheAtState` and of `UpdateCacheAtNonEmptyState`: an entry for the state, with
  -- the values.
  unfoldable pub store_entry : ℕ → Values D → Program (Ppm D F) (Unit {0})
  unfolding ensure_index write_entry next_access
  store_entry s v = do ensure_index v s; access ← next_access; write_entry s v access

  -- `set_last_accessed` on entry `k`.
  abbrev pub touch : ℕ → CacheEntry D → ℕ → Program (Ppm D F) (CacheEntry D)
  touch k e access p =
      let t : CacheEntry D = record e { last_accessed = pos access } in
      ok t (record p { state_cache = set p.state_cache k t })

  unfoldable pub touched : ℕ → CacheEntry D → Program (Ppm D F) (CacheEntry D)
  unfolding next_access
  touched k e = next_access >>= touch k e

  -- The checks at the end of `EnsureCacheAtState`, and the access that it counts where it has not
  -- updated the entry.
  unfoldable pub checked_entry : Bool → ℕ → Program (Ppm D F) (CacheEntry D)
  unfolding touched
  checked_entry update_access s p = elim (get_elem? p.cache_index s) [
    | none ↦ fault
    | some none ↦ err internal p
    | some (some k) ↦ elim (get_elem? p.state_cache k) [
      | none ↦ err internal p
      | some e ↦
          if e.state == s then (if update_access then touched k e p else ok e p) else err internal p
    ]
  ]

module _ {D F : Type 0} (d : Double D) (l : FstLibrary D F) where
  -- Whether the cache at an index of `cache_index` was updated after `last_updated`.
  unfoldable pub entry_updated : Ppm D F → ℤ → Option ℕ → Program (Unit {0}) Bool
  entry_updated p last_updated none = pure false
  entry_updated p last_updated (some k) = do
    e ← or_fault (get_elem? p.state_cache k)
    pure (ltb_ℤ last_updated e.last_updated)

  -- The end of a round of the loop of `LowerOrderCacheUpdated`.
  unfoldable pub lower_next :
      (Option ℕ → Program (Unit {0}) Bool) → F → ℕ → Bool → Program (Unit {0}) Bool
  lower_next loop f b true = pure true
  lower_next loop f b false = backoff d l f b >>= loop

  -- The loop of `LowerOrderCacheUpdated` from a back-off state on.
  unfoldable pub lower_loop : ℕ → Ppm D F → ℤ → Option ℕ → Program (Unit {0}) Bool
  unfolding entry_updated lower_next
  lower_loop fuel p last_updated none = pure false
  lower_loop zero p last_updated (some b) = λ _. fault
  lower_loop (suc n) p last_updated (some b) =
      (or_fault (get_elem? p.cache_index b) >>= entry_updated p last_updated)
      >>= lower_next (lower_loop n p last_updated) p.fst b

  unfoldable pub lower_order_cache_updated : ℕ → ℕ → Ppm D F → Program (Unit {0}) Bool
  unfolding lower_loop
  lower_order_cache_updated fuel s p = elim (get_elem? p.cache_index s) [
    | none ↦ λ _. fault
    | some none ↦ pure true
    | some (some k) ↦ elim (get_elem? p.state_cache k) [
      | none ↦ λ _. fault
      | some e ↦ backoff d l p.fst s >>= lower_loop fuel p e.last_updated
    ]
  ]

  -- The values that `UpdateCacheAtState` stores, from those of the back-off state; a copy of no values
  -- does not happen, as a state without observations has a back-off.
  unfoldable pub state_values : D → D → F → ℕ → Option (Values D) → Program (Unit {0}) (Values D)
  state_values alpha beta f s lower = no_observations d l f s >>= λ nothing.
      if nothing then or_fault lower else non_empty_values d l alpha beta f s lower

  -- The values of the back-off state in `UpdateCacheAtState`, where `ensure` is `EnsureCacheAtState`.
  unfoldable pub lower_values :
      (ℕ → Program (Ppm D F) (CacheEntry D)) → Option ℕ → Program (Ppm D F) (Option (Values D))
  lower_values ensure none = pure none
  lower_values ensure (some b) = ensure b >>= λ e. pure (some e.values)

  abbrev pub above : ℕ → Option (Values D) → Program (Ppm D F) (Unit {0})
  above s lower p = ◌>>=◌ (calculated (state_values p.alpha p.beta p.fst s lower)) (store_entry s) p

  -- The part of `UpdateCacheAtState` behind the call of `GetBackoffState`.
  unfoldable pub update_above :
      (ℕ → Program (Ppm D F) (CacheEntry D)) → ℕ → Option ℕ → Program (Ppm D F) (Unit {0})
  unfolding lower_values state_values store_entry
  update_above ensure s b = lower_values ensure b >>= above s

  unfoldable pub update_cache_at_state :
      (ℕ → Program (Ppm D F) (CacheEntry D)) → ℕ → Program (Ppm D F) (Unit {0})
  unfolding update_above
  update_cache_at_state ensure s p =
      if leb (l.num_states p.fst) s
      then err internal p
      else ◌>>=◌ (calculated (backoff d l p.fst s)) (update_above ensure s) p

  -- `EnsureCacheAtState` where the entry is to be updated, and where it is not.
  unfoldable pub refreshed :
      (ℕ → Program (Ppm D F) (CacheEntry D)) → ℕ → Bool → Program (Ppm D F) (CacheEntry D)
  unfolding update_cache_at_state checked_entry
  refreshed ensure s true = ◌>>◌ (update_cache_at_state ensure s) (checked_entry false s)
  refreshed ensure s false = checked_entry true s

  unfoldable pub ensure_cache_at_state : ℕ → ℕ → Program (Ppm D F) (CacheEntry D)
  unfolding refreshed lower_order_cache_updated
  ensure_cache_at_state zero s p = fault
  ensure_cache_at_state (suc n) s p =
      ◌>>=◌ (calculated (lower_order_cache_updated n s p)) (refreshed (ensure_cache_at_state n) s) p
