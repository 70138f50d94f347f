-- ===== src/Ppm/Blending.antt =====
-- mozolm/models/ppm_as_fst_model.cc: what the cache holds for a state, calculated from the arcs at the
-- state and from the values of its back-off state.
use mathlib.Core.Option
use mozolm.Base.{
  ℕ, ◌+◌, ◌&&◌, not, Bool, true, false, Option, none, some, List, [], ◌∷◌, map, if◌then◌else◌, ltb,
  leb, length, get_elem?, set, replicate, ◌==◌,
}
use mozolm.Base.Program.{Program, pure, fail, or_fault, internal, fault, ◌>>=◌}
use mozolm.Double.{Double}
use mozolm.Fst.{Arc, FstLibrary}
use mozolm.Model.{softmax_renormalize}

-- The fields of `PpmStateCache` that `UpdateCache` sets together, indexed by label.
pub record Values (D : Type 0) : Type 0 where
  pub arc_origin_states : List ℕ
  pub destination_states : List ℕ
  pub neg_log_probabilities : List D
  pub normalization : D

abbrev pub is_some {ℓ} : {A : Type ℓ} → Option A → Bool
is_some none = false
is_some (some a) = true

-- `v[i] = a`, a fault behind the end.
abbrev pub write {ℓ} : {A : Type ℓ} → List A → ℕ → A → Program (Unit {0}) (List A)
write xs i a = if ltb i (length xs) then pure (set xs i a) else λ s. fault

module _ {D F : Type 0} (d : Double D) (l : FstLibrary D F) where
  abbrev pub zero_d : D
  zero_d = d.of_ℕ 0

  -- `fst.Final(s) != StdArc::Weight::Zero()`.
  abbrev pub is_final : F → ℕ → Bool
  is_final f s = not (d.eq (l.final s f) d.infinity)

  -- `GetBackoffState`, `none` for -1; the first arc of a state that has none is read out of bounds.
  unfoldable pub backoff : F → ℕ → Program (Unit {0}) (Option ℕ)
  backoff f s =
      if ltb s (l.num_states f)
      then (elim (l.arcs s f) [
        | [] ↦ λ _. fault
        | a ∷ others ↦ pure (if a.ilabel == 0 then some a.nextstate else none)
      ])
      else pure none

  -- `NoObservations`.
  unfoldable pub no_observations : F → ℕ → Program (Unit {0}) Bool
  no_observations f s = elim (l.arcs s f) [
    | [] ↦ λ _. fault
    | a ∷ others ↦ pure (not (is_final f s) && length (a ∷ others) == 1 && a.ilabel == 0)
  ]

  -- The loop of `GetTotalStateCount`.
  pub count_loop : D → List (Arc D) → D
  count_loop state_count [] = state_count
  count_loop state_count (a ∷ rest) =
      let total = count_loop (d.neg_log_sum state_count a.weight) rest in
      if a.ilabel == 0 then a.weight else total

  pub get_total_state_count : F → ℕ → D
  unfolding count_loop
  get_total_state_count f s = count_loop (l.final s f) (l.arcs s f)

  -- `UpdateIndexProb`.
  unfoldable pub update_index_prob : D → D → D → D → Bool → Program (Unit {0}) D
  update_index_prob count neg_log_beta denominator lower_order_prob at_unigram =
      if at_unigram
      then pure (d.sub count denominator)
      else if d.le neg_log_beta count
      then fail internal
      else pure
          (d.neg_log_sum lower_order_prob (d.sub (d.neg_log_diff count neg_log_beta) denominator))

  -- `InitCacheStates`, of the vector that the cache of the back-off state has.
  pub init_cache_states : F → ℕ → Option (List ℕ) → List ℕ
  init_cache_states f s (some states) = states
  init_cache_states f s none = replicate (length (l.arcs s f) + 1) 0

  -- The factor of `InitCacheProbs`.
  pub gamma : D → D → F → ℕ → D → D
  gamma alpha beta f s denominator =
      let arcs : D = d.of_ℕ (length (l.arcs s f)) in
      let num_continuations : D = if is_final f s then arcs else d.sub arcs (d.of_ℕ 1) in
      d.sub
        (d.neg_log_sum (d.sub (d.neg (d.log num_continuations)) (d.log beta)) (d.neg (d.log alpha)))
        denominator

  pub init_cache_probs : D → D → F → ℕ → Option (List D) → D → List D
  unfolding gamma
  init_cache_probs alpha beta f s (some probs) denominator =
      map (λ x. d.add x (gamma alpha beta f s denominator)) probs
  init_cache_probs alpha beta f s none denominator = replicate (length (l.arcs s f) + 1) zero_d

  -- One index of the vectors filled in, for an arc or the end of a text.
  unfoldable pub update_at : ℕ → ℕ → ℕ → D → D → D → Bool → Values D → Program (Unit {0}) (Values D)
  unfolding update_index_prob
  update_at index s dest count neg_log_beta denominator at_unigram v = do
    origins ← write v.arc_origin_states index s
    dests ← write v.destination_states index dest
    lower ← or_fault (get_elem? v.neg_log_probabilities index)
    prob ← update_index_prob count neg_log_beta denominator lower at_unigram
    probs ← write v.neg_log_probabilities index prob
    pure (record v {
      arc_origin_states = origins;
      destination_states = dests;
      neg_log_probabilities = probs;
    })

  -- The loop of `UpdateCacheStatesAndProbs` over the arcs.
  unfoldable pub arcs_loop :
      ℕ → D → D → Bool → List (Arc D) → Values D → Program (Unit {0}) (Values D)
  unfolding update_at
  arcs_loop s neg_log_beta denominator at_unigram [] v = pure v
  arcs_loop s neg_log_beta denominator at_unigram (a ∷ rest) v =
      (if a.ilabel == 0
        then pure v
        else if leb (length v.arc_origin_states) a.ilabel
        then fail internal
        else update_at a.ilabel s a.nextstate a.weight neg_log_beta denominator at_unigram v)
      >>= arcs_loop s neg_log_beta denominator at_unigram rest

  -- The final weight of `UpdateCacheStatesAndProbs`; at a unigram state there has to be one.
  unfoldable pub final_values : F → ℕ → D → D → Bool → Values D → Program (Unit {0}) (Values D)
  unfolding update_at
  final_values f s neg_log_beta denominator at_unigram v =
      if is_final f s
      then update_at 0 s (l.start f) (l.final s f) neg_log_beta denominator at_unigram v
      else if at_unigram
      then fail internal
      else pure v

  unfoldable pub renormalized : Values D → Program (Unit {0}) (Values D)
  renormalized v = do
    probs ← or_fault (softmax_renormalize d zero_d d.kahan_sum v.neg_log_probabilities)
    pure (record v { neg_log_probabilities = probs })

  -- The vectors of `UpdateCacheAtNonEmptyState` before the arcs are read; `none` is a state without a
  -- back-off.
  unfoldable pub initial_values : D → D → F → ℕ → Option (Values D) → Values D
  unfolding init_cache_states init_cache_probs get_total_state_count
  initial_values alpha beta f s lower =
      let denominator = d.neg_log_sum (get_total_state_count f s) (d.neg (d.log alpha)) in
      record {
        arc_origin_states = init_cache_states f s (Option.map (λ v. v.arc_origin_states) lower);
        destination_states = init_cache_states f s (Option.map (λ v. v.destination_states) lower);
        neg_log_probabilities =
            init_cache_probs alpha beta f s (Option.map (λ v. v.neg_log_probabilities) lower)
              denominator;
        normalization = denominator;
      }

  -- The calculation of `UpdateCacheAtNonEmptyState`.
  unfoldable pub non_empty_values :
      D → D → F → ℕ → Option (Values D) → Program (Unit {0}) (Values D)
  unfolding initial_values final_values arcs_loop renormalized
  non_empty_values alpha beta f s lower =
      let first = initial_values alpha beta f s lower in
      let neg_log_beta = d.neg (d.log beta) in
      let at_unigram = not (is_some lower) in
      final_values f s neg_log_beta first.normalization at_unigram first
      >>= arcs_loop s neg_log_beta first.normalization at_unigram (l.arcs s f)
      >>= renormalized
