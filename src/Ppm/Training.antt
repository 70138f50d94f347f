-- ===== src/Ppm/Training.antt =====
-- mozolm/models/ppm_as_fst_model.cc: the counts of a trained model, with the update exclusions of
-- Steinruecken et al. and Moffat: a state that is backed off to counts the states above it that have
-- the symbol.
pub mod Marking
pub mod Texts
pub mod Tests
use mozolm.Base.{
  ℕ, zero, suc, ◌+◌, Bool, true, false, Option, none, some, List, [], ◌∷◌, map, if◌then◌else◌, ltb,
  leb, ◌==◌, ◌&&◌, not, length, get_elem?, set, replicate,
}
use mozolm.Base.Program.{
  Program, ok, err, fault, fail, pure, internal, get, put, or_fault, ◌>>=◌, ◌>>◌, calculated,
}
use mozolm.Double.{Double}
use mozolm.Fst.{Arc, FstLibrary}
use mozolm.Ppm.Blending.{backoff, is_final}

-- `flat_hash_set<int>::contains`.
abbrev pub contains : ℕ → List ℕ → Bool
contains x [] = false
contains x (y ∷ ys) = let later = contains x ys in if x == y then true else later

-- `GetArcLabelSet`, with the labels in a list.
abbrev pub get_arc_label_set : {D : Type 0} → List (Arc D) → List ℕ
get_arc_label_set [] = []
get_arc_label_set (a ∷ rest) =
    let later = get_arc_label_set rest in if a.ilabel == 0 then later else a.ilabel ∷ later

-- A back-off state marked, which has to be a state.
pub mark : List Bool → Option ℕ → Program (Unit {0}) (List Bool)
mark marks none = pure marks
mark marks (some b) = if leb (length marks) b then fail internal else pure (set marks b true)

module _ {D F : Type 0} (d : Double D) (l : FstLibrary D F) where
  -- The loop of `DetermineBackoffStates` over so many states from `s` on.
  pub marks_loop : F → ℕ → ℕ → List Bool → Program (Unit {0}) (List Bool)
  unfolding mark
  marks_loop f zero s marks = pure marks
  marks_loop f (suc k) s marks = (backoff d l f s >>= mark marks) >>= marks_loop f k (s + 1)

  pub determine_backoff_states : F → Program (Unit {0}) (List Bool)
  unfolding marks_loop
  determine_backoff_states f = marks_loop f (l.num_states f) 0 (replicate (l.num_states f) false)

  -- The loop of `AggregateAndLogCounts`: the sum, `none` after a weight that is not positive, and the
  -- arcs.
  pub aggregate_loop : D → List (Arc D) → Option D × List (Arc D)
  aggregate_loop sum_counts [] = (some sum_counts, [])
  aggregate_loop sum_counts (a ∷ rest) =
      let later =
        aggregate_loop (if a.ilabel == 0 then sum_counts else d.add sum_counts a.weight) rest in
      if a.ilabel == 0
      then (later.0, a ∷ later.1)
      else if d.le a.weight (d.of_ℕ 0)
      then (none, a ∷ rest)
      else (later.0, record a { weight = d.to_float (d.neg (d.log a.weight)) } ∷ later.1)

  -- The final count of `AggregateAndLogCounts`.
  pub aggregate_final : ℕ → Option D → Program F D
  aggregate_final s none f = err internal f
  aggregate_final s (some sum_counts) f =
      if is_final d l f s
      then ok (d.add sum_counts (l.final s f))
          (l.set_final s (d.to_float (d.neg (d.log (l.final s f)))) f)
      else ok sum_counts f

  pub aggregate_and_log_counts : ℕ → Program F D
  unfolding aggregate_loop aggregate_final
  aggregate_and_log_counts s f =
      let aggregated = aggregate_loop (d.of_ℕ 0) (l.arcs s f) in
      aggregate_final s aggregated.0 (l.with_arcs s aggregated.1 f)

  -- The epsilon arc in `FinalizeLowerOrderCounts`.
  pub finalize_backoff_arc : ℕ → D → Program F (Unit {0})
  finalize_backoff_arc s sum_counts f = elim (l.arcs s f) [
    | [] ↦ fault
    | a ∷ others ↦
        if not (a.ilabel == 0)
        then ok tt f
        else if d.le sum_counts (d.of_ℕ 0)
        then err internal f
        else ok tt
            (l.with_arcs s (record a { weight = d.to_float (d.neg (d.log sum_counts)) } ∷ others) f)
  ]

  -- `FinalizeLowerOrderCounts`, from state `s` on.
  pub finalize_lower_order_counts : ℕ → List Bool → Program F (Unit {0})
  unfolding aggregate_and_log_counts finalize_backoff_arc
  finalize_lower_order_counts s [] = pure tt
  finalize_lower_order_counts s (marked ∷ marks) =
      (if marked then aggregate_and_log_counts s >>= finalize_backoff_arc s else pure tt)
      >> finalize_lower_order_counts (s + 1) marks

  -- The counts of one state set to zero.
  abbrev pub zeroed_arc : Arc D → Arc D
  zeroed_arc a = record a { weight = d.of_ℕ 0 }

  abbrev pub zero_out : ℕ → F → F
  zero_out s f =
      let zeroed = l.with_arcs s (map zeroed_arc (l.arcs s f)) f in
      if is_final d l zeroed s then l.set_final s (d.of_ℕ 0) zeroed else zeroed

  -- `ZeroOutLowerOrderCounts`, from state `s` on.
  pub zero_out_lower_order_counts : ℕ → List Bool → F → F
  zero_out_lower_order_counts s [] f = f
  zero_out_lower_order_counts s (marked ∷ marks) f =
      zero_out_lower_order_counts (s + 1) marks (if marked then zero_out s f else f)

  -- An arc of a back-off state counted, if a state above it has the label.
  abbrev pub incremented : List ℕ → Arc D → Arc D
  incremented labels a =
      if not (a.ilabel == 0) && contains a.ilabel labels
      then record a { weight = d.to_float (d.add a.weight (d.of_ℕ 1)) }
      else a

  -- The back-off state of `s` in `IncrementLowerOrderCounts`.
  pub increment_at : ℕ → Option ℕ → F → F
  increment_at s none f = f
  increment_at s (some b) f =
      let counted =
        l.with_arcs b (map (incremented (get_arc_label_set (l.arcs s f))) (l.arcs b f)) f in
      if is_final d l counted s
      then l.set_final b (d.to_float (d.add (l.final b counted) (d.of_ℕ 1))) counted
      else counted

  -- `IncrementLowerOrderCounts` over so many states from `s` on.
  pub increment_lower_order_counts : ℕ → ℕ → Program F (Unit {0})
  unfolding increment_at
  increment_lower_order_counts zero s = pure tt
  increment_lower_order_counts (suc k) s = do
    f ← get
    b ← calculated (backoff d l f s)
    put (increment_at s b f)
    increment_lower_order_counts k (s + 1)

  -- `CalculateUpdateExclusions`.
  pub calculate_update_exclusions : Program F (Unit {0})
  unfolding determine_backoff_states zero_out_lower_order_counts increment_lower_order_counts
      finalize_lower_order_counts
  calculate_update_exclusions = do
    f ← get
    backoff_states ← calculated (determine_backoff_states f)
    put (zero_out_lower_order_counts 0 backoff_states f)
    increment_lower_order_counts (l.num_states f) 0
    finalize_lower_order_counts 0 backoff_states
