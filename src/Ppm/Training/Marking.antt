-- ===== src/Ppm/Training/Marking.antt =====
-- `DetermineBackoffStates` of mozolm/models/ppm_as_fst_model.cc.
use mozolm.Base.{
  ℕ, zero, suc, ◌+◌, ◌≡◌, ◌<◌, ◌↔◌, inl, inr, refl, sym, ap, ◌∙◌, subst, Bool, true, false, Option,
  none, some, List, arith, if◌then◌else◌, leb, ◌==◌, length, get_elem?, set, length-set,
  get_elem?-set, Bool-cases, replicate, length-replicate,
}
use mozolm.Base.Program.{ok, ◌>>=◌, bind_ok}
use mozolm.Double.{Double}
use mozolm.Fst.{FstLibrary}
use mozolm.Ppm.Blending.{backoff}
use mozolm.Ppm.Training.{mark, marks_loop, determine_backoff_states}

replicate-false : (n t : ℕ) → get_elem? (replicate n false) t ≡ some true → ⊥
replicate-false zero t e = cc
replicate-false (suc n) zero e = ground (arith, e)
replicate-false (suc n) (suc t) e = replicate-false n t e

module _ {D F : Type 0} (d : Double D) (l : FstLibrary D F) (f : F) where
  -- The call for a state returns, with none or with a state.
  abbrev pub BacksOff : ℕ → Type 0
  BacksOff s =
      (b : Option ℕ) × (backoff d l f s tt ≡ ok b tt) × ((t : ℕ) → b ≡ some t → t < l.num_states f)

  -- The states that the states before `s` back off to are marked, and no others.
  record IsMarked (s : ℕ) (marks : List Bool) : Type 0 where
    size : length marks ≡ l.num_states f
    only :
        (t : ℕ)
        → get_elem? marks t ≡ some true
        → (i : ℕ) × (i < s) × (backoff d l f i tt ≡ ok (some t) tt)
    all : (t i : ℕ) → i < s → backoff d l f i tt ≡ ok (some t) tt → get_elem? marks t ≡ some true

  mark_none :
      (s : ℕ) (marks : List Bool)
      → backoff d l f s tt ≡ ok none tt
      → IsMarked s marks
      → IsMarked (s + 1) marks
  mark_none s marks back so_far = record {
    size = so_far.size;
    only = λ t e. let (i, less, at_i) = so_far.only t e in (i, omega (arith, less), at_i);
    all = λ t i less e. elim (Bool-cases (s == i)) [
      | inl same ↦
          let is : s ≡ i = ground arith in
          let clash : ok none tt ≡ ok (some t) tt =
            sym back ∙ ap (λ j. backoff d l f j tt) is ∙ e in
          absurd (ground (arith, clash))
      | inr distinct ↦ so_far.all t i (ground arith) e
    ];
  }

  mark_some :
      (s b : ℕ) (marks : List Bool)
      → backoff d l f s tt ≡ ok (some b) tt
      → b < l.num_states f
      → IsMarked s marks
      → IsMarked (s + 1) (set marks b true)
  mark_some s b marks back within so_far =
      let bound : b < length marks = (let z = so_far.size in omega arith) in
      let read : (t : ℕ)
          → get_elem? (set marks b true) t ≡ (if b == t then some true else get_elem? marks t) =
        λ t. get_elem?-set marks b t true bound in
      record {
        size = length-set marks b true ∙ so_far.size;
        only = λ t e. elim (Bool-cases (b == t)) [
          | inl same ↦
              let is : b ≡ t = ground arith in
              (s, omega arith, subst (λ x. backoff d l f s tt ≡ ok (some x) tt) is back)
          | inr distinct ↦
              let (i, less, at_i) = so_far.only t (ground (arith, read t, e, distinct)) in
              (i, omega (arith, less), at_i)
        ];
        all = λ t i less e. elim (Bool-cases (s == i)) [
          | inl same ↦
              let is : s ≡ i = ground arith in
              let eq : ok (some b) tt ≡ ok (some t) tt =
                sym back ∙ ap (λ j. backoff d l f j tt) is ∙ e in
              let is_t : b ≡ t = ground (arith, eq) in ground (arith, read t, is_t)
          | inr distinct ↦ let old = so_far.all t i (ground arith) e in ground (arith, read t, old)
        ];
      }

  marks_loop_lem :
      (k s : ℕ) (marks : List Bool)
      → s + k ≡ l.num_states f
      → ((i : ℕ) → i < l.num_states f → BacksOff i)
      → IsMarked s marks
      → (after : List Bool) × (marks_loop d l f k s marks tt ≡ ok after tt)
        × IsMarked (l.num_states f) after
  unfolding marks_loop mark
  marks_loop_lem zero s marks all_states backs so_far =
      let is : s ≡ l.num_states f = omega (arith, all_states) in
      (marks, refl, subst (λ i. IsMarked i marks) is so_far)
  marks_loop_lem (suc k) s marks all_states backs so_far =
      let (o, back, within) = backs s (omega (arith, all_states)) in
      let (next, marked, is_next) = by_backoff o back within in
      let (after, looped, is) =
        marks_loop_lem k (s + 1) next (omega (arith, all_states)) backs is_next in
      (
        after,
        bind_ok (backoff d l f s >>= mark marks) (marks_loop d l f k (s + 1)) tt
              (bind_ok (backoff d l f s) (mark marks) tt back ∙ marked)
            ∙ looped,
        is,
      )
    where
      by_backoff :
          (o : Option ℕ)
          → backoff d l f s tt ≡ ok o tt
          → ((t : ℕ) → o ≡ some t → t < l.num_states f)
          → (next : List Bool) × (mark marks o tt ≡ ok next tt) × IsMarked (s + 1) next
      by_backoff none back within = (marks, refl, mark_none s marks back so_far)
      by_backoff (some b) back within =
          let less = within b refl in
          let fits : leb (length marks) b ≡ false = (let z = so_far.size in ground arith) in
          (set marks b true, rw fits refl, mark_some s b marks back less so_far)

  -- On a transducer whose states all have a first arc and whose back-offs lead to states,
  -- `DetermineBackoffStates` succeeds with one flag for each state, which is set exactly where some state
  -- backs off to it.
  pub determine_backoff_states_iff :
      ((i : ℕ) → i < l.num_states f → BacksOff i)
      → (marks : List Bool) × (determine_backoff_states d l f tt ≡ ok marks tt)
        × (length marks ≡ l.num_states f)
        × ((t : ℕ)
            → (get_elem? marks t ≡ some true)
              ↔ ((i : ℕ) × (i < l.num_states f) × (backoff d l f i tt ≡ ok (some t) tt)))
  unfolding determine_backoff_states
  determine_backoff_states_iff backs =
      let n = l.num_states f in
      let (marks, looped, is) = marks_loop_lem n 0 (replicate n false) (omega arith) backs record {
        size = length-replicate n false;
        only = λ t e. absurd (replicate-false n t e);
        all = λ t i less e. absurd (omega (arith, less));
      } in
      (marks, looped, is.size, λ t. (is.only t, λ (i, less, e). is.all t i less e))
