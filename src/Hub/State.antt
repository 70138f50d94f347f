-- ===== src/Hub/State.antt =====
-- `class LanguageModelHubState` of mozolm/models/language_model_hub.h and .cc.
-- `next_states_`, a hash map, is an association list; `model_state_prefixes_` is used by no code.
use mathlib.Core.Option
use mozolm.Base.{
  ◌||◌, ℕ, Bool, true, false, not, Option, none, some, List, [], ◌∷◌, map, if◌then◌else◌, length,
  ◌==◌,
}
use mozolm.Base.Int.{ℤ, pos, minus_one, at, eq_ℤ}
use mozolm.Base.Program.{StatusOr, value, status, internal}

pub record HubState : Type 0 where
  pub model_states : List ℤ
  pub prev_state : ℤ
  pub next_states : List (ℤ × ℕ)
  pub state_sym : ℤ

-- `next_states_.find(sym)`.
abbrev pub find : ℤ → List (ℤ × ℕ) → Option ℕ
find sym [] = none
find sym ((c, j) ∷ rest) = if eq_ℤ c sym then some j else find sym rest

-- The existing next state for a symbol, -1 if there is none.
abbrev pub next_state_of : HubState → ℤ → ℤ
next_state_of h sym = elim (find sym h.next_states) [ none ↦ minus_one | some j ↦ pos j ]

-- -1 where the index is out of range.
abbrev pub model_state : HubState → ℤ → ℤ
model_state h i = elim (at h.model_states i) [ none ↦ minus_one | some s ↦ s ]

-- `insert` leaves an existing entry as it is.
abbrev pub add_next_state : HubState → ℤ → ℕ → HubState
add_next_state h sym j = elim (find sym h.next_states) [
  | none ↦ record h { next_states = (sym, j) ∷ h.next_states }
  | some _ ↦ h
]

-- `UpdateHubState`: the old next states and the state with the new values. The loop that copies the
-- model states copies all of them, as the sizes are the same.
abbrev pub update_from : HubState → List ℤ → ℤ → ℤ → StatusOr (List ℕ × HubState)
update_from h model_states prev_state sym =
    if length h.model_states == length model_states
    then value (
      map (λ e. e.1) h.next_states,
      record {
        model_states = model_states;
        prev_state = prev_state;
        next_states = [];
        state_sym = sym;
      },
    )
    else status internal

-- `model_states_[idx] = model_states[idx]` for each index; `none` is a write behind the end.
abbrev pub overwrite : List ℤ → List ℤ → Option (List ℤ)
overwrite old [] = some old
overwrite [] (y ∷ ys) = none
overwrite (x ∷ xs) (y ∷ ys) = Option.map (λ l. y ∷ l) (overwrite xs ys)

-- `VerifyOrCorrectModelStates`: the returned flag, false where the base information is wrong, and the
-- state; `none` is a write out of bounds.
abbrev pub verify_or_correct : HubState → ℕ → ℤ → List ℤ → Option (Bool × HubState)
verify_or_correct h prev_state sym model_states =
    if not (eq_ℤ h.prev_state (pos prev_state)) || not (eq_ℤ h.state_sym sym)
    then some (false, h)
    else Option.map (λ l. (true, record h { model_states = l }))
        (overwrite h.model_states model_states)
