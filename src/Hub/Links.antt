-- ===== src/Hub/Links.antt =====
-- The links between the states of a hub (`next_states_` one way, `prev_state_` back), and what the
-- overwriting of a state does to them. States are recycled in the order in which they were made.
use mozolm.Base.{
  ℕ, zero, suc, ◌+◌, ◌≡◌, ◌≢◌, ◌≤◌, ◌<◌, ◌⊎◌, inl, inr, refl, ap, ◌∙◌, Bool, true, false, Option,
  none, some, List, [], ◌∷◌, ◌++◌, map, arith, if◌then◌else◌, ◌==◌, length, get_elem?, set,
  length-set, get_elem?-set, lt-of-get_elem?, get_elem?_of_lt, get_elem?-map, Bool-cases,
  Option-cases,
}
use mozolm.Base.Int.{ℤ, pos, minus_one, eq_ℤ, eq_ℤ_iff}
use mozolm.Hub.State.{HubState, find}

-- State `j` was made after state `i`, where `last` is the state made last: the states up to `last`
-- were made in the current round in their order, those behind it in the round before.
abbrev pub IsNewer : ℕ → ℕ → ℕ → Type 0
IsNewer last i j =
    ((i < j) × (j ≤ last)) ⊎ ((last < i) × (i < j)) ⊎ ((last < i) × (0 < j) × (j ≤ last))

-- How the values of a state follow from those of the state before it and a symbol: a relation that a
-- property chooses, the trivial one or the transitions of the models.
abbrev pub Follows : Type 1
Follows = List ℤ → ℤ → List ℤ → Type 0

-- An entry of `next_states_` of state `i`, which is `h`, leads to a newer state that was reached from
-- `i` by the entry's symbol.
pub record IsLink (R : Follows) (states : List HubState) (last i : ℕ) (h : HubState) (e : ℤ × ℕ)
    : Type 0 where
  pub newer : IsNewer last i e.1
  pub target : HubState
  pub at_target : get_elem? states e.1 ≡ some target
  pub back : target.prev_state ≡ pos i
  pub symbol : target.state_sym ≡ e.0
  pub follows : R h.model_states e.0 target.model_states

abbrev pub IsLinked : Follows → List HubState → ℕ → Type 0
IsLinked R states last =
    (i : ℕ) (h : HubState) (k : ℕ) (e : ℤ × ℕ)
    → get_elem? states i ≡ some h
    → get_elem? h.next_states k ≡ some e
    → IsLink R states last i h e

-- An entry that `find` returns stands in the map.
pub find-get_elem? :
    (c : ℤ) (entries : List (ℤ × ℕ)) (j : ℕ)
    → find c entries ≡ some j
    → (k : ℕ) × (get_elem? entries k ≡ some (c, j))
find-get_elem? c [] j e = absurd (cc)
find-get_elem? c ((a, b) ∷ rest) j e = elim (Bool-cases (eq_ℤ a c)) [
  | inl same ↦ (0, ground (arith, eq_ℤ_iff a c))
  | inr other ↦ let (k, f) = find-get_elem? c rest j (ground arith) in (suc k, f)
]

-- The states with `prev_state_` reset at each of the indices.
abbrev pub forget : HubState → HubState
forget h = record h { prev_state = minus_one }

unfoldable pub reset_at : ℕ → List HubState → List HubState
reset_at j states = elim (get_elem? states j) [ none ↦ states | some h ↦ set states j (forget h) ]

unfoldable pub reset_all : List ℕ → List HubState → List HubState
unfolding reset_at
reset_all [] states = states
reset_all (j ∷ js) states = reset_all js (reset_at j states)

-- `h'` is `h` but for `prev_state_`, which changes only if `i` is one of the indices.
pub record IsReset (i : ℕ) (js : List ℕ) (h h' : HubState) : Type 0 where
  pub same_models : h'.model_states ≡ h.model_states
  pub same_next : h'.next_states ≡ h.next_states
  pub same_sym : h'.state_sym ≡ h.state_sym
  pub prev : (h'.prev_state ≡ h.prev_state) ⊎ ((k : ℕ) × (get_elem? js k ≡ some i))

length-reset_at : (j : ℕ) (states : List HubState) → length (reset_at j states) ≡ length states
unfolding reset_at
length-reset_at j states = elim (Option-cases (get_elem? states j)) [
  | inl e ↦ rw (e, reset_at)
  | inr (h, e) ↦ rw (e, reset_at) (length-set states j (forget h))
]

pub length-reset_all :
    (js : List ℕ) (states : List HubState) → length (reset_all js states) ≡ length states
unfolding reset_all
length-reset_all [] states = refl
length-reset_all (j ∷ js) states =
    length-reset_all js (reset_at j states) ∙ length-reset_at j states

reset_at-IsReset :
    (j : ℕ) (states : List HubState) (i : ℕ) (h : HubState)
    → get_elem? states i ≡ some h
    → (h' : HubState) × (get_elem? (reset_at j states) i ≡ some h') × IsReset i (j ∷ []) h h'
unfolding reset_at
reset_at-IsReset j states i h e = elim (Bool-cases (j == i)) [
  | inl same ↦
      let eq : j ≡ i = ground arith in
      (
        forget h,
        ground (arith, get_elem?-set states j i (forget h), lt-of-get_elem? states i e),
        record {
          same_models = refl;
          same_next = refl;
          same_sym = refl;
          prev = inr (0, ap some eq);
        },
      )
  | inr other ↦ (
    h,
    elim (Option-cases (get_elem? states j)) [
      | inl n ↦ rw (n, reset_at) e
      | inr (t, f) ↦
          rw (f, reset_at)
            (ground (arith, get_elem?-set states j i (forget t), lt-of-get_elem? states j f))
    ],
    record { same_models = refl; same_next = refl; same_sym = refl; prev = inl refl },
  )
]

pub reset_all-IsReset :
    (js : List ℕ) (states : List HubState) (i : ℕ) (h : HubState)
    → get_elem? states i ≡ some h
    → (h' : HubState) × (get_elem? (reset_all js states) i ≡ some h') × IsReset i js h h'
unfolding reset_all
reset_all-IsReset [] states i h e =
    (h, e, record { same_models = refl; same_next = refl; same_sym = refl; prev = inl refl })
reset_all-IsReset (j ∷ js) states i h e =
    let (g, f, r) = reset_at-IsReset j states i h e in
    let (h', f', r') = reset_all-IsReset js (reset_at j states) i g f in
    (
      h',
      f',
      record {
        same_models = r'.same_models ∙ r.same_models;
        same_next = r'.same_next ∙ r.same_next;
        same_sym = r'.same_sym ∙ r.same_sym;
        prev = joined j js i r'.prev r.prev;
      },
    )
  where
    joined :
        {a b c : ℤ} (j : ℕ) (js : List ℕ) (i : ℕ)
        → (c ≡ b) ⊎ ((k : ℕ) × (get_elem? js k ≡ some i))
        → (b ≡ a) ⊎ ((k : ℕ) × (get_elem? (j ∷ []) k ≡ some i))
        → (c ≡ a) ⊎ ((k : ℕ) × (get_elem? (j ∷ js) k ≡ some i))
    joined j js i (inl p) (inl q) = inl (p ∙ q)
    joined j js i (inr (k, p)) q = inr (suc k, p)
    joined j js i (inl p) (inr (zero, q)) = inr (0, q)
    joined j js i (inl p) (inr (suc k, q)) = absurd (cc)

-- The state behind a reset, for a state that stands in the result.
pub reset_all_inv :
    (js : List ℕ) (states : List HubState) (i : ℕ) (h' : HubState)
    → get_elem? (reset_all js states) i ≡ some h'
    → (h : HubState) × (get_elem? states i ≡ some h) × IsReset i js h h'
reset_all_inv js states i h' e =
    let within : i < length states =
      omega (arith, lt-of-get_elem? (reset_all js states) i e, length-reset_all js states) in
    let (h, f) = get_elem?_of_lt states i within in
    let (g, at_g, r) = reset_all-IsReset js states i h f in (h, f, moved r at_g)
  where
    moved :
        {h g : HubState}
        → IsReset i js h g
        → get_elem? (reset_all js states) i ≡ some g
        → IsReset i js h h'
    moved {h} r at_g = mozolm.Base.subst (λ t. IsReset i js h t) (ground arith) r
