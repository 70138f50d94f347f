-- ===== src/Hub/Recycling.antt =====
-- Overwriting a state of a hub whose links are in order: they stay in order.
use mozolm.Base.{
  ℕ, ◌≡◌, ◌≢◌, inl, inr, sym, ap, ◌∙◌, subst, some, List, [], map, arith, ◌==◌, length, get_elem?,
  set, length-set, get_elem?-set, lt-of-get_elem?, get_elem?-map_inv, Bool-cases,
}
use mozolm.Base.Int.{ℤ, pos}
use mozolm.Hub.State.{HubState}
use mozolm.Hub.Links.{
  Follows, IsNewer, IsLink, IsLinked, IsReset, reset_all, length-reset_all, reset_all-IsReset,
  reset_all_inv,
}

abbrev pub fresh : List ℤ → ℤ → ℤ → HubState
fresh model_states prev_state sym = record {
  model_states = model_states;
  prev_state = prev_state;
  next_states = [];
  state_sym = sym;
}

-- The states after `UpdateHubState` of state `idx`, which was `h`.
abbrev pub overwritten : List HubState → ℕ → HubState → List ℤ → ℤ → ℤ → List HubState
overwritten states idx h model_states prev_state sym =
    reset_all (map (λ e. e.1) h.next_states) (set states idx (fresh model_states prev_state sym))

-- No state but `idx` itself has an entry that leads to `idx`.
abbrev pub IsAlone : List HubState → ℕ → Type 0
IsAlone states idx =
    (i : ℕ) (h : HubState) (k : ℕ) (e : ℤ × ℕ)
    → get_elem? states i ≡ some h
    → get_elem? h.next_states k ≡ some e
    → i ≢ idx
    → e.1 ≢ idx

module _ (R : Follows) (states : List HubState) (last idx : ℕ) (h : HubState) (ms : List ℤ)
    (p c : ℤ) (linked : IsLinked R states last) (at_idx : get_elem? states idx ≡ some h) where
  abbrev result : List HubState
  result = overwritten states idx h ms p c

  abbrev placed : List HubState
  placed = set states idx (fresh ms p c)

  abbrev old_nexts : List ℕ
  old_nexts = map (λ e. e.1) h.next_states

  pub length-overwritten : length result ≡ length states
  length-overwritten = length-reset_all old_nexts placed ∙ length-set states idx (fresh ms p c)

  placed_self : get_elem? placed idx ≡ some (fresh ms p c)
  placed_self =
      ground (arith, get_elem?-set states idx idx (fresh ms p c), lt-of-get_elem? states idx at_idx)

  placed_other : (i : ℕ) → i ≢ idx → get_elem? placed i ≡ get_elem? states i
  placed_other i ne =
      ground (arith, get_elem?-set states idx i (fresh ms p c), lt-of-get_elem? states idx at_idx)

  -- A reset state was linked from the overwritten one.
  reset_from :
      (j k : ℕ) → get_elem? old_nexts k ≡ some j → (d : ℤ) × IsLink R states last idx h (d, j)
  reset_from j k f =
      let (e, at_e, same) = get_elem?-map_inv (λ e. e.1) h.next_states k f in
      (e.0, subst (λ t. IsLink R states last idx h (e.0, t)) same (linked idx h k e at_idx at_e))

  not_self : (d : ℤ) → IsLink R states last idx h (d, idx) → ⊥
  not_self d l = absurd (ground (arith, l.newer))

  pub overwritten_self : get_elem? result idx ≡ some (fresh ms p c)
  overwritten_self =
      let (g, at_g, r) = reset_all-IsReset old_nexts placed idx (fresh ms p c) placed_self in
      elim r.prev [
        | inl same ↦ at_g ∙ ap some (ground (arith, r.same_models, r.same_next, r.same_sym))
        | inr (k, f) ↦ let (d, l) = reset_from idx k f in absurd (not_self d l)
      ]

  -- What stands at another index afterwards stood there before, but for a reset.
  pub overwritten_inv :
      (i : ℕ) (g : HubState)
      → i ≢ idx
      → get_elem? result i ≡ some g
      → (f : HubState) × (get_elem? states i ≡ some f) × IsReset i old_nexts f g
  overwritten_inv i g ne e =
      let (f, at_f, r) = reset_all_inv old_nexts placed i g e in
      (f, sym (placed_other i ne) ∙ at_f, r)

  pub overwritten_kept :
      (i : ℕ) (f : HubState)
      → i ≢ idx
      → get_elem? states i ≡ some f
      → (g : HubState) × (get_elem? result i ≡ some g) × IsReset i old_nexts f g
  overwritten_kept i f ne at_f = reset_all-IsReset old_nexts placed i f (placed_other i ne ∙ at_f)

  -- Widths survive, if the new values have the width.
  pub overwritten-HasWidth :
      (n : ℕ)
      → ((i : ℕ) (f : HubState) → get_elem? states i ≡ some f → length f.model_states ≡ n)
      → length ms ≡ n
      → (i : ℕ) (g : HubState) → get_elem? result i ≡ some g
      → length g.model_states ≡ n
  overwritten-HasWidth n widths width i g at_g = elim (Bool-cases (i == idx)) [
    | inl same ↦ let new : g ≡ fresh ms p c = ground (arith, overwritten_self) in rw new width
    | inr other ↦
        let (f, at_f, r) = overwritten_inv i g (ground arith) at_g in
        rw r.same_models (widths i f at_f)
  ]

  -- A state that another one links to is reset by neither.
  prev_kept :
      (i : ℕ) (f : HubState) (e : ℤ × ℕ) (l : IsLink R states last i f e) (t : HubState)
      → i ≢ idx
      → IsReset e.1 old_nexts l.target t
      → t.prev_state ≡ pos i
  prev_kept i f e l t ne r = elim r.prev [
    | inl same ↦ same ∙ l.back
    | inr (k, at_k) ↦
        let (d, m) = reset_from e.1 k at_k in
        absurd (ne (ground (arith, l.at_target, l.back, m.at_target, m.back)))
  ]

  IsLink-kept :
      (i : ℕ) (f g : HubState) (e : ℤ × ℕ)
      → i ≢ idx
      → e.1 ≢ idx
      → g.model_states ≡ f.model_states
      → IsLink R states last i f e
      → IsLink R result last i g e
  IsLink-kept i f g e ne apart same l =
      let (t, at_t, r) =
        reset_all-IsReset old_nexts placed e.1 l.target (placed_other e.1 apart ∙ l.at_target) in
      record {
        newer = l.newer;
        target = t;
        at_target = at_t;
        back = prev_kept i f e l t ne r;
        symbol = r.same_sym ∙ l.symbol;
        follows = rw (same, r.same_models) l.follows;
      }

  pub overwritten-IsLinked : IsAlone states idx → IsLinked R result last
  overwritten-IsLinked alone i g k e at_g at_e = elim (Bool-cases (i == idx)) [
    | inl same ↦ absurd (ground (arith, overwritten_self))
    | inr other ↦
        let ne : i ≢ idx = ground arith in
        let (f, at_f, r) = overwritten_inv i g ne at_g in
        let at_old = subst (λ l. get_elem? l k ≡ some e) r.same_next at_e in
        IsLink-kept i f g e ne (alone i f k e at_f at_old ne) r.same_models
          (linked i f k e at_f at_old)
  ]

-- A state made now counts as the last, if nothing links from or to it but the states before it.
pub IsLinked-advance :
    (R : Follows) (states : List HubState) (last idx : ℕ)
    → IsLinked R states last
    → ((i : ℕ) (h : HubState) (k : ℕ) (e : ℤ × ℕ)
        → get_elem? states i ≡ some h
        → get_elem? h.next_states k ≡ some e
        → IsNewer last i e.1
        → IsNewer idx i e.1)
    → IsLinked R states idx
IsLinked-advance R states last idx linked newer i h k e at_h at_e =
    let l = linked i h k e at_h at_e in
    record {
      newer = newer i h k e at_h at_e l.newer;
      target = l.target;
      at_target = l.at_target;
      back = l.back;
      symbol = l.symbol;
      follows = l.follows;
    }
