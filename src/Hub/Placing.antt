-- ===== src/Hub/Placing.antt =====
-- Where `AssignNewHubState` puts a state, and what that leaves of the others.
use mozolm.Base.{
  ℕ, suc, ◌+◌, ◌≡◌, ◌≢◌, ◌<◌, ◌⊎◌, inl, inr, refl, ◌∙◌, subst, some, List, [], ◌∷◌, ◌++◌, arith,
  if◌then◌else◌, ◌==◌, leb, length, get_elem?, get_elem?-append_old, get_elem?-append_new,
  get_elem?-push_inv, lt-of-get_elem?, Bool-cases,
}
use mozolm.Base.Int.{ℤ}
use mozolm.Hub.{Hub}
use mozolm.Hub.State.{HubState}
use mozolm.Hub.Links.{Follows, IsNewer, IsLinked}
use mozolm.Hub.Recycling.{
  fresh, overwritten, IsAlone, overwritten_self, overwritten_kept, overwritten_inv,
  overwritten-HasWidth, overwritten-IsLinked, IsLinked-advance,
}
use mozolm.Hub.Consistent.{HasWidth}

-- The index of the next state: the end of a hub that is not full, the state behind the last one in a
-- full hub, and 1 behind its end.
unfoldable pub next_slot : {D M : Type 0} → Hub D M → ℕ
next_slot hub =
    let after = hub.last_created_hub_state + 1 in
    if leb hub.max_hub_states (length hub.hub_states)
    then (if leb hub.max_hub_states after then 1 else after)
    else length hub.hub_states

-- What a state keeps when another one is placed; the start state may lose its entries.
pub record IsKept (f g : HubState) : Type 0 where
  pub same_models : g.model_states ≡ f.model_states
  pub nexts : (g.next_states ≡ f.next_states) ⊎ (g.next_states ≡ [])

pub record IsPlaced (R : Follows) (states states' : List HubState) (n idx : ℕ) (new : HubState)
    : Type 0 where
  pub linked : IsLinked R states' idx
  pub widths : HasWidth states' n
  pub placed : get_elem? states' idx ≡ some new
  pub positive : 0 < idx
  pub kept :
      (i : ℕ) (f : HubState)
      → i ≢ idx
      → get_elem? states i ≡ some f
      → (g : HubState) × (get_elem? states' i ≡ some g) × IsKept f g

module _ (R : Follows) (states : List HubState) (n : ℕ) (ms : List ℤ) (p c : ℤ)
    (widths : HasWidth states n) (width : length ms ≡ n) where
  -- A new state at the end.
  pub appended :
      (last : ℕ)
      → suc last ≡ length states
      → IsLinked R states last
      → IsPlaced R states (states ++ fresh ms p c ∷ []) n (length states) (fresh ms p c)
  appended last filling linked = record {
    linked = links;
    widths = λ i g at_g. elim (get_elem?-push_inv states (fresh ms p c) i at_g) [
      | inl (within, at_old) ↦ widths i g at_old
      | inr (at_end, same) ↦ rw same width
    ];
    placed = get_elem?-append_new states (fresh ms p c ∷ []) (length states) refl;
    positive = omega arith;
    kept = λ i f ne at_f. (
      f,
      get_elem?-append_old states (fresh ms p c ∷ []) i (lt-of-get_elem? states i at_f) ∙ at_f,
      record { same_models = refl; nexts = inl refl },
    );
  }
    where
      links : IsLinked R (states ++ fresh ms p c ∷ []) (length states)
      links i g k e at_g at_e = elim (get_elem?-push_inv states (fresh ms p c) i at_g) [
        | inl (within, at_old) ↦
            let l = linked i g k e at_old at_e in
            record {
              newer = ground (arith, l.newer);
              target = l.target;
              at_target =
                  get_elem?-append_old states (fresh ms p c ∷ []) e.1
                    (lt-of-get_elem? states e.1 l.at_target)
                  ∙ l.at_target;
              back = l.back;
              symbol = l.symbol;
              follows = l.follows;
            }
        | inr (at_end, same) ↦ absurd (ground arith)
      ]

  -- A state overwritten that is alone, and that may count as the last.
  pub recycled :
      (last idx : ℕ) (h : HubState)
      → 0 < idx
      → get_elem? states idx ≡ some h
      → IsLinked R states last
      → IsAlone states idx
      → ((i : ℕ) (f : HubState) (k : ℕ) (e : ℤ × ℕ)
          → get_elem? states i ≡ some f
          → get_elem? f.next_states k ≡ some e
          → i ≢ idx
          → IsNewer last i e.1
          → IsNewer idx i e.1)
      → IsPlaced R states (overwritten states idx h ms p c) n idx (fresh ms p c)
  recycled last idx h positive at_idx linked alone newer = record {
    linked =
        IsLinked-advance R (overwritten states idx h ms p c) last idx
          (overwritten-IsLinked R states last idx h ms p c linked at_idx alone) advance;
    widths = overwritten-HasWidth R states last idx h ms p c linked at_idx n widths width;
    placed = overwritten_self R states last idx h ms p c linked at_idx;
    positive = positive;
    kept = λ i f ne at_f.
        let (g, at_g, r) = overwritten_kept R states last idx h ms p c linked at_idx i f ne at_f in
        (g, at_g, record { same_models = r.same_models; nexts = inl r.same_next });
  }
    where
      advance :
          (i : ℕ) (g : HubState) (k : ℕ) (e : ℤ × ℕ)
          → get_elem? (overwritten states idx h ms p c) i ≡ some g
          → get_elem? g.next_states k ≡ some e
          → IsNewer last i e.1
          → IsNewer idx i e.1
      advance i g k e at_g at_e old = elim (Bool-cases (i == idx)) [
        | inl same ↦
            absurd (ground (arith, overwritten_self R states last idx h ms p c linked at_idx))
        | inr other ↦
            let ne : i ≢ idx = ground arith in
            let (f, at_f, r) =
              overwritten_inv R states last idx h ms p c linked at_idx i g ne at_g in
            newer i f k e at_f (subst (λ l. get_elem? l k ≡ some e) r.same_next at_e) ne old
      ]
