-- ===== src/Hub/Restarting.antt =====
-- What `AssignNewHubState` of mozolm/models/language_model_hub.cc does to the start state when it goes back
-- to the front of a full hub, and which states no other one leads to.
use mozolm.Base.{
  ℕ, suc, ◌+◌, ◌≡◌, ◌≢◌, ◌≤◌, ◌<◌, ◌⊎◌, inl, inr, refl, ◌∙◌, some, List, [], arith, ◌==◌, length,
  get_elem?, lt-of-get_elem?, Bool-cases,
}
use mozolm.Base.Int.{ℤ, pos, minus_one}
use mozolm.Hub.State.{HubState}
use mozolm.Hub.Links.{Follows, IsNewer, IsLinked}
use mozolm.Hub.Recycling.{
  fresh, overwritten, IsAlone, length-overwritten, overwritten_self, overwritten_kept,
  overwritten-IsLinked,
}
use mozolm.Hub.Placing.{IsKept}

-- The start state reset: no entries, the same values.
module _ (R : Follows) (states : List HubState) (last : ℕ) (h : HubState) (ms : List ℤ)
    (linked : IsLinked R states last) (at_0 : get_elem? states 0 ≡ some h)
    (bounded : length states ≤ suc last) where
  abbrev restarted : List HubState
  restarted = overwritten states 0 h ms minus_one (pos 0)

  IsAlone-0 : IsAlone states 0
  IsAlone-0 i f k e at_f at_e ne same =
      let l = linked i f k e at_f at_e in absurd (ground (arith, l.newer))

  pub restarted-IsLinked : IsLinked R restarted last
  restarted-IsLinked =
      overwritten-IsLinked R states last 0 h ms minus_one (pos 0) linked at_0 IsAlone-0

  -- No entry of the restarted hub is one of state 0, or one back to the front.
  restarted_newer :
      (i : ℕ) (f : HubState) (k : ℕ) (e : ℤ × ℕ)
      → get_elem? restarted i ≡ some f
      → get_elem? f.next_states k ≡ some e
      → (0 < i) × (i < e.1)
  restarted_newer i f k e at_f at_e = elim (Bool-cases (i == 0)) [
    | inl same ↦
        absurd (ground (arith, overwritten_self R states last 0 h ms minus_one (pos 0) linked at_0))
    | inr other ↦
        let within = lt-of-get_elem? restarted i at_f in
        let size = length-overwritten R states last 0 h ms minus_one (pos 0) linked at_0 in
        let l = restarted-IsLinked i f k e at_f at_e in ground (arith, l.newer)
  ]

  pub restarted-IsAlone : IsAlone restarted 1
  restarted-IsAlone i f k e at_f at_e ne same =
      let (a, b) = restarted_newer i f k e at_f at_e in omega arith

  pub restarted_advance :
      (i : ℕ) (f : HubState) (k : ℕ) (e : ℤ × ℕ)
      → get_elem? restarted i ≡ some f
      → get_elem? f.next_states k ≡ some e
      → i ≢ 1
      → IsNewer last i e.1
      → IsNewer 1 i e.1
  restarted_advance i f k e at_f at_e ne old =
      let (a, b) = restarted_newer i f k e at_f at_e in inr (inl (omega arith, b))

  -- The others keep their entries, and all keep their values.
  pub restarted-IsKept :
      ms ≡ h.model_states
      → (i : ℕ) (f : HubState) → get_elem? states i ≡ some f
      → (g : HubState) × (get_elem? restarted i ≡ some g) × IsKept f g
  restarted-IsKept same i f at_f = elim (Bool-cases (i == 0)) [
    | inl front ↦ (
      fresh ms minus_one (pos 0),
      ground (arith, overwritten_self R states last 0 h ms minus_one (pos 0) linked at_0),
      record { same_models = ground arith; nexts = inr refl },
    )
    | inr other ↦
        let (g, at_g, r) =
          overwritten_kept R states last 0 h ms minus_one (pos 0) linked at_0 i f (ground arith)
            at_f in
        (g, at_g, record { same_models = r.same_models; nexts = inl r.same_next })
  ]

pub IsKept-trans : {f g h : HubState} → IsKept f g → IsKept g h → IsKept f h
IsKept-trans k m = record {
  same_models = m.same_models ∙ k.same_models;
  nexts = joined k.nexts m.nexts;
}
  where
    joined : {a b c : List (ℤ × ℕ)} → (b ≡ a) ⊎ (b ≡ []) → (c ≡ b) ⊎ (c ≡ []) → (c ≡ a) ⊎ (c ≡ [])
    joined (inl p) (inl q) = inl (q ∙ p)
    joined (inr p) (inl q) = inr (q ∙ p)
    joined p (inr q) = inr q

-- The state behind the last one is alone, and an entry that is not its own still leads to a newer state.
module _ (R : Follows) (states : List HubState) (last : ℕ) (linked : IsLinked R states last) where
  pub after-IsAlone : IsAlone states (last + 1)
  after-IsAlone i f k e at_f at_e ne same =
      let l = linked i f k e at_f at_e in absurd (ground (arith, l.newer))

  pub after_advance :
      (i : ℕ) (f : HubState) (k : ℕ) (e : ℤ × ℕ)
      → get_elem? states i ≡ some f
      → get_elem? f.next_states k ≡ some e
      → i ≢ last + 1
      → IsNewer last i e.1
      → IsNewer (last + 1) i e.1
  after_advance i f k e at_f at_e ne old = ground (arith, old)
