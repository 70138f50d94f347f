-- ===== src/Hub/Verifying.antt =====
-- `UpdateLMCounts` and `VerifyOrCorrectModelStates` of mozolm/models/language_model_hub.cc.
use mozolm.Base.{
  ℕ, zero, suc, ◌≡◌, inl, inr, refl, ap, ◌∙◌, subst, true, some, List, [], ◌∷◌, arith, length,
  get_elem?, set, Option-cases,
}
use mozolm.Base.Int.{ℤ, pos, eq_ℤ_iff}
use mozolm.Base.Program.{ok, ◌>>=◌, pure, bind_ok}
use mozolm.Model.{LanguageModel}
use mozolm.Hub.{
  Hub, read_state, next_model_states, update_models, correct_state, verify_next, verify_step,
  verify_or_correct_model_states, update_lm_counts,
}
use mozolm.Hub.State.{HubState, find, overwrite, verify_or_correct}
use mozolm.Hub.Links.{IsLink, IsLinked, find-get_elem?}
use mozolm.Hub.Consistent.{IsConsistent}
use mozolm.Hub.Stepping.{stepped, Steps, HaveTransitions, next_model_states_lem}

set_same {ℓ} :
    {A : Type ℓ} (xs : List A) (i : ℕ) (x : A) → get_elem? xs i ≡ some x → set xs i x ≡ xs
set_same [] i x e = cc
set_same (y ∷ ys) zero x e = ap (λ z. z ∷ ys) (ground arith)
set_same (y ∷ ys) (suc i) x e = ap (λ z. y ∷ z) (set_same ys i x e)

overwrite_same : (xs : List ℤ) → overwrite xs xs ≡ some xs
overwrite_same [] = refl
overwrite_same (x ∷ xs) = rw (overwrite_same xs) refl

-- A state that is as it should be is left as it is.
verified :
    (h : HubState) (prev : ℕ) (c : ℤ)
    → h.prev_state ≡ pos prev
    → h.state_sym ≡ c
    → verify_or_correct h prev c h.model_states ≡ some (true, h)
verified h prev c back symbol =
    ground (
      arith,
      overwrite_same h.model_states,
      eq_ℤ_iff h.prev_state (pos prev),
      eq_ℤ_iff h.state_sym c,
    )

module _ {D M : Type 0} (o : LanguageModel D M) (δ : M → ℤ → ℤ → ℤ) where
  read_state_lem :
      (hub : Hub D M) (i : ℕ) (h : HubState)
      → get_elem? hub.hub_states i ≡ some h
      → read_state i hub ≡ ok h hub
  read_state_lem hub i h at_i = rw at_i refl

  verify_next_lem :
      (hub : Hub D M) (i j : ℕ) (c : ℤ) (target : HubState)
      → get_elem? hub.hub_states j ≡ some target
      → target.prev_state ≡ pos i
      → target.state_sym ≡ c
      → verify_next o i c j target.model_states hub ≡ ok true hub
  unfolding verify_next correct_state
  verify_next_lem hub i j c target at_j back symbol =
      bind_ok (read_state j) (correct_state o i c j target.model_states) hub
        (read_state_lem hub j target at_j)
      ∙ rw (correct_state, verified target i c back symbol)
          (ap (λ states. ok true (record hub { hub_states = states }))
            (set_same hub.hub_states j target at_j))

  verify_step_lem :
      (hub : Hub D M) (i : ℕ) (h : HubState) (c : ℤ) (j : ℕ)
      → HaveTransitions o δ hub.language_models
      → find c h.next_states ≡ some j
      → IsLink (Steps δ hub.language_models) hub.hub_states hub.last_created_hub_state i h (c, j)
      → verify_step o i c h hub ≡ ok (true, some j) hub
  unfolding verify_step
  verify_step_lem hub i h c j t e l =
      let ns = stepped δ 0 hub.language_models h.model_states c in
      let next : verify_next o i c j ns hub ≡ ok true hub =
        subst (λ xs. verify_next o i c j xs hub ≡ ok true hub) l.follows
          (verify_next_lem hub i j c l.target l.at_target l.back l.symbol) in
      let checked : ◌>>=◌ (next_model_states o h c) (verify_next o i c j) hub ≡ ok true hub =
        bind_ok (next_model_states o h c) (verify_next o i c j) hub
          (next_model_states_lem o δ h c hub t)
        ∙ next in
      rw (verify_step, e)
        (bind_ok (next_model_states o h c >>= verify_next o i c j) (λ r. pure (r, some j)) hub
          checked)

  -- The check of a hub whose links are in order finds nothing to correct.
  entered :
      (hub : Hub D M) (i : ℕ) (h : HubState) (c : ℤ)
      → get_elem? hub.hub_states i ≡ some h
      → ◌>>=◌ (read_state i) (verify_step o i c) hub ≡ verify_step o i c h hub
  entered hub i h c at_i =
      bind_ok (read_state i) (verify_step o i c) hub (read_state_lem hub i h at_i)

  verify_lem :
      (syms : List ℤ) (hub : Hub D M) (i : ℕ) (h : HubState)
      → IsLinked (Steps δ hub.language_models) hub.hub_states hub.last_created_hub_state
      → HaveTransitions o δ hub.language_models
      → get_elem? hub.hub_states i ≡ some h
      → verify_or_correct_model_states o i syms hub ≡ ok true hub
  unfolding verify_or_correct_model_states verify_step
  verify_lem [] hub i h linked t at_i = refl
  verify_lem (c ∷ cs) hub i h linked t at_i = elim (Option-cases (find c h.next_states)) [
    | inl e ↦ rw (verify_or_correct_model_states, entered hub i h c at_i, verify_step, e) refl
    | inr (j, e) ↦
        let (k, at_k) = find-get_elem? c h.next_states j e in
        let l = linked i h k (c, j) at_i at_k in
        rw
          (
            verify_or_correct_model_states,
            entered hub i h c at_i,
            verify_step_lem hub i h c j t e l,
          )
          (verify_lem cs hub j l.target linked t l.at_target)
  ]

  -- `UpdateLMCounts` at a state of a consistent hub whose models all take the update: it returns true,
  -- and the check of the hub's states after it changes none of them. The models have transitions
  -- after the update, and these lead from the same values to the same values as before.
  pub hub_update_lm_counts_lem :
      (hub : Hub D M) (state : ℕ) (h : HubState) (syms : List ℤ) (count : ℤ) (ms : List M)
      → IsConsistent o (Steps δ hub.language_models) hub
      → get_elem? hub.hub_states state ≡ some h
      → update_models o h syms count 0 (length hub.mixture_weights) hub.language_models ≡ ok true ms
      → HaveTransitions o δ ms
      → ((xs : List ℤ) (c : ℤ) → stepped δ 0 hub.language_models xs c ≡ stepped δ 0 ms xs c)
      → update_lm_counts o (pos state) syms count hub
        ≡ ok true (record hub { language_models = ms })
  unfolding update_lm_counts
  hub_update_lm_counts_lem hub state h syms count ms consistent at_state updated t same =
      let hub' = record hub { language_models = ms } in
      rw (update_lm_counts, at_state, updated)
        (verify_lem syms hub' state h (relinked consistent.linked) t at_state)
    where
      relinked :
          IsLinked (Steps δ hub.language_models) hub.hub_states hub.last_created_hub_state
          → IsLinked (Steps δ ms) hub.hub_states hub.last_created_hub_state
      relinked linked i f k e at_i at_e =
          let l = linked i f k e at_i at_e in
          record {
            newer = l.newer;
            target = l.target;
            at_target = l.at_target;
            back = l.back;
            symbol = l.symbol;
            follows = l.follows ∙ same f.model_states e.0;
          }
