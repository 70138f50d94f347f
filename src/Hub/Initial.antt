-- ===== src/Hub/Initial.antt =====
-- A hub after `InitializeModels` of mozolm/models/language_model_hub.cc.
use mozolm.Base.{
  ℕ, zero, suc, ◌≡◌, ◌≤◌, ◌<◌, refl, ap, ◌∙◌, some, List, [], ◌∷◌, arith, length, length-map,
  get_elem?,
}
use mozolm.Base.Int.{ℤ, pos, negsuc, minus_one}
use mozolm.Double.{Double}
use mozolm.Model.{LanguageModel}
use mozolm.Hub.{Hub, update_hub_state}
use mozolm.Hub.State.{HubState}
use mozolm.Hub.Links.{Follows, IsLinked}
use mozolm.Hub.Recycling.{fresh}
use mozolm.Hub.Consistent.{HasWidth, starts, IsConsistent}
use mozolm.Hub.Mixing.{states_to_keep}

enough : (keep : ℤ) → 10 ≤ states_to_keep keep
enough (pos n) = ground arith
enough (negsuc n) = omega arith

kept_states : (keep : ℤ) → 1 < states_to_keep keep
kept_states keep = let room = enough keep in omega arith

-- The hub with its start state only.
abbrev pub initial_hub : {D M : Type 0} → LanguageModel D M → Hub D M → List D → ℤ → Hub D M
initial_hub o hub weights keep = record {
  hub_states = fresh (starts o hub.language_models) minus_one (pos 0) ∷ [];
  last_created_hub_state = 0;
  max_hub_states = states_to_keep keep;
  mixture_weights = weights;
  language_models = hub.language_models;
}

module _ {D M : Type 0} (o : LanguageModel D M) where
  start_IsLinked :
      (R : Follows) (h : HubState) (last : ℕ) → h.next_states ≡ [] → IsLinked R (h ∷ []) last
  start_IsLinked R h last e zero f k x at_f at_x = absurd (ground arith)
  start_IsLinked R h last e (suc i) f k x at_f at_x = absurd (cc)

  pub initial-IsConsistent :
      (R : Follows) (hub : Hub D M) (weights : List D) (keep : ℤ)
      → IsConsistent o R (initial_hub o hub weights keep)
  initial-IsConsistent R hub weights keep = record {
    room = kept_states keep;
    fits = (let room = kept_states keep in omega arith);
    recent = omega arith;
    filling = λ less. refl;
    widths = widths;
    start = λ h e. ap (λ x. x.model_states) (new_start h 0 e);
    linked = start_IsLinked R (fresh (starts o hub.language_models) minus_one (pos 0)) 0 refl;
  }
    where
      first : HubState
      first = fresh (starts o hub.language_models) minus_one (pos 0)

      new_start : (h : HubState) (i : ℕ) → get_elem? (first ∷ []) i ≡ some h → h ≡ first
      new_start h zero e = ground arith
      new_start h (suc i) e = cc

      widths : HasWidth (first ∷ []) (length hub.language_models)
      widths i h e =
          ap (λ x. length x.model_states) (new_start h i e)
          ∙ length-map o.start_state hub.language_models
