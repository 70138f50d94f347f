-- ===== src/Hub/Remembering.antt =====
-- The links between the states of mozolm/models/language_model_hub.cc stay when counts are updated and
-- when scores are extracted.
use mathlib.Core.Option
use mozolm.Base.{
  ℕ, zero, suc, ◌≡◌, refl, sym, ap, ◌∙◌, Bool, true, false, not, ◌||◌, Option, none, some, List, [],
  ◌∷◌, length, get_elem?, set, if◌then◌else◌, ltb,
}
use mozolm.Base.Int.{ℤ, pos, negsuc, at, eq_ℤ}
use mozolm.Base.Program.{Outcome, Code, ok, err, fault, ◌>>=◌, pure}
use mozolm.Base.Keeps.{Keeps, bind-Keeps, if-Keeps}
use mozolm.Double.{Double}
use mozolm.Utf8.{Bytes}
use mozolm.Model.{LanguageModel, LmScores}
use mozolm.Hub.{
  Hub, read_state, step_models, next_model_states, update_models, correct_state, verify_next,
  verify_step, verify_or_correct_model_states, update_lm_counts, next_state,
}
use mozolm.Hub.Mixing.{scores_loop, first_scores, extract_lm_scores}
use mozolm.Hub.Stepping.{found}
use mozolm.Hub.State.{HubState, find, model_state, next_state_of, overwrite, verify_or_correct}

-- State `i` has state `j` as its next one for a symbol.
unfoldable pub HasLink : ℕ → ℤ → ℕ → List HubState → Type 0
HasLink i c j states =
    (g : HubState) × (get_elem? states i ≡ some g) × (find c g.next_states ≡ some j)

set-HasLink :
    (i : ℕ) (c : ℤ) (j : ℕ) (states : List HubState) (next : ℕ) (target checked : HubState)
    → get_elem? states next ≡ some target
    → checked.next_states ≡ target.next_states
    → HasLink i c j states
    → HasLink i c j (set states next checked)
unfolding HasLink
set-HasLink i c j [] next target checked e same link = link
set-HasLink zero c j (x ∷ xs) zero target checked e same (g, at_i, entry) =
    let one : target ≡ g = cc in
    (checked, refl, ap (find c) (same ∙ ap (λ t. t.next_states) one) ∙ entry)
set-HasLink (suc i) c j (x ∷ xs) zero target checked e same link = link
set-HasLink zero c j (x ∷ xs) (suc next) target checked e same link = link
set-HasLink (suc i) c j (x ∷ xs) (suc next) target checked e same link =
    set-HasLink i c j xs next target checked e same link

checked_links :
    (h : HubState) (prev : ℕ) (c : ℤ) (values : List ℤ) (checked : Bool × HubState)
    → verify_or_correct h prev c values ≡ some checked
    → checked.1.next_states ≡ h.next_states
checked_links h prev c values checked e =
    by_test (not (eq_ℤ h.prev_state (pos prev)) || not (eq_ℤ h.state_sym c))
      (overwrite h.model_states values) e
  where
    by_test :
        (b : Bool) (r : Option (List ℤ))
        → (if b then some (false, h) else Option.map (λ l. (true, record h { model_states = l })) r)
          ≡ some checked
        → checked.1.next_states ≡ h.next_states
    by_test true r e = let same : (false, h) ≡ checked = cc in ap (λ t. t.1.next_states) (sym same)
    by_test false none e = absurd (cc)
    by_test false (some l) e =
        let same : (true, record h { model_states = l }) ≡ checked = cc in
        ap (λ t. t.1.next_states) (sym same)

module _ {D M : Type 0} (o : LanguageModel D M) (i : ℕ) (c : ℤ) (j : ℕ) where
  abbrev Linked : Hub D M → Type 0
  Linked hub = HasLink i c j hub.hub_states

  models-Keeps :
      {A B : Type 0} (r : Outcome (List M) A) (f : A → List M → Outcome (Hub D M) B)
      (g : Code → List M → Outcome (Hub D M) B)
      → ((a : A) (ms : List M) → Keeps Linked (f a ms))
      → ((k : Code) (ms : List M) → Keeps Linked (g k ms))
      → Keeps Linked (elim r [ fault ↦ fault | err k ms ↦ g k ms | ok a ms ↦ f a ms ])
  models-Keeps (ok a ms) f g p q = p a ms
  models-Keeps (err k ms) f g p q = q k ms
  models-Keeps fault f g p q = tt

  next_model_states-Keeps :
      (h : HubState) (s : ℤ) (hub : Hub D M)
      → Linked hub
      → Keeps Linked (next_model_states o h s hub)
  unfolding next_model_states
  next_model_states-Keeps h s hub linked =
      models-Keeps (step_models o h s 0 hub.language_models) _ _ (λ ss ms. linked) (λ k ms. linked)

  verify_next-Keeps :
      (state : ℕ) (s : ℤ) (next : ℕ) (values : List ℤ) (hub : Hub D M)
      → Linked hub
      → Keeps Linked (verify_next o state s next values hub)
  unfolding verify_next correct_state
  verify_next-Keeps state s next values hub linked = by_target (get_elem? hub.hub_states next) refl
    where
      by_checked :
          (target : HubState)
          → get_elem? hub.hub_states next ≡ some target
          → (r : Option (Bool × HubState)) → verify_or_correct target state s values ≡ r
          → Keeps Linked (correct_state o state s next values target hub)
      by_checked target at_next none e = rw (correct_state, e) tt
      by_checked target at_next (some checked) e =
          rw (correct_state, e)
            (set-HasLink i c j hub.hub_states next target checked.1 at_next
              (checked_links target state s values checked e) linked)

      by_target :
          (r : Option HubState)
          → get_elem? hub.hub_states next ≡ r
          → Keeps Linked (◌>>=◌ (read_state next) (correct_state o state s next values) hub)
      by_target none e = rw (e, Keeps) tt
      by_target (some target) e =
          rw (e, Keeps) (by_checked target e (verify_or_correct target state s values) refl)

  verify_step-Keeps :
      (state : ℕ) (s : ℤ) (h : HubState) (hub : Hub D M)
      → Linked hub
      → Keeps Linked (verify_step o state s h hub)
  unfolding verify_step
  verify_step-Keeps state s h hub linked = by_next (next_state_of h s) refl
    where
      by_next : (n : ℤ) → next_state_of h s ≡ n → Keeps Linked (verify_step o state s h hub)
      by_next (negsuc k) e = rw (e, Keeps) linked
      by_next (pos next) e =
          rw (e, Keeps)
            (bind-Keeps Linked (next_model_states o h s >>= verify_next o state s next)
              (λ result. pure (result, some next)) hub
              (bind-Keeps Linked (next_model_states o h s) (verify_next o state s next) hub
                (next_model_states-Keeps h s hub linked)
                (λ values t called kept. verify_next-Keeps state s next values t kept))
              (λ result t called kept. kept))

  verify-Keeps :
      (syms : List ℤ) (state : ℕ) (hub : Hub D M)
      → Linked hub
      → Keeps Linked (verify_or_correct_model_states o state syms hub)
  unfolding verify_or_correct_model_states
  verify-Keeps [] state hub linked = linked
  verify-Keeps (s ∷ syms) state hub linked =
      by_outcome (◌>>=◌ (read_state state) (verify_step o state s) hub) refl
        (by_target (get_elem? hub.hub_states state) refl)
        (λ next t kept. verify-Keeps syms next t kept)
    where
      by_target :
          (r : Option HubState)
          → get_elem? hub.hub_states state ≡ r
          → Keeps Linked (◌>>=◌ (read_state state) (verify_step o state s) hub)
      by_target none e = rw (e, Keeps) tt
      by_target (some h) e = rw (e, Keeps) (verify_step-Keeps state s h hub linked)

      by_outcome :
          (r : Outcome (Hub D M) (Bool × Option ℕ))
          → ◌>>=◌ (read_state state) (verify_step o state s) hub ≡ r
          → Keeps Linked r
          → ((next : ℕ) (t : Hub D M)
              → Linked t
              → Keeps Linked (verify_or_correct_model_states o next syms t))
          → Keeps Linked (verify_or_correct_model_states o state (s ∷ syms) hub)
      by_outcome fault e kept rest = rw (e, Keeps) tt
      by_outcome (err k t) e kept rest = rw (e, Keeps) kept
      by_outcome (ok (false, n) t) e kept rest = rw (e, Keeps) kept
      by_outcome (ok (true, none) t) e kept rest = rw (e, Keeps) kept
      by_outcome (ok (true, some next) t) e kept rest = rw (e, Keeps) (rest next t kept)

  pub update_lm_counts-Keeps :
      (state : ℤ) (syms : List ℤ) (count : ℤ) (hub : Hub D M)
      → HasLink i c j hub.hub_states
      → Keeps (λ t. HasLink i c j t.hub_states) (update_lm_counts o state syms count hub)
  unfolding update_lm_counts
  update_lm_counts-Keeps (negsuc k) syms count hub linked = linked
  update_lm_counts-Keeps (pos state) syms count hub linked =
      by_target (get_elem? hub.hub_states state) refl
    where
      by_models :
          (h : HubState)
          → get_elem? hub.hub_states state ≡ some h
          → (r : Outcome (List M) Bool)
          → update_models o h syms count 0 (length hub.mixture_weights) hub.language_models ≡ r
          → Keeps Linked (update_lm_counts o (pos state) syms count hub)
      by_models h at_state fault e = rw (update_lm_counts, at_state, e) tt
      by_models h at_state (err k ms) e = rw (update_lm_counts, at_state, e) linked
      by_models h at_state (ok false ms) e = rw (update_lm_counts, at_state, e) linked
      by_models h at_state (ok true ms) e =
          rw (update_lm_counts, at_state, e)
            (verify-Keeps syms state (record hub { language_models = ms }) linked)

      by_target :
          (r : Option HubState)
          → get_elem? hub.hub_states state ≡ r
          → Keeps Linked (update_lm_counts o (pos state) syms count hub)
      by_target none e = rw (update_lm_counts, e) linked
      by_target (some h) e =
          by_models h e
            (update_models o h syms count 0 (length hub.mixture_weights) hub.language_models) refl

  module _ (d : Double D) (same_bytes : Bytes → Bytes → Bool) (zero_d : D)
      (order sort : List (Bytes × D) → List (Bytes × D)) where
    pub extract_lm_scores-Keeps :
        (state : ℤ) (response : LmScores D) (hub : Hub D M)
        → HasLink i c j hub.hub_states
        → Keeps
            (λ t. HasLink i c j t.hub_states)
            (extract_lm_scores d same_bytes zero_d order sort o state response hub)
    unfolding extract_lm_scores first_scores
    extract_lm_scores-Keeps state response hub linked = by_state (at hub.hub_states state) refl
      where
        by_models :
            (h : HubState) (ms : List M)
            → hub.language_models ≡ ms
            → Keeps Linked (first_scores d same_bytes zero_d order sort o h response hub)
        by_models h [] e = rw (e, Keeps) tt
        by_models h (m ∷ ms) e =
            rw (e, Keeps) (by_first (o.extract_lm_scores (model_state h (pos 0)) response m))
          where
            by_first :
                (r : Outcome M (Bool × LmScores D))
                → Keeps Linked (elim r [
                  | fault ↦ fault
                  | err k m' ↦ err k (record hub { language_models = m' ∷ ms })
                  | ok a m' ↦ ok a (record hub { language_models = m' ∷ ms })
                ])
            by_first fault = tt
            by_first (err k m') = linked
            by_first (ok a m') = linked

        by_state :
            (r : Option HubState)
            → at hub.hub_states state ≡ r
            → Keeps Linked (extract_lm_scores d same_bytes zero_d order sort o state response hub)
        by_state none e = rw (e, Keeps) linked
        by_state (some h) e =
            rw (e, Keeps)
              (if-Keeps Linked (ltb (length hub.mixture_weights) 2)
                (first_scores d same_bytes zero_d order sort o h response hub) _
                (λ few. by_models h hub.language_models refl)
                (λ many.
                  models-Keeps
                    (scores_loop d same_bytes zero_d order sort o h 0 hub.mixture_weights [] zero_d
                      hub.language_models)
                    _ _ (λ a ms. if-Keeps Linked a.0 _ _ (λ good. linked) (λ bad. linked))
                    (λ k ms. linked)))

  -- NextState follows a link.
  pub next_state-HasLink :
      (hub : Hub D M) → HasLink i c j hub.hub_states → next_state o (pos i) c hub ≡ ok (pos j) hub
  unfolding HasLink
  next_state-HasLink hub (g, at_i, entry) = found o (λ m s c. s) hub i g c at_i j entry
