-- ===== src/Ppm/Updating/Orders.antt =====
-- The states and arcs that mozolm/models/ppm_as_fst_model.cc adds for an observation, and the orders of
-- these states.
use mozolm.Base.{
  ℕ, zero, suc, ◌+◌, ◌≡◌, ◌<◌, inl, inr, refl, sym, ap, ◌∙◌, subst, Bool, true, false, not, Option,
  none, some, List, [], ◌∷◌, ◌++◌, arith, if◌then◌else◌, leb, ◌==◌, length, get_elem?,
  length-append, Bool-cases, get_elem?-push_inv,
}
use mozolm.Base.Program.{Program, ok, err, internal, ◌>>=◌, calculated, pure, bind_inv, or_fault}
use mozolm.Base.Keeps.{Keeps, bind-Keeps, if-Keeps, elim-Keeps, calculated-Keeps, calculated_inv}
use mozolm.Double.{Double}
use mozolm.Fst.{Arc, FstLibrary, IsFst}
use mozolm.Ppm.{Ppm}
use mozolm.Ppm.Blending.{no_observations}
use mozolm.Ppm.Sized.{IsSized}
use mozolm.Ppm.Updating.{
  order_lt, order_eq, order_after, needs_new_order, needs_new_state, arc_with, counted, with_fst,
  count_backoff_arc, increment_backoff_arc, add_new_state, count_arc, update_highest_found_state,
  add_symbol_arc,
}

needs_new_order_lem :
    (max : ℕ) (curr next : Option ℕ)
    → needs_new_order max curr next tt ≡ ok true tt
    → order_after next < max
unfolding needs_new_order
needs_new_order_lem max curr next e = elim (Bool-cases (order_lt curr next)) [
  | inl less ↦
      let is : needs_new_order max curr next tt ≡ ok false tt = rw less refl in
      absurd (ground (arith, e, is))
  | inr more ↦ elim (Bool-cases (order_eq next curr)) [
    | inr other ↦
        let is : needs_new_order max curr next tt ≡ err internal tt = rw more (rw other refl) in
        absurd (cc)
    | inl same ↦
        let is : needs_new_order max curr next tt ≡ ok (not (leb max (order_after next))) tt =
          rw more (rw same refl) in
        ground (arith, e, is)
  ]
]

or_fault_same :
    (x : Option (Option ℕ)) (o o' : Option ℕ) {r : Unit {0}}
    → or_fault x tt ≡ ok o' r
    → x ≡ some o
    → o' ≡ o
or_fault_same none o o' e h = absurd (cc)
or_fault_same (some y) o o' e h = ground (arith, e, h)

-- A new state is made only where its order stays below the bound.
needs_new_state_lem :
    (max : ℕ) (orders : List (Option ℕ)) (curr next : ℕ) (o : Option ℕ)
    → needs_new_state max orders curr next tt ≡ ok true tt
    → get_elem? orders next ≡ some o
    → order_after o < max
unfolding needs_new_state
needs_new_state_lem max orders curr next o e at_next =
    let (o', _, read, rest) =
      bind_inv (or_fault (get_elem? orders next))
        (λ n. or_fault (get_elem? orders curr) >>= λ c. needs_new_order max c n) tt e in
    let (c, _, _, needs) =
      bind_inv (or_fault (get_elem? orders curr)) (λ c. needs_new_order max c o') tt rest in
    let is_o : o' ≡ o = or_fault_same (get_elem? orders next) o o' read at_next in
    subst (λ x. order_after x < max) is_o (needs_new_order_lem max c o' needs)

module _ {D F : Type 0} (d : Double D) (l : FstLibrary D F) (max cap : ℕ) (laws : IsFst l) where
  abbrev Sized : Ppm D F → Type 0
  Sized = IsSized l max cap

  pub with_fst-IsSized :
      (p : Ppm D F) (f : F)
      → l.num_states f ≡ l.num_states p.fst
      → Sized p
      → Sized (with_fst d l p f)
  with_fst-IsSized p f same z = record {
    max_order = z.max_order;
    max_cache = z.max_cache;
    orders = z.orders ∙ sym same;
    indices = z.indices ∙ sym same;
    below = z.below;
    fits = z.fits;
  }

  added-IsSized :
      (p : Ppm D F) (o : Option ℕ) (g : F)
      → Sized p
      → order_after o < max
      → l.num_states g ≡ l.num_states p.fst + 1
      → Sized (record p {
        fst = g;
        state_orders = p.state_orders ++ some (order_after o) ∷ [];
        cache_index = p.cache_index ++ none ∷ [];
      })
  added-IsSized p o g z less one_more = record {
    max_order = z.max_order;
    max_cache = z.max_cache;
    orders =
        omega (arith, z.orders, one_more, length-append p.state_orders (some (order_after o) ∷ []));
    indices = omega (
      arith,
      z.indices,
      one_more,
      (let new : Option ℕ = none in length-append p.cache_index (new ∷ [])),
    );
    below = λ s o' at_s. elim (get_elem?-push_inv p.state_orders (some (order_after o)) s at_s) [
      | inl (_, old) ↦ z.below s o' old
      | inr (_, new) ↦ ground (arith, new, less)
    ];
    fits = z.fits;
  }

  add_new_state-IsSized :
      (b : ℕ) (p : Ppm D F)
      → Sized p
      → ((o : Option ℕ) → get_elem? p.state_orders b ≡ some o → order_after o < max)
      → Keeps Sized (add_new_state d l b p)
  unfolding add_new_state
  add_new_state-IsSized b p z less =
      if-Keeps Sized (l.num_states p.fst == length p.state_orders) _ _
        (λ _. elim-Keeps Sized (get_elem? p.state_orders b) _ _ tt (λ o at_b.
          added-IsSized p o _ z (less o at_b)
            (laws.add_arc (l.num_states p.fst) _ (l.add_state p.fst) ∙ laws.add_state p.fst)))
        (λ other. let h = z.orders in absurd (ground arith))

  -- The transducer with the counts at one state changed.
  counted-IsSized :
      (s : ℕ) (arcs : List (Arc D)) (p : Ppm D F)
      → Sized p
      → Sized (with_fst d l p (l.with_arcs s arcs p.fst))
  counted-IsSized s arcs p z =
      with_fst-IsSized p (l.with_arcs s arcs p.fst) (laws.with_arcs s arcs p.fst) z

  count_arc-IsSized :
      (s k : ℕ) (a : Arc D) (needs : Bool) (p : Ppm D F)
      → Sized p
      → (needs ≡ true
          → (o : Option ℕ) → get_elem? p.state_orders a.nextstate ≡ some o
          → order_after o < max)
      → Keeps Sized (count_arc d l s k a needs p)
  unfolding count_arc
  count_arc-IsSized s k a false p z less = counted-IsSized s _ p z
  count_arc-IsSized s k a true p z less =
      bind-Keeps Sized (add_new_state d l a.nextstate) (λ _. pure tt) _
        (add_new_state-IsSized a.nextstate _ (counted-IsSized s _ p z) (less refl)) (λ _ q _ z. z)

  abbrev asked : Ppm D F → ℕ → ℕ → Program (Unit {0}) Bool
  asked p s b = needs_new_state p.max_order p.state_orders s b

  needs_less :
      (p q : Ppm D F) (s next : ℕ) (needs : Bool)
      → Sized q
      → calculated (asked p s next) p ≡ ok needs q
      → needs ≡ true
      → (o : Option ℕ) → get_elem? q.state_orders next ≡ some o
      → order_after o < max
  needs_less p q s next needs z e new o at_next =
      let (called, same) = calculated_inv (asked p s next) p e in
      let is_new : asked p s next tt ≡ ok true tt = called ∙ ap (λ b. ok b tt) new in
      let at_p : get_elem? p.state_orders next ≡ some o =
        subst (λ (r : Ppm D F). get_elem? r.state_orders next ≡ some o) same at_next in
      let bound : p.max_order ≡ max = ap (λ (r : Ppm D F). r.max_order) (sym same) ∙ z.max_order in
      subst (λ m. order_after o < m) bound
        (needs_new_state_lem p.max_order p.state_orders s next o is_new at_p)

  pub update_highest_found_state-IsSized :
      (s i : ℕ) (p : Ppm D F) → Sized p → Keeps Sized (update_highest_found_state d l s i p)
  unfolding update_highest_found_state
  update_highest_found_state-IsSized s zero p z =
      with_fst-IsSized p _ (laws.set_final s (counted d l (l.final s p.fst)) p.fst) z
  update_highest_found_state-IsSized s (suc i) p z =
      elim-Keeps Sized (arc_with (suc i) 0 (l.arcs s p.fst)) _ _ z (λ (k, a) _.
        bind-Keeps Sized (calculated (asked p s a.nextstate)) (count_arc d l s k a) p
          (calculated-Keeps Sized (asked p s a.nextstate) p z)
          (λ needs q e z.
            count_arc-IsSized s k a needs q z (needs_less p q s a.nextstate needs z e)))

  pub add_symbol_arc-IsSized :
      (s i b : ℕ) (p : Ppm D F) → Sized p → Keeps Sized (add_symbol_arc d l s i b p)
  unfolding add_symbol_arc
  add_symbol_arc-IsSized s zero b p z = with_fst-IsSized p _ (laws.set_final s (d.of_ℕ 0) p.fst) z
  add_symbol_arc-IsSized s (suc i) b p z =
      bind-Keeps Sized
        (calculated (asked p s b) >>= λ new. if new then add_new_state d l b else pure b) _ p
        (bind-Keeps Sized (calculated (asked p s b))
          (λ new. if new then add_new_state d l b else pure b) p
          (calculated-Keeps Sized (asked p s b) p z) added)
        (λ dest q _ z. with_fst-IsSized q _ (laws.add_arc s _ q.fst) z)
    where
      added :
          (new : Bool) (q : Ppm D F)
          → calculated (asked p s b) p ≡ ok new q
          → Sized q
          → Keeps Sized ((if new then add_new_state d l b else pure b) q)
      added true q e z = add_new_state-IsSized b q z (needs_less p q s b true z e refl)
      added false q e z = z

  -- The transducer with the back-off arc counted has the same states.
  count_backoff_arc_lem :
      (f g : F) (s : ℕ) (arcs : List (Arc D)) (nothing : Bool) (b : Option ℕ)
      → count_backoff_arc d l f s arcs nothing tt ≡ ok (b, g) tt
      → l.num_states g ≡ l.num_states f
  unfolding count_backoff_arc
  count_backoff_arc_lem f g s [] nothing b e = absurd (cc)
  count_backoff_arc_lem f g s (a ∷ others) true b e = ground (arith, e)
  count_backoff_arc_lem f g s (a ∷ others) false b e =
      ground (arith, e, laws.with_arcs s (record a { weight = counted d l a.weight } ∷ others) f)

  pub increment_backoff_arc_lem :
      (f g : F) (s : ℕ) (b : Option ℕ)
      → increment_backoff_arc d l f s tt ≡ ok (b, g) tt
      → l.num_states g ≡ l.num_states f
  unfolding increment_backoff_arc
  increment_backoff_arc_lem f g s b e =
      let (nothing, _, _, rest) =
        bind_inv (no_observations d l f s) (count_backoff_arc d l f s (l.arcs s f)) tt e in
      count_backoff_arc_lem f g s (l.arcs s f) nothing b rest
