-- ===== src/Ppm/Ordering/Right.antt =====
-- The orders that mozolm/models/ppm_as_fst_model.cc calculates are those that the back-offs define.
use mozolm.Base.{
  ℕ, zero, suc, ◌+◌, ◌≡◌, ◌≢◌, ◌<◌, inl, inr, refl, sym, ap, ◌∙◌, subst, true, false, Option, none,
  some, arith, ltb, ◌==◌, length, get_elem?, set, length-set, get_elem?-set, lt-of-get_elem?,
  get_elem?_of_lt, Bool-cases,
}
use mozolm.Base.Program.{Program, ok, calculated, bind_ok, calculated_ok}
use mozolm.Double.{Double}
use mozolm.Fst.{FstLibrary}
use mozolm.Ppm.Blending.{backoff}
use mozolm.Ppm.Ordering.{Orders, set_order, order_above, calculate_state_order}

module _ {D F : Type 0} (d : Double D) (l : FstLibrary D F) (f : F) (unigram : ℕ) where
  -- The order of a state: one at the start state, none at its back-off, the unigram state, and one more
  -- than at the back-off state elsewhere.
  pub data HasOrder : ℕ → ℕ → Type 0 where
    at_start : {s : ℕ} → s ≡ l.start f → HasOrder s 1
    at_unigram : {s : ℕ} → s ≡ unigram → HasOrder s 0
    above :
        {s o : ℕ} (b : ℕ)
        → s ≢ l.start f
        → s ≢ unigram
        → backoff d l f s tt ≡ ok (some b) tt
        → HasOrder b o
        → HasOrder s (o + 1)

  module _ (apart : l.start f ≢ unigram) where
    HasOrder_unique : {s o o' : ℕ} → HasOrder s o → HasOrder s o' → o ≡ o'
    HasOrder_unique (at_start e) (at_start e') = refl
    HasOrder_unique (at_start e) (at_unigram e') = absurd (apart (sym e ∙ e'))
    HasOrder_unique (at_start e) (above b n n' back h) = absurd (n e)
    HasOrder_unique (at_unigram e) (at_start e') = absurd (apart (sym e' ∙ e))
    HasOrder_unique (at_unigram e) (at_unigram e') = refl
    HasOrder_unique (at_unigram e) (above b n n' back h) = absurd (n' e)
    HasOrder_unique (above b n n' back h) (at_start e) = absurd (n e)
    HasOrder_unique (above b n n' back h) (at_unigram e) = absurd (n' e)
    HasOrder_unique {s} (above {o = o} b n n' back h) (above {o = o'} b' m m' back' h') =
        let same : b ≡ b' =
          (let e : ok (some b) tt ≡ ok (some b') tt = sym back ∙ back' in ground (arith, e)) in
        ap (λ x. x + 1) (HasOrder_unique h (subst (λ x. HasOrder x o') (sym same) h'))

  -- Orders of the states of the model, right as far as they are set; the start state and the unigram state
  -- are.
  pub record IsRightSoFar (orders : Orders) : Type 0 where
    pub size : length orders ≡ l.num_states f
    pub right : (s o : ℕ) → get_elem? orders s ≡ some (some o) → HasOrder s o
    pub start : get_elem? orders (l.start f) ≡ some (some 1)
    pub unigram_zero : get_elem? orders unigram ≡ some (some 0)

  -- Orders that are set stay as they are.
  abbrev Extends : Orders → Orders → Type 0
  Extends a b = (s o : ℕ) → get_elem? a s ≡ some (some o) → get_elem? b s ≡ some (some o)

  -- A call that returns order `o`, on orders that are right so far.
  abbrev Calculates : Program Orders ℕ → Orders → ℕ → ℕ → Type 0
  Calculates call orders s o =
      (after : Orders) × (call orders ≡ ok o after)
      × IsRightSoFar after
      × Extends orders after
      × (get_elem? after s ≡ some (some o))

  module _ (apart : l.start f ≢ unigram) where
    other_read :
        (orders : Orders) (s t o : ℕ)
        → s < length orders
        → s ≢ t
        → get_elem? (set orders s (some o)) t ≡ get_elem? orders t
    other_read orders s t o bound h =
        let differ : (s == t) ≡ false = ground (arith, h) in
        ground (arith, get_elem?-set orders s t (some o) bound)

    -- The order that is set behind the call for the back-off state.
    set_above :
        (before orders : Orders) (s o : ℕ)
        → IsRightSoFar orders
        → Extends before orders
        → get_elem? before s ≡ some none
        → s < l.num_states f
        → HasOrder s (o + 1)
        → s ≢ l.start f
        → s ≢ unigram
        → (after : Orders) × (set_order s (o + 1) orders ≡ ok (o + 1) after)
          × IsRightSoFar after
          × Extends before after
          × (get_elem? after s ≡ some (some (o + 1)))
    unfolding set_order
    set_above before orders s o so_far extends unset within has not_start not_unigram =
        let after = set orders s (some (o + 1)) in
        let bound : s < length orders = (let z = so_far.size in omega arith) in
        let fits : ltb s (length orders) ≡ true = ground arith in
        let other : (t : ℕ) → s ≢ t → get_elem? after t ≡ get_elem? orders t =
          λ t h. other_read orders s t (o + 1) bound h in
        let here : get_elem? after s ≡ some (some (o + 1)) =
          ground (arith, get_elem?-set orders s s (some (o + 1)) bound) in
        (
          after,
          rw fits refl,
          record {
            size = length-set orders s (some (o + 1)) ∙ so_far.size;
            right = λ t x at_t. elim (Bool-cases (s == t)) [
              | inl same ↦
                  let is_t : s ≡ t = ground arith in
                  let is_x : x ≡ o + 1 =
                    ground (arith, at_t, here, ap (λ i. get_elem? after i) is_t) in
                  subst (λ y. HasOrder t y) (sym is_x) (subst (λ i. HasOrder i (o + 1)) is_t has)
              | inr distinct ↦ so_far.right t x (sym (other t (ground arith)) ∙ at_t)
            ];
            start = other (l.start f) not_start ∙ so_far.start;
            unigram_zero = other unigram not_unigram ∙ so_far.unigram_zero;
          },
          λ t x at_t. elim (Bool-cases (s == t)) [
            | inl same ↦
                let is_t : s ≡ t = ground arith in
                let clash : get_elem? before t ≡ some none =
                  ap (λ i. get_elem? before i) (sym is_t) ∙ unset in
                absurd (ground (arith, clash, at_t))
            | inr distinct ↦ other t (ground arith) ∙ extends t x at_t
          ],
          here,
        )

    HasOrder_within :
        (orders : Orders) (s o : ℕ) → IsRightSoFar orders → HasOrder s o → s < l.num_states f
    unfolding backoff
    HasOrder_within orders s o so_far (at_start e) =
        let bound = lt-of-get_elem? orders (l.start f) so_far.start in
        omega (arith, so_far.size, bound, e)
    HasOrder_within orders s o so_far (at_unigram e) =
        let bound = lt-of-get_elem? orders unigram so_far.unigram_zero in
        omega (arith, so_far.size, bound, e)
    HasOrder_within orders s o so_far (above b n n' back h) =
        elim (Bool-cases (ltb s (l.num_states f))) [
          | inl less ↦ ground arith
          | inr more ↦
              let is : backoff d l f s tt ≡ ok none tt = rw more refl in
              let e : ok none tt ≡ ok (some b) tt = sym is ∙ back in absurd (ground (arith, e))
        ]

    module _ (n s : ℕ) (orders : Orders) (so_far : IsRightSoFar orders) where
      -- The order is not set yet.
      calculate_unset :
          (o : ℕ)
          → HasOrder s o
          → get_elem? orders s ≡ some none
          → ((b x : ℕ)
              → HasOrder b x
              → x + 1 ≡ o
              → Calculates (calculate_state_order d l n f b) orders b x)
          → Calculates (calculate_state_order d l (suc n) f s) orders s o
      unfolding calculate_state_order order_above
      calculate_unset o (at_start e) unset rest =
          let set_there : get_elem? orders s ≡ some (some 1) =
            ap (λ i. get_elem? orders i) e ∙ so_far.start in
          absurd (ground (arith, unset, set_there))
      calculate_unset o (at_unigram e) unset rest =
          let set_there : get_elem? orders s ≡ some (some 0) =
            ap (λ i. get_elem? orders i) e ∙ so_far.unigram_zero in
          absurd (ground (arith, unset, set_there))
      calculate_unset o (above {o = x} b n1 n2 back h) unset rest =
          let (orders1, called, so_far1, extends, _) = rest b x h refl in
          let within = HasOrder_within orders s (x + 1) so_far (above b n1 n2 back h) in
          let (orders2, set, so_far2, extends2, here) =
            set_above orders orders1 s x so_far1 extends unset within (above b n1 n2 back h) n1
              n2 in
          (
            orders2,
            rw (unset, calculate_state_order)
                (bind_ok (calculated (backoff d l f s))
                    (order_above d l (calculate_state_order d l n f) s) orders
                    (calculated_ok (backoff d l f s) orders back)
                  ∙ bind_ok (calculate_state_order d l n f b) (λ y. set_order s (y + 1)) orders
                      called
                  ∙ set),
            so_far2,
            extends2,
            here,
          )

      calculate_set :
          (o x : ℕ)
          → HasOrder s o
          → get_elem? orders s ≡ some (some x)
          → Calculates (calculate_state_order d l (suc n) f s) orders s o
      unfolding calculate_state_order
      calculate_set o x has at_s =
          let same : x ≡ o = HasOrder_unique apart (so_far.right s x at_s) has in
          (
            orders,
            rw (at_s, calculate_state_order) (ap (λ y. ok y orders) same),
            so_far,
            λ t y e. e,
            at_s ∙ ap (λ y. some (some y)) same,
          )

    pub calculate_state_order_lem :
        (n s o : ℕ) (orders : Orders)
        → HasOrder s o
        → o < n
        → IsRightSoFar orders
        → Calculates (calculate_state_order d l n f s) orders s o
    calculate_state_order_lem zero s o orders has less so_far = absurd (omega arith)
    calculate_state_order_lem (suc n) s o orders has less so_far =
        let (x, at_s) =
          get_elem?_of_lt orders s
            (let w = HasOrder_within orders s o so_far has in let z = so_far.size in omega arith) in
        by_entry x at_s
          (λ b y h e. calculate_state_order_lem n b y orders h (omega (arith, e)) so_far)
      where
        by_entry :
            (x : Option ℕ)
            → get_elem? orders s ≡ some x
            → ((b y : ℕ)
                → HasOrder b y
                → y + 1 ≡ o
                → Calculates (calculate_state_order d l n f b) orders b y)
            → Calculates (calculate_state_order d l (suc n) f s) orders s o
        by_entry none at_s rest = calculate_unset n s orders so_far o has at_s rest
        by_entry (some x) at_s rest = calculate_set n s orders so_far o x has at_s
