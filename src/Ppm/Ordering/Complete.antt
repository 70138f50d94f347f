-- ===== src/Ppm/Ordering/Complete.antt =====
-- `CalculateStateOrders` of mozolm/models/ppm_as_fst_model.cc sets all orders.
use mozolm.Base.{
  ℕ, zero, suc, ◌+◌, ◌-◌, ◌≡◌, ◌≢◌, ◌≤◌, ◌<◌, inl, inr, refl, sym, ap, ◌∙◌, subst, true, none, some,
  [], ◌++◌, arith, if◌then◌else◌, ltb, leb, ◌==◌, length, get_elem?, set, length-set, get_elem?-set,
  Bool-cases, replicate, length-replicate, take,
}
use mozolm.Base.Program.{Program, ok, ◌>>=◌, calculated, bind_ok, calculated_ok}
use mozolm.Double.{Double}
use mozolm.Fst.{FstLibrary}
use mozolm.Ppm.{Ppm}
use mozolm.Ppm.Blending.{backoff}
use mozolm.Ppm.Ordering.{
  Orders, set_order, calculate_state_order, orders_loop, set_unigram_order, calculated_orders,
  resized, calculate_state_orders,
}
use mozolm.Ppm.Ordering.Right.{
  HasOrder, at_start, at_unigram, IsRightSoFar, calculate_state_order_lem,
}

get_elem?-replicate : (n s o : ℕ) → get_elem? (replicate n none) s ≡ some (some o) → ⊥
get_elem?-replicate zero s o e = cc
get_elem?-replicate (suc n) zero o e = ground (arith, e)
get_elem?-replicate (suc n) (suc s) o e = get_elem?-replicate n s o e

set_order_ok :
    (s o : ℕ) (orders : Orders)
    → s < length orders
    → set_order s o orders ≡ ok o (set orders s (some o))
unfolding set_order
set_order_ok s o orders less =
    let fits : ltb s (length orders) ≡ true = ground arith in rw (fits, set_order) refl

abbrev no_orders : Orders
no_orders = []

resized-nil : (n : ℕ) → take n no_orders ++ replicate (n - 0) none ≡ replicate n none
resized-nil zero = refl
resized-nil (suc n) = let z : suc n - 0 ≡ suc n = omega arith in ap (λ k. replicate k none) z

-- The states before `s` have an order, none above `top`.
abbrev pub AllBelow : ℕ → ℕ → Orders → Type 0
AllBelow s top orders = (t : ℕ) → t < s → (o : ℕ) × (get_elem? orders t ≡ some (some o)) × (o ≤ top)

-- Every state leads to the start state or to the unigram state, by fewer than so many back-offs.
abbrev pub AllOrdered : {D F : Type 0} → Double D → FstLibrary D F → F → ℕ → ℕ → Type 0
AllOrdered d l f unigram fuel =
    (s : ℕ) → s < l.num_states f → (o : ℕ) × HasOrder d l f unigram s o × (o < fuel)

module _ {D F : Type 0} (d : Double D) (l : FstLibrary D F) (f : F) (unigram : ℕ)
    (apart : l.start f ≢ unigram) (fuel : ℕ) where
  abbrev SoFar : Orders → Type 0
  SoFar = IsRightSoFar d l f unigram

  abbrev Ordered : Type 0
  Ordered = AllOrdered d l f unigram fuel

  orders_loop_lem :
      (k s top : ℕ) (orders : Orders)
      → s + k ≡ l.num_states f
      → Ordered
      → SoFar orders
      → AllBelow s top orders
      → (top' : ℕ) × (after : Orders) × (orders_loop d l fuel f k s top orders ≡ ok top' after)
        × SoFar after
        × (top ≤ top')
        × AllBelow (l.num_states f) top' after
  unfolding orders_loop
  orders_loop_lem zero s top orders all ordered so_far below =
      (top, orders, refl, so_far, omega arith, λ t less. below t (omega (arith, all)))
  orders_loop_lem (suc k) s top orders all ordered so_far below =
      let (o, has, enough) = ordered s (omega (arith, all)) in
      let (orders1, called, so_far1, extends, here) =
        calculate_state_order_lem d l f unigram apart fuel s o orders has enough so_far in
      let top1 = if ltb top o then o else top in
      let above_o : o ≤ top1 = ground arith in
      let above_top : top ≤ top1 = ground arith in
      let (top2, after, looped, so_far2, more, complete) =
        orders_loop_lem k (s + 1) top1 orders1 (omega (arith, all)) ordered so_far1 (λ t less.
          elim (Bool-cases (s == t)) [
            | inl same ↦ (o, ap (λ i. get_elem? orders1 i) (sym (ground arith)) ∙ here, above_o)
            | inr distinct ↦
                let (x, at_t, within) = below t (ground arith) in
                (x, extends t x at_t, omega (arith, within, above_top))
          ]) in
      (
        top2,
        after,
        bind_ok (calculate_state_order d l fuel f s)
              (λ o. orders_loop d l fuel f k (s + 1) (if ltb top o then o else top)) orders called
            ∙ looped,
        so_far2,
        omega (arith, above_top, more),
        complete,
      )

  abbrev unset : Orders
  unset = replicate (l.num_states f) none

  abbrev first_set : Orders
  first_set = set (set unset (l.start f) (some 1)) unigram (some 0)

  module _ (start_within : l.start f < l.num_states f)
      (unigram_within : unigram < l.num_states f) where
    sizes :
        (length unset ≡ l.num_states f) × (length (set unset (l.start f) (some 1)) ≡ l.num_states f)
    sizes =
        let n = length-replicate (l.num_states f) none in
        (n, length-set unset (l.start f) (some 1) ∙ n)

    first_read :
        (t : ℕ)
        → get_elem? first_set t ≡ (
            if unigram == t
            then some (some 0)
            else if l.start f == t
            then some (some 1)
            else get_elem? unset t)
    first_read t =
        let (n, n1) = sizes in
        let a = get_elem?-set unset (l.start f) t (some 1) (omega (arith, n, start_within)) in
        let b =
          get_elem?-set (set unset (l.start f) (some 1)) unigram t (some 0)
            (omega (arith, n1, unigram_within)) in
        b ∙ ap (λ r. if unigram == t then some (some 0) else r) a

    first_set-IsRightSoFar : SoFar first_set
    first_set-IsRightSoFar = record {
      size = length-set (set unset (l.start f) (some 1)) unigram (some 0) ∙ sizes.1;
      right = right;
      start = ground (arith, first_read (l.start f), apart);
      unigram_zero = ground (arith, first_read unigram);
    }
      where
        right : (s o : ℕ) → get_elem? first_set s ≡ some (some o) → HasOrder d l f unigram s o
        right s o e = elim (Bool-cases (unigram == s)) [
          | inl same ↦
              let is : o ≡ 0 = ground (arith, e, first_read s, same) in
              subst (λ x. HasOrder d l f unigram s x) (sym is) (at_unigram (ground arith))
          | inr not_unigram ↦ elim (Bool-cases (l.start f == s)) [
            | inl same ↦
                let is : o ≡ 1 = ground (arith, e, first_read s, same, not_unigram) in
                subst (λ x. HasOrder d l f unigram s x) (sym is) (at_start (ground arith))
            | inr other ↦
                let read : get_elem? unset s ≡ some (some o) =
                  ground (arith, e, first_read s, other, not_unigram) in
                absurd (get_elem?-replicate (l.num_states f) s o read)
          ]
        ]

    calculated_orders_lem :
        backoff d l f (l.start f) tt ≡ ok (some unigram) tt
        → Ordered
        → (top : ℕ) × (after : Orders) × (calculated_orders d l fuel f unset ≡ ok top after)
          × SoFar after
          × AllBelow (l.num_states f) top after
    unfolding calculated_orders set_order set_unigram_order
    calculated_orders_lem back ordered =
        let (n, n1) = sizes in
        let (top, after, looped, so_far, _, below) =
          orders_loop_lem (l.num_states f) 0 1 first_set (omega arith) ordered
            first_set-IsRightSoFar (λ t less. absurd (omega (arith, less))) in
        let loop : ℕ → Program Orders ℕ = λ _. orders_loop d l fuel f (l.num_states f) 0 1 in
        let marked = set unset (l.start f) (some 1) in
        (
          top,
          after,
          bind_ok (set_order (l.start f) 1)
                (λ _.
                  calculated (backoff d l f (l.start f)) >>= λ b. set_unigram_order d l b >>= loop)
                unset (set_order_ok (l.start f) 1 unset (omega (arith, n, start_within)))
              ∙ bind_ok (calculated (backoff d l f (l.start f)))
                  (λ b. set_unigram_order d l b >>= loop) marked
                  (calculated_ok (backoff d l f (l.start f)) marked back)
              ∙ bind_ok (set_order unigram 0) loop marked
                  (set_order_ok unigram 0 marked (omega (arith, n1, unigram_within)))
              ∙ looped,
          so_far,
          below,
        )

module _ {D F : Type 0} (d : Double D) (l : FstLibrary D F) (p : Ppm D F) (unigram fuel : ℕ) where
  -- `CalculateStateOrders` of a model without orders, whose start state has the unigram state for its
  -- back-off and whose every state leads to one of the two by fewer than `fuel` back-offs: it returns, each
  -- state then has the order that its back-offs define, and every order is below the order of the
  -- model, which has not become smaller.
  pub calculate_state_orders_lem :
      p.state_orders ≡ []
      → l.start p.fst ≢ unigram
      → l.start p.fst < l.num_states p.fst
      → unigram < l.num_states p.fst
      → backoff d l p.fst (l.start p.fst) tt ≡ ok (some unigram) tt
      → AllOrdered d l p.fst unigram fuel
      → (top : ℕ) × (orders : Orders) × (calculate_state_orders d l fuel true p
          ≡ ok tt (record p { state_orders = orders; max_order = top }))
        × (p.max_order ≤ top)
        × (length orders ≡ l.num_states p.fst)
        × ((s : ℕ)
            → s < l.num_states p.fst
            → (o : ℕ) × (get_elem? orders s ≡ some (some o))
              × HasOrder d l p.fst unigram s o
              × (o < top))
  unfolding calculate_state_orders
  calculate_state_orders_lem none_set apart start_within unigram_within back ordered =
      let (most, orders, called, so_far, below) =
        calculated_orders_lem d l p.fst unigram apart fuel start_within unigram_within back
          ordered in
      let top = if leb p.max_order most then most + 1 else p.max_order in
      let is_unset : resized d l p.fst p.state_orders ≡ replicate (l.num_states p.fst) none =
        ap (λ o. resized d l p.fst o) none_set ∙ resized-nil (l.num_states p.fst) in
      let called_p : calculated_orders d l fuel p.fst (resized d l p.fst p.state_orders)
          ≡ ok most orders =
        ap (λ o. calculated_orders d l fuel p.fst o) is_unset ∙ called in
      (
        top,
        orders,
        rw (called_p, calculate_state_orders) refl,
        ground arith,
        so_far.size,
        λ s less.
            let (o, at_s, within) = below s less in (o, at_s, so_far.right s o at_s, ground arith),
      )
