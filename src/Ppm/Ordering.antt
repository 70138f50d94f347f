-- ===== src/Ppm/Ordering.antt =====
-- mozolm/models/ppm_as_fst_model.cc: the orders of the states of a model that is read, each one above that
-- of its back-off state.
pub mod Right
pub mod Tests
pub mod Complete
use mozolm.Base.{
  ℕ, zero, suc, ◌+◌, ◌-◌, Bool, true, false, Option, none, some, List, [], ◌∷◌, ◌++◌, if◌then◌else◌,
  ltb, leb, length, get_elem?, set, replicate, take,
}
use mozolm.Base.Program.{Program, ok, err, fault, fail, pure, internal, ◌>>=◌, ◌>>◌, calculated}
use mozolm.Double.{Double}
use mozolm.Fst.{FstLibrary}
use mozolm.Ppm.{Ppm}
use mozolm.Ppm.Blending.{backoff}

-- `state_orders_`, of which `none` is -1.
abbrev pub Orders : Type 0
Orders = List (Option ℕ)

-- `state_orders_[s] = o`, a fault out of bounds.
pub set_order : ℕ → ℕ → Program Orders ℕ
set_order s o orders = if ltb s (length orders) then ok o (set orders s (some o)) else fault

module _ {D F : Type 0} (d : Double D) (l : FstLibrary D F) where
  -- The part of `CalculateStateOrder` behind the call of `GetBackoffState`, where `order` is
  -- `CalculateStateOrder`.
  pub order_above : (ℕ → Program Orders ℕ) → ℕ → Option ℕ → Program Orders ℕ
  unfolding set_order
  order_above order s none = fail internal
  order_above order s (some b) = order b >>= λ o. set_order s (o + 1)

  -- `CalculateStateOrder`.
  pub calculate_state_order : ℕ → F → ℕ → Program Orders ℕ
  unfolding order_above
  calculate_state_order zero f s orders = fault
  calculate_state_order (suc n) f s orders = elim (get_elem? orders s) [
    | none ↦ fault
    | some (some o) ↦ ok o orders
    | some none ↦
        ◌>>=◌ (calculated (backoff d l f s)) (order_above (calculate_state_order n f) s) orders
  ]

  -- The loop of `CalculateStateOrders` over so many states from `s` on, with the largest order so far.
  pub orders_loop : ℕ → F → ℕ → ℕ → ℕ → Program Orders ℕ
  unfolding calculate_state_order
  orders_loop fuel f zero s max_state_order = pure max_state_order
  orders_loop fuel f (suc k) s max_state_order = calculate_state_order fuel f s >>= λ o.
      orders_loop fuel f k (s + 1) (if ltb max_state_order o then o else max_state_order)

  -- `state_orders_[unigram_state] = 0`; there is no element for -1.
  pub set_unigram_order : Option ℕ → Program Orders ℕ
  unfolding set_order
  set_unigram_order none = λ orders. fault
  set_unigram_order (some b) = set_order b 0

  -- The largest order, the orders in the state.
  pub calculated_orders : ℕ → F → Program Orders ℕ
  unfolding orders_loop set_unigram_order
  calculated_orders fuel f = do
    first ← set_order (l.start f) 1
    b ← calculated (backoff d l f (l.start f))
    unigram ← set_unigram_order b
    orders_loop fuel f (l.num_states f) 0 1

  -- `state_orders_.resize(fst_->NumStates(), -1)`.
  abbrev pub resized : F → Orders → Orders
  resized f orders = take (l.num_states f) orders ++ replicate (l.num_states f - length orders) none

  -- `CalculateStateOrders`.
  pub calculate_state_orders : ℕ → Bool → Program (Ppm D F) (Unit {0})
  unfolding calculated_orders
  calculate_state_orders fuel save_state_orders p =
      elim (calculated_orders fuel p.fst (resized p.fst p.state_orders)) [
        | fault ↦ fault
        | err c orders ↦ err c (record p { state_orders = orders })
        | ok max_state_order orders ↦ ok tt (record p {
          state_orders = if save_state_orders then orders else [];
          max_order = if leb p.max_order max_state_order then max_state_order + 1 else p.max_order;
        })
      ]
