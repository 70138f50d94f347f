-- ===== src/Ppm/Ordering/Tests.antt =====
-- The orders of the two states of a small transducer.
use mozolm.Base.{ℕ, zero, suc, ◌≡◌, ◌≤◌, ◌<◌, refl, true, some, [], arith, length, get_elem?}
use mozolm.Base.Program.{ok}
use mozolm.Double.Tests.{naturals}
use mozolm.Fst.Tests.{ListFst, lists, tiny}
use mozolm.Ppm.{Ppm}
use mozolm.Ppm.Tests.{unread}
use mozolm.Ppm.Blending.{backoff}
use mozolm.Ppm.Ordering.{Orders, calculate_state_orders}
use mozolm.Ppm.Ordering.Right.{HasOrder, at_start, at_unigram}
use mozolm.Ppm.Ordering.Complete.{AllOrdered, calculate_state_orders_lem}

-- The model before its orders are calculated.
abbrev without_orders : Ppm ℕ ListFst
without_orders = record unread { state_orders = []; max_order = 1 }

pub tiny-backoff : backoff naturals lists tiny 0 tt ≡ ok (some 1) tt
unfolding backoff
tiny-backoff = refl

pub tiny-AllOrdered : AllOrdered naturals lists tiny 1 2
tiny-AllOrdered zero less = (1, at_start refl, omega arith)
tiny-AllOrdered (suc zero) less = (0, at_unigram refl, omega arith)
tiny-AllOrdered (suc (suc s)) less = absurd (omega (arith, less))

calculate_state_orders_lem_example :
    (top : ℕ) × (orders : Orders) × (calculate_state_orders naturals lists 2 true without_orders
      ≡ ok tt (record without_orders { state_orders = orders; max_order = top }))
    × (1 ≤ top)
    × (length orders ≡ 2)
    × ((s : ℕ)
        → s < 2
        → (o : ℕ) × (get_elem? orders s ≡ some (some o))
          × HasOrder naturals lists tiny 1 s o
          × (o < top))
calculate_state_orders_lem_example =
    calculate_state_orders_lem naturals lists without_orders 1 2 refl (omega arith) (omega arith)
      (omega arith) tiny-backoff tiny-AllOrdered
