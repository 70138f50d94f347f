-- ===== src/Ppm/Training/Tests.antt =====
-- The marks of a small transducer.
use mozolm.Base.{
  ℕ, zero, suc, ◌≡◌, ◌<◌, ◌↔◌, refl, Bool, true, none, some, List, arith, length, get_elem?,
}
use mozolm.Base.Program.{ok}
use mozolm.Double.Tests.{naturals}
use mozolm.Fst.Tests.{lists, tiny}
use mozolm.Ppm.Blending.{backoff}
use mozolm.Ppm.Training.{determine_backoff_states}
use mozolm.Ppm.Training.Marking.{BacksOff, determine_backoff_states_iff}

tiny-BacksOff : (i : ℕ) → i < 2 → BacksOff naturals lists tiny i
unfolding backoff
tiny-BacksOff zero less = (some 1, refl, λ t e. ground (arith, e))
tiny-BacksOff (suc zero) less = (none, refl, λ t e. absurd (ground (arith, e)))
tiny-BacksOff (suc (suc i)) less = absurd (omega (arith, less))

determine_backoff_states_iff_example :
    (marks : List Bool) × (determine_backoff_states naturals lists tiny tt ≡ ok marks tt)
    × (length marks ≡ 2)
    × ((t : ℕ)
        → (get_elem? marks t ≡ some true)
          ↔ ((i : ℕ) × (i < 2) × (backoff naturals lists tiny i tt ≡ ok (some t) tt)))
determine_backoff_states_iff_example =
    determine_backoff_states_iff naturals lists tiny tiny-BacksOff
