-- ===== src/Hub/Mixing/Tests.antt =====
-- Mixing at concrete scores.
use mozolm.Base.{same_bytes, same_bytes_iff, ℕ, ◌≡◌, refl, some, List, [], ◌∷◌}
use mozolm.Double.Tests.{naturals}
use mozolm.Utf8.{Bytes}
use mozolm.Hub.Mixing.{find_value, mix_loop}
use mozolm.Hub.Mixing.Values.{gathered, mix_loop_lem}

mix_loop_lem_example :
    (out : List (Bytes × ℕ)) × (mix_loop naturals same_bytes 3
        ((1 ∷ []) ∷ (2 ∷ []) ∷ (1 ∷ []) ∷ [])
        (4 ∷ 5 ∷ 6 ∷ [])
        (((2 ∷ []), 7) ∷ [])
      ≡ some out)
    × ((k : Bytes)
        → find_value naturals same_bytes k out
          ≡ gathered naturals same_bytes same_bytes_iff 3 k
              ((1 ∷ []) ∷ (2 ∷ []) ∷ (1 ∷ []) ∷ [])
              (4 ∷ 5 ∷ 6 ∷ [])
              (find_value naturals same_bytes k (((2 ∷ []), 7) ∷ [])))
mix_loop_lem_example =
    mix_loop_lem naturals same_bytes same_bytes_iff 3 ((1 ∷ []) ∷ (2 ∷ []) ∷ (1 ∷ []) ∷ [])
      (4 ∷ 5 ∷ 6 ∷ []) (((2 ∷ []), 7) ∷ []) refl
