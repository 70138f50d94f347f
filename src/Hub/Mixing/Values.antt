-- ===== src/Hub/Mixing/Values.antt =====
-- What `MixResults` of mozolm/models/language_model_hub.cc makes of the values of each symbol.
use mozolm.Base.{
  ◌≡◌, ◌↔◌, refl, sym, ap, ◌∙◌, Bool, true, false, Option, some, List, [], ◌∷◌, arith, length,
  Bool-cases, if◌then◌else◌, inl, inr,
}
use mozolm.Double.{Double}
use mozolm.Utf8.{Bytes}
use mozolm.Hub.Mixing.{find_value, insert_or_assign, mixed_value, mix_loop}

-- A test for equal strings.
abbrev pub IsEquality : (Bytes → Bytes → Bool) → Type 0
IsEquality same_bytes = (a b : Bytes) → (same_bytes a b ≡ true) ↔ (a ≡ b)

module _ {D : Type 0} (d : Double D) (same_bytes : Bytes → Bytes → Bool)
    (equality : IsEquality same_bytes) where
  -- The value of one symbol from the probabilities listed for it, on top of an old value.
  pub gathered : D → Bytes → List Bytes → List D → Option D → Option D
  gathered mix_weight k [] probabilities old = old
  gathered mix_weight k (key ∷ keys) [] old = old
  gathered mix_weight k (key ∷ keys) (p ∷ ps) old =
      gathered mix_weight k keys ps
        (if same_bytes key k then some (mixed_value d same_bytes p mix_weight old) else old)

  -- Two strings that differ are not both equal to a third.
  apart :
      (j key k : Bytes)
      → same_bytes j key ≡ false
      → same_bytes j k ≡ true
      → same_bytes key k ≡ false
  apart j key k e f = elim (Bool-cases (same_bytes key k)) [
    | inr unequal ↦ unequal
    | inl equal ↦
        let eq : j ≡ key = (equality j k).0 f ∙ sym ((equality key k).0 equal) in
        let same = (equality j key).1 eq in absurd (cc)
  ]

  find-insert :
      (key k : Bytes) (v : D) (mixed : List (Bytes × D))
      → find_value d same_bytes k (insert_or_assign d same_bytes key v mixed)
        ≡ (if same_bytes key k then some v else find_value d same_bytes k mixed)
  unfolding find_value insert_or_assign
  find-insert key k v [] = refl
  find-insert key k v ((j, x) ∷ rest) = elim (Bool-cases (same_bytes j key)) [
    | inl same ↦
        let eq : j ≡ key = (equality j key).0 same in
        ground (arith, same, ap (λ (b : Bytes). same_bytes b k) eq)
    | inr other ↦
        let rest' = find-insert key k v rest in ground (arith, other, rest', apart j key k other)
  ]

  -- `MixResults` on as many probabilities as symbols: the value of each symbol afterwards comes from
  -- the probabilities listed for that symbol alone and from its value before.
  pub mix_loop_lem :
      (mix_weight : D) (symbols : List Bytes) (probabilities : List D) (mixed : List (Bytes × D))
      → length symbols ≡ length probabilities
      → (out : List (Bytes × D)) × (mix_loop d same_bytes mix_weight symbols probabilities mixed
          ≡ some out)
        × ((k : Bytes)
            → find_value d same_bytes k out
              ≡ gathered mix_weight k symbols probabilities (find_value d same_bytes k mixed))
  unfolding mix_loop gathered
  mix_loop_lem w [] [] mixed e = (mixed, refl, λ k. refl)
  mix_loop_lem w [] (p ∷ ps) mixed e = absurd (ground arith)
  mix_loop_lem w (key ∷ keys) [] mixed e = absurd (ground arith)
  mix_loop_lem w (key ∷ keys) (p ∷ ps) mixed e =
      let v = mixed_value d same_bytes p w (find_value d same_bytes key mixed) in
      let (out, called, values) =
        mix_loop_lem w keys ps (insert_or_assign d same_bytes key v mixed) (ground arith) in
      (
        out,
        called,
        λ k. values k ∙ ap (gathered w k keys ps) (find-insert key k v mixed ∙ of_key k),
      )
    where
      of_key :
          (k : Bytes)
          → (if same_bytes key k
              then some (mixed_value d same_bytes p w (find_value d same_bytes key mixed))
              else find_value d same_bytes k mixed)
            ≡ (if same_bytes key k
                then some (mixed_value d same_bytes p w (find_value d same_bytes k mixed))
                else find_value d same_bytes k mixed)
      of_key k = elim (Bool-cases (same_bytes key k)) [
        | inl same ↦
            let eq : key ≡ k = (equality key k).0 same in
            ground (arith, same, ap (λ (b : Bytes). find_value d same_bytes b mixed) eq)
        | inr other ↦ ground (arith, other)
      ]
