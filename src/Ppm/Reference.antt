-- ===== src/Ppm/Reference.antt =====
-- The values at a state of the PPM model without a cache: each calculated afresh along the back-offs.
use mozolm.Base.{
  ℕ, zero, suc, ◌+◌, ◌≡◌, ◌<◌, inl, inr, refl, sym, ap, ◌∙◌, true, false, Option, none, some, arith,
  leb, Bool-cases, if◌then◌else◌,
}
use mozolm.Base.Program.{Program, ok, err, fault, internal, fail, pure, ◌>>=◌, bind_ok, bind_inv}
use mozolm.Double.{Double}
use mozolm.Fst.{FstLibrary}
use mozolm.Ppm.{state_values}
use mozolm.Ppm.Blending.{Values, backoff}

module _ {D F : Type 0} (d : Double D) (l : FstLibrary D F) (alpha beta : D) (f : F) where
  -- The values of the back-off state, where there is one.
  unfoldable pub lower_reference :
      (ℕ → Program (Unit {0}) (Values D)) → Option ℕ → Program (Unit {0}) (Option (Values D))
  lower_reference reference none = pure none
  lower_reference reference (some b) = reference b >>= λ v. pure (some v)

  abbrev above_backoff :
      (ℕ → Program (Unit {0}) (Values D)) → ℕ → Option ℕ → Program (Unit {0}) (Values D)
  above_backoff reference s b = lower_reference reference b >>= state_values d l alpha beta f s

  -- The values at a state, over so many back-offs.
  unfoldable pub reference : ℕ → ℕ → Program (Unit {0}) (Values D)
  unfolding lower_reference
  reference zero s = λ _. fault
  reference (suc n) s =
      if leb (l.num_states f) s
      then fail internal
      else backoff d l f s >>= above_backoff (reference n) s

  -- What `reference` has calculated on the way.
  pub record IsCalculated (n s : ℕ) (v : Values D) : Type 0 where
    pub within : s < l.num_states f
    pub lower : Option ℕ
    pub backed_off : backoff d l f s tt ≡ ok lower tt
    pub lower_values : Option (Values D)
    pub below : lower_reference (reference n) lower tt ≡ ok lower_values tt
    pub above : state_values d l alpha beta f s lower_values tt ≡ ok v tt

  reference_step :
      (n s : ℕ)
      → leb (l.num_states f) s ≡ false
      → reference (suc n) s tt ≡ ◌>>=◌ (backoff d l f s) (above_backoff (reference n) s) tt
  unfolding reference
  reference_step n s e = rw e refl

  reference_out :
      (n s : ℕ) → leb (l.num_states f) s ≡ true → reference (suc n) s tt ≡ err internal tt
  unfolding reference
  reference_out n s e = rw e refl

  pub reference_inv :
      (n s : ℕ) (v : Values D) → reference (suc n) s tt ≡ ok v tt → IsCalculated n s v
  reference_inv n s v e = elim (Bool-cases (leb (l.num_states f) s)) [
    | inl out ↦ let failed = reference_out n s out in absurd (cc)
    | inr within ↦
        let called = sym (reference_step n s within) ∙ e in
        let (b, _, backed_off, rest) =
          bind_inv (backoff d l f s) (above_backoff (reference n) s) tt called in
        let (lower, _, below, above) =
          bind_inv (lower_reference (reference n) b) (state_values d l alpha beta f s) tt rest in
        record {
          within = ground arith;
          lower = b;
          backed_off = backed_off;
          lower_values = lower;
          below = below;
          above = above;
        }
  ]

  pub lower_reference_inv :
      (n b : ℕ) (w : Option (Values D))
      → lower_reference (reference n) (some b) tt ≡ ok w tt
      → (v : Values D) × (reference n b tt ≡ ok v tt) × (w ≡ some v)
  unfolding lower_reference
  lower_reference_inv n b w e =
      let (v, _, called, is) = bind_inv (reference n b) (λ v. pure (some v)) tt e in
      (v, called, ground (arith, is))

  reference_of : (n s : ℕ) (v : Values D) → IsCalculated n s v → reference (suc n) s tt ≡ ok v tt
  reference_of n s v c =
      reference_step n s (let h = c.within in ground arith)
      ∙ bind_ok (backoff d l f s) (above_backoff (reference n) s) tt c.backed_off
      ∙ bind_ok (lower_reference (reference n) c.lower) (state_values d l alpha beta f s) tt c.below
      ∙ c.above

  -- More fuel changes nothing.
  lower_suc :
      (n : ℕ) (b : Option ℕ) (w : Option (Values D))
      → ((s : ℕ) (v : Values D) → reference n s tt ≡ ok v tt → reference (suc n) s tt ≡ ok v tt)
      → lower_reference (reference n) b tt ≡ ok w tt
      → lower_reference (reference (suc n)) b tt ≡ ok w tt
  unfolding lower_reference
  lower_suc n none w more e = e
  lower_suc n (some b) w more e =
      let (v, _, called, is) = bind_inv (reference n b) (λ v. pure (some v)) tt e in
      bind_ok (reference (suc n) b) (λ v. pure (some v)) tt (more b v called) ∙ is

  reference-suc :
      (n s : ℕ) (v : Values D) → reference n s tt ≡ ok v tt → reference (suc n) s tt ≡ ok v tt
  unfolding reference
  reference-suc zero s v e = absurd (cc)
  reference-suc (suc n) s v e =
      let c = reference_inv n s v e in
      reference_of (suc n) s v record {
        within = c.within;
        lower = c.lower;
        backed_off = c.backed_off;
        lower_values = c.lower_values;
        below = lower_suc n c.lower c.lower_values (reference-suc n) c.below;
        above = c.above;
      }

  reference_more :
      (k n s : ℕ) (v : Values D) → reference n s tt ≡ ok v tt → reference (k + n) s tt ≡ ok v tt
  reference_more zero n s v e = let z : 0 + n ≡ n = omega arith in rw z e
  reference_more (suc k) n s v e =
      let z : suc k + n ≡ suc (k + n) = omega arith in
      rw z (reference-suc (k + n) s v (reference_more k n s v e))

  -- The values at a state, over as many back-offs as it takes.
  abbrev pub HasValues : ℕ → Values D → Type 0
  HasValues s v = (n : ℕ) × (reference n s tt ≡ ok v tt)

  pub HasValues_unique : (s : ℕ) (v w : Values D) → HasValues s v → HasValues s w → v ≡ w
  HasValues_unique s v w (n, e) (m, g) =
      let z : m + n ≡ n + m = omega arith in
      let a = reference_more m n s v e in
      let b = reference_more n m s w g in
      let eq : ok v tt ≡ ok w tt = sym a ∙ ap (λ i. reference i s tt) z ∙ b in ground (arith, eq)
