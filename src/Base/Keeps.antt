-- ===== src/Base/Keeps.antt =====
-- Properties of the state that calls keep, however they end.
use mathlib.Core.Path.{◌≡◌, refl, sym, ◌∙◌}
use mathlib.Core.Option.{Option, none, some}
use mathlib.Core.Bool.{Bool, true, false}
use native.Mathlib.Omega.{arith}
use mozolm.Base.Tests.{if◌then◌else◌}
use mozolm.Base.Program.{
  Code, Outcome, ok, err, fault, Program, ◌>>=◌, or_fault, calculated, calculated_ok,
}

-- An outcome that leaves a state with property `P` behind, be it an error.
abbrev pub Keeps {ℓ κ} : {S : Type ℓ} {A : Type κ} → (S → Type 0) → Outcome S A → Type 0
Keeps P (ok a s) = P s
Keeps P (err c s) = P s
Keeps P fault = Unit {0}

pub bind-Keeps {ℓ κ ι} :
    {S : Type ℓ} {A : Type κ} {B : Type ι} (P : S → Type 0) (m : Program S A) (f : A → Program S B)
    (s : S)
    → Keeps P (m s)
    → ((a : A) (t : S) → m s ≡ ok a t → P t → Keeps P (f a t))
    → Keeps P (◌>>=◌ m f s)
bind-Keeps {S} {A} {B} P m f s first next = by_outcome (m s) refl first
  where
    by_outcome : (o : Outcome S A) → m s ≡ o → Keeps P o → Keeps P (◌>>=◌ m f s)
    by_outcome (ok a t) h k = rw (h, ◌>>=◌) (next a t h k)
    by_outcome (err c t) h k = rw (h, ◌>>=◌) k
    by_outcome fault h k = rw (h, ◌>>=◌) tt

pub calculated-Keeps {ℓ κ} :
    {S : Type ℓ} {A : Type κ} (P : S → Type 0) (m : Program (Unit {0}) A) (s : S)
    → P s
    → Keeps P (calculated m s)
calculated-Keeps {S} {A} P m s h = by_outcome (m tt) refl
  where
    by_outcome : (o : Outcome (Unit {0}) A) → m tt ≡ o → Keeps P (calculated m s)
    by_outcome (ok a t) e = rw (e, calculated) h
    by_outcome (err c t) e = rw (e, calculated) h
    by_outcome fault e = rw (e, calculated) tt

pub calculated_inv {ℓ κ} :
    {S : Type ℓ} {A : Type κ} (m : Program (Unit {0}) A) (s : S) {t : S} {a : A}
    → calculated m s ≡ ok a t
    → (m tt ≡ ok a tt) × (t ≡ s)
calculated_inv {S} {A} m s {t} {a} e = by_outcome (m tt) refl
  where
    by_outcome : (o : Outcome (Unit {0}) A) → m tt ≡ o → (m tt ≡ ok a tt) × (t ≡ s)
    by_outcome (ok b r) h =
        let same : ok b s ≡ ok a t = sym (calculated_ok m s h) ∙ e in
        (ground (arith, h, same), ground (arith, same))
    by_outcome (err c r) h =
        let failed : calculated m s ≡ err c s = rw (h, calculated) refl in absurd (cc)
    by_outcome fault h =
        let failed : calculated m s ≡ fault = rw (h, calculated) refl in absurd (cc)

pub or_fault-Keeps {ℓ κ} :
    {S : Type ℓ} {A : Type κ} (P : S → Type 0) (o : Option A) (s : S) → P s → Keeps P (or_fault o s)
or_fault-Keeps P none s h = tt
or_fault-Keeps P (some a) s h = h

module _ {ℓ κ} {S : Type ℓ} {A : Type κ} (P : S → Type 0) where
  pub if-Keeps :
      (b : Bool) (o r : Outcome S A)
      → (b ≡ true → Keeps P o)
      → (b ≡ false → Keeps P r)
      → Keeps P (if b then o else r)
  if-Keeps true o r h k = h refl
  if-Keeps false o r h k = k refl

  pub elim-Keeps {ι} :
      {B : Type ι} (b : Option B) (r : Outcome S A) (f : B → Outcome S A)
      → Keeps P r
      → ((x : B) → b ≡ some x → Keeps P (f x))
      → Keeps P (elim b [ none ↦ r | some x ↦ f x ])
  elim-Keeps none r f h k = h
  elim-Keeps (some x) r f h k = k x refl

pub outcome-Keeps {ℓ κ ι} :
    {S : Type ℓ} {A : Type κ} {B : Type ι} (P : S → Type 0) (o : Outcome S A)
    (f : A → S → Outcome S B) (g : Code → S → Outcome S B)
    → Keeps P o
    → ((a : A) (s : S) → P s → Keeps P (f a s))
    → ((c : Code) (s : S) → P s → Keeps P (g c s))
    → Keeps P (elim o [ ok a s ↦ f a s | err c s ↦ g c s | fault ↦ fault ])
outcome-Keeps P (ok a s) f g h k r = k a s h
outcome-Keeps P (err c s) f g h k r = r c s h
outcome-Keeps P fault f g h k r = tt
