-- ===== src/Base/Program.antt =====
-- Stateful code: a call takes the object's state and ends in one of three ways.
use mathlib.Core.Path.{◌≡◌, refl, sym, subst, ◌∙◌}
use mathlib.Core.Bool.{Bool, true, false}
use mozolm.Base.Tests.{if◌then◌else◌}
use mathlib.Core.Option.{Option, none, some}

-- The codes of `absl::Status` that the code returns; messages are left out.
pub data Code : Type 0 where
  internal invalid_argument not_found out_of_range unimplemented permission_denied : Code

-- `ok` is a plain return or an OK status, `err` a status with a code; both leave a state behind.
-- `fault` is undefined behaviour or an uncaught exception: an access out of bounds, an overflow of a
-- signed integer, a code point that the UTF-8 library throws on.
pub data Outcome {ℓ κ} (S : Type ℓ) (A : Type κ) : Type (ℓ ⊔ κ) where
  ok : A → S → Outcome S A
  err : Code → S → Outcome S A
  fault : Outcome S A

-- `absl::StatusOr`, of a function without state.
pub data StatusOr {ℓ} (A : Type ℓ) : Type ℓ where
  value : A → StatusOr A
  status : Code → StatusOr A

abbrev pub Program {ℓ κ} : Type ℓ → Type κ → Type (ℓ ⊔ κ)
Program S A = S → Outcome S A

module _ {ℓ} {S : Type ℓ} where
  abbrev pub pure {κ} : {A : Type κ} → A → Program S A
  pure a s = ok a s

  abbrev pub fail {κ} : {A : Type κ} → Code → Program S A
  fail c s = err c s

  infixl 5 ◌>>=◌ ◌>>◌
  abbrev pub ◌>>=◌ {κ ι} : {A : Type κ} {B : Type ι} → Program S A → (A → Program S B) → Program S B
  ◌>>=◌ m f s = elim (m s) [ ok a t ↦ f a t | err c t ↦ err c t | fault ↦ fault ]

  abbrev pub ◌>>◌ {κ} : {B : Type κ} → Program S (Unit {0}) → Program S B → Program S B
  m >> k = m >>= λ _. k

  -- A value that a checked access found; a fault where it is out of bounds.
  abbrev pub or_fault {κ} : {A : Type κ} → Option A → Program S A
  or_fault (some a) s = ok a s
  or_fault none s = fault

  -- `status.ok() ? value : other`, the state as the call left it.
  abbrev pub or_else {κ} : {A : Type κ} → Program S A → (Code → A) → Program S A
  or_else m f s = elim (m s) [ ok a t ↦ ok a t | err c t ↦ ok (f c) t | fault ↦ fault ]

  abbrev pub lift {κ} : {A : Type κ} → StatusOr A → Program S A
  lift (value a) s = ok a s
  lift (status c) s = err c s

  -- A calculation without state.
  abbrev pub calculated {κ} : {A : Type κ} → Program (Unit {0}) A → Program S A
  calculated m s = elim (m tt) [ ok a t ↦ ok a s | err c t ↦ err c s | fault ↦ fault ]

  abbrev pub get : Program S S
  get s = ok s s

  abbrev pub put : S → Program S (Unit {0})
  put t s = ok tt t

  -- A call that returns, with its value and the state that it leaves in the relation `P`.
  abbrev pub Returns {κ} : {A : Type κ} → (A → S → Type 0) → Outcome S A → Type 0
  Returns P (ok a s) = P a s
  Returns P (err c s) = ⊥
  Returns P fault = ⊥

-- What follows a call that returns.
pub bind_ok {ℓ κ ι} :
    {S : Type ℓ} {A : Type κ} {B : Type ι} (m : Program S A) (f : A → Program S B) (s : S) {t : S}
    {a : A}
    → m s ≡ ok a t
    → ◌>>=◌ m f s ≡ f a t
bind_ok m f s e = rw (e, ◌>>=◌)

pub bind_err {ℓ κ ι} :
    {S : Type ℓ} {A : Type κ} {B : Type ι} (m : Program S A) (f : A → Program S B) (s : S) {t : S}
    {c : Code}
    → m s ≡ err c t
    → ◌>>=◌ m f s ≡ err c t
bind_err m f s e = rw (e, ◌>>=◌)

-- Sequences whose parts end alike end alike.
pub bind_same {ℓ κ ι} :
    {S : Type ℓ} {A : Type κ} {B : Type ι} (m n : Program S A) (f g : A → Program S B) (s t : S)
    → m s ≡ n t
    → ((a : A) (r : S) → f a r ≡ g a r)
    → ◌>>=◌ m f s ≡ ◌>>=◌ n g t
bind_same {S} {A} {B} m n f g s t e same = by_outcome (n t) refl
  where
    by_outcome : (o : Outcome S A) → n t ≡ o → ◌>>=◌ m f s ≡ ◌>>=◌ n g t
    by_outcome (ok a r) h = bind_ok m f s (e ∙ h) ∙ same a r ∙ sym (bind_ok n g t h)
    by_outcome (err c r) h = bind_err m f s (e ∙ h) ∙ sym (bind_err n g t h)
    by_outcome fault h = rw (e, h, ◌>>=◌) refl

pub else_ok {ℓ κ} :
    {S : Type ℓ} {A : Type κ} (m : Program S A) (f : Code → A) (s : S) {t : S} {a : A}
    → m s ≡ ok a t
    → or_else m f s ≡ ok a t
else_ok m f s e = rw (e, or_else)

-- A sequence that returns has a first call that returns.
pub bind_inv {ℓ κ ι} :
    {S : Type ℓ} {A : Type κ} {B : Type ι} (m : Program S A) (f : A → Program S B) (s : S) {t : S}
    {b : B}
    → ◌>>=◌ m f s ≡ ok b t
    → (a : A) × (r : S) × (m s ≡ ok a r) × (f a r ≡ ok b t)
bind_inv {S} {A} {B} m f s {t} {b} e = by_outcome (m s) refl
  where
    by_outcome : (o : Outcome S A) → m s ≡ o → (a : A) × (r : S) × (m s ≡ ok a r) × (f a r ≡ ok b t)
    by_outcome (ok a r) h = (a, r, h, sym (bind_ok m f s h) ∙ e)
    by_outcome (err c r) h = absurd (cc)
    by_outcome fault h = absurd (cc)

pub calculated_ok {ℓ κ} :
    {S : Type ℓ} {A : Type κ} (m : Program (Unit {0}) A) (s : S) {a : A}
    → m tt ≡ ok a tt
    → calculated m s ≡ ok a s
calculated_ok m s e = rw (calculated, e) refl

pub or_fault_ok {ℓ κ} :
    {S : Type ℓ} {A : Type κ} (o : Option A) (s : S) {a : A} → o ≡ some a → or_fault o s ≡ ok a s
or_fault_ok o s e = rw e refl

-- A call that does not end in a fault: its value and the state that it leaves are in the relation `P`,
-- or it is an error, for which there is the reason `E`.
abbrev pub Settles {ℓ κ} :
    {S : Type ℓ} {A : Type κ} → Type 0 → (A → S → Type 0) → Outcome S A → Type 0
Settles E P (ok a s) = P a s
Settles E P (err c s) = E
Settles E P fault = ⊥

module _ {ℓ} {S : Type ℓ} (E : Type 0) where
  pub Settles-bind {κ ι} :
      {A : Type κ} {B : Type ι} (P : A → S → Type 0) (Q : B → S → Type 0) (m : Program S A)
      (f : A → Program S B) (s : S)
      → Settles E P (m s)
      → ((a : A) (t : S) → P a t → Settles E Q (f a t))
      → Settles E Q (◌>>=◌ m f s)
  Settles-bind {A} {B} P Q m f s settled next = by_outcome (m s) refl settled
    where
      by_outcome : (o : Outcome S A) → m s ≡ o → Settles E P o → Settles E Q (◌>>=◌ m f s)
      by_outcome (ok a t) h p = subst (Settles E Q) (sym (bind_ok m f s h)) (next a t p)
      by_outcome (err c t) h p = subst (Settles E Q) (sym (bind_err m f s h)) p
      by_outcome fault h p = absurd p

  -- The same, where what follows may use that the call has returned.
  pub Settles-call {κ ι} :
      {A : Type κ} {B : Type ι} (P : A → S → Type 0) (Q : B → S → Type 0) (m : Program S A)
      (f : A → Program S B) (s : S)
      → Settles E P (m s)
      → ((a : A) (t : S) → m s ≡ ok a t → P a t → Settles E Q (f a t))
      → Settles E Q (◌>>=◌ m f s)
  Settles-call {A} {B} P Q m f s settled next = by_outcome (m s) refl settled
    where
      by_outcome : (o : Outcome S A) → m s ≡ o → Settles E P o → Settles E Q (◌>>=◌ m f s)
      by_outcome (ok a t) h p = subst (Settles E Q) (sym (bind_ok m f s h)) (next a t h p)
      by_outcome (err c t) h p = subst (Settles E Q) (sym (bind_err m f s h)) p
      by_outcome fault h p = absurd p

  pub Settles-if {κ} :
      {A : Type κ} (P : A → S → Type 0) (b : Bool) (m n : Program S A) (s : S)
      → (b ≡ true → Settles E P (m s))
      → (b ≡ false → Settles E P (n s))
      → Settles E P ((if b then m else n) s)
  Settles-if P true m n s holds fails = holds refl
  Settles-if P false m n s holds fails = fails refl

  pub Settles-weaken {κ} :
      {A : Type κ} (P Q : A → S → Type 0)
      → ((a : A) (s : S) → P a s → Q a s)
      → (o : Outcome S A) → Settles E P o
      → Settles E Q o
  Settles-weaken P Q implies (ok a s) p = implies a s p
  Settles-weaken P Q implies (err c s) e = e
  Settles-weaken P Q implies fault p = absurd p
