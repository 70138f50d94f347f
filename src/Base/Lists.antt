-- ===== src/Base/Lists.antt =====
-- Vectors as lists measured and indexed by native numbers, under the library's names.
use Prim.Native.Nat.{ℕ, zero, suc, ◌+◌, ◌<◌}
use mathlib.Core.Path.{◌≡◌, refl, ap, subst, ◌∙◌}
use mathlib.Core.Logic.{◌⊎◌, ◌↔◌, inl, inr}
use mathlib.Core.Bool.{Bool, true, false, ◌&&◌}
use mathlib.Core.List.{List, [], ◌∷◌, ◌++◌, map}
use mathlib.Core.Option.{Option, none, some}
use native.Mathlib.Omega.{arith}
use mozolm.Base.Tests.{◌==◌, if◌then◌else◌, Bool-cases}

module _ {ℓ} {A : Type ℓ} where
  abbrev pub length : List A → ℕ
  length [] = 0
  length (x ∷ xs) = suc (length xs)

  abbrev pub get_elem? : List A → ℕ → Option A
  get_elem? [] i = none
  get_elem? (x ∷ xs) zero = some x
  get_elem? (x ∷ xs) (suc i) = get_elem? xs i

  -- A write out of bounds changes nothing; the callers test the index first.
  abbrev pub set : List A → ℕ → A → List A
  set [] i v = []
  set (x ∷ xs) zero v = v ∷ xs
  set (x ∷ xs) (suc i) v = x ∷ set xs i v

  abbrev pub replicate : ℕ → A → List A
  replicate zero a = []
  replicate (suc n) a = a ∷ replicate n a

  abbrev pub take : ℕ → List A → List A
  take zero xs = []
  take (suc n) [] = []
  take (suc n) (x ∷ xs) = x ∷ take n xs

module _ {ℓ} {A : Type ℓ} where
  pub length-append : (xs ys : List A) → length (xs ++ ys) ≡ length xs + length ys
  length-append [] ys = omega arith
  length-append (x ∷ xs) ys = omega (arith, length-append xs ys)

  pub length-map {κ} : {B : Type κ} (f : A → B) (xs : List A) → length (map f xs) ≡ length xs
  length-map f [] = refl
  length-map f (x ∷ xs) = ap suc (length-map f xs)

  pub length-replicate : (n : ℕ) (a : A) → length (replicate n a) ≡ n
  length-replicate zero a = refl
  length-replicate (suc n) a = ap suc (length-replicate n a)

  pub length-set : (xs : List A) (i : ℕ) (v : A) → length (set xs i v) ≡ length xs
  length-set [] i v = refl
  length-set (x ∷ xs) zero v = refl
  length-set (x ∷ xs) (suc i) v = ap suc (length-set xs i v)

  -- Reading after a write, at every index.
  pub get_elem?-set :
      (xs : List A) (i j : ℕ) (v : A)
      → i < length xs
      → get_elem? (set xs i v) j ≡ (if i == j then some v else get_elem? xs j)
  get_elem?-set [] i j v h = elim h [ ]
  get_elem?-set (x ∷ xs) zero zero v h = refl
  get_elem?-set (x ∷ xs) zero (suc j) v h = ground arith
  get_elem?-set (x ∷ xs) (suc i) zero v h = ground arith
  get_elem?-set (x ∷ xs) (suc i) (suc j) v h = ground (arith, get_elem?-set xs i j v)

  pub get_elem?-append_old :
      (xs ys : List A) (i : ℕ) → i < length xs → get_elem? (xs ++ ys) i ≡ get_elem? xs i
  get_elem?-append_old [] ys i h = elim h [ ]
  get_elem?-append_old (x ∷ xs) ys zero h = refl
  get_elem?-append_old (x ∷ xs) ys (suc i) h = get_elem?-append_old xs ys i (omega arith)

  pub get_elem?-append_new :
      (xs ys : List A) (i : ℕ) → i ≡ length xs → get_elem? (xs ++ ys) i ≡ get_elem? ys 0
  get_elem?-append_new [] ys zero h = refl
  get_elem?-append_new [] ys (suc i) h = absurd (omega arith)
  get_elem?-append_new (x ∷ xs) ys zero h = absurd (omega arith)
  get_elem?-append_new (x ∷ xs) ys (suc i) h = get_elem?-append_new xs ys i (omega arith)

  -- What stands in a vector after `push_back`.
  pub get_elem?-push_inv :
      (xs : List A) (y : A) (i : ℕ) {x : A}
      → get_elem? (xs ++ y ∷ []) i ≡ some x
      → ((i < length xs) × (get_elem? xs i ≡ some x)) ⊎ ((i ≡ length xs) × (x ≡ y))
  get_elem?-push_inv [] y zero e = ground arith
  get_elem?-push_inv [] y (suc i) e = absurd (cc)
  get_elem?-push_inv (z ∷ xs) y zero e = inl (omega arith, e)
  get_elem?-push_inv (z ∷ xs) y (suc i) e = elim (get_elem?-push_inv xs y i e) [
    | inl (lt, h) ↦ inl (omega arith, h)
    | inr (at, h) ↦ inr (omega arith, h)
  ]

  pub lt-of-get_elem? : (xs : List A) (i : ℕ) {x : A} → get_elem? xs i ≡ some x → i < length xs
  lt-of-get_elem? [] i e = cc
  lt-of-get_elem? (x ∷ xs) zero e = omega arith
  lt-of-get_elem? (x ∷ xs) (suc i) e = omega (arith, lt-of-get_elem? xs i e)

  pub get_elem?_of_lt : (xs : List A) (i : ℕ) → i < length xs → (x : A) × (get_elem? xs i ≡ some x)
  get_elem?_of_lt [] i h = elim h [ ]
  get_elem?_of_lt (x ∷ xs) zero h = (x, refl)
  get_elem?_of_lt (x ∷ xs) (suc i) h = get_elem?_of_lt xs i (omega arith)

  pub get_elem?-map {κ} :
      {B : Type κ} (f : A → B) (xs : List A) (i : ℕ) {x : A}
      → get_elem? xs i ≡ some x
      → get_elem? (map f xs) i ≡ some (f x)
  get_elem?-map f [] i e = cc
  get_elem?-map f (x ∷ xs) zero e = cc
  get_elem?-map f (x ∷ xs) (suc i) e = get_elem?-map f xs i e

pub get_elem?-map_inv {ℓ κ} :
    {A : Type ℓ} {B : Type κ} (f : A → B) (xs : List A) (i : ℕ) {y : B}
    → get_elem? (map f xs) i ≡ some y
    → (x : A) × (get_elem? xs i ≡ some x) × (f x ≡ y)
get_elem?-map_inv f [] i e = absurd (cc)
get_elem?-map_inv f (x ∷ xs) zero e = (x, refl, ground arith)
get_elem?-map_inv f (x ∷ xs) (suc i) e = get_elem?-map_inv f xs i e

abbrev pub All {ℓ κ} : {A : Type ℓ} → (A → Type κ) → List A → Type κ
All P [] = Unit
All P (x ∷ xs) = P x × All P xs

module _ {ℓ κ} {A : Type ℓ} (P : A → Type κ) where
  pub All-append : (xs ys : List A) → All P xs → All P ys → All P (xs ++ ys)
  All-append [] ys h k = k
  All-append (x ∷ xs) ys (p, h) k = (p, All-append xs ys h k)

  pub All-get_elem? : (xs : List A) (i : ℕ) {x : A} → All P xs → get_elem? xs i ≡ some x → P x
  All-get_elem? [] i h e = absurd (cc)
  All-get_elem? (y ∷ xs) zero (p, h) e = subst P (cc) p
  All-get_elem? (y ∷ xs) (suc i) (p, h) e = All-get_elem? xs i h e

  pub All-set : (xs : List A) (i : ℕ) (v : A) → All P xs → P v → All P (set xs i v)
  All-set [] i v h k = tt
  All-set (x ∷ xs) zero v (p, h) k = (k, h)
  All-set (x ∷ xs) (suc i) v (p, h) k = (p, All-set xs i v h k)

-- `==` on `std::string`.
abbrev pub same_bytes : List ℕ → List ℕ → Bool
same_bytes [] [] = true
same_bytes (a ∷ xs) (b ∷ ys) = let rest = same_bytes xs ys in (a == b) && rest
same_bytes _ _ = false

pub same_bytes_iff : (a b : List ℕ) → (same_bytes a b ≡ true) ↔ (a ≡ b)
same_bytes_iff a b = (to a b, λ e. from a b e)
  where
    to : (a b : List ℕ) → same_bytes a b ≡ true → a ≡ b
    to [] [] e = refl
    to [] (y ∷ ys) e = absurd (cc)
    to (x ∷ xs) [] e = absurd (cc)
    to (x ∷ xs) (y ∷ ys) e = elim (Bool-cases (x == y)) [
      | inr other ↦ absurd (ground arith)
      | inl same ↦ elim (Bool-cases (same_bytes xs ys)) [
        | inr others ↦ absurd (ground arith)
        | inl others ↦
            let head : x ≡ y = ground arith in
            ap (λ t. t ∷ xs) head ∙ ap (λ t. y ∷ t) (to xs ys others)
      ]
    ]

    self : (a : List ℕ) → same_bytes a a ≡ true
    self [] = refl
    self (x ∷ xs) = let rest = self xs in ground arith

    from : (a b : List ℕ) → a ≡ b → same_bytes a b ≡ true
    from a b e = subst (λ t. same_bytes a t ≡ true) e (self a)
