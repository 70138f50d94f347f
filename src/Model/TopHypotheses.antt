-- ===== src/Model/TopHypotheses.antt =====
-- What `GetTopHypotheses` returns.
use mathlib.Core.List.{zip, Perm, append-nil}
use mathlib.Core.List
use native.Mathlib.Bridge.{from_ℕ}
use mathlib.Core.List.Perm
use mozolm.Base.{
  ℕ, zero, suc, ◌≡◌, ◌≤◌, ◌<◌, refl, true, false, List, [], ◌∷◌, ◌++◌, arith, length, take, All,
  ◌==◌, sym, ap, ◌∙◌, leb,
}
use mozolm.Base.Int.{ℤ, pos, negsuc, leb_ℤ, is_neg}
use mozolm.Base.Program.{value}
use mozolm.Double.{Double}
use mozolm.Utf8.{Bytes}
use mozolm.Model.{LmScores, first_of_top, get_top_hypotheses}

-- Every entry is at least as likely as those after it.
abbrev pub IsDescending : {D : Type 0} → Double D → List (D × Bytes) → Type 0
IsDescending d [] = Unit
IsDescending d (h ∷ hs) = All (λ r. d.lt h.0 r.0 ≡ false) hs × IsDescending d hs

-- What `std::sort` promises of the comparator `a.first > b.first`.
pub record IsSort {D : Type 0} (d : Double D) (sort : List (D × Bytes) → List (D × Bytes))
    : Type 0 where
  pub permutes : (hs : List (D × Bytes)) → Perm (sort hs) hs
  pub descends : (hs : List (D × Bytes)) → IsDescending d (sort hs)

abbrev pub drop {ℓ} : {A : Type ℓ} → ℕ → List A → List A
drop zero xs = xs
drop (suc n) [] = []
drop (suc n) (x ∷ xs) = drop n xs

take-append-drop {ℓ} : {A : Type ℓ} (n : ℕ) (xs : List A) → take n xs ++ drop n xs ≡ xs
take-append-drop zero xs = refl
take-append-drop (suc n) [] = refl
take-append-drop (suc n) (x ∷ xs) = ap (λ t. x ∷ t) (take-append-drop n xs)

module _ {D : Type 0} (d : Double D) where
  IsDescending-split :
      (n : ℕ) (hs : List (D × Bytes))
      → IsDescending d hs
      → IsDescending d (take n hs)
        × All (λ h. All (λ r. d.lt h.0 r.0 ≡ false) (drop n hs)) (take n hs)
  IsDescending-split zero hs s = (tt, tt)
  IsDescending-split (suc n) [] s = (tt, tt)
  IsDescending-split (suc n) (h ∷ hs) (a, s) =
      let (sorted, above) = IsDescending-split n hs s in
      let (front, back) = All-split (λ r. d.lt h.0 r.0 ≡ false) n hs a in
      ((front, sorted), (back, above))
    where
      All-split :
          (P : D × Bytes → Type 0) (k : ℕ) (rs : List (D × Bytes))
          → All P rs
          → All P (take k rs) × All P (drop k rs)
      All-split P zero rs p = (tt, p)
      All-split P (suc k) [] p = (tt, tt)
      All-split P (suc k) (r ∷ rs) (p, ps) = let (f, b) = All-split P k rs ps in ((p, f), b)

length-take_le {ℓ} : {A : Type ℓ} (n : ℕ) (xs : List A) → n ≤ length xs → length (take n xs) ≡ n
length-take_le zero xs h = refl
length-take_le (suc n) [] h = absurd (omega arith)
length-take_le (suc n) (x ∷ xs) h = ap suc (length-take_le n xs (omega arith))

length-from_ℕ {ℓ} : {A : Type ℓ} (xs : List A) → from_ℕ (List.length xs) ≡ length xs
length-from_ℕ [] = refl
length-from_ℕ (x ∷ xs) = ap suc (length-from_ℕ xs)

length-perm {ℓ} : {A : Type ℓ} {xs ys : List A} → Perm xs ys → length xs ≡ length ys
length-perm {A} {xs} {ys} p =
    sym (length-from_ℕ xs) ∙ ap from_ℕ (Perm.length-eq p) ∙ length-from_ℕ ys

length-zip {ℓ κ} :
    {A : Type ℓ} {B : Type κ} (xs : List A) (ys : List B)
    → length xs ≡ length ys
    → length (zip xs ys) ≡ length xs
unfolding zip
length-zip [] ys e = refl
length-zip (x ∷ xs) [] e = absurd (omega arith)
length-zip (x ∷ xs) (y ∷ ys) e = ap suc (length-zip xs ys (omega arith))

leb-false : (a b : ℕ) → leb a b ≡ false → b < a
leb-false a b h = ground arith

module _ {D : Type 0} (d : Double D) (sort : List (D × Bytes) → List (D × Bytes)) where
  -- The candidates that are returned for `top_n`, and those that are left out.
  pub record IsTop (scores : LmScores D) (top_n : ℤ) (hyps : List (D × Bytes)) : Type 0 where
    pub others : List (D × Bytes)
    pub permutes : Perm (hyps ++ others) (zip scores.probabilities scores.symbols)
    pub descends : IsDescending d hyps
    pub above : All (λ h. All (λ r. d.lt h.0 r.0 ≡ false) others) hyps
    pub counted : (n : ℕ) → top_n ≡ pos (suc n) → length hyps ≡ suc n
    pub all : is_neg top_n ≡ true → others ≡ []

  module _ (law : IsSort d sort) (scores : LmScores D) where
    abbrev entries : List (D × Bytes)
    entries = zip scores.probabilities scores.symbols

    everything : (top_n : ℤ) → is_neg top_n ≡ true → IsTop scores top_n (sort entries)
    everything top_n negative = record {
      others = [];
      permutes = rw append-nil (law.permutes entries);
      descends = law.descends entries;
      above = All-trivial (sort entries);
      counted = λ n e. absurd (ground arith);
      all = λ _. refl;
    }
      where
        All-trivial : (hs : List (D × Bytes)) → All (λ h. Unit {0}) hs
        All-trivial [] = tt
        All-trivial (h ∷ hs) = (tt, All-trivial hs)

    front :
        (n : ℕ)
        → suc n ≤ length (sort entries)
        → IsTop scores (pos (suc n)) (take (suc n) (sort entries))
    front n h =
        let (sorted, above) = IsDescending-split d (suc n) (sort entries) (law.descends entries) in
        record {
          others = drop (suc n) (sort entries);
          permutes = rw (take-append-drop (suc n) (sort entries)) (law.permutes entries);
          descends = sorted;
          above = above;
          counted = λ k e. (length-take_le (suc n) (sort entries) h) ∙ (ground arith);
          all = λ k. absurd (ground arith);
        }

    first_of_top-IsTop :
        (top_n : ℤ)
        → ¬ (top_n ≡ pos 0)
        → length scores.probabilities ≡ length scores.symbols
        → leb_ℤ (pos (length scores.probabilities)) top_n ≡ false
        → IsTop scores top_n (first_of_top top_n (sort entries))
    unfolding first_of_top
    first_of_top-IsTop (negsuc n) some_wanted e h = everything (negsuc n) refl
    first_of_top-IsTop (pos zero) some_wanted e h = absurd (some_wanted refl)
    first_of_top-IsTop (pos (suc n)) some_wanted e h =
        let nonzero : (suc n == 0) ≡ false = ground arith in
        rw nonzero (
          front n (
            omega (
              arith,
              length-perm (law.permutes entries),
              length-zip scores.probabilities scores.symbols e,
              leb-false _ _ h,
            )))

    -- Where the probabilities and the symbols are as many and `top_n` is not 0 and below their number,
    -- which is not 0, `GetTopHypotheses` succeeds. What it returns and what it leaves out are together the
    -- entries of the response; what it returns stands by descending probability, and none of what it
    -- leaves out is more likely. For a positive `top_n` it returns that many, for a negative one all.
    pub get_top_hypotheses_lem :
        (top_n : ℤ)
        → ¬ (top_n ≡ pos 0)
        → length scores.probabilities ≡ length scores.symbols
        → 0 < length scores.probabilities
        → leb_ℤ (pos (length scores.probabilities)) top_n ≡ false
        → (hyps : List (D × Bytes)) × (get_top_hypotheses sort scores top_n ≡ value hyps)
          × IsTop scores top_n hyps
    unfolding get_top_hypotheses
    get_top_hypotheses_lem top_n some_wanted e p h =
        (first_of_top top_n (sort entries), ground arith, first_of_top-IsTop top_n some_wanted e h)
