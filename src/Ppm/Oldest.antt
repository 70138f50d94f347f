-- ===== src/Ppm/Oldest.antt =====
-- `FindOldestLastAccessedCache` of mozolm/models/ppm_as_fst_model.cc.
use mozolm.Base.{
  ℕ, zero, suc, ◌+◌, ◌≡◌, ◌<◌, ◌⊎◌, inl, inr, refl, ap, subst, true, false, some, List, [], ◌∷◌,
  arith, length, get_elem?, Bool-cases,
}
use mozolm.Base.Int.{ℤ, pos, negsuc, ltb_ℤ}
use mozolm.Ppm.{CacheEntry, oldest_loop, find_oldest_last_accessed_cache}

ltb_ℤ_chain : (a b c : ℤ) → ltb_ℤ a b ≡ true → ltb_ℤ a c ≡ false → ltb_ℤ b c ≡ false
ltb_ℤ_chain (pos a) (pos b) (pos c) p q = ground arith
ltb_ℤ_chain (pos a) (pos b) (negsuc c) p q = refl
ltb_ℤ_chain (pos a) (negsuc b) c p q = cc
ltb_ℤ_chain (negsuc a) (pos b) (pos c) p q = cc
ltb_ℤ_chain (negsuc a) (pos b) (negsuc c) p q = refl
ltb_ℤ_chain (negsuc a) (negsuc b) (pos c) p q = cc
ltb_ℤ_chain (negsuc a) (negsuc b) (negsuc c) p q = ground arith

-- Neither `a` before `b` nor `b` before `c`.
ltb_ℤ_swap : (a b c : ℤ) → ltb_ℤ a b ≡ false → ltb_ℤ b c ≡ false → ltb_ℤ a c ≡ false
ltb_ℤ_swap (pos a) (pos b) (pos c) p q = ground arith
ltb_ℤ_swap (pos a) (pos b) (negsuc c) p q = refl
ltb_ℤ_swap (pos a) (negsuc b) (pos c) p q = cc
ltb_ℤ_swap (pos a) (negsuc b) (negsuc c) p q = refl
ltb_ℤ_swap (negsuc a) (pos b) c p q = cc
ltb_ℤ_swap (negsuc a) (negsuc b) (pos c) p q = cc
ltb_ℤ_swap (negsuc a) (negsuc b) (negsuc c) p q = ground arith

ltb_ℤ_self : (a : ℤ) → ltb_ℤ a a ≡ false
ltb_ℤ_self (pos a) = ground arith
ltb_ℤ_self (negsuc a) = ground arith

module _ {D : Type 0} where
  -- No entry was accessed before `m`.
  abbrev pub NoneBefore : ℤ → List (CacheEntry D) → Type 0
  NoneBefore m es =
      (j : ℕ) (e : CacheEntry D) → get_elem? es j ≡ some e → ltb_ℤ e.last_accessed m ≡ false

  -- The entry that a loop from `i` on ends with, and its access `m`.
  abbrev IsLeast : ℕ → ℕ → ℤ → List (CacheEntry D) → ℕ → ℤ → Type 0
  IsLeast i least oldest es r m =
      ((r ≡ least) × (m ≡ oldest))
      ⊎ ((j : ℕ) × (e : CacheEntry D) × (r ≡ i + j)
          × (get_elem? es j ≡ some e)
          × (m ≡ e.last_accessed))

  taken :
      (i least : ℕ) (oldest : ℤ) (e : CacheEntry D) (es : List (CacheEntry D)) (r : ℕ) (m : ℤ)
      → IsLeast (i + 1) i e.last_accessed es r m
      → IsLeast i least oldest (e ∷ es) r m
  taken i least oldest e es r m (inl (p, q)) = inr (0, e, omega arith, refl, q)
  taken i least oldest e es r m (inr (j, x, p, at_j, q)) = inr (suc j, x, omega arith, at_j, q)

  passed :
      (i least : ℕ) (oldest : ℤ) (e : CacheEntry D) (es : List (CacheEntry D)) (r : ℕ) (m : ℤ)
      → IsLeast (i + 1) least oldest es r m
      → IsLeast i least oldest (e ∷ es) r m
  passed i least oldest e es r m (inl (p, q)) = inl (p, q)
  passed i least oldest e es r m (inr (j, x, p, at_j, q)) = inr (suc j, x, omega arith, at_j, q)

  covered :
      (m : ℤ) (e : CacheEntry D) (es : List (CacheEntry D))
      → ltb_ℤ e.last_accessed m ≡ false
      → NoneBefore m es
      → NoneBefore m (e ∷ es)
  covered m e es first rest zero x at_j =
      let is_e : e ≡ x = ground arith in
      subst (λ (y : CacheEntry D). ltb_ℤ y.last_accessed m ≡ false) is_e first
  covered m e es first rest (suc j) x at_j = rest j x at_j

  oldest_loop_lem :
      (i least : ℕ) (oldest : ℤ) (es : List (CacheEntry D))
      → (m : ℤ) × IsLeast i least oldest es (oldest_loop i least oldest es) m
        × (ltb_ℤ oldest m ≡ false)
        × NoneBefore m es
  unfolding oldest_loop
  oldest_loop_lem i least oldest [] =
      (oldest, inl (refl, refl), ltb_ℤ_self oldest, λ j e at_j. absurd (cc))
  oldest_loop_lem i least oldest (e ∷ es) = elim (Bool-cases (ltb_ℤ e.last_accessed oldest)) [
    | inl older ↦
        let (m, is, below, none_before) = oldest_loop_lem (i + 1) i e.last_accessed es in
        (
          m,
          rw older (taken i least oldest e es (oldest_loop (i + 1) i e.last_accessed es) m is),
          ltb_ℤ_chain e.last_accessed oldest m older below,
          covered m e es (below) none_before,
        )
    | inr newer ↦
        let (m, is, below, none_before) = oldest_loop_lem (i + 1) least oldest es in
        (
          m,
          rw newer (passed i least oldest e es (oldest_loop (i + 1) least oldest es) m is),
          below,
          covered m e es (ltb_ℤ_swap e.last_accessed oldest m newer below) none_before,
        )
  ]

  -- In a cache that is not empty `FindOldestLastAccessedCache` returns the index of an entry, and none
  -- of the cache was accessed before that entry.
  pub find_oldest_last_accessed_cache_lem :
      (sc : List (CacheEntry D))
      → 0 < length sc
      → (k : ℕ) × (e : CacheEntry D) × (find_oldest_last_accessed_cache sc ≡ some k)
        × (get_elem? sc k ≡ some e)
        × NoneBefore e.last_accessed sc
  unfolding find_oldest_last_accessed_cache
  find_oldest_last_accessed_cache_lem [] h = absurd (omega arith)
  find_oldest_last_accessed_cache_lem (e ∷ es) h =
      let (m, is, below, rest) = oldest_loop_lem 1 0 e.last_accessed es in
      found (oldest_loop 1 0 e.last_accessed es) m is below rest
    where
      found :
          (r : ℕ) (m : ℤ)
          → IsLeast 1 0 e.last_accessed es r m
          → ltb_ℤ e.last_accessed m ≡ false
          → NoneBefore m es
          → (k : ℕ) × (x : CacheEntry D) × (some r ≡ some k)
            × (get_elem? (e ∷ es) k ≡ some x)
            × NoneBefore x.last_accessed (e ∷ es)
      found r m (inl (p, q)) below rest =
          (0, e, ap some p, refl, subst (λ n. NoneBefore n (e ∷ es)) q (covered m e es below rest))
      found r m (inr (j, x, p, at_j, q)) below rest = (
        suc j,
        x,
        ap some (omega arith),
        at_j,
        subst (λ n. NoneBefore n (e ∷ es)) q (covered m e es below rest),
      )
