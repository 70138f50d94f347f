-- ===== src/Ppm/Fresh.antt =====
-- `EnsureCacheAtState` of mozolm/models/ppm_as_fst_model.cc on a model that does not change, where the
-- entry of the state is there, and the check whether it is.
use mozolm.Base.{
  ℕ, zero, suc, ◌+◌, ◌≡◌, ◌≤◌, ◌<◌, ◌⊎◌, inl, inr, refl, ◌∙◌, subst, Bool, true, false, Option,
  none, some, List, arith, ◌==◌, get_elem?, get_elem?_of_lt,
}
use mozolm.Base.Int.{ℤ, ltb_ℤ}
use mozolm.Base.Program.{ok, pure, or_fault, ◌>>=◌, calculated, bind_ok, calculated_ok, or_fault_ok}
use mozolm.Double.{Double}
use mozolm.Fst.{FstLibrary}
use mozolm.Ppm.{
  CacheEntry, Ppm, max_int, entry_updated, lower_next, lower_loop, lower_order_cache_updated,
  refreshed, checked_entry, ensure_cache_at_state,
}
use mozolm.Ppm.Blending.{Values, backoff}
use mozolm.Ppm.Placing.{with_cache, IsCache}
use mozolm.Ppm.Storing.{touched_lem}
use mozolm.Ppm.Reference.{
  reference, lower_reference, IsCalculated, reference_inv, lower_reference_inv, HasValues,
  HasValues_unique,
}

module _ {D F : Type 0} (d : Double D) (l : FstLibrary D F) where
  -- Every entry of the cache holds the values of its state, over the states of the model.
  abbrev pub IsRight : Ppm D F → List (Option ℕ) → List (CacheEntry D) → Type 0
  IsRight p ci sc =
      IsCache (HasValues d l p.alpha p.beta p.fst) (l.num_states p.fst) p.max_cache_size ci sc

  abbrev pub IsCalculatedAt : Ppm D F → ℕ → ℕ → Values D → Type 0
  IsCalculatedAt p n s v = reference d l p.alpha p.beta p.fst n s tt ≡ ok v tt

  module _ (p : Ppm D F) (cache : IsRight p p.cache_index p.state_cache) where
    entry_updated_lem :
        (lu : ℤ) (b : ℕ) (o : Option ℕ)
        → get_elem? p.cache_index b ≡ some o
        → (r : Bool) × (entry_updated d l p lu o tt ≡ ok r tt)
    unfolding entry_updated
    entry_updated_lem lu b none at_b = (false, refl)
    entry_updated_lem lu b (some k) at_b =
        let (e, at_k, _) = cache.indexed.index b k at_b in
        (
          ltb_ℤ lu e.last_updated,
          bind_ok (or_fault (get_elem? p.state_cache k)) (λ e. pure (ltb_ℤ lu e.last_updated)) tt
              (or_fault_ok (get_elem? p.state_cache k) tt at_k),
        )

    abbrev Ends : ℕ → ℤ → ℕ → Type 0
    Ends n lu b = (r : Bool) × (lower_loop d l n p lu (some b) tt ≡ ok r tt)

    loop_next :
        (n m : ℕ) (lu : ℤ) (b : ℕ) (v : Values D) (r : Bool)
        → IsCalculated d l p.alpha p.beta p.fst m b v
        → ((t : ℕ) (w : Values D) → IsCalculatedAt p m t w → Ends n lu t)
        → (q : Bool) × (lower_next d l (lower_loop d l n p lu) p.fst b r tt ≡ ok q tt)
    unfolding lower_next lower_loop
    loop_next n m lu b v true c ends = (true, refl)
    loop_next n m lu b v false c ends = on c.lower c.backed_off c.lower_values c.below
      where
        back :
            {q : Bool} (o : Option ℕ)
            → backoff d l p.fst b tt ≡ ok o tt
            → lower_loop d l n p lu o tt ≡ ok q tt
            → ◌>>=◌ (backoff d l p.fst b) (lower_loop d l n p lu) tt ≡ ok q tt
        back o e h = bind_ok (backoff d l p.fst b) (lower_loop d l n p lu) tt e ∙ h

        on :
            (o : Option ℕ)
            → backoff d l p.fst b tt ≡ ok o tt
            → (w : Option (Values D))
            → lower_reference d l p.alpha p.beta p.fst (reference d l p.alpha p.beta p.fst m) o tt
              ≡ ok w tt
            → (q : Bool) × (◌>>=◌ (backoff d l p.fst b) (lower_loop d l n p lu) tt ≡ ok q tt)
        on none e w below = (false, back none e refl)
        on (some t) e w below =
            let (v', at_t, _) = lower_reference_inv d l p.alpha p.beta p.fst m t w below in
            let (q, h) = ends t v' at_t in (q, back (some t) e h)

    -- The loop ends, and every access is in bounds.
    lower_loop_lem :
        (n m : ℕ) (lu : ℤ) (b : ℕ) (v : Values D) → IsCalculatedAt p m b v → m ≤ n → Ends n lu b
    unfolding lower_loop reference
    lower_loop_lem n zero lu b v e h = absurd (cc)
    lower_loop_lem zero (suc m) lu b v e h = absurd (omega arith)
    lower_loop_lem (suc n) (suc m) lu b v e h =
        let c = reference_inv d l p.alpha p.beta p.fst m b v e in
        let (o, at_b) =
          get_elem?_of_lt p.cache_index b (let z = cache.size in let w = c.within in omega arith) in
        let (r, updated) = entry_updated_lem lu b o at_b in
        let called : ◌>>=◌ (or_fault (get_elem? p.cache_index b)) (entry_updated d l p lu) tt
            ≡ ok r tt =
          bind_ok (or_fault (get_elem? p.cache_index b)) (entry_updated d l p lu) tt
            (or_fault_ok (get_elem? p.cache_index b) tt at_b)
          ∙ updated in
        let (q, next) =
          loop_next n m lu b v r c (λ t w at_t. lower_loop_lem n m lu t w at_t (omega arith)) in
        (
          q,
          bind_ok (or_fault (get_elem? p.cache_index b) >>= entry_updated d l p lu)
                (lower_next d l (lower_loop d l n p lu) p.fst b) tt called
              ∙ next,
        )

    pub lower_order_cache_updated_lem :
        (n m s : ℕ) (v : Values D)
        → IsCalculatedAt p (suc m) s v
        → m ≤ n
        → (r : Bool) × (lower_order_cache_updated d l n s p tt ≡ ok r tt)
          × ((r ≡ true) ⊎ ((k : ℕ) × (get_elem? p.cache_index s ≡ some (some k))))
    unfolding lower_order_cache_updated lower_loop lower_next
    lower_order_cache_updated_lem n m s v e h =
        let c = reference_inv d l p.alpha p.beta p.fst m s v e in
        let (o, at_s) =
          get_elem?_of_lt p.cache_index s (let z = cache.size in let w = c.within in omega arith) in
        by_index c o at_s
      where
        Checked : Type 0
        Checked =
            (r : Bool) × (lower_order_cache_updated d l n s p tt ≡ ok r tt)
            × ((r ≡ true) ⊎ ((k : ℕ) × (get_elem? p.cache_index s ≡ some (some k))))

        by_index :
            IsCalculated d l p.alpha p.beta p.fst m s v
            → (o : Option ℕ) → get_elem? p.cache_index s ≡ some o
            → Checked
        by_index c none at_s = (true, rw (lower_order_cache_updated, at_s) refl, inl refl)
        by_index c (some k) at_s =
            let (x, at_k, _) = cache.indexed.index s k at_s in
            let (r, looped) =
              loop_next n m x.last_updated s v false c
                (λ t w at_t. lower_loop_lem n m x.last_updated t w at_t h) in
            (r, rw (lower_order_cache_updated, at_s, at_k) looped, inr (k, at_s))

  -- A call of `EnsureCacheAtState` that returns the values, and that counts at most so many accesses.
  abbrev pub Ensures : ℕ → ℕ → ℕ → Values D → Ppm D F → Type 0
  Ensures n m s v p =
      (e : CacheEntry D) × (a : ℕ) × (ci : List (Option ℕ)) × (sc : List (CacheEntry D))
      × (ensure_cache_at_state d l n s p ≡ ok e (with_cache p a ci sc))
      × (e.values ≡ v)
      × IsRight p ci sc
      × (a ≤ p.cache_accessed + m)

  module _ (p : Ppm D F) (s : ℕ) (v : Values D) (cache : IsRight p p.cache_index p.state_cache)
      (counted : p.cache_accessed < max_int) where
    -- The entry is there, and counts as accessed.
    pub found :
        (n m : ℕ)
        → HasValues d l p.alpha p.beta p.fst s v
        → lower_order_cache_updated d l n s p tt ≡ ok false tt
        → (k : ℕ) → get_elem? p.cache_index s ≡ some (some k)
        → Ensures (suc n) (suc m) s v p
    unfolding ensure_cache_at_state refreshed checked_entry
    found n m has fresh k at_s =
        let (e, at_k, is_s) = cache.indexed.index s k at_s in
        let has_e =
          subst (λ t. HasValues d l p.alpha p.beta p.fst t e.values) is_s (cache.right k e at_k) in
        let is_v = HasValues_unique d l p.alpha p.beta p.fst s e.values v has_e has in
        let (t, sc, called, stored, is_t) =
          touched_lem (HasValues d l p.alpha p.beta p.fst) p (l.num_states p.fst) s v cache k e at_s
            at_k is_s is_v counted in
        let same : (e.state == s) ≡ true = ground arith in
        (
          t,
          p.cache_accessed + 1,
          p.cache_index,
          sc,
          bind_ok (calculated (lower_order_cache_updated d l n s p))
                (refreshed d l (ensure_cache_at_state d l n) s) p
                (calculated_ok (lower_order_cache_updated d l n s p) p fresh)
              ∙ rw (checked_entry, at_s, at_k, same) called,
          is_t,
          stored.cache,
          omega arith,
        )
