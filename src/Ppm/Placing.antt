-- ===== src/Ppm/Placing.antt =====
-- The calls of mozolm/models/ppm_as_fst_model.cc that find a place in the cache for the values of a state.
use mozolm.Base.{
  ℕ, ◌≡◌, ◌≤◌, ◌<◌, inl, inr, refl, ap, ◌∙◌, true, false, Option, none, some, List, [], ◌∷◌, ◌++◌,
  arith, ltb, ◌==◌, length, get_elem?, set, length-set, length-append, get_elem?-set,
  get_elem?-push_inv, get_elem?-append_new, lt-of-get_elem?, get_elem?_of_lt, Bool-cases,
}
use mozolm.Base.Program.{ok}
use mozolm.Ppm.{
  CacheEntry, Ppm, new_entry, same_index, replace_entry, get_new_cache_index, ensure_index,
}
use mozolm.Ppm.Blending.{Values}
use mozolm.Ppm.Cache.{
  Holds, IsIndexed, HoldsBut, HoldsAll, pushed-IsIndexed, taken-IsIndexed, read_index, read_taken,
}
use mozolm.Ppm.Oldest.{find_oldest_last_accessed_cache_lem}

module _ {D F : Type 0} where
  abbrev pub with_cache : Ppm D F → ℕ → List (Option ℕ) → List (CacheEntry D) → Ppm D F
  with_cache p accessed ci sc = record p {
    cache_accessed = accessed;
    cache_index = ci;
    state_cache = sc;
  }

module _ {D : Type 0} where
  -- A cache over `n` states whose entries hold what `P` asks for.
  pub record IsCache (P : Holds D) (n max : ℕ) (ci : List (Option ℕ)) (sc : List (CacheEntry D))
      : Type 0 where
    pub indexed : IsIndexed ci sc
    pub size : length ci ≡ n
    pub room : 0 < max
    pub fits : length sc ≤ max
    pub right : HoldsAll P sc

  -- A cache in order but for the values of state `s`, which has entry `k`.
  pub record IsPending (P : Holds D) (n max s : ℕ) (ci : List (Option ℕ)) (sc : List (CacheEntry D))
      : Type 0 where
    pub indexed : IsIndexed ci sc
    pub size : length ci ≡ n
    pub fits : length sc ≤ max
    pub right : HoldsBut P s sc
    pub place : ℕ
    pub entry : CacheEntry D
    pub at_s : get_elem? ci s ≡ some (some place)
    pub at_place : get_elem? sc place ≡ some entry
    pub for_s : entry.state ≡ s

module _ {D F : Type 0} where
  module _ (P : Holds D) (p : Ppm D F) (n s : ℕ) (v : Values D)
      (cache : IsCache P n p.max_cache_size p.cache_index p.state_cache) where
    abbrev pub Ensured : Type 0
    Ensured =
        (ci : List (Option ℕ)) × (sc : List (CacheEntry D)) × (ensure_index v s p
          ≡ ok tt (with_cache p p.cache_accessed ci sc))
        × IsPending P n p.max_cache_size s ci sc

    -- The state has an entry.
    present : (k : ℕ) → get_elem? p.cache_index s ≡ some (some k) → Ensured
    unfolding ensure_index
    present k at_s =
        let (e, at_k, is_s) = cache.indexed.index s k at_s in
        (
          p.cache_index,
          p.state_cache,
          rw (ensure_index, at_s) refl,
          record {
            indexed = cache.indexed;
            size = cache.size;
            fits = cache.fits;
            right = λ j x at_j _. cache.right j x at_j;
            place = k;
            entry = e;
            at_s = at_s;
            at_place = at_k;
            for_s = is_s;
          },
        )

    module _ (free : get_elem? p.cache_index s ≡ some none) where
      called : (q : Ppm D F) → get_new_cache_index v s p ≡ ok tt q → ensure_index v s p ≡ ok tt q
      unfolding ensure_index
      called q e = rw (ensure_index, free) e

      -- There is room for another entry.
      appended : length p.state_cache < p.max_cache_size → Ensured
      unfolding get_new_cache_index
      appended less =
          let sc = p.state_cache ++ new_entry v s ∷ [] in
          let ci = set p.cache_index s (some (length p.state_cache)) in
          let within = lt-of-get_elem? p.cache_index s free in
          let fitting : ltb (length p.state_cache) p.max_cache_size ≡ true = ground arith in
          (
            ci,
            sc,
            called (with_cache p p.cache_accessed ci sc) (rw fitting refl),
            record {
              indexed = pushed-IsIndexed p.cache_index p.state_cache s v cache.indexed free;
              size = length-set p.cache_index s (some (length p.state_cache)) ∙ cache.size;
              fits = omega (arith, length-append p.state_cache (new_entry v s ∷ []));
              right = λ j x at_j other.
                  elim (get_elem?-push_inv p.state_cache (new_entry v s) j at_j) [
                    | inl (_, old) ↦ cache.right j x old
                    | inr (_, same) ↦ absurd (other (ap (λ (y : CacheEntry D). y.state) same))
                  ];
              place = length p.state_cache;
              entry = new_entry v s;
              at_s =
                  ground
                    (arith, get_elem?-set p.cache_index s s (some (length p.state_cache)), within);
              at_place =
                  get_elem?-append_new p.state_cache (new_entry v s ∷ []) (length p.state_cache)
                    refl;
              for_s = refl;
            },
          )

      -- The oldest entry is taken over.
      taken_over : p.max_cache_size ≤ length p.state_cache → Ensured
      unfolding get_new_cache_index replace_entry
      taken_over full =
          let (k, old, found, at_k, _) =
            find_oldest_last_accessed_cache_lem p.state_cache (omega (arith, cache.room)) in
          let ci = set (set p.cache_index old.state none) s (some k) in
          let sc = set p.state_cache k (new_entry v s) in
          let at_old = cache.indexed.slots k old at_k in
          let fitting : ltb (length p.state_cache) p.max_cache_size ≡ false = ground arith in
          let same : same_index (some k) k ≡ true = ground arith in
          let read_i = read_index p.cache_index p.state_cache s v cache.indexed free k old at_k in
          let read_t = read_taken p.cache_index p.state_cache s v cache.indexed free k old at_k in
          (
            ci,
            sc,
            called (with_cache p p.cache_accessed ci sc)
                (rw fitting (rw found (rw at_k (rw (replace_entry, at_old, same) refl)))),
            record {
              indexed =
                  taken-IsIndexed p.cache_index p.state_cache s v cache.indexed free k old at_k;
              size =
                  length-set (set p.cache_index old.state none) s (some k)
                  ∙ length-set p.cache_index old.state none
                  ∙ cache.size;
              fits = omega (arith, cache.fits, length-set p.state_cache k (new_entry v s));
              right = λ j x at_j other. elim (Bool-cases (k == j)) [
                | inl here ↦
                    let is_new : x ≡ new_entry v s = ground (arith, read_t j) in
                    absurd (other (ap (λ (y : CacheEntry D). y.state) is_new))
                | inr there ↦ cache.right j x (ground (arith, read_t j))
              ];
              place = k;
              entry = new_entry v s;
              at_s = ground (arith, read_i s);
              at_place = ground (arith, read_t k);
              for_s = refl;
            },
          )

    pub ensure_index_lem : s < n → Ensured
    ensure_index_lem less =
        let (o, at_s) = get_elem?_of_lt p.cache_index s (omega (arith, cache.size)) in
        by_index o at_s
      where
        by_index : (o : Option ℕ) → get_elem? p.cache_index s ≡ some o → Ensured
        by_index (some k) at_s = present k at_s
        by_index none at_s = elim (Bool-cases (ltb (length p.state_cache) p.max_cache_size)) [
          | inl fitting ↦ appended at_s (ground arith)
          | inr full ↦ taken_over at_s (ground arith)
        ]
