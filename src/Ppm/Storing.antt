-- ===== src/Ppm/Storing.antt =====
-- The calls of mozolm/models/ppm_as_fst_model.cc that change the cache keep it in order.
use mozolm.Base.{
  ℕ, ◌+◌, ◌≡◌, ◌≢◌, ◌<◌, inl, inr, refl, ap, ◌∙◌, subst, true, Option, some, List, arith,
  if◌then◌else◌, ltb, ◌==◌, length, get_elem?, set, length-set, get_elem?-set, lt-of-get_elem?,
  Bool-cases,
}
use mozolm.Base.Int.{pos}
use mozolm.Base.Program.{ok, ◌>>=◌, bind_ok}
use mozolm.Ppm.{
  CacheEntry, Ppm, updated_entry, max_int, next_access, write_entry, ensure_index, store_entry,
  touch, touched,
}
use mozolm.Ppm.Blending.{Values}
use mozolm.Ppm.Cache.{Holds, IsIndexed, HoldsAll}
use mozolm.Ppm.Placing.{with_cache, IsCache, IsPending, ensure_index_lem}

module _ {D : Type 0} where
  -- An entry changed, but not its state.
  changed-IsIndexed :
      (ci : List (Option ℕ)) (sc : List (CacheEntry D)) (k : ℕ) (e e' : CacheEntry D)
      → IsIndexed ci sc
      → get_elem? sc k ≡ some e
      → e'.state ≡ e.state
      → IsIndexed ci (set sc k e')
  changed-IsIndexed ci sc k e e' ordered at_k same = record { slots = slots; index = index }
    where
      read : (j : ℕ) → get_elem? (set sc k e') j ≡ (if k == j then some e' else get_elem? sc j)
      read j = get_elem?-set sc k j e' (lt-of-get_elem? sc k at_k)

      slots :
          (j : ℕ) (x : CacheEntry D)
          → get_elem? (set sc k e') j ≡ some x
          → get_elem? ci x.state ≡ some (some j)
      slots j x at_j = elim (Bool-cases (k == j)) [
        | inl here ↦
            let is_x : x ≡ e' = ground (arith, read j) in
            let st : x.state ≡ e.state = ap (λ (y : CacheEntry D). y.state) is_x ∙ same in
            let eq : k ≡ j = ground arith in rw (st, ← eq) (ordered.slots k e at_k)
        | inr there ↦ ordered.slots j x (ground (arith, read j))
      ]

      index :
          (t j : ℕ)
          → get_elem? ci t ≡ some (some j)
          → (x : CacheEntry D) × (get_elem? (set sc k e') j ≡ some x) × (x.state ≡ t)
      index t j at_t =
          let (x, at_j, is_t) = ordered.index t j at_t in
          elim (Bool-cases (k == j)) [
            | inl here ↦
                let eq : k ≡ j = ground arith in
                let is_e : e ≡ x = ground (arith, at_k, at_j, eq) in
                (e', ground (arith, read j), same ∙ ap (λ (y : CacheEntry D). y.state) is_e ∙ is_t)
            | inr there ↦ (x, ground (arith, read j), is_t)
          ]

  changed-HoldsAll :
      (P : Holds D) (sc : List (CacheEntry D)) (k : ℕ) (e' : CacheEntry D)
      → k < length sc
      → P e'.state e'.values
      → ((j : ℕ) (x : CacheEntry D) → get_elem? sc j ≡ some x → j ≢ k → P x.state x.values)
      → HoldsAll P (set sc k e')
  changed-HoldsAll P sc k e' within new old j x at_j = elim (Bool-cases (k == j)) [
    | inl here ↦
        let is_x : e' ≡ x = ground (arith, get_elem?-set sc k j e' within) in
        subst (λ (y : CacheEntry D). P y.state y.values) is_x new
    | inr there ↦ old j x (ground (arith, get_elem?-set sc k j e' within)) (ground arith)
  ]

module _ {D F : Type 0} (P : Holds D) (p : Ppm D F) (n s : ℕ) (v : Values D) where
  -- What a call that stores or finds the entry of state `s` leaves behind.
  pub record IsStored (accessed : ℕ) (ci : List (Option ℕ)) (sc : List (CacheEntry D))
      : Type 0 where
    pub cache : IsCache P n p.max_cache_size ci sc
    pub place : ℕ
    pub entry : CacheEntry D
    pub at_s : get_elem? ci s ≡ some (some place)
    pub at_place : get_elem? sc place ≡ some entry
    pub for_s : entry.state ≡ s
    pub values : entry.values ≡ v

  written :
      (a access : ℕ) (ci : List (Option ℕ)) (sc : List (CacheEntry D))
      → 0 < p.max_cache_size
      → IsPending P n p.max_cache_size s ci sc
      → P s v
      → (sc' : List (CacheEntry D)) × (write_entry s v access (with_cache p a ci sc)
          ≡ ok tt (with_cache p a ci sc'))
        × IsStored a ci sc'
  unfolding write_entry
  written a access ci sc room pending holds =
      let e' = updated_entry pending.entry v access in
      let within = lt-of-get_elem? sc pending.place pending.at_place in
      (
        set sc pending.place e',
        rw (write_entry, pending.at_s, pending.at_place) refl,
        record {
          cache = record {
            indexed =
                changed-IsIndexed ci sc pending.place pending.entry e' pending.indexed
                  pending.at_place refl;
            size = pending.size;
            room = room;
            fits = omega (arith, pending.fits, length-set sc pending.place e');
            right =
                changed-HoldsAll P sc pending.place e' within (rw pending.for_s holds)
                  (λ j x at_j other. pending.right j x at_j (λ is_s. other (
                    let there = pending.indexed.slots j x at_j in
                    let at_s = pending.at_s in ground (arith, ap (get_elem? ci) is_s))));
          };
          place = pending.place;
          entry = e';
          at_s = pending.at_s;
          at_place = ground (arith, get_elem?-set sc pending.place pending.place e' within);
          for_s = pending.for_s;
          values = refl;
        },
      )

  next_access_lem :
      (a : ℕ) (ci : List (Option ℕ)) (sc : List (CacheEntry D))
      → a < max_int
      → next_access (with_cache p a ci sc) ≡ ok a (with_cache p (a + 1) ci sc)
  unfolding next_access
  next_access_lem a ci sc less =
      let fitting : ltb a max_int ≡ true = ground arith in rw fitting refl

  -- The end of `UpdateCacheAtState`, on a cache that is in order, for a state of the model and values
  -- that an entry of the state may hold: it succeeds with an entry for the state that has the values, be
  -- it there, new or taken over from the entry accessed before all others. One access is counted, and
  -- the cache is in order; so an entry that is taken over is no longer found under its old state.
  pub store_entry_lem :
      (cache : IsCache P n p.max_cache_size p.cache_index p.state_cache)
      → s < n
      → p.cache_accessed < max_int
      → P s v
      → (ci : List (Option ℕ)) × (sc : List (CacheEntry D)) × (store_entry s v p
          ≡ ok tt (with_cache p (p.cache_accessed + 1) ci sc))
        × IsStored (p.cache_accessed + 1) ci sc
  unfolding store_entry
  store_entry_lem cache less counted holds =
      let a = p.cache_accessed in
      let (ci, sc, ensured, pending) = ensure_index_lem P p n s v cache less in
      let (sc', stored, is) = written (a + 1) a ci sc cache.room pending holds in
      (
        ci,
        sc',
        bind_ok (ensure_index v s) (λ _. next_access >>= write_entry s v) p ensured
            ∙ bind_ok next_access (write_entry s v) (with_cache p a ci sc)
                (next_access_lem a ci sc counted)
            ∙ stored,
        is,
      )

  -- The access to an entry that is up to date.
  pub touched_lem :
      (cache : IsCache P n p.max_cache_size p.cache_index p.state_cache) (k : ℕ) (e : CacheEntry D)
      → get_elem? p.cache_index s ≡ some (some k)
      → get_elem? p.state_cache k ≡ some e
      → e.state ≡ s
      → e.values ≡ v
      → p.cache_accessed < max_int
      → (t : CacheEntry D) × (sc : List (CacheEntry D)) × (touched k e p
          ≡ ok t (with_cache p (p.cache_accessed + 1) p.cache_index sc))
        × IsStored (p.cache_accessed + 1) p.cache_index sc
        × (t.values ≡ v)
  unfolding touched
  touched_lem cache k e at_s at_k is_s is_v counted =
      let a = p.cache_accessed in
      let t : CacheEntry D = record e { last_accessed = pos a } in
      let within = lt-of-get_elem? p.state_cache k at_k in
      (
        t,
        set p.state_cache k t,
        bind_ok next_access (touch k e) p (next_access_lem a p.cache_index p.state_cache counted),
        record {
          cache = record {
            indexed = changed-IsIndexed p.cache_index p.state_cache k e t cache.indexed at_k refl;
            size = cache.size;
            room = cache.room;
            fits = omega (arith, cache.fits, length-set p.state_cache k t);
            right =
                changed-HoldsAll P p.state_cache k t within (cache.right k e at_k)
                  (λ j x at_j _. cache.right j x at_j);
          };
          place = k;
          entry = t;
          at_s = at_s;
          at_place = ground (arith, get_elem?-set p.state_cache k k t within);
          for_s = is_s;
          values = is_v;
        },
        is_v,
      )
