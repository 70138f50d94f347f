-- ===== src/Ppm/Cache.antt =====
-- The cache of mozolm/models/ppm_as_fst_model.cc: `cache_index_` and `state_cache_` lead to each other,
-- and every entry holds what it should hold for its state.
use mozolm.Base.{
  ℕ, ◌≡◌, ◌≢◌, ◌<◌, inl, inr, ap, ◌∙◌, Option, none, some, List, [], ◌∷◌, ◌++◌, arith,
  if◌then◌else◌, ◌==◌, length, get_elem?, set, length-set, get_elem?-set, get_elem?-append_old,
  get_elem?-append_new, get_elem?-push_inv, lt-of-get_elem?, Bool-cases,
}
use mozolm.Ppm.{CacheEntry, new_entry}
use mozolm.Ppm.Blending.{Values}

-- What an entry for a state is to hold.
abbrev pub Holds : Type 0 → Type 1
Holds D = ℕ → Values D → Type 0

module _ {D : Type 0} where
  pub record IsIndexed (ci : List (Option ℕ)) (sc : List (CacheEntry D)) : Type 0 where
    pub slots :
        (k : ℕ) (e : CacheEntry D) → get_elem? sc k ≡ some e → get_elem? ci e.state ≡ some (some k)
    pub index :
        (s k : ℕ)
        → get_elem? ci s ≡ some (some k)
        → (e : CacheEntry D) × (get_elem? sc k ≡ some e) × (e.state ≡ s)

  -- Every entry holds what it should, but perhaps the one of state `s`.
  abbrev pub HoldsBut : Holds D → ℕ → List (CacheEntry D) → Type 0
  HoldsBut P s sc =
      (k : ℕ) (e : CacheEntry D) → get_elem? sc k ≡ some e → e.state ≢ s → P e.state e.values

  abbrev pub HoldsAll : Holds D → List (CacheEntry D) → Type 0
  HoldsAll P sc = (k : ℕ) (e : CacheEntry D) → get_elem? sc k ≡ some e → P e.state e.values

  module _ (ci : List (Option ℕ)) (sc : List (CacheEntry D)) (s : ℕ) (v : Values D)
      (ok : IsIndexed ci sc) (free : get_elem? ci s ≡ some none) where
    abbrev at_end : List (CacheEntry D)
    at_end = sc ++ new_entry v s ∷ []

    within : s < length ci
    within = lt-of-get_elem? ci s free

    -- A new entry at the end.
    pub pushed-IsIndexed : IsIndexed (set ci s (some (length sc))) at_end
    pushed-IsIndexed = record { slots = slots; index = index }
      where
        slots :
            (k : ℕ) (e : CacheEntry D)
            → get_elem? at_end k ≡ some e
            → get_elem? (set ci s (some (length sc))) e.state ≡ some (some k)
        slots k e at_k = elim (get_elem?-push_inv sc (new_entry v s) k at_k) [
          | inl (less, old) ↦
              let there = ok.slots k e old in
              ground (arith, get_elem?-set ci s e.state (some (length sc)), within)
          | inr (last, same) ↦
              let is_s : e.state ≡ s = ap (λ (x : CacheEntry D). x.state) same in
              ground (arith, get_elem?-set ci s e.state (some (length sc)), within)
        ]

        index :
            (t k : ℕ)
            → get_elem? (set ci s (some (length sc))) t ≡ some (some k)
            → (e : CacheEntry D) × (get_elem? at_end k ≡ some e) × (e.state ≡ t)
        index t k at_t = elim (Bool-cases (s == t)) [
          | inl same ↦ (
            new_entry v s,
            get_elem?-append_new sc (new_entry v s ∷ []) k
                (ground (arith, get_elem?-set ci s t (some (length sc)), within)),
            ground arith,
          )
          | inr other ↦
              let (e, at_k, is_t) =
                ok.index t k (ground (arith, get_elem?-set ci s t (some (length sc)), within)) in
              (
                e,
                get_elem?-append_old sc (new_entry v s ∷ []) k (lt-of-get_elem? sc k at_k) ∙ at_k,
                is_t,
              )
        ]

    -- An entry taken over from another state.
    module _ (k : ℕ) (old : CacheEntry D) (at_k : get_elem? sc k ≡ some old) where
      abbrev pub taken_index : List (Option ℕ)
      taken_index = set (set ci old.state none) s (some k)

      abbrev pub taken : List (CacheEntry D)
      taken = set sc k (new_entry v s)

      at_old : get_elem? ci old.state ≡ some (some k)
      at_old = ok.slots k old at_k

      pub read_index :
          (t : ℕ)
          → get_elem? taken_index t ≡ (
              if s == t
              then some (some k)
              else if old.state == t
              then some none
              else get_elem? ci t)
      read_index t =
          get_elem?-set (set ci old.state none) s t (some k)
            (omega (arith, within, length-set ci old.state none))
          ∙ ap (λ x. if s == t then some (some k) else x)
              (get_elem?-set ci old.state t none (lt-of-get_elem? ci old.state at_old))

      pub read_taken :
          (j : ℕ) → get_elem? taken j ≡ (if k == j then some (new_entry v s) else get_elem? sc j)
      read_taken j = get_elem?-set sc k j (new_entry v s) (lt-of-get_elem? sc k at_k)

      pub taken-IsIndexed : IsIndexed taken_index taken
      taken-IsIndexed = record { slots = slots; index = index }
        where
          slots :
              (j : ℕ) (e : CacheEntry D)
              → get_elem? taken j ≡ some e
              → get_elem? taken_index e.state ≡ some (some j)
          slots j e at_j = elim (Bool-cases (k == j)) [
            | inl same ↦
                let is_new : e ≡ new_entry v s = ground (arith, read_taken j) in
                let is_s : e.state ≡ s = ap (λ (x : CacheEntry D). x.state) is_new in
                ground (arith, read_index e.state)
            | inr other ↦
                let at_e : get_elem? sc j ≡ some e = ground (arith, read_taken j) in
                let there = ok.slots j e at_e in ground (arith, read_index e.state, at_old)
          ]

          index :
              (t j : ℕ)
              → get_elem? taken_index t ≡ some (some j)
              → (e : CacheEntry D) × (get_elem? taken j ≡ some e) × (e.state ≡ t)
          index t j at_t = elim (Bool-cases (s == t)) [
            | inl same ↦ (new_entry v s, ground (arith, read_index t, read_taken j), ground arith)
            | inr other ↦
                let (e, at_j, is_t) = ok.index t j (ground (arith, read_index t)) in
                (e, ground (arith, read_index t, read_taken j, at_old, at_k), is_t)
          ]
