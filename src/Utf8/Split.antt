-- ===== src/Utf8/Split.antt =====
-- Splitting a text into characters: the fuel suffices, nothing is lost, and each part decodes to the
-- code point that the library reads at its place.
use mathlib.Core.List.{flatten}
use mozolm.Base.{
  Bool-cases, inl, inr, ℕ, zero, suc, ◌-◌, ◌≡◌, refl, sym, ap, ◌<◌, subst, true, some, List, [],
  ◌∷◌, ◌++◌, arith, length, length-append, take,
}
use mozolm.Base.Int.{ℤ}
use mozolm.Utf8.{
  Bytes, Utf8Library, DecodesFirst, IsUtf8, split_loop, str_split_by_char, decode_unicode_char,
  decode_single_unicode_char, decode_each, str_split_by_char_to_unicode, encode_unicode_char,
}

-- The characters of a text with their code points, one after the other.
pub data Reads (u : Utf8Library) : Bytes → List Bytes → List ℤ → Type 0 where
  done : Reads u [] [] []
  next :
      {b : ℕ} {s : Bytes} {cs : List Bytes} {codes : List ℤ}
      → (first : DecodesFirst u (b ∷ s)) → Reads u (u.decode (b ∷ s)).1 cs codes
      → Reads u (b ∷ s) (first.encoded ∷ cs) ((u.decode (b ∷ s)).0 ∷ codes)

module _ (u : Utf8Library) (law : IsUtf8 u) where
  rest_shorter :
      (b : ℕ) (s : Bytes)
      → (first : DecodesFirst u (b ∷ s)) → length (u.decode (b ∷ s)).1 < length (b ∷ s)
  rest_shorter b s first = omega (
    arith,
    first.nonempty,
    length-append first.encoded (u.decode (b ∷ s)).1,
    ap length first.whole,
  )

  split_loop-Reads :
      (fuel : ℕ) (s : Bytes)
      → u.is_valid s ≡ true
      → length s < fuel
      → (cs : List Bytes) × (codes : List ℤ) × Reads u s cs codes × (split_loop u fuel s ≡ some cs)
  unfolding split_loop
  split_loop-Reads zero s v h = elim h [ ]
  split_loop-Reads (suc fuel) [] v h = ([], [], done, refl)
  split_loop-Reads (suc fuel) (b ∷ s) v h =
      let first = law b s v in
      let (cs, codes, r, e) =
        split_loop-Reads fuel (u.decode (b ∷ s)).1 first.rest_valid
          (omega (arith, rest_shorter b s first)) in
      (first.encoded ∷ cs, (u.decode (b ∷ s)).0 ∷ codes, next first r, rw (first.appended, e))

  -- A text that is one character is split no further, and decodes to its code point.
  split_one :
      (e : Bytes) (c : ℤ)
      → u.is_valid e ≡ true
      → 0 < length e
      → u.append c ≡ some e
      → u.decode e ≡ (c, [])
      → str_split_by_char u e ≡ some (e ∷ [])
  unfolding str_split_by_char split_loop
  split_one [] c v h a d = absurd (omega arith)
  split_one (x ∷ e) c v h a d = rw (v, d, a)

  decode_one :
      (e : Bytes) (c : ℤ)
      → u.is_valid e ≡ true
      → 0 < length e
      → u.decode e ≡ (c, [])
      → (decode_unicode_char u e).0 ≡ c
  unfolding decode_unicode_char
  decode_one [] c v h d = absurd (omega arith)
  decode_one (x ∷ e) c v h d = rw (v, d)

  decode_each-Reads :
      {s : Bytes} {cs : List Bytes} {codes : List ℤ}
      → Reads u s cs codes
      → decode_each u cs ≡ some codes
  unfolding decode_each decode_single_unicode_char
  decode_each-Reads done = refl
  decode_each-Reads (next {b = b} {s = s} first r) =
      let code = (u.decode (b ∷ s)).0 in
      rw (
        split_one first.encoded code first.encoded_valid first.nonempty first.appended
            first.encoded_decode,
        decode_one first.encoded code first.encoded_valid first.nonempty first.encoded_decode,
        decode_each-Reads r,
      )

  flatten-Reads :
      {s : Bytes} {cs : List Bytes} {codes : List ℤ} → Reads u s cs codes → flatten cs ≡ s
  unfolding flatten
  flatten-Reads done = refl
  flatten-Reads (next first r) = rw (flatten-Reads r) first.whole

  -- On a valid text `StrSplitByChar` ends without an exception: its parts are the characters of the
  -- text in order, and joined they are the text again.
  pub str_split_by_char_lem :
      (s : Bytes)
      → u.is_valid s ≡ true
      → (cs : List Bytes) × (codes : List ℤ) × Reads u s cs codes
        × (str_split_by_char u s ≡ some cs)
        × (flatten cs ≡ s)
  unfolding str_split_by_char
  str_split_by_char_lem s v =
      let (cs, codes, r, e) = split_loop-Reads (suc (length s)) s v (omega arith) in
      (cs, codes, r, rw v e, flatten-Reads r)

  -- On a valid text `StrSplitByCharToUnicode`, which splits the text and then splits and decodes each
  -- part again, returns the code points that the library reads from the text one after the other.
  pub str_split_by_char_to_unicode_lem :
      (s : Bytes)
      → u.is_valid s ≡ true
      → (cs : List Bytes) × (codes : List ℤ) × Reads u s cs codes
        × (str_split_by_char_to_unicode u s ≡ some codes)
  unfolding str_split_by_char_to_unicode
  str_split_by_char_to_unicode_lem s v =
      let (cs, codes, r, e, f) = str_split_by_char_lem s v in
      (cs, codes, r, rw e (decode_each-Reads r))

  take-append : (xs ys : Bytes) → take (length (xs ++ ys) - length ys) (xs ++ ys) ≡ xs
  take-append [] ys = let e : length ys - length ys ≡ 0 = omega arith in rw e
  take-append (x ∷ xs) ys =
      let e : length ((x ∷ xs) ++ ys) - length ys ≡ suc (length (xs ++ ys) - length ys) =
        omega (arith, length-append xs ys) in
      rw e (ap (λ t. x ∷ t) (take-append xs ys))

  -- Decoding the first character of a valid text and encoding it again gives the bytes that the
  -- decoder reports as read.
  pub encode-decode_unicode_char :
      (b : ℕ) (s : Bytes)
      → u.is_valid (b ∷ s) ≡ true
      → encode_unicode_char u (decode_unicode_char u (b ∷ s)).0
        ≡ some (take (decode_unicode_char u (b ∷ s)).1 (b ∷ s))
  unfolding encode_unicode_char decode_unicode_char
  encode-decode_unicode_char b s v =
      let first = law b s v in
      let rest = (u.decode (b ∷ s)).1 in
      rw (v, first.appended)
        (ap some (
          subst (λ t. first.encoded ≡ take (length t - length rest) t) first.whole
            (sym (take-append first.encoded rest))))

pub str_split_by_char_to_unicode-nil :
    (u : Utf8Library) → str_split_by_char_to_unicode u [] ≡ some []
unfolding str_split_by_char_to_unicode str_split_by_char decode_each split_loop
str_split_by_char_to_unicode-nil u = elim (Bool-cases (u.is_valid [])) [
  | inl e ↦ rw (str_split_by_char_to_unicode, e) refl
  | inr e ↦ rw (str_split_by_char_to_unicode, e) refl
]

-- The functions on texts never meet an exception, as they ask the library first whether the text is valid.
pub str_split_by_char_total :
    (u : Utf8Library)
    → IsUtf8 u
    → (s : Bytes) → (cs : List Bytes) × (str_split_by_char u s ≡ some cs)
unfolding str_split_by_char
str_split_by_char_total u law s = elim (Bool-cases (u.is_valid s)) [
  | inl e ↦ let (cs, codes, r, split, whole) = str_split_by_char_lem u law s e in (cs, split)
  | inr e ↦ ([], rw (str_split_by_char, e) refl)
]

pub str_split_by_char_to_unicode_total :
    (u : Utf8Library)
    → IsUtf8 u
    → (s : Bytes) → (codes : List ℤ) × (str_split_by_char_to_unicode u s ≡ some codes)
unfolding str_split_by_char_to_unicode decode_each str_split_by_char
str_split_by_char_to_unicode_total u law s = elim (Bool-cases (u.is_valid s)) [
  | inl e ↦ let (cs, codes, r, split) = str_split_by_char_to_unicode_lem u law s e in (codes, split)
  | inr e ↦ ([], rw (str_split_by_char_to_unicode, str_split_by_char, e) refl)
]
