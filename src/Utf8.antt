-- ===== src/Utf8.antt =====
-- mozolm/utils/utf8_util.cc over the UTF-8 library utfcpp (`utf8/checked.h`), which is a parameter.
-- A string is the list of its bytes.
pub mod Split
pub mod Tests
use mozolm.Base.{
  ℕ, zero, suc, ◌+◌, ◌-◌, ◌≡◌, ◌<◌, Bool, true, false, Option, none, some, List, [], ◌∷◌, ◌++◌,
  if◌then◌else◌, length, not,
}
use mozolm.Base.Int.{ℤ, pos, eq_ℤ}

abbrev pub Bytes : Type 0
Bytes = List ℕ

-- What the code calls of utfcpp.
pub record Utf8Library : Type 0 where
  -- `utf8::is_valid`.
  pub is_valid : Bytes → Bool
  -- The code point at an iterator, and the text behind it.
  pub decode : Bytes → ℤ × Bytes
  -- `utf8::append`; `none` is the exception that it throws on an invalid code point.
  pub append : ℤ → Option Bytes

-- The documented behaviour of the library at the first character of a valid text: `encoded` are its
-- bytes, and what is left is valid.
pub record DecodesFirst (u : Utf8Library) (s : Bytes) : Type 0 where
  pub encoded : Bytes
  pub appended : u.append (u.decode s).0 ≡ some encoded
  pub whole : encoded ++ (u.decode s).1 ≡ s
  pub nonempty : 0 < length encoded
  pub rest_valid : u.is_valid (u.decode s).1 ≡ true
  pub encoded_valid : u.is_valid encoded ≡ true
  pub encoded_decode : u.decode encoded ≡ ((u.decode s).0, [])

abbrev pub IsUtf8 : Utf8Library → Type 0
IsUtf8 u = (b : ℕ) (s : Bytes) → u.is_valid (b ∷ s) ≡ true → DecodesFirst u (b ∷ s)

-- `kBadUTF8Char`.
abbrev pub bad_utf8_char : ℤ
bad_utf8_char = pos 0xFFFD

infixl 5 ◌>>=◌
abbrev pub ◌>>=◌ {ℓ κ} : {A : Type ℓ} {B : Type κ} → Option A → (A → Option B) → Option B
none >>= k = none
some a >>= k = k a

module _ (u : Utf8Library) where
  -- The loop of `StrSplitByChar` from an iterator to the end, on fuel.
  unfoldable pub split_loop : ℕ → Bytes → Option (List Bytes)
  split_loop zero s = none
  split_loop (suc fuel) [] = some []
  split_loop (suc fuel) (b ∷ s) = do
    codepoint ← u.append (u.decode (b ∷ s)).0
    rest ← split_loop fuel (u.decode (b ∷ s)).1
    some (codepoint ∷ rest)

  -- Each round takes a byte at least, so the length of the text is fuel enough.
  unfoldable pub str_split_by_char : Bytes → Option (List Bytes)
  str_split_by_char input =
      if not (u.is_valid input) then some [] else split_loop (suc (length input)) input

  -- The code point stored through `first_char`, and the number of bytes read.
  unfoldable pub decode_unicode_char : Bytes → ℤ × ℕ
  decode_unicode_char [] = (pos 0, 1)
  decode_unicode_char (b ∷ s) =
      if not (u.is_valid (b ∷ s))
      then (bad_utf8_char, 1)
      else ((u.decode (b ∷ s)).0, length (b ∷ s) - length (u.decode (b ∷ s)).1)

  unfoldable pub single_char : List Bytes → ℤ
  single_char (c ∷ []) = (decode_unicode_char c).0
  single_char _ = bad_utf8_char

  -- The returned flag, and the value stored through `utf8_value`.
  unfoldable pub decode_single_unicode_char : Bytes → Option (Bool × ℤ)
  unfolding single_char decode_unicode_char
  decode_single_unicode_char input = do
    split_input ← str_split_by_char input
    let value = single_char split_input
    some (not (eq_ℤ value bad_utf8_char), value)

  unfoldable pub decode_each : List Bytes → Option (List ℤ)
  decode_each [] = some []
  decode_each (c ∷ cs) = do
    code ← decode_single_unicode_char c
    rest ← decode_each cs
    some (code.1 ∷ rest)

  unfoldable pub str_split_by_char_to_unicode : Bytes → Option (List ℤ)
  str_split_by_char_to_unicode input = do
    input_chars ← str_split_by_char input
    decode_each input_chars

  unfoldable pub encode_unicode_char : ℤ → Option Bytes
  encode_unicode_char input = u.append input
