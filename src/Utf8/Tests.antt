-- ===== src/Utf8/Tests.antt =====
-- The UTF-8 helpers run over a library for ASCII texts.
use mathlib.Core.List.{flatten}
use mozolm.Base.{
  ℕ, ◌≡◌, refl, Bool, true, ◌&&◌, Option, none, some, List, [], ◌∷◌, ltb, arith, if◌then◌else◌,
  take,
}
use mozolm.Base.Int.{ℤ, pos, negsuc}
use mozolm.Utf8.{
  Bytes, Utf8Library, DecodesFirst, IsUtf8, bad_utf8_char, str_split_by_char, decode_unicode_char,
  split_loop, str_split_by_char_to_unicode, encode_unicode_char,
}
use mozolm.Utf8.Split.{
  Reads, str_split_by_char_lem, str_split_by_char_to_unicode_lem, encode-decode_unicode_char,
}

abbrev pub all_ascii : Bytes → Bool
all_ascii [] = true
all_ascii (b ∷ s) = ltb b 128 && all_ascii s

abbrev decode_ascii : Bytes → ℤ × Bytes
decode_ascii [] = (bad_utf8_char, [])
decode_ascii (b ∷ s) = (pos b, s)

abbrev append_ascii : ℤ → Option Bytes
append_ascii (pos n) = if ltb n 128 then some (n ∷ []) else none
append_ascii (negsuc n) = none

abbrev pub ascii : Utf8Library
ascii = record { is_valid = all_ascii; decode = decode_ascii; append = append_ascii }

ascii-DecodesFirst : (b : ℕ) (s : Bytes) → all_ascii (b ∷ s) ≡ true → DecodesFirst ascii (b ∷ s)
ascii-DecodesFirst b s v = record {
  encoded = b ∷ [];
  appended = ground arith;
  whole = refl;
  nonempty = omega arith;
  rest_valid = ground arith;
  encoded_valid = ground arith;
  encoded_decode = refl;
}

pub ascii-IsUtf8 : IsUtf8 ascii
ascii-IsUtf8 b s v = ascii-DecodesFirst b s v

abbrev word : Bytes
word = b'a' ∷ b'b' ∷ b' ' ∷ []

split_word : str_split_by_char ascii word ≡ some ((97 ∷ []) ∷ (98 ∷ []) ∷ (32 ∷ []) ∷ [])
unfolding str_split_by_char split_loop
split_word = refl

split_invalid : str_split_by_char ascii (97 ∷ 254 ∷ []) ≡ some []
unfolding str_split_by_char split_loop
split_invalid = refl

str_split_by_char_lem_example :
    (cs : List Bytes) × (codes : List ℤ) × Reads ascii word cs codes
    × (str_split_by_char ascii word ≡ some cs)
    × (flatten cs ≡ word)
str_split_by_char_lem_example = str_split_by_char_lem ascii ascii-IsUtf8 word refl

str_split_by_char_to_unicode_lem_example :
    (cs : List Bytes) × (codes : List ℤ) × Reads ascii word cs codes
    × (str_split_by_char_to_unicode ascii word ≡ some codes)
str_split_by_char_to_unicode_lem_example =
    str_split_by_char_to_unicode_lem ascii ascii-IsUtf8 word refl

encode-decode_unicode_char_example :
    encode_unicode_char ascii (decode_unicode_char ascii word).0
    ≡ some (take (decode_unicode_char ascii word).1 word)
encode-decode_unicode_char_example =
    encode-decode_unicode_char ascii ascii-IsUtf8 97 (98 ∷ 32 ∷ []) refl
