-- ===== src/Client/Helper/Bits.antt =====
-- `CalcBitsPerCharacter` of mozolm/grpc/client_helper.cc.
pub mod Counting
use mozolm.Base.{ℕ, ◌+◌, ◌^◌, Option, none, some, List, [], ◌∷◌, ◌++◌, if◌then◌else◌, ltb}
use mozolm.Base.Int.{ℤ, pos, negsuc}
use mozolm.Base.Program.{Program, err, fault, pure, or_fault, not_found, ◌>>=◌}
use mozolm.Double.{Double}
use mozolm.Utf8.{Bytes, Utf8Library, str_split_by_char}
use mozolm.Client.Helper.{
  Outside, ClientHelper, as_int, find_string_index, calculate_bits, get_lm_scores, update_scores,
}

-- The totals of `CalcBitsPerCharacter`.
pub record Totals (D : Type 0) : Type 0 where
  pub tot_chars : ℕ
  pub tot_oov_chars : ℕ
  pub tot_bits : D

-- `++` of an `int` counter.
pub increment : {W : Type 0} → ℕ → Program W ℕ
increment n = if ltb (n + 1) (2 ^ 31) then pure (n + 1) else (λ w. fault)

module _ {D W : Type 0} (d : Double D) (zero_d : D) (out : Outside D W)
    (sort : List (D × Bytes) → List (D × Bytes)) (u : Utf8Library) (h : ClientHelper D W) where
  -- The counts of a character whose index was found.
  pub count_character : List (D × Bytes) → ℤ → Totals D → Program W (Totals D)
  unfolding increment
  count_character hyps idx totals = do
    bits ← or_fault (calculate_bits d zero_d out idx hyps)
    tot_oov_chars ← (elim idx [
      | pos k ↦ pure totals.tot_oov_chars
      | negsuc k ↦ increment totals.tot_oov_chars
    ])
    tot_chars ← increment totals.tot_chars
    pure (record {
      tot_chars = tot_chars;
      tot_oov_chars = tot_oov_chars;
      tot_bits = d.add totals.tot_bits bits;
    })

  -- The loop of `CalcBitsPerCharacter` over the characters of a line.
  pub characters_loop : List Bytes → ℤ → List (D × Bytes) → Totals D → Program W (Totals D)
  unfolding count_character
  characters_loop [] state hyps totals = pure totals
  characters_loop (utf8_sym ∷ syms) state hyps totals = do
    counted ← count_character hyps (find_string_index hyps utf8_sym) totals
    next ← update_scores d zero_d out sort u h utf8_sym (as_int state) (pos 1)
    characters_loop syms next.0 next.1.1 counted

  -- A line, with the empty text for its end.
  pub count_line : Bytes → Totals D → Program W (Totals D)
  unfolding characters_loop
  count_line input_line totals = do
    input_chars ← or_fault (str_split_by_char u input_line)
    first ← get_lm_scores d zero_d out sort u h [] (pos 0)
    characters_loop (input_chars ++ [] ∷ []) (pos 0) first.1 totals

  pub lines_loop : List Bytes → Totals D → Program W (Totals D)
  unfolding count_line
  lines_loop [] totals = pure totals
  lines_loop (line ∷ lines) totals = count_line line totals >>= lines_loop lines

  pub bits_of : Totals D → Bytes
  bits_of totals =
      out.bits_line totals.tot_chars totals.tot_oov_chars
        (d.div totals.tot_bits (d.of_ℕ totals.tot_chars))

  abbrev pub no_totals : Totals D
  no_totals = record { tot_chars = 0; tot_oov_chars = 0; tot_bits = zero_d }

  -- `CalcBitsPerCharacter`.
  pub calc_bits_per_character : Bytes → Program W Bytes
  unfolding lines_loop bits_of
  calc_bits_per_character test_file w = elim (out.read_lines test_file w) [
    | none ↦ err not_found w
    | some lines ↦ ◌>>=◌ (lines_loop lines no_totals) (λ totals. pure (bits_of totals)) w
  ]
