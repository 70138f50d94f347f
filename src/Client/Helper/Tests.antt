-- ===== src/Client/Helper/Tests.antt =====
-- The client at concrete answers of a server.
use mathlib.Core.List.{flatten}
use mozolm.Base.{
  length, take, ℕ, ◌+◌, ◌%◌, ◌-◌, ◌≡◌, ◌<◌, ◌≤◌, inl, refl, true, some, List, [], ◌∷◌, ◌++◌, arith,
}
use mozolm.Base.Int.{pos, minus_one}
use mozolm.Base.Program.{ok, err, fault, Code, Settles}
use mozolm.Double.Tests.{naturals}
use mozolm.Utf8.{Bytes, str_split_by_char, split_loop}
use mozolm.Utf8.Tests.{ascii, ascii-IsUtf8}
use mozolm.Model.{LmScores, get_top_hypotheses, first_of_top}
use mozolm.Client.{Scored, Finished, Stub, finish_tag}
use mozolm.Client.Requests.{Serves, AreScores}
use mozolm.Client.Helper.KBest.{listed, one_kbest_sample_lem}
use mozolm.Client.Helper.{
  get_lm_scores, one_kbest_sample, Outside, ClientHelper, find_string_index, string_index_loop,
  as_int, position_of, rand_gen,
}
use mozolm.Client.Helper.Bits.{Totals, bits_of, no_totals, calc_bits_per_character}
use mozolm.Client.Helper.Answers.{IsReady}
use mozolm.Client.Helper.Positions.{StopsAt, position_of-StopsAt}
use mozolm.Client.Helper.Generating.{IsRandom, rand_gen-Settles}
use mozolm.Client.Helper.Bits.Counting.{
  Characters, no_line, line_and, FileCounts, calc_bits_per_character-Counts,
}

abbrev hyps : List (ℕ × Bytes)
hyps = (4, 97 ∷ []) ∷ (3, 98 ∷ []) ∷ (2, []) ∷ []

abbrev unsorted : List (ℕ × Bytes) → List (ℕ × Bytes)
unsorted values = values

found_second : find_string_index hyps (98 ∷ []) ≡ pos 1
unfolding find_string_index string_index_loop
found_second = refl

found_none : find_string_index hyps (99 ∷ []) ≡ minus_one
unfolding find_string_index string_index_loop
found_none = refl

-- An `int64` beyond the `int`s wraps around.
wrapped : as_int (pos 4_294_967_295) ≡ minus_one
unfolding as_int
wrapped = refl

position_of-StopsAt_example :
    (position_of naturals 0 5 hyps < 3)
    × (n : ℕ) × StopsAt naturals 5 0 hyps n
    × (position_of naturals 0 5 hyps ≡ n - 1)
position_of-StopsAt_example = position_of-StopsAt naturals 0 5 hyps (omega arith)

-- A server whose model lists "a" and the end of a text, and whose state is the number of calls.
abbrev scores : LmScores ℕ
scores = record { symbols = (97 ∷ []) ∷ [] ∷ []; probabilities = 3 ∷ 2 ∷ []; normalization = 5 }

abbrev reply : {R : Type 0} → R → Finished R
reply r = record {
  next = true;
  ok_flag = true;
  got_tag = finish_tag;
  status_ok = true;
  response = r;
}

abbrev stub : Stub ℕ ℕ
stub = record {
  async_get_lm_scores = λ t r w. (some (reply scores), w + 1);
  async_get_next_state = λ t r w. (some (reply (pos w)), w + 1);
  async_update_lm_scores = λ t r w. (some (reply scores), w + 1);
}

abbrev helper : ClientHelper ℕ ℕ
helper = record { timeout_sec = 5; completion_client = some stub }

-- A file with the lines "ab" and "".
abbrev outside : Outside ℕ ℕ
outside = record {
  uniform = λ a b w. (w % 100_000, w + 1);
  read_lines = λ f w. some ((97 ∷ 98 ∷ []) ∷ [] ∷ []);
  log2 = λ a. a;
  k_best_title = λ k. [];
  with_hypothesis = λ text h. text ++ h.1;
  bits_line = λ chars oov bits. chars ∷ oov ∷ bits ∷ [];
  generation_failed = 33 ∷ [];
  reached_length_limit = 46 ∷ [];
}

scores-AreScores : AreScores naturals 0 unsorted scores
unfolding get_top_hypotheses first_of_top mathlib.Core.List.zip
scores-AreScores = record {
  hyps = (3, 97 ∷ []) ∷ (2, []) ∷ [];
  hyps_lem = refl;
  nonempty = omega arith;
  normalization_lem = refl;
}

stub-Serves : Serves naturals 0 unsorted ⊥ stub
stub-Serves = record {
  get_lm_scores_lem = λ t r w. (reply scores, refl, inl (answered, scores-AreScores));
  get_next_state_lem = λ t r w. (reply (pos w), refl, inl answered);
  update_lm_scores_lem = λ t r w. (reply scores, refl, inl (answered, scores-AreScores));
}
  where
    answered : {R : Type 0} {r : R} → mozolm.Client.Requests.IsAnswered (reply r)
    answered = record {
      next_lem = refl;
      ok_flag_lem = refl;
      got_tag_lem = refl;
      status_ok_lem = refl;
    }

helper-IsReady : IsReady naturals 0 unsorted ⊥ helper
helper-IsReady = record { stub = stub; stub_lem = refl; serves = stub-Serves }

rand_gen-Settles_example :
    Settles ⊥
      (IsRandom naturals 0 outside unsorted ascii ascii-IsUtf8 ⊥ helper helper-IsReady (98 ∷ []) 7)
      (rand_gen naturals 0 outside unsorted ascii helper 128 (98 ∷ []) 7)
rand_gen-Settles_example =
    rand_gen-Settles naturals 0 outside unsorted ascii ascii-IsUtf8 ⊥ helper helper-IsReady 128
      (98 ∷ []) 7 (omega arith)

two_lines : Characters ascii ((97 ∷ 98 ∷ []) ∷ [] ∷ []) ((97 ∷ []) ∷ (98 ∷ []) ∷ [] ∷ [] ∷ [])
unfolding str_split_by_char split_loop
two_lines =
    line_and {input_chars = (97 ∷ []) ∷ (98 ∷ []) ∷ []} refl
      (line_and {input_chars = []} refl no_line)

calc_bits_per_character-Counts_example :
    Settles ⊥
      (λ text v.
        (t : Totals ℕ) × (text ≡ bits_of naturals 0 outside unsorted ascii helper t)
        × FileCounts naturals 0 outside unsorted ascii helper
            ((97 ∷ 98 ∷ []) ∷ [] ∷ [])
            (no_totals naturals 0 outside unsorted ascii helper)
            7
            t
            v
        × (t.tot_chars ≡ 4)
        × (t.tot_oov_chars ≤ t.tot_chars))
      (calc_bits_per_character naturals 0 outside unsorted ascii helper [] 7)
calc_bits_per_character-Counts_example =
    calc_bits_per_character-Counts naturals 0 outside unsorted ascii helper ⊥ ascii-IsUtf8
      helper-IsReady [] ((97 ∷ 98 ∷ []) ∷ [] ∷ []) ((97 ∷ []) ∷ (98 ∷ []) ∷ [] ∷ [] ∷ []) 7 refl
      two_lines (omega arith)

one_kbest_sample_lem_example :
    ((scores : Scored ℕ) (v : ℕ)
      → get_lm_scores naturals 0 outside unsorted ascii helper [] minus_one 7 ≡ ok scores v
      → (1 ≤ length scores.1
          → one_kbest_sample naturals 0 outside unsorted ascii helper (pos 1) [] 7
            ≡ ok (listed naturals 0 outside unsorted ascii helper [] (take 1 scores.1)) v)
        × (length scores.1 < 1
            → one_kbest_sample naturals 0 outside unsorted ascii helper (pos 1) [] 7 ≡ fault))
    × ((c : Code) (v : ℕ)
        → get_lm_scores naturals 0 outside unsorted ascii helper [] minus_one 7 ≡ err c v
        → one_kbest_sample naturals 0 outside unsorted ascii helper (pos 1) [] 7 ≡ err c v)
one_kbest_sample_lem_example = one_kbest_sample_lem naturals 0 outside unsorted ascii helper 1 [] 7
