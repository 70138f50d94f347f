-- ===== src/Client/Helper/Bits/Counting.antt =====
-- `CalcBitsPerCharacter` of mozolm/grpc/client_helper.cc.
use mozolm.Base.{
  ℕ, ◌+◌, ◌^◌, ◌<◌, ◌≤◌, ◌≡◌, ◌≢◌, refl, ◌∙◌, true, some, List, [], ◌∷◌, ◌++◌, arith, length,
  length-append, get_elem?, All, ltb,
}
use mozolm.Base.Int.{ℤ, pos, negsuc}
use mozolm.Base.Program.{
  Settles, Settles-bind, Settles-call, Settles-weaken, ok, ◌>>=◌, or_fault, bind_ok,
}
use mozolm.Double.{Double}
use mozolm.Utf8.{Bytes, Utf8Library, IsUtf8, str_split_by_char}
use mozolm.Client.{Scored}
use mozolm.Client.Requests.{Usable}
use mozolm.Client.Helper.{
  Outside, ClientHelper, as_int, k_mix_epsilon, uniform_mix_value, find_string_index,
  calculate_bits, get_lm_scores, update_scores,
}
use mozolm.Client.Helper.Bits.{
  Totals, increment, count_character, characters_loop, count_line, lines_loop, bits_of, no_totals,
  calc_bits_per_character,
}
use mozolm.Client.Helper.Answers.{IsReady, get_lm_scores-Settles, update_scores-Settles}
use mozolm.Client.Helper.Indices.{IsFirst, find_string_index_lem}

-- The characters of the lines of a file, with an empty text at each end of a line.
pub data Characters (u : Utf8Library) : List Bytes → List Bytes → Type 0 where
  no_line : Characters u [] []
  line_and :
      {line : Bytes} {lines input_chars syms : List Bytes}
      → str_split_by_char u line ≡ some input_chars
      → Characters u lines syms
      → Characters u (line ∷ lines) ((input_chars ++ [] ∷ []) ++ syms)

module _ {D W : Type 0} (d : Double D) (zero_d : D) (out : Outside D W) where
  -- The totals after a character with a probability, and after one without.
  abbrev pub with_known : D → Totals D → Totals D
  with_known p t = record {
    tot_chars = t.tot_chars + 1;
    tot_oov_chars = t.tot_oov_chars;
    tot_bits = d.add t.tot_bits (
        d.neg (
          out.log2 (
            d.add (uniform_mix_value d zero_d out)
              (d.mul p (d.sub (d.of_ℕ 1) (k_mix_epsilon d zero_d out))))));
  }

  abbrev pub with_unknown : Totals D → Totals D
  with_unknown t = record {
    tot_chars = t.tot_chars + 1;
    tot_oov_chars = t.tot_oov_chars + 1;
    tot_bits = d.add t.tot_bits (d.neg (out.log2 (uniform_mix_value d zero_d out)));
  }

  module _ (sort : List (D × Bytes) → List (D × Bytes)) (u : Utf8Library)
      (h : ClientHelper D W) where
    -- The characters of a line, from a state with the hypotheses that the server gave for it, and from
    -- totals and a world to those behind them. Each character is counted once, with the probability of the
    -- first hypothesis for it or as unknown where there is none; the state and the hypotheses for the next
    -- one are those that the server answers the update of this one with.
    pub data Counts : ℤ → List (D × Bytes) → List Bytes → Totals D → W → Totals D → W → Type 0 where
      counted :
          {state : ℤ} {hyps : List (D × Bytes)} {t : Totals D} {w : W}
          → Counts state hyps [] t w t w
      known :
          {state : ℤ} {hyps : List (D × Bytes)} {utf8_sym : Bytes} {syms : List Bytes}
          {t t' : Totals D} {w v v' : W} {r : ℤ × Scored D}
          → (i : ℕ) (p : D) → get_elem? hyps i ≡ some (p, utf8_sym)
          → ((j : ℕ) (h : D × Bytes) → j < i → get_elem? hyps j ≡ some h → utf8_sym ≢ h.1)
          → update_scores d zero_d out sort u h utf8_sym (as_int state) (pos 1) w ≡ ok r v
          → Counts r.0 r.1.1 syms (with_known p t) v t' v'
          → Counts state hyps (utf8_sym ∷ syms) t w t' v'
      unknown :
          {state : ℤ} {hyps : List (D × Bytes)} {utf8_sym : Bytes} {syms : List Bytes}
          {t t' : Totals D} {w v v' : W} {r : ℤ × Scored D}
          → All (λ h. utf8_sym ≢ h.1) hyps
          → update_scores d zero_d out sort u h utf8_sym (as_int state) (pos 1) w ≡ ok r v
          → Counts r.0 r.1.1 syms (with_unknown t) v t' v'
          → Counts state hyps (utf8_sym ∷ syms) t w t' v'

    -- The lines of a file, each from state 0 with the hypotheses that the server gives for it.
    pub data FileCounts : List Bytes → Totals D → W → Totals D → W → Type 0 where
      no_more : {t : Totals D} {w : W} → FileCounts [] t w t w
      line_counted :
          {line : Bytes} {lines input_chars : List Bytes} {t t' t'' : Totals D} {w v v' v'' : W}
          {first : Scored D}
          → str_split_by_char u line ≡ some input_chars
          → get_lm_scores d zero_d out sort u h [] (pos 0) w ≡ ok first v
          → Counts (pos 0) first.1 (input_chars ++ [] ∷ []) t v t' v'
          → FileCounts lines t' v' t'' v''
          → FileCounts (line ∷ lines) t w t'' v''

    Counts-tot_chars :
        {state : ℤ} {hyps : List (D × Bytes)} {syms : List Bytes} {t t' : Totals D} {w v : W}
        → Counts state hyps syms t w t' v
        → t.tot_oov_chars ≤ t.tot_chars
        → (t'.tot_chars ≡ t.tot_chars + length syms) × (t'.tot_oov_chars ≤ t'.tot_chars)
    Counts-tot_chars counted fewer = (omega arith, fewer)
    Counts-tot_chars (known i p e before called c) fewer =
        let (chars, oov) = Counts-tot_chars c (omega arith) in (omega arith, oov)
    Counts-tot_chars (unknown none_has called c) fewer =
        let (chars, oov) = Counts-tot_chars c (omega arith) in (omega arith, oov)

    -- What counting one character gives.
    record IsCounted (state : ℤ) (hyps : List (D × Bytes)) (utf8_sym : Bytes) (idx : ℤ)
        (t : Totals D) (w : W) : Type 0 where
      next : Totals D
      called : count_character d zero_d out sort u h hyps idx t w ≡ ok next w
      then_counts :
          (r : ℤ × Scored D) (v v' : W) (syms : List Bytes) (t' : Totals D)
          → update_scores d zero_d out sort u h utf8_sym (as_int state) (pos 1) w ≡ ok r v
          → Counts r.0 r.1.1 syms next v t' v'
          → Counts state hyps (utf8_sym ∷ syms) t w t' v'
      chars_lem : next.tot_chars ≡ t.tot_chars + 1
      oov_lem : next.tot_oov_chars ≤ next.tot_chars

    increment_lem : (n : ℕ) (w : W) → n + 1 < 2 ^ 31 → increment n w ≡ ok (n + 1) w
    unfolding increment
    increment_lem n w room = let e : ltb (n + 1) (2 ^ 31) ≡ true = ground arith in rw e refl

    count_character-IsCounted :
        (state : ℤ) (hyps : List (D × Bytes)) (utf8_sym : Bytes) (idx : ℤ) (t : Totals D) (w : W)
        → IsFirst utf8_sym hyps idx
        → t.tot_chars + 1 < 2 ^ 31
        → t.tot_oov_chars ≤ t.tot_chars
        → IsCounted state hyps utf8_sym idx t w
    unfolding count_character calculate_bits
    count_character-IsCounted state hyps utf8_sym (pos i) t w ((p, e), before) room fewer = record {
      next = with_known p t;
      called =
          rw (e, or_fault) (bind_ok (increment t.tot_chars) _ w (increment_lem t.tot_chars w room));
      then_counts = λ r v v' syms t' called c. known i p e before called c;
      chars_lem = refl;
      oov_lem = omega arith;
    }
    count_character-IsCounted state hyps utf8_sym (negsuc k) t w (z, none_has) room fewer = record {
      next = with_unknown t;
      called =
          bind_ok (increment t.tot_oov_chars) _ w (increment_lem t.tot_oov_chars w (omega arith))
          ∙ bind_ok (increment t.tot_chars) _ w (increment_lem t.tot_chars w room);
      then_counts = λ r v v' syms t' called c. unknown none_has called c;
      chars_lem = refl;
      oov_lem = omega arith;
    }

    module _ (E : Type 0) (law : IsUtf8 u) (ready : IsReady d zero_d sort E h) where
      characters_loop-Counts :
          (syms : List Bytes) (state : ℤ) (hyps : List (D × Bytes)) (t : Totals D) (w : W)
          → t.tot_chars + length syms < 2 ^ 31
          → t.tot_oov_chars ≤ t.tot_chars
          → Settles E
              (Counts state hyps syms t w)
              (characters_loop d zero_d out sort u h syms state hyps t w)
      unfolding characters_loop
      characters_loop-Counts [] state hyps t w room fewer = counted
      characters_loop-Counts (utf8_sym ∷ syms) state hyps t w room fewer =
          let c =
            count_character-IsCounted state hyps utf8_sym (find_string_index hyps utf8_sym) t w
              (find_string_index_lem hyps utf8_sym) (omega arith) fewer in
          let chars = c.chars_lem in
          rw (c.called, ◌>>=◌)
            (Settles-call E (λ r v. Usable d zero_d E r.1 v)
              (Counts state hyps (utf8_sym ∷ syms) t w)
              (update_scores d zero_d out sort u h utf8_sym (as_int state) (pos 1)) _ w
              (update_scores-Settles d zero_d out sort u E h ready law utf8_sym (as_int state)
                (pos 1) w)
              (λ r v answered usable.
                Settles-weaken E (Counts r.0 r.1.1 syms c.next v)
                  (Counts state hyps (utf8_sym ∷ syms) t w)
                  (λ t' v' rest. c.then_counts r v v' syms t' answered rest)
                  (characters_loop d zero_d out sort u h syms r.0 r.1.1 c.next v)
                  (characters_loop-Counts syms r.0 r.1.1 c.next v (omega arith) c.oov_lem)))

      -- The totals of some lines, with their number of characters.
      AreCounted : List Bytes → List Bytes → Totals D → W → Totals D → W → Type 0
      AreCounted lines syms t w t' v =
          FileCounts lines t w t' v
          × (t'.tot_chars ≡ t.tot_chars + length syms)
          × (t'.tot_oov_chars ≤ t'.tot_chars)

      lines_loop-AreCounted :
          (lines syms : List Bytes) (t : Totals D) (w : W)
          → Characters u lines syms
          → t.tot_chars + length syms < 2 ^ 31
          → t.tot_oov_chars ≤ t.tot_chars
          → Settles E (AreCounted lines syms t w) (lines_loop d zero_d out sort u h lines t w)
      unfolding lines_loop count_line AreCounted
      lines_loop-AreCounted lines syms t w no_line room fewer = (no_more, omega arith, fewer)
      lines_loop-AreCounted lines syms t w
            (line_and {line} {lines = more} {input_chars} {syms = others} split rest) room fewer =
          let here = input_chars ++ [] ∷ [] in
          let together = length-append here others in
          let OfLine : Totals D → W → Type 0 = λ t' v'.
            (first : Scored D) × (v : W) × (get_lm_scores d zero_d out sort u h [] (pos 0) w
              ≡ ok first v)
            × Counts (pos 0) first.1 here t v t' v' in
          Settles-bind E OfLine (AreCounted (line ∷ more) (here ++ others) t w)
            (count_line d zero_d out sort u h line t) (lines_loop d zero_d out sort u h more) w
            (rw (split, or_fault)
              (Settles-call E (Usable d zero_d E) OfLine
                (get_lm_scores d zero_d out sort u h [] (pos 0)) _ w
                (get_lm_scores-Settles d zero_d out sort u E h ready [] (pos 0) w)
                (λ first v called usable.
                  Settles-weaken E (Counts (pos 0) first.1 here t v) OfLine
                    (λ t' v' c. (first, v, called, c))
                    (characters_loop d zero_d out sort u h here (pos 0) first.1 t v)
                    (characters_loop-Counts here (pos 0) first.1 t v (omega arith) fewer))))
            (λ t' v' (first, v, called, c).
              let (chars, oov) = Counts-tot_chars c fewer in
              Settles-weaken E (AreCounted more others t' v')
                (AreCounted (line ∷ more) (here ++ others) t w)
                (λ t'' v'' (last, chars', oov').
                  (line_counted split called c last, omega arith, oov'))
                (lines_loop d zero_d out sort u h more t' v')
                (lines_loop-AreCounted more others t' v' rest (omega arith) oov))

      -- CalcBitsPerCharacter of a file that can be opened and holds fewer than 2^31 characters, the ends
      -- of the lines included, by a client that is connected: it ends without a fault. Each line starts
      -- from state 0 with the scores that the server gives for it. Each character is counted once and in
      -- order, with the bits of the first hypothesis for it among those that the server last gave, or as
      -- unknown where there is none, and is then sent to the server, whose answer is the next state with
      -- its hypotheses. The result reports these totals. It fails only for the reason `E` that calls fail
      -- for: where every call is answered it does not. The UTF-8 library keeps its law.
      pub calc_bits_per_character-Counts :
          (test_file : Bytes) (lines syms : List Bytes) (w : W)
          → out.read_lines test_file w ≡ some lines
          → Characters u lines syms
          → length syms < 2 ^ 31
          → Settles E
              (λ text v.
                (t : Totals D) × (text ≡ bits_of d zero_d out sort u h t)
                × FileCounts lines (no_totals d zero_d out sort u h) w t v
                × (t.tot_chars ≡ length syms)
                × (t.tot_oov_chars ≤ t.tot_chars))
              (calc_bits_per_character d zero_d out sort u h test_file w)
      unfolding calc_bits_per_character AreCounted
      calc_bits_per_character-Counts test_file lines syms w opened split room =
          rw (opened, Settles)
            (Settles-bind E (AreCounted lines syms (no_totals d zero_d out sort u h) w) _
              (lines_loop d zero_d out sort u h lines (no_totals d zero_d out sort u h)) _ w
              (lines_loop-AreCounted lines syms (no_totals d zero_d out sort u h) w split
                (omega arith) (omega arith))
              (λ t v (counts, chars, oov). (t, refl, counts, omega arith, oov)))
