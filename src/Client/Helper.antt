-- ===== src/Client/Helper.antt =====
-- mozolm/grpc/client_helper.h and .cc: what the client does with the answers of a server. Random
-- numbers, files and the formatting of numbers are parameters.
pub mod Answers
pub mod Positions
pub mod Indices
pub mod Rounds
pub mod Generating
pub mod Bits
pub mod KBest
pub mod Tests
use mozolm.Base.{
  ℕ, zero, suc, ◌+◌, ◌-◌, ◌^◌, ◌%◌, Bool, true, false, not, ◌&&◌, Option, none, some, List, [], ◌∷◌,
  ◌++◌, if◌then◌else◌, leb, ltb, ◌==◌, length, get_elem?, same_bytes,
}
use mozolm.Base.Int.{ℤ, pos, negsuc, minus_one, at}
use mozolm.Base.Program.{
  Program, Code, ok, err, fault, pure, fail, or_fault, internal, not_found, ◌>>=◌,
}
use mozolm.Double.{Double}
use mozolm.Utf8.{Bytes, Utf8Library, str_split_by_char}
use mozolm.Client.{Stub, Scored, get_lm_score, get_next_state, update_count_get_dest_state_score}

-- What the client calls besides gRPC.
pub record Outside (D W : Type 0) : Type 0 where
  -- `absl::Uniform` of a new generator, from a number up to below another one.
  pub uniform : ℕ → ℕ → W → ℕ × W
  -- The lines of a file, unless it cannot be opened.
  pub read_lines : Bytes → W → Option (List Bytes)
  pub log2 : D → D
  -- The first words of a list of hypotheses, and the list with one more of them.
  pub k_best_title : ℤ → Bytes
  pub with_hypothesis : Bytes → D × Bytes → Bytes
  -- The line with the number of characters, of unknown ones, and the bits per character.
  pub bits_line : ℕ → ℕ → D → Bytes
  -- "(subsequent generation failed)" and "(reached_length_limit)"
  pub generation_failed : Bytes
  pub reached_length_limit : Bytes

-- `ClientHelper`; the client is null before `Init`.
pub record ClientHelper (D W : Type 0) : Type 0 where
  pub timeout_sec : D
  pub completion_client : Option (Stub D W)

-- The conversion of an `int64` to `int`.
pub as_int : ℤ → ℤ
as_int (pos n) =
    let low = n % 2 ^ 32 in if ltb low (2 ^ 31) then pos low else negsuc (2 ^ 32 - 1 - low)
as_int (negsuc n) =
    let low = n % 2 ^ 32 in if ltb low (2 ^ 31) then negsuc low else pos (2 ^ 32 - 1 - low)

abbrev pub k_num_codepoints : ℕ
k_num_codepoints = 143859

abbrev pub k_max_rand_gen_len : ℕ
k_max_rand_gen_len = 128

-- The state of `RandGen` between the rounds of its loop.
pub record Generation (D : Type 0) : Type 0 where
  pub result : Bytes
  pub state : ℤ
  pub chosen : Bytes
  pub hyps : List (D × Bytes)
  pub success : Bool

-- The index of a symbol from number `idx` on, -1 if there is none.
pub string_index_loop : {D : Type 0} → Bytes → ℕ → List (D × Bytes) → ℤ
string_index_loop utf8_sym idx [] = minus_one
string_index_loop utf8_sym idx (h ∷ hs) =
    let rest = string_index_loop utf8_sym (idx + 1) hs in
    if same_bytes utf8_sym h.1 then pos idx else rest

-- `FindStringIndex`.
pub find_string_index : {D : Type 0} → List (D × Bytes) → Bytes → ℤ
unfolding string_index_loop
find_string_index hyps utf8_sym = string_index_loop utf8_sym 0 hyps

-- The status of a failed call, replaced by an internal error.
abbrev pub or_internal : {W A : Type 0} → Program W A → Program W A
or_internal m w = elim (m w) [ ok a v ↦ ok a v | err c v ↦ err internal v | fault ↦ fault ]

module _ {D : Type 0} (d : Double D) where
  -- The loop of `GetRandomPosition`.
  pub position_loop : D → ℕ → D → List (D × Bytes) → ℕ
  position_loop thresh p total_prob [] = p
  position_loop thresh p total_prob (h ∷ hs) =
      let rest = position_loop thresh (p + 1) (d.add total_prob h.0) hs in
      if d.lt total_prob thresh then rest else p

  -- `GetRandomPosition` for a threshold. The last decrement stops at 0.
  pub position_of : D → D → List (D × Bytes) → ℕ
  unfolding position_loop
  position_of zero_d thresh hyps = position_loop thresh 0 zero_d hyps - 1

module _ {D W : Type 0} (d : Double D) (zero_d : D) (out : Outside D W) where
  -- `GetUniformThreshold`.
  pub get_uniform_threshold : Program W D
  get_uniform_threshold w =
      ok (d.div (d.of_ℕ (out.uniform 0 100000 w).0) (d.of_ℕ 100000)) (out.uniform 0 100000 w).1

  -- `GetRandomPosition`.
  pub get_random_position : List (D × Bytes) → Program W ℕ
  unfolding get_uniform_threshold position_of
  get_random_position hyps = do
    thresh ← get_uniform_threshold
    pure (position_of d zero_d thresh hyps)

  -- `kMixEpsilon`, a `float`.
  abbrev pub k_mix_epsilon : D
  k_mix_epsilon = d.to_float (d.div (d.of_ℕ 1) (d.of_ℕ 100000000))

  -- `UniformMixValue`.
  pub uniform_mix_value : D
  uniform_mix_value = d.div k_mix_epsilon (d.of_ℕ k_num_codepoints)

  -- `CalculateBits`; an access out of bounds is `none`.
  pub calculate_bits : ℤ → List (D × Bytes) → Option D
  unfolding uniform_mix_value
  calculate_bits (negsuc k) hyps = some (d.neg (out.log2 uniform_mix_value))
  calculate_bits (pos idx) hyps = elim (get_elem? hyps idx) [
    | none ↦ none
    | some h ↦
        some
          (d.neg (out.log2 (d.add uniform_mix_value (d.mul h.0 (d.sub (d.of_ℕ 1) k_mix_epsilon)))))
  ]

  module _ (sort : List (D × Bytes) → List (D × Bytes)) (u : Utf8Library)
      (h : ClientHelper D W) where
    -- The test of the normalization.
    pub checked_scores : Scored D → Program W (Scored D)
    checked_scores s = if d.le s.0 zero_d then fail internal else pure s

    -- `GetLMScores`.
    pub get_lm_scores : Bytes → ℤ → Program W (Scored D)
    unfolding checked_scores
    get_lm_scores context_string initial_state = elim h.completion_client [
      | none ↦ fail internal
      | some stub ↦
          get_lm_score sort stub u context_string initial_state h.timeout_sec >>= checked_scores
    ]

    -- `GetNextState`; the check of the client ends the program.
    pub helper_next_state : Bytes → ℤ → Program W ℤ
    helper_next_state context_string initial_state = elim h.completion_client [
      | none ↦ λ w. fault
      | some stub ↦
          or_internal (get_next_state sort stub u context_string initial_state h.timeout_sec)
    ]

    -- `UpdateCountGetDestStateScore`.
    pub update_scores : Bytes → ℤ → ℤ → Program W (ℤ × Scored D)
    update_scores context_string initial_state count = elim h.completion_client [
      | none ↦ fail internal
      | some stub ↦
          update_count_get_dest_state_score sort stub u context_string initial_state h.timeout_sec
            count
    ]

    -- What a round of the loop of `RandGen` does after its update. The vector of a failed one is not read.
    pub after_update : Generation D → Option (ℤ × Scored D) → Generation D
    after_update g none = record g { hyps = []; success = false }
    after_update g (some r) = record g { state = r.0; hyps = r.1.1; success = true }

    -- Whether a call succeeded, with its value if so.
    abbrev pub attempted : {A : Type 0} → Program W A → Program W (Option A)
    attempted m w = elim (m w) [ ok a v ↦ ok (some a) v | err c v ↦ ok none v | fault ↦ fault ]

    -- The symbol at a position is appended, and counted unless it is empty.
    pub choose : Generation D → Option (D × Bytes) → Program W (Generation D)
    unfolding after_update update_scores
    choose g none = fail internal
    choose g (some (p, [])) = pure (record g { chosen = [] })
    choose g (some (p, b ∷ s)) = attempted (update_scores (b ∷ s) (as_int g.state) (pos 1)) >>= λ r.
        pure (after_update (record g { result = g.result ++ b ∷ s; chosen = b ∷ s }) r)

    -- A round of the loop of `RandGen`.
    pub generate : Generation D → Program W (Generation D)
    unfolding choose get_random_position
    generate g =
        if g.success
        then (get_random_position g.hyps >>= λ p. choose g (get_elem? g.hyps p))
        else pure (record g { result = g.result ++ out.generation_failed })

    -- The test at the end of a round.
    pub goes_on : ℕ → Generation D → Bool
    goes_on max_length g =
        g.success && not (length g.chosen == 0) && ltb (length g.result) max_length

    -- The loop of `RandGen`.
    pub generate_loop : ℕ → ℕ → Generation D → Program W (Generation D)
    unfolding generate goes_on
    generate_loop zero max_length g = λ w. fault
    generate_loop (suc fuel) max_length g = generate g >>= λ g'.
        if goes_on max_length g' then generate_loop fuel max_length g' else pure g'

    -- The result after the loop.
    pub generated : ℕ → Generation D → Program W Bytes
    generated max_length g =
        let result =
          if g.success && leb max_length (length g.result)
          then g.result ++ out.reached_length_limit
          else g.result in
        if not g.success then fail internal else pure result

    -- `RandGen`.
    pub rand_gen : ℕ → Bytes → Program W Bytes
    unfolding helper_next_state get_lm_scores generate_loop generated
    rand_gen fuel context_string = do
      let max_length = k_max_rand_gen_len + length context_string
      state ← helper_next_state context_string minus_one
      first ← get_lm_scores [] (as_int state)
      g ← generate_loop fuel max_length (record {
        result = context_string;
        state = state;
        chosen = [];
        hyps = first.1;
        success = true;
      })
      generated max_length g

    -- The loop of `OneKbestSample`.
    pub k_best_loop : ℕ → ℕ → List (D × Bytes) → Bytes → Program W Bytes
    k_best_loop zero i hyps result = pure result
    k_best_loop (suc k) i hyps result = or_fault (get_elem? hyps i) >>= λ p.
        k_best_loop k (i + 1) hyps (out.with_hypothesis result p)

    abbrev pub rounds : ℤ → ℕ
    rounds (pos n) = n
    rounds (negsuc n) = 0

    -- `OneKbestSample`.
    pub one_kbest_sample : ℤ → Bytes → Program W Bytes
    unfolding get_lm_scores k_best_loop
    one_kbest_sample k_best context_string = do
      first ← get_lm_scores context_string minus_one
      k_best_loop (rounds k_best) 0 first.1 (out.k_best_title k_best)
