-- ===== src/Client.antt =====
-- mozolm/grpc/client_async_impl.h and .cc: the requests that a client sends. gRPC, with the server at
-- the other end, is a parameter.
pub mod Requests
pub mod Helper
pub mod Configuration
pub mod Served
pub mod Tests
use mozolm.Base.{Bool, true, false, not, Option, none, some, List, if◌then◌else◌}
use mozolm.Base.Int.{ℤ, pos, minus_one, eq_ℤ}
use mozolm.Base.Program.{Program, ok, pure, fail, or_fault, lift, internal, ◌>>=◌, ◌>>◌}
use mozolm.Utf8.{Bytes, Utf8Library, str_split_by_char_to_unicode}
use mozolm.Model.{LmScores, get_top_hypotheses}
use mozolm.Server.{GetContextRequest, UpdateLmScoresRequest}

-- How a call ends: what `Next` of the completion queue returns, with the flag and the tag that it
-- stores, and the status and the response that `Finish` stores.
pub record Finished (R : Type 0) : Type 0 where
  pub next : Bool
  pub ok_flag : Bool
  pub got_tag : ℤ
  pub status_ok : Bool
  pub response : R

-- `MozoLMService::StubInterface`, with the timeout in seconds of the context of a call, over the type
-- `W` of what is outside of the client. `none` is a reader that is null.
pub record Stub (D W : Type 0) : Type 0 where
  pub async_get_lm_scores : D → GetContextRequest → W → Option (Finished (LmScores D)) × W
  pub async_get_next_state : D → GetContextRequest → W → Option (Finished ℤ) × W
  pub async_update_lm_scores : D → UpdateLmScoresRequest → W → Option (Finished (LmScores D)) × W

abbrev pub finish_tag : ℤ
finish_tag = pos 1

-- The normalization of the scores, and the hypotheses.
abbrev pub Scored : Type 0 → Type 0
Scored D = D × List (D × Bytes)

module _ {W : Type 0} where
  abbrev pub call : {R : Type 0} → (W → Option (Finished R) × W) → Program W (Option (Finished R))
  call f w = ok (f w).0 (f w).1

  -- `WaitAndCheck`.
  pub wait_and_check : {R : Type 0} → Finished R → ℤ → Program W (Unit {0})
  wait_and_check finished expected_tag =
      if not finished.next
      then fail internal
      else if not finished.ok_flag
      then fail internal
      else if not (eq_ℤ expected_tag finished.got_tag)
      then fail internal
      else pure tt

  -- The response of a call that has a reader, once it is finished; an access of a null reader is a fault.
  pub response_of : {R : Type 0} → Option (Finished R) → Program W R
  unfolding wait_and_check
  response_of rpc = do
    finished ← or_fault rpc
    wait_and_check finished finish_tag
    (if finished.status_ok then pure finished.response else fail internal)

  -- The same with a test of the reader.
  pub checked_response_of : {R : Type 0} → Option (Finished R) → Program W R
  unfolding response_of
  checked_response_of none = fail internal
  checked_response_of (some finished) = response_of (some finished)

module _ {D W : Type 0} (sort : List (D × Bytes) → List (D × Bytes)) (stub : Stub D W)
    (u : Utf8Library) where
  -- The normalization and all hypotheses of a response.
  pub top_scores : LmScores D → Program W (Scored D)
  top_scores response = do
    hyps ← lift (get_top_hypotheses sort response minus_one)
    pure (response.normalization, hyps)

  -- `GetLMScore`.
  pub get_lm_score : Bytes → ℤ → D → Program W (Scored D)
  unfolding response_of top_scores
  get_lm_score context_str initial_state timeout_sec = do
    rpc ← call (
        stub.async_get_lm_scores timeout_sec
          (record { context = context_str; state = initial_state }))
    response ← response_of rpc
    top_scores response

  -- `GetNextState`.
  pub get_next_state : Bytes → ℤ → D → Program W ℤ
  unfolding checked_response_of
  get_next_state context_str initial_state timeout_sec = do
    rpc ← call (
        stub.async_get_next_state timeout_sec
          (record { context = context_str; state = initial_state }))
    checked_response_of rpc

  -- `UpdateCountGetDestStateScore` of code points.
  pub update_count : List ℤ → ℤ → D → ℤ → Program W (Scored D)
  unfolding response_of top_scores
  update_count context_str initial_state timeout_sec count = do
    rpc ← call (
        stub.async_update_lm_scores timeout_sec
          (record { state = initial_state; utf8_sym = context_str; count = count }))
    response ← response_of rpc
    top_scores response

  -- `UpdateCountGetDestStateScore` of a text.
  pub update_count_get_dest_state_score : Bytes → ℤ → D → ℤ → Program W (ℤ × Scored D)
  unfolding update_count get_next_state
  update_count_get_dest_state_score context_str initial_state timeout_sec count = do
    utf8_syms ← or_fault (str_split_by_char_to_unicode u context_str)
    result ← update_count utf8_syms initial_state timeout_sec count
    next_state ← get_next_state context_str initial_state timeout_sec
    pure (next_state, result)
