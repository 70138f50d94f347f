-- ===== src/Server.antt =====
-- mozolm/grpc/server_async_impl.h and .cc: the requests that the server answers, over the hub that it
-- owns.
pub mod Queue
pub mod Requests
pub mod Updates
pub mod Helper
pub mod Tests
use mozolm.Base.{ℕ, Bool, true, false, List, [], ◌∷◌, if◌then◌else◌}
use mozolm.Base.Int.{ℤ, pos}
use mozolm.Base.Program.{Program, ok, err, fault, invalid_argument, pure, fail, ◌>>=◌}
use mozolm.Double.{Double}
use mozolm.Utf8.{Bytes, Utf8Library}
use mozolm.Model.{LmScores, LanguageModel}
use mozolm.Hub.{Hub, next_state, context_state, update_lm_counts}
use mozolm.Hub.Mixing.{extract_lm_scores}

-- `GetContextRequest` and `UpdateLMScoresRequest` of service.proto.
pub record GetContextRequest : Type 0 where
  pub context : Bytes
  pub state : ℤ

pub record UpdateLmScoresRequest : Type 0 where
  pub state : ℤ
  pub utf8_sym : List ℤ
  pub count : ℤ

module _ {D M : Type 0} (d : Double D) (u : Utf8Library) (o : LanguageModel D M)
    (same_bytes : Bytes → Bytes → Bool) (zero_d : D)
    (order sort : List (Bytes × D) → List (Bytes × D)) where
  abbrev empty_response : LmScores D
  empty_response = record { symbols = []; probabilities = []; normalization = zero_d }

  -- The scores of a state, or the error of a request whose state is not one of the hub.
  pub scores_or_error : ℤ → Program (Hub D M) (LmScores D)
  scores_or_error state hub =
      ◌>>=◌ (extract_lm_scores d same_bytes zero_d order sort o state empty_response)
        (λ r. if r.0 then pure r.1 else fail invalid_argument) hub

  pub handle_get_lm_scores : GetContextRequest → Program (Hub D M) (LmScores D)
  unfolding scores_or_error
  handle_get_lm_scores request = context_state o u request.context request.state >>= scores_or_error

  pub handle_get_next_state : GetContextRequest → Program (Hub D M) ℤ
  handle_get_next_state request = context_state o u request.context request.state

  -- The loop of `ManageUpdateLMScores` over the symbols.
  pub advance_loop : ℤ → List ℤ → Program (Hub D M) ℤ
  advance_loop curr_state [] = pure curr_state
  advance_loop curr_state (c ∷ cs) = next_state o curr_state c >>= λ next. advance_loop next cs

  pub manage_update_lm_scores : UpdateLmScoresRequest → Program (Hub D M) (LmScores D)
  unfolding advance_loop scores_or_error
  manage_update_lm_scores request = do
    curr_state ← advance_loop request.state request.utf8_sym
    updated ← update_lm_counts o request.state request.utf8_sym request.count
    if updated then scores_or_error curr_state else fail invalid_argument
