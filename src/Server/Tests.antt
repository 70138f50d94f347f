-- ===== src/Server/Tests.antt =====
-- The server at concrete runs and requests.
use mozolm.Base.{same_bytes, ℕ, ◌+◌, ◌≡◌, ◌≤◌, refl, true, false, List, [], ◌∷◌, arith}
use mozolm.Base.Int.{pos, negsuc}
use mozolm.Base.Program.{ok}
use mozolm.Double.Tests.{naturals}
use mozolm.Utf8.{
  Bytes, str_split_by_char_to_unicode, str_split_by_char, split_loop, decode_each,
  decode_single_unicode_char, decode_unicode_char,
}
use mozolm.Utf8.Tests.{ascii}
use mozolm.Bigram.{Bigram}
use mozolm.Bigram.Transitions.{bigram_transitions}
use mozolm.Hub.{Hub}
use mozolm.Hub.Tests.{model, raw, hub0, first, all_transitions, no_state}
use mozolm.Hub.Initial.{initial-IsConsistent}
use mozolm.Hub.Stepping.{Steps}
use mozolm.Server.{GetContextRequest, handle_get_lm_scores, handle_get_next_state}
use mozolm.Server.Queue.{
  get_next_state, get_lm_score, update_lm_scores, Server, increment_rpc_pending, request_next,
  process, cleanup_after, built, requests_started, call_arrived, response_sent, Reachable, started,
  stepped, no_step, one_more, Run,
}
use mozolm.Server.Queue.Pending.{
  IsAccounted, outstanding, work_left, rpcs_pending-IsAccounted, Run-work_left,
  rpcs_completed_early,
}
use mozolm.Server.Requests.{at_state, handle_get_lm_scores-handle_get_next_state}

-- A call for scores has arrived.
abbrev s0 : Server
s0 = requests_started built

abbrev s1 : Server
s1 = process get_lm_score true (record s0 { waiting = get_next_state ∷ update_lm_scores ∷ [] })

s1-Reachable : Reachable s1
unfolding requests_started request_next increment_rpc_pending
s1-Reachable =
    stepped started
      (call_arrived s0 (get_next_state ∷ []) (update_lm_scores ∷ []) get_lm_score refl refl)

rpcs_pending-IsAccounted_example : IsAccounted s1
rpcs_pending-IsAccounted_example = rpcs_pending-IsAccounted s1-Reachable

rpcs_completed_early_example :
    (s1.rpcs_completed ≡ true)
    × (s1.server_shutdown ≡ false
        → (3 ≤ outstanding s1)
          × (t : Server) × Run 2 s1 t
          × (t.queue_shutdown ≡ true)
          × (outstanding t ≡ outstanding s1))
rpcs_completed_early_example = rpcs_completed_early s1-Reachable

-- A server that was shut down while it sent a response.
abbrev down : Server
down = record {
  server_shutdown = true;
  rpcs_pending = pos 2;
  rpcs_completed = true;
  waiting = get_lm_score ∷ [];
  finishing = get_next_state ∷ [];
  queue_shutdown = false;
}

abbrev sent : Server
sent = cleanup_after get_next_state (record down { finishing = [] })

Run-work_left_example : (1 + work_left sent ≤ work_left down) × (sent.server_shutdown ≡ true)
Run-work_left_example =
    Run-work_left (one_more (response_sent down [] [] get_next_state refl) (no_step sent)) refl

abbrev unsorted : List (Bytes × ℕ) → List (Bytes × ℕ)
unsorted values = values

abbrev request : GetContextRequest
request = record { context = 2 ∷ 3 ∷ []; state = negsuc 0 }

handle_get_lm_scores-handle_get_next_state_example :
    (j : ℕ) × (hub' : Hub ℕ (Bigram ℕ)) × (handle_get_next_state naturals ascii model same_bytes 0
        unsorted unsorted request hub0
      ≡ ok (pos j) hub')
    × (handle_get_lm_scores naturals ascii model same_bytes 0 unsorted unsorted
          (at_state (pos j))
          hub'
        ≡ handle_get_lm_scores naturals ascii model same_bytes 0 unsorted unsorted request hub0)
unfolding str_split_by_char_to_unicode str_split_by_char split_loop decode_each
    decode_single_unicode_char decode_unicode_char
handle_get_lm_scores-handle_get_next_state_example =
    handle_get_lm_scores-handle_get_next_state naturals ascii model same_bytes 0 unsorted unsorted
      bigram_transitions request (pos 2 ∷ pos 3 ∷ []) hub0 0 first
      (initial-IsConsistent model (Steps bigram_transitions raw.language_models) raw (2 ∷ 3 ∷ [])
        (pos 10))
      (all_transitions raw.language_models) (no_state raw.language_models) refl refl refl
      (omega arith)
