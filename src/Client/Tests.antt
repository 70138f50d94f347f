-- ===== src/Client/Tests.antt =====
-- The client at a server with bigram models, and the credentials of both.
use mozolm.Base.{Bool, ℕ, ◌≡◌, true, some, List, [], ◌∷◌, same_bytes}
use mozolm.Base.Int.{pos, minus_one}
use mozolm.Base.Program.{or_fault, ok, ◌>>=◌}
use mozolm.Double.Tests.{naturals}
use mozolm.Utf8.{Bytes, str_split_by_char_to_unicode}
use mozolm.Utf8.Tests.{ascii}
use mozolm.Hub.Tests.{model, hub0}
use mozolm.Server.{handle_get_lm_scores, handle_get_next_state, manage_update_lm_scores}
use mozolm.Server.Helper.{credential_ssl}
use mozolm.Client.{top_scores, get_lm_score, get_next_state, update_count_get_dest_state_score}
use mozolm.Client.Served.{over_server, seen, over_server-handlers}
use mozolm.Client.Configuration.{ClientConfig, randgen}

abbrev unsorted : List (Bytes × ℕ) → List (Bytes × ℕ)
unsorted values = values

abbrev unsorted_hyps : List (ℕ × Bytes) → List (ℕ × Bytes)
unsorted_hyps values = values

over_server-handlers_example :
    (get_next_state unsorted_hyps
        (over_server naturals ascii model same_bytes 0 unsorted unsorted)
        ascii
        (2 ∷ [])
        minus_one
        5
        hub0
      ≡ seen
          (handle_get_next_state naturals ascii model same_bytes 0 unsorted unsorted
            (record { context = 2 ∷ []; state = minus_one }))
          hub0)
    × (get_lm_score unsorted_hyps
          (over_server naturals ascii model same_bytes 0 unsorted unsorted)
          ascii
          (2 ∷ [])
          minus_one
          5
          hub0
        ≡ ◌>>=◌
            (seen (
              handle_get_lm_scores naturals ascii model same_bytes 0 unsorted unsorted
                (record { context = 2 ∷ []; state = minus_one })))
            (top_scores unsorted_hyps
              (over_server naturals ascii model same_bytes 0 unsorted unsorted)
              ascii)
            hub0)
    × (update_count_get_dest_state_score unsorted_hyps
          (over_server naturals ascii model same_bytes 0 unsorted unsorted)
          ascii
          (2 ∷ [])
          minus_one
          5
          (pos 1)
          hub0
        ≡ ◌>>=◌
            (or_fault (str_split_by_char_to_unicode ascii (2 ∷ [])))
            (λ syms.
              seen (
                manage_update_lm_scores naturals ascii model same_bytes 0 unsorted unsorted
                  (record { state = minus_one; utf8_sym = syms; count = pos 1 }))
              >>= top_scores unsorted_hyps
                  (over_server naturals ascii model same_bytes 0 unsorted unsorted)
                  ascii
              >>= λ result.
                  seen (
                    handle_get_next_state naturals ascii model same_bytes 0 unsorted unsorted
                      (record { context = 2 ∷ []; state = minus_one }))
                  >>= λ next. λ hub'. ok (next, result) hub')
            hub0)
over_server-handlers_example =
    over_server-handlers naturals ascii model same_bytes 0 unsorted unsorted unsorted_hyps (2 ∷ [])
      minus_one (pos 1) 5 hub0

abbrev config : ClientConfig ℕ ℕ
config = record {
  server = record {
    model_hub_config = 0;
    address_uri = 58 ∷ 48 ∷ [];
    auth = record {
      credential_type = credential_ssl;
      ssl = some (record {
        server_key = 1 ∷ [];
        server_cert = 2 ∷ [];
        custom_ca_cert = 3 ∷ [];
        client_verify = true;
      });
    };
    wait_for_clients = true;
    async_pool_size = pos 0;
  };
  auth_ssl = some (record { target_name_override = []; client_cert = 3 ∷ []; client_key = 4 ∷ [] });
  request_type = randgen;
  k_best = pos 0;
  context_string = [];
  test_corpus = [];
  timeout_sec = 5;
}

-- Any certificate has any name.
abbrev any_name : Bytes → Bytes → Bool
any_name cert name = true
