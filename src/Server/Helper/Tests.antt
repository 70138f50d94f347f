-- ===== src/Server/Helper/Tests.antt =====
-- Servers that are initialised, run and shut down.
use mozolm.Base.{ℕ, ◌≡◌, refl, true, false, none, some, [], ◌∷◌}
use mozolm.Base.Int.{pos}
use mozolm.Base.Program.{Program, pure, err, fault, internal, ◌>>=◌}
use mozolm.Server.Helper.{
  ServerConfig, credential_insecure, ServerHelper, new_helper, init, run, shutdown, start_thread,
  joinable, build_and_start,
}

abbrev config : ServerConfig ℕ
config = record {
  model_hub_config = 3;
  address_uri = 58 ∷ 48 ∷ [];
  auth = record { credential_type = credential_insecure; ssl = none };
  wait_for_clients = true;
  async_pool_size = pos 0;
}

abbrev make_hub : ℕ → Program (Unit {0}) ℕ
make_hub c = pure c

abbrev active : ServerHelper ℕ
active = record {
  server = some (record {
    model_hub = 3;
    server_shutdown = false;
    async_pool = none;
    has_server = true;
    rpcs_completed = true;
  });
  server_thread = none;
}

abbrev running : ServerHelper ℕ
running = record active { server_thread = some joinable }

-- A server that cannot be started, is run all the same, and is shut down.
abbrev unbuilt : ServerHelper ℕ
unbuilt = record {
  server = some (record {
    model_hub = 3;
    server_shutdown = false;
    async_pool = none;
    has_server = false;
    rpcs_completed = false;
  });
  server_thread = none;
}

unbuilt-init : init make_hub (λ a c. false) config new_helper ≡ err internal unbuilt
unfolding init build_and_start
unbuilt-init = refl

unbuilt-shutdown :
    (run make_hub (λ a c. false) false >>= λ _. shutdown make_hub (λ a c. false)) unbuilt ≡ fault
unfolding run start_thread shutdown
unbuilt-shutdown = refl
