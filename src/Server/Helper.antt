-- ===== src/Server/Helper.antt =====
-- mozolm/grpc/server_helper.h and .cc, with the start and the end of a server of server_async_impl.cc:
-- the configuration of a server, and when it runs. gRPC is a parameter, and so is `MakeModelHub`, which
-- mozolm.Factory models. A thread that is joined has ended, and a call that never returns is a fault.
pub mod Lifecycle
pub mod Tests
use mozolm.Base.{
  ℕ, Bool, true, false, Option, none, some, List, [], ◌∷◌, if◌then◌else◌, ◌==◌, length, not,
}
use mozolm.Base.Int.{ℤ, pos, is_nonpos}
use mozolm.Base.Program.{
  Program, Outcome, ok, err, fault, pure, fail, get, put, internal, calculated, ◌>>=◌, ◌>>◌,
}
use mozolm.Utf8.{Bytes}

pub data CredentialType : Type 0 where
  credential_insecure credential_ssl : CredentialType

-- `ServerAuthConfig::SslConfig`.
pub record SslConfig : Type 0 where
  pub server_key : Bytes
  pub server_cert : Bytes
  pub custom_ca_cert : Bytes
  pub client_verify : Bool

pub record ServerAuthConfig : Type 0 where
  pub credential_type : CredentialType
  pub ssl : Option SslConfig

-- `ServerConfig`, over the type of `ModelHubConfig`.
pub record ServerConfig (C : Type 0) : Type 0 where
  pub model_hub_config : C
  pub address_uri : Bytes
  pub auth : ServerAuthConfig
  pub wait_for_clients : Bool
  pub async_pool_size : ℤ

-- `SslServerCredentialsOptions`: whether a client's certificate is requested, required and verified,
-- the flag `force_client_auth`, the root certificates, and the key with its certificate.
pub record SslServerOptions : Type 0 where
  pub require_client_cert : Bool
  pub force_client_auth : Bool
  pub pem_root_certs : Bytes
  pub pem_key_cert_pairs : List (Bytes × Bytes)

pub data ServerCredentials : Type 0 where
  insecure_server : ServerCredentials
  ssl_server : SslServerOptions → ServerCredentials

-- `BuildServerCredentials` of a configuration of SSL.
unfoldable pub build_ssl_credentials : SslConfig → ServerCredentials
build_ssl_credentials config = ssl_server (record {
  require_client_cert = config.client_verify;
  force_client_auth = config.client_verify;
  pem_root_certs = if length config.custom_ca_cert == 0 then [] else config.custom_ca_cert;
  pem_key_cert_pairs = (config.server_key, config.server_cert) ∷ [];
})

-- `BuildServerCredentials`.
unfoldable pub build_server_credentials : ServerAuthConfig → ServerCredentials
unfolding build_ssl_credentials
build_server_credentials auth = elim auth.credential_type [
  | credential_insecure ↦ insecure_server
  | credential_ssl ↦ elim auth.ssl [
    | none ↦ insecure_server
    | some config ↦ build_ssl_credentials config
  ]
]

-- "localhost:50051"
abbrev pub k_default_server_address : Bytes
k_default_server_address =
    108 ∷ 111 ∷ 99 ∷ 97 ∷ 108 ∷ 104 ∷ 111 ∷ 115 ∷ 116 ∷ 58 ∷ 53 ∷ 48 ∷ 48 ∷ 53 ∷ 49 ∷ []

-- `InitConfigDefaults`.
pub init_server_defaults : {C : Type 0} → ServerConfig C → ServerConfig C
init_server_defaults config = record config {
  wait_for_clients = true;
  address_uri =
      if length config.address_uri == 0 then k_default_server_address else config.address_uri;
}

-- What `ServerAsyncImpl` keeps for its start and its end: whether its `server_` is there, and whether its
-- notification has been given.
pub record AsyncServer (H : Type 0) : Type 0 where
  pub model_hub : H
  pub server_shutdown : Bool
  pub async_pool : Option ℤ
  pub has_server : Bool
  pub rpcs_completed : Bool

-- A thread is one that can be joined, or that has been.
pub data Worker : Type 0 where
  joinable joined : Worker

-- `ServerHelper`.
pub record ServerHelper (H : Type 0) : Type 0 where
  pub server : Option (AsyncServer H)
  pub server_thread : Option Worker

abbrev pub new_helper : {H : Type 0} → ServerHelper H
new_helper = record { server = none; server_thread = none }

module _ {C H : Type 0} (make_model_hub : C → Program (Unit {0}) H)
    -- Whether `ServerBuilder::BuildAndStart` gives a server.
    (can_start : Bytes → ServerCredentials → Bool) where
  -- The constructor of `ServerAsyncImpl`.
  abbrev pub new_server : H → AsyncServer H
  new_server hub = record {
    model_hub = hub;
    server_shutdown = false;
    async_pool = none;
    has_server = false;
    rpcs_completed = false;
  }

  -- `Notify` of the notification, which may be given once.
  abbrev pub notify : Program (AsyncServer H) (Unit {0})
  notify s = if s.rpcs_completed then fault else ok tt (record s { rpcs_completed = true })

  -- `ServerAsyncImpl::BuildAndStart`.
  pub build_and_start : Bytes → ServerCredentials → ℤ → Program (AsyncServer H) (Unit {0})
  build_and_start address_uri creds async_pool_size s =
      if s.server_shutdown
      then err internal s
      else let pool : Option ℤ = if is_nonpos async_pool_size then none else some async_pool_size in
        let started = record s { async_pool = pool; has_server = can_start address_uri creds } in
        if can_start address_uri creds then notify started else err internal started

  -- The server that an object holds takes a call.
  abbrev pub held : Outcome (AsyncServer H) (Unit {0}) → Program (ServerHelper H) (Unit {0})
  held (ok a s) h = ok a (record h { server = some s })
  held (err c s) h = err c (record h { server = some s })
  held fault h = fault

  -- `ServerHelper::Init`.
  pub init : ServerConfig C → Program (ServerHelper H) (Unit {0})
  unfolding build_and_start build_server_credentials
  init config h = elim h.server [
    | some s ↦ err internal h
    | none ↦
        ◌>>=◌ (calculated (make_model_hub config.model_hub_config))
          (λ hub. held (
            build_and_start config.address_uri (build_server_credentials config.auth)
              config.async_pool_size (new_server hub)))
          h
  ]

  -- A thread is started, and waited for. It ends when the queue is shut down; where the server was not
  -- built, nothing shuts the queue down, so that the wait does not end.
  start_thread : Bool → AsyncServer H → Program (ServerHelper H) (Unit {0})
  start_thread wait_till_terminated s h =
      if not wait_till_terminated
      then ok tt (record h { server_thread = some joinable })
      else if s.has_server
      then ok tt (record h { server_thread = some joined })
      else fault

  -- `ServerHelper::Run`. A thread that can be joined may not be destroyed. With `wait_till_terminated` it
  -- returns when the thread has ended.
  pub run : Bool → Program (ServerHelper H) (Unit {0})
  unfolding start_thread
  run wait_till_terminated h = elim h.server [
    | none ↦ err internal h
    | some s ↦ elim h.server_thread [
      | some joinable ↦ fault
      | some joined ↦ start_thread wait_till_terminated s h
      | none ↦ start_thread wait_till_terminated s h
    ]
  ]

  -- The thread is joined, which does not return where it waits on a queue that is not shut down.
  abbrev pub joins : AsyncServer H → Option Worker → Bool
  joins s none = true
  joins s (some joined) = true
  joins s (some joinable) = s.has_server

  -- `ServerHelper::Shutdown`. The server is shut down, which for one that was not built does not shut the
  -- queue down; its thread is joined, and both are dropped.
  pub shutdown : Program (ServerHelper H) (Unit {0})
  shutdown h = elim h.server [
    | none ↦ ok tt h
    | some s ↦
        if joins s h.server_thread
        then ok tt (record { server = none; server_thread = none })
        else fault
  ]

  -- `RunServer`.
  pub run_server : ServerConfig C → Program (ServerHelper H) (Unit {0})
  unfolding init run
  run_server config = init config >>= λ t. if config.wait_for_clients then run true else pure tt
