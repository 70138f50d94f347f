-- ===== src/Client/Configuration.antt =====
-- mozolm/grpc/client_helper.cc, with the configuration of a client: how it connects and what it runs.
pub mod Credentials
use mozolm.Base.{
  ℕ, ◌+◌, Bool, true, false, not, Option, none, some, List, [], ◌∷◌, if◌then◌else◌, ◌==◌, length,
}
use mozolm.Base.Int.{ℤ, pos}
use mozolm.Base.Program.{Program, ok, err, fault, pure, fail, internal, invalid_argument, ◌>>=◌}
use mozolm.Double.{Double}
use mozolm.Utf8.{Bytes, Utf8Library}
use mozolm.Client.{Stub}
use mozolm.Client.Helper.{Outside, ClientHelper, k_max_rand_gen_len, rand_gen, one_kbest_sample}
use mozolm.Client.Helper.Bits.{calc_bits_per_character}
use mozolm.Server.Helper.{
  CredentialType, credential_insecure, credential_ssl, SslConfig, ServerConfig,
  init_server_defaults,
}

-- `ClientAuthConfig::SslConfig`.
pub record ClientSsl : Type 0 where
  pub target_name_override : Bytes
  pub client_cert : Bytes
  pub client_key : Bytes

pub data ClientRequestType : Type 0 where
  not_set k_best_items randgen bits_per_char_calculation unknown_request : ClientRequestType

-- `ClientConfig`; `auth_ssl` is the `ssl` of `ClientAuthConfig`.
pub record ClientConfig (D C : Type 0) : Type 0 where
  pub server : ServerConfig C
  pub auth_ssl : Option ClientSsl
  pub request_type : ClientRequestType
  pub k_best : ℤ
  pub context_string : Bytes
  pub test_corpus : Bytes
  pub timeout_sec : D

-- `SslCredentialsOptions`.
pub record SslOptions : Type 0 where
  pub pem_root_certs : Bytes
  pub pem_cert_chain : Bytes
  pub pem_private_key : Bytes

pub data ChannelCredentials : Type 0 where
  insecure_channel : ChannelCredentials
  ssl_channel : SslOptions → ChannelCredentials

-- Credentials, and the name of the target that the arguments of the channel set, if any.
pub record ChannelSetup : Type 0 where
  pub credentials : ChannelCredentials
  pub ssl_target_name_override : Option Bytes

-- The client's side of SSL: the certificates that it presents, and the name that it expects.
pub ssl_setup : SslConfig → Option ClientSsl → ChannelSetup
ssl_setup server_ssl none = record {
  credentials = ssl_channel (record {
    pem_root_certs = server_ssl.server_cert;
    pem_cert_chain = [];
    pem_private_key = [];
  });
  ssl_target_name_override = none;
}
ssl_setup server_ssl (some client_ssl) = record {
  credentials = ssl_channel (record {
    pem_root_certs = server_ssl.server_cert;
    pem_cert_chain = client_ssl.client_cert;
    pem_private_key = client_ssl.client_key;
  });
  ssl_target_name_override =
      if not (length client_ssl.target_name_override == 0)
      then some client_ssl.target_name_override
      else none;
}

abbrev pub insecure_setup : ChannelSetup
insecure_setup = record { credentials = insecure_channel; ssl_target_name_override = none }

module _ {D C : Type 0} where
  -- `BuildChannelCredentials`.
  pub build_channel_credentials : ClientConfig D C → ChannelSetup
  unfolding ssl_setup
  build_channel_credentials config = elim config.server.auth.credential_type [
    | credential_insecure ↦ insecure_setup
    | credential_ssl ↦ elim config.server.auth.ssl [
      | none ↦ insecure_setup
      | some server_ssl ↦ ssl_setup server_ssl config.auth_ssl
    ]
  ]

  -- `InitConfigDefaults`, with 5 seconds as `kDefaultClientTimeoutSec`.
  pub init_config_defaults : Double D → D → ClientConfig D C → ClientConfig D C
  init_config_defaults d zero_d config = record config {
    server = init_server_defaults config.server;
    timeout_sec = if d.le config.timeout_sec zero_d then d.of_ℕ 5 else config.timeout_sec;
  }

  module _ {W : Type 0}
      -- Whether gRPC makes the credentials, and the stub at the end of a channel with them.
      (makes : ChannelCredentials → Bool) (new_stub : Bytes → ChannelSetup → Stub D W) where
    -- `ClientHelper::Init`.
    pub init_client : ClientConfig D C → Program (ClientHelper D W) (Unit {0})
    unfolding build_channel_credentials
    init_client config h =
        if not (makes (build_channel_credentials config).credentials)
        then err internal h
        else ok tt (record {
          completion_client =
              some (new_stub config.server.address_uri (build_channel_credentials config));
          timeout_sec = config.timeout_sec;
        })

    module _ (d : Double D) (zero_d : D) (out : Outside D W)
        (sort : List (D × Bytes) → List (D × Bytes)) (u : Utf8Library) where
      -- The request of a client; a round of `RandGen` adds a byte at least.
      pub requested : ClientConfig D C → ClientHelper D W → Program W Bytes
      requested config client = elim config.request_type [
        | randgen ↦ rand_gen d zero_d out sort u client k_max_rand_gen_len config.context_string
        | k_best_items ↦
            one_kbest_sample d zero_d out sort u client config.k_best config.context_string
        | bits_per_char_calculation ↦
            calc_bits_per_character d zero_d out sort u client config.test_corpus
        | not_set ↦ fail invalid_argument
        | unknown_request ↦ fail invalid_argument
      ]

      -- `RunClient`, with the text that it prints.
      pub run_client : ClientConfig D C → Program W Bytes
      unfolding init_client requested
      run_client config w =
          elim (init_client config (record { timeout_sec = zero_d; completion_client = none })) [
            | ok t client ↦ requested config client w
            | err c client ↦ err c w
            | fault ↦ fault
          ]
