-- ===== src/Client/Configuration/Credentials.antt =====
-- The credentials of both ends of a connection, in mozolm/grpc/client_helper.cc and server_helper.cc. What
-- gRPC does with them is a parameter: `verifies roots chain` is whether the roots verify a certificate, and
-- `named cert name` whether a certificate is for a name.
use mozolm.Base.{◌≡◌, Bool, true, Option, none, some, [], ◌∷◌}
use mozolm.Utf8.{Bytes}
use mozolm.Server.Helper.{
  CredentialType, credential_insecure, credential_ssl, SslConfig, ServerCredentials,
  insecure_server, ssl_server, SslServerOptions,
}
use mozolm.Client.Configuration.{
  ChannelSetup, ClientConfig, ClientSsl, ChannelCredentials, insecure_channel, ssl_channel,
  SslOptions,
}

module _ (verifies : Bytes → Bytes → Bool) (named : Bytes → Bytes → Bool) (host : Bytes) where
  -- The name that a client expects of the server's certificate.
  abbrev expected : Option Bytes → Bytes
  expected none = host
  expected (some name) = name

  -- The handshake of SSL: the client verifies the server's certificate, for the name that it expects; and
  -- a server that requires a certificate of the client verifies one.
  pub record Handshake (name : Option Bytes) (client : SslOptions) (server : SslServerOptions)
      : Type 0 where
    pub server_key : Bytes
    pub server_cert : Bytes
    pub presented : server.pem_key_cert_pairs ≡ (server_key, server_cert) ∷ []
    pub verified : verifies client.pem_root_certs server_cert ≡ true
    pub expected_name : named server_cert (expected name) ≡ true
    pub client_verified :
        server.require_client_cert ≡ true
        → ¬ (client.pem_cert_chain ≡ [])
          × (verifies server.pem_root_certs client.pem_cert_chain ≡ true)

  -- Whether a client and a server can connect.
  abbrev pub Connects : ChannelSetup → ServerCredentials → Type 0
  Connects setup server = Both setup.credentials setup.ssl_target_name_override server
    where
      Both : ChannelCredentials → Option Bytes → ServerCredentials → Type 0
      Both insecure_channel name insecure_server = Unit
      Both insecure_channel name (ssl_server s) = ⊥
      Both (ssl_channel c) name insecure_server = ⊥
      Both (ssl_channel c) name (ssl_server s) = Handshake name c s

  -- The name that the configuration of a client gives, or that of the host.
  pub name_of : Option ClientSsl → Bytes
  name_of none = host
  name_of (some c) = given c.target_name_override
    where
      given : Bytes → Bytes
      given [] = host
      given (b ∷ bs) = b ∷ bs

  -- The certificate of the server is one that verifies itself, for the name that is expected; and if the
  -- server is to verify its clients, then the client has a certificate, which the given authority verifies.
  pub record MatchesSsl (s : SslConfig) (client : Option ClientSsl) : Type 0 where
    pub verified : verifies s.server_cert s.server_cert ≡ true
    pub expected_name : named s.server_cert (name_of client) ≡ true
    pub client_verified :
        s.client_verify ≡ true
        → (c : ClientSsl) × (client ≡ some c)
          × ¬ (c.client_cert ≡ [])
          × (verifies s.custom_ca_cert c.client_cert ≡ true)

  abbrev Matched : CredentialType → Option SslConfig → Option ClientSsl → Type 0
  Matched credential_insecure ssl client = Unit
  Matched credential_ssl none client = Unit
  Matched credential_ssl (some s) client = MatchesSsl s client

  abbrev pub Matches : {D C : Type 0} → ClientConfig D C → Type 0
  Matches config = Matched config.server.auth.credential_type config.server.auth.ssl config.auth_ssl
