-- ===== src/Transport.antt =====
-- The clients that open a stream to the VLESS server: src/transport/tcp_client.cpp and
-- src/transport/ws_client.cpp. `Connector::connect` is one call.
pub mod Handshakes
use cppbox.Prelude.{ℕ, Bool, true, false, List, codes, is_empty, if◌then◌else◌}
use cppbox.Address.{AddressText, Destination, host_text}
use cppbox.Vless.{TlsConfig}
use cppbox.Tls.{configure_tls_context, configure_tls_stream_identity}
use cppbox.Network.{
  Peer, Io, connect, tls_handshake, set_decorator, ws_handshake, pure, perform, ◌>>=◌, ◌>>◌,
}

pub record TcpClientConfig : Type 0 where
  pub server : Destination
  pub tls : TlsConfig

pub record WsClientConfig : Type 0 where
  pub server : Destination
  pub path : List ℕ
  pub host_header : List ℕ
  pub tls : TlsConfig

-- The class of the stream that is returned.
pub data Stream : Type 0 where
  plain_tcp tls_tcp plain_ws tls_ws : Stream

module _ (t : AddressText) where
  -- The server name, where the constructors find TLS in use.
  abbrev pub named : Destination → TlsConfig → TlsConfig
  named server tls = record tls {
    server_name = if is_empty tls.server_name then host_text t server.host else tls.server_name;
  }

  module _ (p : Peer) where
    -- `configure_tls_context` where TLS is in use.
    abbrev pub make_tls : Destination → TlsConfig → Io TlsConfig
    make_tls server tls =
        if tls.enabled
        then (configure_tls_context p tls.insecure >> pure (named server tls))
        else pure tls

    -- The constructor of `TcpClient`.
    unfoldable pub make_tcp_client : TcpClientConfig → Io TcpClientConfig
    make_tcp_client config =
        make_tls config.server config.tls >>= λ tls. pure (record config { tls = tls })

    abbrev pub default_header : WsClientConfig → WsClientConfig
    default_header config = record config {
      host_header =
          if is_empty config.host_header
          then host_text t config.server.host
          else config.host_header;
    }

    -- The constructor of `WsClient`.
    unfoldable pub make_ws_client : WsClientConfig → Io WsClientConfig
    make_ws_client config = make_tls config.server config.tls >>= λ tls.
        pure (record (default_header config) { tls = tls })

module _ (p : Peer) where
  unfoldable pub connect_tls : Destination → TlsConfig → Io (List ℕ)
  connect_tls server tls = do
    perform p (connect server)
    configure_tls_stream_identity p tls.server_name tls.insecure
    perform p tls_handshake

  -- `TcpClient::connect`.
  unfoldable pub connect_tcp_client : TcpClientConfig → Io Stream
  connect_tcp_client config =
      if config.tls.enabled
      then (connect_tls config.server config.tls >> pure tls_tcp)
      else (perform p (connect config.server) >> pure plain_tcp)

  unfoldable pub handshake_ws : WsClientConfig → Io (List ℕ)
  handshake_ws config = do
    perform p (set_decorator config.host_header (codes "cppbox-cpp/0.1"))
    perform p (ws_handshake config.host_header config.path)

  -- `WsClient::connect`.
  unfoldable pub connect_ws_client : WsClientConfig → Io Stream
  connect_ws_client config =
      if config.tls.enabled
      then (connect_tls config.server config.tls >> handshake_ws config >> pure tls_ws)
      else (perform p (connect config.server) >> handshake_ws config >> pure plain_ws)
