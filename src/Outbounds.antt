-- ===== src/Outbounds.antt =====
-- The outbounds: `handle` of src/outbound/vless_outbound.cpp, src/outbound/direct_outbound.cpp and
-- src/outbound/block_outbound.cpp, and the handler of sessions of src/main.cpp. The streams are opened by
-- Transport. The destructors of sockets are no calls.
pub mod Encrypted
pub mod Halting
pub mod Closing
mod Tests
use cppbox.Prelude.{
  ℕ, Bool, true, false, ◌&&◌, not, Option, none, some, List, [], codes, is_empty, text_eq,
  if◌then◌else◌, Result, Error, ok, err, runtime_error,
}
use cppbox.Prelude.Map.{Map}
use cppbox.Address.{AddressText, Destination, Session, host_text}
use cppbox.Router.{Router, pick_outbound}
use cppbox.Config.{TransportConfig}
use cppbox.Vless.{TlsConfig, build_request, normalize_tls, choose_destination, initial_payload}
use cppbox.Program.{
  VlessOutboundConfig, Outbound, direct_outbound, vless_outbound, block_outbound, find_outbound,
}
use cppbox.Transport.{
  Stream, make_tcp_client, connect_tcp_client, make_ws_client, connect_ws_client,
}
use cppbox.Network.{
  Peer, Io, connect, write, read_inbound, relay, close_stream, close_inbound, pure, lift, throw,
  attempt, close, perform, perform_when, ◌>>=◌, ◌>>◌,
}

module _ (t : AddressText) (p : Peer) where
  module _ (unset : TlsConfig) (config : VlessOutboundConfig) where
    -- The TLS settings of the streams.
    abbrev pub stream_tls : TlsConfig
    stream_tls = normalize_tls unset config.tls (host_text t config.server.host)

    abbrev pub open_tcp : Io Stream
    open_tcp =
        make_tcp_client t p (record { server = config.server; tls = stream_tls })
        >>= connect_tcp_client p

    abbrev pub open_ws : List ℕ → Io Stream
    open_ws path =
        make_ws_client t p (record {
          server = config.server;
          path = path;
          host_header = host_text t config.server.host;
          tls = stream_tls;
        })
        >>= connect_ws_client p

    -- Without a transport the stream is one over TCP.
    abbrev pub stream_for : Option TransportConfig → Io Stream
    stream_for none = open_tcp
    stream_for (some transport) =
        if is_empty transport.kind
        then open_tcp
        else if text_eq transport.kind (codes "ws")
        then open_ws transport.path
        else throw (runtime_error "unsupported vless transport")

    -- `VlessOutbound::connect_stream`.
    unfoldable pub connect_stream : Io Stream
    connect_stream = stream_for config.transport

    -- What is read from the client ahead of the stream.
    abbrev pub peek : Session → Io (List ℕ)
    peek session =
        perform_when p (config.override_address && is_empty session.initial_payload) read_inbound

    -- `VlessOutbound::handle`, up to the stream: the destination and the payload.
    unfoldable pub open_stream : Session → Io (Destination × List ℕ)
    open_stream session = do
      peeked ← peek session
      destination ← lift (choose_destination t config.override_address peeked session)
      stream ← connect_stream
      pure (destination, initial_payload config.override_address peeked session)

    -- From the stream on.
    unfoldable pub use_stream : Destination → List ℕ → Io (List ℕ)
    use_stream destination payload = do
      request ← lift (build_request config.uuid destination)
      perform p (write request)
      perform_when p (not (is_empty payload)) (write payload)
      perform p relay

    -- The rest of the `try` block and `if (stream) stream->close();`.
    abbrev pub finish_stream : Option (Destination × List ℕ) → Io (Unit {0})
    finish_stream none = pure tt
    finish_stream (some (destination, payload)) =
        attempt (use_stream destination payload) >> close close_stream

    unfoldable pub handle_vless : Session → Io (Unit {0})
    handle_vless session = do
      opened ← attempt (open_stream session)
      finish_stream opened
      close close_inbound

  -- The body of the `try` block of `DirectOutbound::handle`.
  abbrev pub connect_direct : Session → Io (List ℕ)
  connect_direct session = do
    perform p (connect session.destination)
    perform_when p (not (is_empty session.initial_payload)) (write session.initial_payload)
    perform p relay

  unfoldable pub handle_direct : Session → Io (Option (List ℕ))
  handle_direct session = attempt (connect_direct session)

  unfoldable pub handle_block : Session → Io (Unit {0})
  handle_block session = close close_inbound

  abbrev pub void {ℓ} : {A : Type ℓ} → Io A → Io (Unit {0})
  void m = m >> pure tt

  -- `Outbound::handle`.
  unfoldable pub handle : TlsConfig → Outbound → Session → Io (Unit {0})
  handle unset direct_outbound session = void (handle_direct session)
  handle unset (vless_outbound config) session = handle_vless unset config session
  handle unset block_outbound session = handle_block session

  -- The handler of sessions of `main`; what `pick_outbound` throws leaves it.
  unfoldable pub serve : TlsConfig → Router → Map (List ℕ) Outbound → Session → Io (Unit {0})
  serve unset router outbounds session = do
    tag ← lift (pick_outbound t router session)
    void (
        attempt
          (lift (find_outbound t outbounds tag) >>= λ outbound. handle unset outbound session))
