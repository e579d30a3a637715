-- ===== src/Outbounds/Halting.antt =====
-- Opening a stream and using it return or throw.
use cppbox.Prelude.{
  ap, ok_injective, ℕ, ◌≡◌, ◌≢◌, Bool, Bool-cases, ◌&&◌, not, Option, none, some, List, [], ◌∷◌,
  All, is_empty, inl, inr, ok, stuck, arith,
}
use cppbox.Utils.{IsByte, parse_uuid, uuid_digits}
use cppbox.Address.{AddressText, Destination, Session, make_domain}
use cppbox.TlsSniffer.Safety.{sniff_tls_sni-total}
use cppbox.Config.{TransportConfig}
use cppbox.Vless.{
  TlsConfig, build_request, request_host, choose_destination, override_host, initial_payload,
}
use cppbox.Tls.{configure_tls_context, configure_tls_stream_identity}
use cppbox.Transport.{
  WsClientConfig, make_tls, make_tcp_client, make_ws_client, connect_tls, connect_tcp_client,
  handshake_ws, connect_ws_client,
}
use cppbox.Program.{VlessOutboundConfig}
use cppbox.Network.{Event, Peer, returned, thrown, read_inbound, Answer, result_of, perform}
use cppbox.Network.Rules.{
  Halts, Halts-lift, Halts-bind_from, Halts-bind, Halts-perform_when, Halts-pure, halting,
}
use cppbox.Outbounds.{open_tcp, open_ws, stream_for, connect_stream, peek, open_stream, use_stream}

uuid_digits-ne_stuck : (uuid : List ℕ) → uuid_digits uuid ≢ stuck
unfolding uuid_digits
uuid_digits-ne_stuck [] = λ e. cc
uuid_digits-ne_stuck (c ∷ uuid) = λ e. absurd (ground (arith, uuid_digits-ne_stuck uuid))

build_request-ne_stuck : (uuid : List ℕ) (dst : Destination) → build_request uuid dst ≢ stuck
unfolding build_request parse_uuid request_host
build_request-ne_stuck uuid dst = ground (arith, uuid_digits-ne_stuck uuid)

override_host-ne_stuck :
    (t : AddressText) (destination : Destination) (o : Option (List ℕ))
    → override_host t destination o ≢ stuck
unfolding override_host make_domain
override_host-ne_stuck t destination none = λ e. cc
override_host-ne_stuck t destination (some sni) = λ e. absurd (ground arith)

choose_destination-ne_stuck :
    (t : AddressText) (override_address : Bool) (peeked : List ℕ) (session : Session)
    → All IsByte (initial_payload override_address peeked session)
    → choose_destination t override_address peeked session ≢ stuck
unfolding choose_destination
choose_destination-ne_stuck t override_address peeked session h =
    let (o, e) = sniff_tls_sni-total (initial_payload override_address peeked session) h in
    let done : override_host t session.destination o ≢ stuck =
      override_host-ne_stuck t session.destination o in
    elim (Bool-cases
      (override_address && not (is_empty (initial_payload override_address peeked session)))) [
        | inl b ↦ rw (b, e) done
        | inr b ↦ rw b (λ f. cc)
      ]

module _ (t : AddressText) (p : Peer) (unset : TlsConfig) (config : VlessOutboundConfig) where
  connect_tls-Halts : (server : Destination) (tls : TlsConfig) → Halts (connect_tls p server tls)
  unfolding connect_tls configure_tls_stream_identity
  connect_tls-Halts server tls = search halting depth 12

  handshake_ws-Halts : (c : WsClientConfig) → Halts (handshake_ws p c)
  unfolding handshake_ws
  handshake_ws-Halts c = search halting depth 12

  make_tls-Halts : (server : Destination) (tls : TlsConfig) → Halts (make_tls t p server tls)
  unfolding configure_tls_context
  make_tls-Halts server tls = search halting depth 12

  open_tcp-Halts : Halts (open_tcp t p unset config)
  unfolding make_tcp_client connect_tcp_client
  open_tcp-Halts = search (halting, connect_tls-Halts, make_tls-Halts) depth 12

  open_ws-Halts : (path : List ℕ) → Halts (open_ws t p unset config path)
  unfolding make_ws_client connect_ws_client
  open_ws-Halts path =
      search (halting, connect_tls-Halts, make_tls-Halts, handshake_ws-Halts) depth 12

  stream_for-Halts :
      (transport : Option TransportConfig) → Halts (stream_for t p unset config transport)
  stream_for-Halts none = open_tcp-Halts
  stream_for-Halts (some transport) = search (halting, open_tcp-Halts, open_ws-Halts) depth 12

  pub use_stream-Halts :
      (destination : Destination) (payload : List ℕ)
      → Halts (use_stream t p unset config destination payload)
  unfolding use_stream
  use_stream-Halts destination payload =
      Halts-bind _ _
        (Halts-lift (build_request config.uuid destination)
          (build_request-ne_stuck config.uuid destination))
        (λ request. search halting depth 12)

  -- What the client sends are bytes.
  abbrev pub ReadsBytes : Type 0
  ReadsBytes =
      (events : List Event) (bytes : List ℕ)
      → p.answer events read_inbound ≡ returned bytes
      → All IsByte bytes

  perform-bytes :
      ReadsBytes
      → (events : List Event) (bytes : List ℕ) → (perform p read_inbound events).0 ≡ ok bytes
      → All IsByte bytes
  perform-bytes r events bytes = go (p.answer events read_inbound) (r events)
    where
      go :
          (a : Answer)
          → ((bytes' : List ℕ) → a ≡ returned bytes' → All IsByte bytes')
          → result_of a ≡ ok bytes
          → All IsByte bytes
      go (returned other) h e = h bytes (ap returned (ok_injective e))
      go (thrown error) h e = cc

  payload-IsByte :
      (session : Session)
      → All IsByte session.initial_payload
      → ReadsBytes
      → (peeked : List ℕ) (events : List Event)
      → (peek t p unset config session events).0 ≡ ok peeked
      → All IsByte (initial_payload config.override_address peeked session)
  payload-IsByte session given r peeked events e =
      elim (Bool-cases (config.override_address && is_empty session.initial_payload)) [
        | inl b ↦ rw b (perform-bytes r events peeked (rw b at e))
        | inr b ↦ rw b given
      ]

  pub open_stream-Halts :
      (session : Session)
      → All IsByte session.initial_payload
      → ReadsBytes
      → Halts (open_stream t p unset config session)
  unfolding open_stream connect_stream
  open_stream-Halts session given r =
      Halts-bind_from _ _
        (Halts-perform_when p (config.override_address && is_empty session.initial_payload)
          read_inbound)
        (λ peeked events e.
          Halts-bind _ _
            (Halts-lift _ (
              choose_destination-ne_stuck t config.override_address peeked session
                (payload-IsByte session given r peeked events e)))
            (λ destination.
              Halts-bind _ _ (stream_for-Halts config.transport) (λ stream. Halts-pure _)))
