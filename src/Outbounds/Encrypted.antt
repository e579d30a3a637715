-- ===== src/Outbounds/Encrypted.antt =====
-- A VLESS outbound that uses TLS and verifies its server sends nothing unencrypted.
use cppbox.Prelude.{
  arith, ℕ, ◌≡◌, ap, ◌∙◌, inl, inr, true, false, Bool-cases, ◌&&◌, Option, none, some, List, [],
  ◌∷◌, is_empty, text_eq, codes, ok, not, runtime_error,
}
use cppbox.Prelude.Map.{Map}
use cppbox.Address.{AddressText, Destination, Session, host_text}
use cppbox.Router.{Router, pick_outbound}
use cppbox.Config.{TransportConfig}
use cppbox.Vless.{TlsConfig, normalize_tls, build_request, choose_destination}
use cppbox.Program.{VlessOutboundConfig, Outbound, vless_outbound, find_outbound}
use cppbox.Transport.{named}
use cppbox.Transport.Handshakes.{open_tcp-Has, open_ws-Has}
use cppbox.Network.{
  Event, Peer, Io, tls_handshake, write, read_inbound, relay, close_stream, close_inbound, attempt,
}
use cppbox.Network.Rules.{
  Yields, After, Yields-pure, Yields-lift, Yields-throw, Yields-if, Yields-attempt, Ends-always,
  After-always, Yields-pre, Yields-post, Yields-bind,
}
use cppbox.Network.Encrypted.{IsEncrypted, Has, perform-Has, perform_when-Has, close-IsEncrypted}
use cppbox.Outbounds.{
  stream_tls, stream_for, connect_stream, open_stream, use_stream, finish_stream, handle_vless,
  handle, serve, void,
}

module _ (t : AddressText) (p : Peer) (unset : TlsConfig) (config : VlessOutboundConfig)
    (name : List ℕ) where
  abbrev used : TlsConfig
  used = stream_tls t p unset config

  module _ (on : used.enabled ≡ true) (secure : used.insecure ≡ false)
      (same : (named t config.server used).server_name ≡ name) where
    stream_for-Has :
        (transport : Option TransportConfig)
        → Yields
            (Has name [])
            (stream_for t p unset config transport)
            (λ _. Has name (tls_handshake ∷ []))
            (IsEncrypted name)
    stream_for-Has none = open_tcp-Has p name t config.server used on secure same
    stream_for-Has (some transport) =
        Yields-if (is_empty transport.kind)
          (open_tcp-Has p name t config.server used on secure same)
          (Yields-if (text_eq transport.kind (codes "ws"))
            (open_ws-Has p name t config.server used on secure same transport.path
              (host_text t config.server.host))
            (Yields-throw (runtime_error "unsupported vless transport") _
              (λ events h. h.encrypted)))

    open_stream-Has :
        (session : Session)
        → Yields
            (Has name [])
            (open_stream t p unset config session)
            (λ _. Has name (tls_handshake ∷ []))
            (IsEncrypted name)
    unfolding open_stream connect_stream
    open_stream-Has session =
        Yields-bind _ _ _
          (perform_when-Has name p (config.override_address && is_empty session.initial_payload)
            read_inbound [] (λ _ _. tt))
          (λ peeked.
            Yields-bind _ _ _
              (Yields-lift (choose_destination t config.override_address peeked session)
                (λ _. Has name []) (λ events a e h. h) (λ events h. h.encrypted))
              (λ destination.
                Yields-bind _ _ _ (stream_for-Has config.transport)
                  (λ stream. Yields-pure _ _ (λ events h. h))))

    use_stream-Has :
        (destination : Destination) (payload : List ℕ)
        → Yields
            (Has name (tls_handshake ∷ []))
            (use_stream t p unset config destination payload)
            (λ _. IsEncrypted name)
            (IsEncrypted name)
    unfolding use_stream
    use_stream-Has destination payload =
        Yields-bind _ _ _
          (Yields-lift (build_request config.uuid destination) (λ _. Has name (tls_handshake ∷ []))
            (λ events a e h. h) (λ events h. h.encrypted))
          (λ request.
            Yields-bind _ _ _
              (perform-Has name p (write request) (tls_handshake ∷ []) (λ events h. h.all_done.0))
              (λ _.
                Yields-bind _ _ _
                  (perform_when-Has name p (not (is_empty payload)) (write payload)
                    (write request ∷ tls_handshake ∷ []) (λ events h. h.all_done.1.0))
                  (λ _.
                    Yields-post _ (λ _ events h. h.encrypted)
                      (perform-Has name p relay (write request ∷ tls_handshake ∷ [])
                        (λ events h. h.all_done.1.0)))))

    finish_stream-IsEncrypted :
        (opened : Option (Destination × List ℕ))
        → Yields
            (After (λ _. Has name (tls_handshake ∷ [])) (IsEncrypted name) opened)
            (finish_stream t p unset config opened)
            (λ _. IsEncrypted name)
            (IsEncrypted name)
    finish_stream-IsEncrypted none = Yields-pure _ _ (λ events h. h)
    finish_stream-IsEncrypted (some (destination, payload)) =
        Yields-bind _ _ _ (Yields-attempt _ (use_stream-Has destination payload)) (λ done.
          Yields-pre _ _ (After-always (IsEncrypted name) done)
            (close-IsEncrypted name close_stream (λ _ _. tt)))

    handle_vless-Yields :
        (session : Session)
        → Yields
            (Has name [])
            (handle_vless t p unset config session)
            (λ _. IsEncrypted name)
            (IsEncrypted name)
    unfolding handle_vless
    handle_vless-Yields session =
        Yields-bind _ _ _ (Yields-attempt _ (open_stream-Has session)) (λ opened.
          Yields-bind _ _ _ (finish_stream-IsEncrypted opened)
            (λ _. close-IsEncrypted name close_inbound (λ _ _. tt)))

-- The end of the handler of `main`.
module _ {P E : List Event → Type 0} {A : Type 0} {m : Io A} (y : Yields P m (λ _. E) E) where
  void-Yields : (t : AddressText) (p : Peer) → Yields P (void t p m) (λ _. E) E
  void-Yields t p = Yields-bind _ _ _ y (λ _. Yields-pure _ _ (λ events h. h))

  attempt-Yields : Yields P (attempt m) (λ _. E) E
  attempt-Yields = Yields-post _ (After-always _) (Yields-attempt m y)

-- The settings of the stream, where TLS is configured.
normalize_tls-some :
    (t : AddressText) (unset : TlsConfig) (server : Destination) (tls : TlsConfig)
    → tls.enabled ≡ true
    → let made = normalize_tls unset (some tls) (host_text t server.host) in
      (made.enabled ≡ true)
      × (made.insecure ≡ tls.insecure)
      × ((named t server made).server_name ≡ (named t server tls).server_name)
unfolding normalize_tls
normalize_tls-some t unset server tls on = elim (Bool-cases (is_empty tls.server_name)) [
  | inl h ↦ ground arith
  | inr h ↦ ground arith
]

-- When `main` hands a session to a VLESS outbound whose configuration enables TLS and does not turn the
-- verification off, then whatever the calls return, nothing is sent to the server and nothing is read from it
-- ahead of a TLS handshake that has returned; the roots were loaded, the verification turned on and the
-- server's name set for it ahead of the handshake: the name configured, or else the server's host.
pub serve-IsEncrypted :
    (t : AddressText) (p : Peer) (unset : TlsConfig) (router : Router)
    (outbounds : Map (List ℕ) Outbound) (session : Session) (tag : List ℕ)
    (config : VlessOutboundConfig) (tls : TlsConfig)
    → pick_outbound t router session ≡ ok tag
    → find_outbound t outbounds tag ≡ ok (vless_outbound config)
    → config.tls ≡ some tls
    → tls.enabled ≡ true
    → tls.insecure ≡ false
    → IsEncrypted
        (named t config.server tls).server_name
        (serve t p unset router outbounds session []).1
unfolding serve handle
serve-IsEncrypted t p unset router outbounds session tag config tls picked found given on secure =
    let (first, second, third) = normalize_tls-some t unset config.server tls on in
    let same = ap (λ o. normalize_tls unset o (host_text t config.server.host)) given in
    rw (picked, found)
      (Ends-always (IsEncrypted (named t config.server tls).server_name) _ _ (
        (void-Yields
            (attempt-Yields (
              handle_vless-Yields t p unset config (named t config.server tls).server_name
                (ap (λ made. made.enabled) same ∙ first)
                (ap (λ made. made.insecure) same ∙ second ∙ secure)
                (ap (λ made. (named t config.server made).server_name) same ∙ third) session))
            t p).at
          [] (record { encrypted = tt; all_done = tt })))
