-- ===== src/Transport/Handshakes.antt =====
-- Where TLS is in use and the server is verified, the clients send nothing ahead of the handshake.
use cppbox.Prelude.{ℕ, ◌≡◌, refl, true, false, List, [], ◌∷◌, codes}
use cppbox.Address.{AddressText, Destination}
use cppbox.Vless.{TlsConfig}
use cppbox.Tls.{configure_tls_context, configure_tls_stream_identity}
use cppbox.Network.{
  Call, Event, Peer, load_system_roots, set_verify_mode, set_tlsext_host_name,
  host_name_verification, connect, tls_handshake, set_decorator, ws_handshake, pure, perform, ◌>>=◌,
}
use cppbox.Network.Rules.{Yields, Yields-then, Yields-pure, Yields-post, Yields-bind, Yields-known}
use cppbox.Network.Encrypted.{IsEncrypted, Has, perform-Has}
use cppbox.Transport.{
  TcpClientConfig, WsClientConfig, named, default_header, make_tls, make_tcp_client, make_ws_client,
  connect_tls, connect_tcp_client, handshake_ws, connect_ws_client,
}

module _ (p : Peer) (name : List ℕ) where
  abbrev pub context : List Call
  context = set_verify_mode true ∷ load_system_roots ∷ []

  pub configure_tls_context-Has :
      Yields
        (Has name [])
        (configure_tls_context p false)
        (λ _. Has name context)
        (IsEncrypted name)
  unfolding configure_tls_context
  configure_tls_context-Has =
      Yields-bind _ _ _ (perform-Has name p load_system_roots [] (λ _ _. tt))
        (λ _. perform-Has name p (set_verify_mode true) _ (λ _ _. refl))

  pub configure_tls_stream_identity-Has :
      (calls : List Call)
      → Yields
          (Has name calls)
          (configure_tls_stream_identity p name false)
          (λ _. Has name (host_name_verification name ∷ set_tlsext_host_name name ∷ calls))
          (IsEncrypted name)
  unfolding configure_tls_stream_identity
  configure_tls_stream_identity-Has calls =
      Yields-bind _ _ _ (perform-Has name p (set_tlsext_host_name name) calls (λ _ _. refl))
        (λ _. perform-Has name p (host_name_verification name) _ (λ _ _. refl))

  only_handshake :
      (calls : List Call) (events : List Event)
      → Has name (tls_handshake ∷ calls) events
      → Has name (tls_handshake ∷ []) events
  only_handshake calls events h = record { encrypted = h.encrypted; all_done = (h.all_done.0, tt) }

  handshake-Has :
      (server : Destination)
      → Yields
          (Has name context)
          (perform p (connect server) >>= λ _.
            configure_tls_stream_identity p name false >>= λ _. perform p tls_handshake)
          (λ _. Has name (tls_handshake ∷ []))
          (IsEncrypted name)
  handshake-Has server =
      Yields-bind _ _ _ (perform-Has name p (connect server) context (λ _ _. tt)) (λ _.
        Yields-bind _ _ _ (configure_tls_stream_identity-Has (connect server ∷ context)) (λ _.
          Yields-post _ (λ _. only_handshake _)
            (perform-Has name p tls_handshake _ (λ events h.
              (h.all_done.1.1.1.1.0, h.all_done.1.1.1.0, h.all_done.1.0, h.all_done.0)))))

  connect_tls-Has :
      (server : Destination) (tls : TlsConfig)
      → tls.server_name ≡ name
      → tls.insecure ≡ false
      → Yields
          (Has name context)
          (connect_tls p server tls)
          (λ _. Has name (tls_handshake ∷ []))
          (IsEncrypted name)
  unfolding connect_tls
  connect_tls-Has server tls same secure = rw (same, secure) (handshake-Has server)

  handshake_ws-Has :
      (config : WsClientConfig)
      → Yields
          (Has name (tls_handshake ∷ []))
          (handshake_ws p config)
          (λ _. Has name (tls_handshake ∷ []))
          (IsEncrypted name)
  unfolding handshake_ws
  handshake_ws-Has config =
      Yields-bind _ _ _
        (perform-Has name p (set_decorator config.host_header (codes "cppbox-cpp/0.1")) _
          (λ _ _. tt))
        (λ _.
          Yields-post _
            (λ _ events h. record { encrypted = h.encrypted; all_done = (h.all_done.1.1.0, tt) })
            (perform-Has name p (ws_handshake config.host_header config.path) _
              (λ events h. h.all_done.1.0)))

  connect_tcp_client-Has :
      (config : TcpClientConfig)
      → config.tls.enabled ≡ true
      → config.tls.insecure ≡ false
      → config.tls.server_name ≡ name
      → Yields
          (Has name context)
          (connect_tcp_client p config)
          (λ _. Has name (tls_handshake ∷ []))
          (IsEncrypted name)
  unfolding connect_tcp_client
  connect_tcp_client-Has config on secure same = Yields-then _ _ _ _ on (
      Yields-bind _ _ _ (connect_tls-Has config.server config.tls same secure)
        (λ _. Yields-pure _ _ (λ events h. h)))

  connect_ws_client-Has :
      (config : WsClientConfig)
      → config.tls.enabled ≡ true
      → config.tls.insecure ≡ false
      → config.tls.server_name ≡ name
      → Yields
          (Has name context)
          (connect_ws_client p config)
          (λ _. Has name (tls_handshake ∷ []))
          (IsEncrypted name)
  unfolding connect_ws_client
  connect_ws_client-Has config on secure same = Yields-then _ _ _ _ on (
      Yields-bind _ _ _
        (Yields-bind _ _ _ (connect_tls-Has config.server config.tls same secure)
          (λ _. handshake_ws-Has config))
        (λ _. Yields-pure _ _ (λ events h. h)))

  module _ (t : AddressText) where
    make_tls-Has :
        (server : Destination) (tls : TlsConfig)
        → tls.enabled ≡ true
        → tls.insecure ≡ false
        → Yields
            (Has name [])
            (make_tls t p server tls)
            (λ made events. (made ≡ named t server tls) × Has name context events)
            (IsEncrypted name)
    make_tls-Has server tls on secure =
        rw (on, secure)
          (Yields-bind _ _ _ configure_tls_context-Has
            (λ _. Yields-pure _ _ (λ events h. (refl, h))))

    abbrev ServerTls : Destination → TlsConfig → TlsConfig → List Event → Type 0
    ServerTls server tls made events = (made ≡ named t server tls) × Has name context events

    -- Opening a stream over TCP, or over a WebSocket.
    module _ (server : Destination) (tls : TlsConfig) (on : tls.enabled ≡ true)
        (secure : tls.insecure ≡ false) (same : (named t server tls).server_name ≡ name) where
      pub open_tcp-Has :
          Yields
            (Has name [])
            (make_tcp_client t p (record { server = server; tls = tls }) >>= connect_tcp_client p)
            (λ _. Has name (tls_handshake ∷ []))
            (IsEncrypted name)
      unfolding make_tcp_client
      open_tcp-Has =
          let config : TcpClientConfig = record { server = server; tls = named t server tls } in
          Yields-bind _ _ _
            (Yields-bind _ _ _ (make_tls-Has server tls on secure) (λ made.
              Yields-known made _ (λ tls. pure (record { server = server; tls = tls }))
                (Yields-pure config (λ made events. (made ≡ config) × Has name context events)
                  (λ events h. (refl, h)))))
            (λ made.
              Yields-known made config (connect_tcp_client p)
                (connect_tcp_client-Has config on secure same))

      pub open_ws-Has :
          (path host_header : List ℕ)
          → Yields
              (Has name [])
              (make_ws_client t p
                  (record { server = server; path = path; host_header = host_header; tls = tls })
                >>= connect_ws_client p)
              (λ _. Has name (tls_handshake ∷ []))
              (IsEncrypted name)
      unfolding make_ws_client
      open_ws-Has path host_header =
          let given : WsClientConfig = record {
            server = server;
            path = path;
            host_header = host_header;
            tls = tls;
          } in
          let config : WsClientConfig = record (default_header t p given) {
            tls = named t server tls;
          } in
          Yields-bind _ _ _
            (Yields-bind _ _ _ (make_tls-Has server tls on secure) (λ made.
              Yields-known made _ (λ tls. pure (record (default_header t p given) { tls = tls }))
                (Yields-pure config (λ made events. (made ≡ config) × Has name context events)
                  (λ events h. (refl, h)))))
            (λ made.
              Yields-known made config (connect_ws_client p)
                (connect_ws_client-Has config on secure same))
