-- ===== src/DnsServer/Encrypted.antt =====
-- Queries over TLS and HTTPS are sent encrypted: the coroutines of src/dns/dns.cpp.
use cppbox.Prelude.{ℕ, ◌≡◌, ◌⊎◌, inl, inr, List, [], ◌∷◌, codes, Result, true, not, ◌==◌}
use cppbox.Utils.{read_be16_at}
use cppbox.Address.{AddressText, parse_host}
use cppbox.Network.{
  Call, Event, lift, perform, Peer, Io, connect, tls_handshake, write, read, write_request,
  read_response, shutdown_tls,
}
use cppbox.Network.Rules.{
  Yields, Yields-pure, Yields-lift, Yields-if, Yields-throw, Yields-post, Yields-bind, Ends-always,
}
use cppbox.Network.Encrypted.{Allowed, IsEncrypted, Has, close-Has, perform-Has, perform_when-Has}
use cppbox.Transport.Handshakes.{
  configure_tls_context-Has, configure_tls_stream_identity-Has, context,
}
use cppbox.DnsServer.{DnsItemConfig, add_tcp_length}
use cppbox.DnsServer.Exchange.{
  connect_nameserver, connect_nameserver_tls, exchange_framed, async_query_tls, async_query_https,
  query_by, query_nameserver, doh_request, check_status, result,
}

module _ (p : Peer) (name : List ℕ) where
  abbrev Tls : List Event → Type 0
  Tls = Has name (tls_handshake ∷ [])

  abbrev Sends {ℓ} : {A : Type ℓ} → Io A → Type ℓ
  Sends m = Yields Tls m (λ _. Tls) (IsEncrypted name)

  lift-Sends {ℓ} : {A : Type ℓ} (r : Result A) → Sends (lift r)
  lift-Sends r = Yields-lift r _ (λ events a e h. h) (λ events h. h.encrypted)

  -- A call that is allowed behind the handshake.
  perform-Sends :
      (c : Call)
      → ((events : List Event) → Tls events → Allowed name c events)
      → Sends (perform p c)
  perform-Sends c = perform_when-Has name p true c (tls_handshake ∷ [])

  exchange_framed-Sends : (message : List ℕ) → Sends (exchange_framed p message)
  unfolding exchange_framed
  exchange_framed-Sends message = Yields-bind _ _ _ (lift-Sends (add_tcp_length message)) (λ framed.
      Yields-bind _ _ _ (perform-Sends (write framed) (λ events h. h.all_done.0)) (λ _.
        Yields-bind _ _ _ (perform-Sends (read 2) (λ events h. h.all_done.0)) (λ length_bytes.
          Yields-bind _ _ _ (lift-Sends (read_be16_at length_bytes 0))
            (λ size. perform-Sends (read size) (λ events h. h.all_done.0)))))

  check_status-Sends :
      (t : AddressText) (server : DnsItemConfig) (status : ℕ)
      → Sends (check_status t p server status)
  unfolding check_status
  check_status-Sends t server status =
      Yields-if (not (status == 200)) (Yields-throw _ _ (λ events h. h.encrypted))
        (Yields-pure _ _ (λ events h. h))

module _ (t : AddressText) (p : Peer) (server : DnsItemConfig) where
  abbrev name : List ℕ
  name = server.server_name

  connect_nameserver-Has :
      (calls : List Call)
      → Yields
          (Has name calls)
          (connect_nameserver t p server)
          (λ _. Has name calls)
          (IsEncrypted name)
  unfolding connect_nameserver
  connect_nameserver-Has calls =
      Yields-bind _ _ _
        (Yields-lift (parse_host t server.server) (λ _. Has name calls) (λ events a e h. h)
          (λ events h. h.encrypted))
        (λ host.
          perform_when-Has name p true (connect (record { host = host; port = server.server_port }))
            calls (λ _ _. tt))

  connect_nameserver_tls-Has :
      Yields (Has name []) (connect_nameserver_tls t p server) (λ _. Tls p name) (IsEncrypted name)
  unfolding connect_nameserver_tls
  connect_nameserver_tls-Has = Yields-bind _ _ _ (configure_tls_context-Has p name) (λ _.
      Yields-bind _ _ _ (configure_tls_stream_identity-Has p name (context p name)) (λ _.
        Yields-bind _ _ _ (connect_nameserver-Has _) (λ _.
          Yields-post _
            (λ _ events h. record { encrypted = h.encrypted; all_done = (h.all_done.0, tt) })
            (perform-Has name p tls_handshake _
              (λ events h. (h.all_done.1.1.1.0, h.all_done.1.1.0, h.all_done.1.0, h.all_done.0))))))

  abbrev Ciphers : Io (List ℕ) → Type 0
  Ciphers m = Yields (Has name []) m (λ _. Tls p name) (IsEncrypted name)

  async_query_tls-Ciphers : (message : List ℕ) → Ciphers (async_query_tls t p server message)
  unfolding async_query_tls
  async_query_tls-Ciphers message =
      Yields-bind _ _ _ connect_nameserver_tls-Has (λ _. exchange_framed-Sends p name message)

  async_query_https-Ciphers : (message : List ℕ) → Ciphers (async_query_https t p server message)
  unfolding async_query_https
  async_query_https-Ciphers message = Yields-bind _ _ _ connect_nameserver_tls-Has (λ _.
      Yields-bind _ _ _
        (perform-Sends p name (write_request (doh_request t p server message))
          (λ events h. h.all_done.0))
        (λ _.
          Yields-bind _ _ _ (perform-Sends p name read_response (λ events h. h.all_done.0)) (λ body.
            Yields-bind _ _ _ (close-Has name shutdown_tls (tls_handshake ∷ []) (λ _ _. tt)) (λ _.
              Yields-bind (result t p server) _ _ (record { at = λ events h. h })
                (λ status.
                  Yields-bind _ _ _ (check_status-Sends p name t server status)
                    (λ _. Yields-pure body _ (λ events h. h)))))))

  query_by-Ciphers :
      (kind message : List ℕ)
      → (kind ≡ codes "tls") ⊎ (kind ≡ codes "https")
      → Ciphers (query_by t p server kind message)
  query_by-Ciphers kind message (inl e) = rw e (async_query_tls-Ciphers message)
  query_by-Ciphers kind message (inr e) = rw e (async_query_https-Ciphers message)

  -- A query to a nameserver of the type `tls` or `https` is sent encrypted, whatever the calls return: nothing is
  -- sent and nothing is read ahead of a TLS handshake that has returned, and ahead of that the roots were loaded,
  -- the verification was turned on, and the server name of the configuration was set for it.
  pub query_nameserver-IsEncrypted :
      (message : List ℕ)
      → (server.kind ≡ codes "tls") ⊎ (server.kind ≡ codes "https")
      → IsEncrypted server.server_name (query_nameserver t p server message []).1
  unfolding query_nameserver
  query_nameserver-IsEncrypted message kind = Ends-always (IsEncrypted name) _ _ (
      (Yields-post _ (λ _ events h. h.encrypted) (query_by-Ciphers server.kind message kind)).at []
        (record { encrypted = tt; all_done = tt }))
