-- ===== src/DnsServer/Answers.antt =====
-- What a query over TCP or TLS returns: `DnsServer::query_dns` of src/dns/dns.cpp.
use cppbox.Prelude.{
  ℕ, true, stuck, ◌+◌, ◌≡◌, ◌⊎◌, inl, inr, refl, ◌∙◌, List, [], ◌++◌, codes, length, All, take, leb,
  if◌then◌else◌, Result, ok, err, system_error,
}
use cppbox.Utils.{IsByte}
use cppbox.Address.{AddressText, Host, parse_host}
use cppbox.Tls.{configure_tls_context, configure_tls_stream_identity}
use cppbox.Network.{
  Event, Peer, Io, Done, connect, tls_handshake, write, set_verify_mode, load_system_roots,
  set_tlsext_host_name, host_name_verification, and_then, ◌>>◌,
}
use cppbox.Network.Rules.{Yields, Ends, Yields-bind}
use cppbox.DnsServer.{DnsItemConfig, add_tcp_length}
use cppbox.DnsServer.Exchange.{
  connect_nameserver, connect_nameserver_tls, exchange_framed, async_query_tcp, async_query_tls,
  query_by, query_nameserver,
}
use cppbox.DnsServer.Framing.{
  Delivers, NoneRead, Yields-takes, unframe, exchange_framed-unframe, exchange_framed-sends,
  unframe-take,
}

module _ (t : AddressText) (p : Peer) (server : DnsItemConfig) (host : Host)
    (parsed : parse_host t server.server ≡ ok host) (incoming : List ℕ)
    (d : Delivers p incoming) where
  abbrev Opens : Io (List ℕ) → Type 0
  Opens m = Yields (NoneRead p d) m (λ _. NoneRead p d) (λ _. ⊥)

  connect_nameserver-takes : Opens (connect_nameserver t p server)
  unfolding connect_nameserver
  connect_nameserver-takes =
      rw parsed
        (Yields-takes p d (connect (record { host = host; port = server.server_port })) refl)

  connect_nameserver_tls-takes : Opens (connect_nameserver_tls t p server)
  unfolding connect_nameserver_tls configure_tls_context configure_tls_stream_identity
  connect_nameserver_tls-takes =
      Yields-bind _ _ _
        (Yields-bind _ _ _ (Yields-takes p d load_system_roots refl)
          (λ _. Yields-takes p d (set_verify_mode true) refl))
        (λ _.
          Yields-bind _ _ _
            (Yields-bind _ _ _ (Yields-takes p d (set_tlsext_host_name server.server_name) refl)
              (λ _. Yields-takes p d (host_name_verification server.server_name) refl))
            (λ _.
              Yields-bind _ _ _ connect_nameserver-takes
                (λ _. Yields-takes p d tls_handshake refl)))

  module _ (message framed : List ℕ) (small : add_tcp_length message ≡ ok framed)
      (bytes : All IsByte incoming) where
    abbrev Answers : Result (List ℕ) × List Event → Type 0
    Answers (r, events) = (r ≡ unframe incoming) × Done (write framed) events

    Answers-opened : (m : Io (List ℕ)) → Opens m → Answers ((m >> exchange_framed p message) [])
    Answers-opened m y = go (m []).0 (m []).1 (y.at [] refl)
      where
        go :
            (r : Result (List ℕ)) (events : List Event)
            → Ends (λ _. NoneRead p d) (λ _. ⊥) r events
            → Answers (and_then r events (λ _. exchange_framed p message))
        go (ok a) events h = (
          exchange_framed-unframe p incoming d message framed small events h bytes,
          exchange_framed-sends p incoming d message framed events small,
        )
        go (err error) events h = absurd h
        go stuck events h = absurd h

    query_by-Answers :
        (kind : List ℕ)
        → (kind ≡ codes "tcp") ⊎ (kind ≡ codes "tls")
        → Answers (query_by t p server kind message [])
    unfolding async_query_tcp async_query_tls
    query_by-Answers kind (inl e) =
        rw e (Answers-opened (connect_nameserver t p server) connect_nameserver-takes)
    query_by-Answers kind (inr e) =
        rw e (Answers-opened (connect_nameserver_tls t p server) connect_nameserver_tls-takes)

    query_nameserver-Answers :
        (server.kind ≡ codes "tcp") ⊎ (server.kind ≡ codes "tls")
        → Answers (query_nameserver t p server message [])
    unfolding query_nameserver
    query_nameserver-Answers = query_by-Answers server.kind

-- On a connection that takes all that is sent, a query over TCP or TLS sends its message behind the length. If the
-- nameserver's response is sent behind its length, whatever else follows, and `k` of these bytes arrive, the
-- query returns the response exactly where all of it has arrived, and throws otherwise.
pub query_nameserver-response :
    (t : AddressText) (p : Peer) (server : DnsItemConfig) (host : Host)
    (message framed response response_framed rest : List ℕ) (k : ℕ)
    → (server.kind ≡ codes "tcp") ⊎ (server.kind ≡ codes "tls")
    → parse_host t server.server ≡ ok host
    → add_tcp_length message ≡ ok framed
    → add_tcp_length response ≡ ok response_framed
    → All IsByte (take k (response_framed ++ rest))
    → Delivers p (take k (response_framed ++ rest))
    → let (r, events) = query_nameserver t p server message [] in
      (r ≡ (if leb (length response + 2) k then ok response else err system_error))
      × Done (write framed) events
query_nameserver-response t p server host message framed response response_framed rest k kind parsed
      small small' bytes d =
    let (r, sent) =
      query_nameserver-Answers t p server host parsed (take k (response_framed ++ rest)) d message
        framed small bytes kind in
    (r ∙ unframe-take response response_framed rest k small', sent)
