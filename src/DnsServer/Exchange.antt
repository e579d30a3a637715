-- ===== src/DnsServer/Exchange.antt =====
-- The exchange of a message with a nameserver: `DnsServer::query_dns` of src/dns/dns.cpp and the four
-- coroutines that it calls.
use cppbox.Prelude.{
  ℕ, false, not, List, [], ◌∷◌, ◌++◌, codes, ◌==◌, text_eq, if◌then◌else◌, Result, ok,
  runtime_error_about,
}
use cppbox.Utils.{read_be16_at}
use cppbox.Address.{AddressText, parse_host, port_text}
use cppbox.Tls.{configure_tls_context, configure_tls_stream_identity}
use cppbox.Network.{
  Request, Peer, Io, connect, tls_handshake, write, read, receive, write_request, read_response,
  shutdown_tls, pure, lift, throw, close, perform, ◌>>=◌, ◌>>◌,
}
use cppbox.DnsServer.{DnsItemConfig, add_tcp_length}

-- The message behind its length, then the length of the response and the response.
unfoldable pub exchange_framed : Peer → List ℕ → Io (List ℕ)
exchange_framed p message = do
  framed ← lift (add_tcp_length message)
  perform p (write framed)
  length_bytes ← perform p (read 2)
  size ← lift (read_be16_at length_bytes 0)
  perform p (read size)

module _ (t : AddressText) (p : Peer) (server : DnsItemConfig) where
  unfoldable pub connect_nameserver : Io (List ℕ)
  connect_nameserver = lift (parse_host t server.server) >>= λ host.
      perform p (connect (record { host = host; port = server.server_port }))

  unfoldable pub async_query_udp : List ℕ → Io (List ℕ)
  async_query_udp message = do
    connect_nameserver
    perform p (write message)
    perform p (receive 4096)

  unfoldable pub async_query_tcp : List ℕ → Io (List ℕ)
  async_query_tcp message = connect_nameserver >> exchange_framed p message

  unfoldable pub connect_nameserver_tls : Io (List ℕ)
  connect_nameserver_tls = do
    configure_tls_context p false
    configure_tls_stream_identity p server.server_name false
    connect_nameserver
    perform p tls_handshake

  unfoldable pub async_query_tls : List ℕ → Io (List ℕ)
  async_query_tls message = connect_nameserver_tls >> exchange_framed p message

  abbrev pub host_header : List ℕ
  host_header =
      if not (server.server_port == 443)
      then server.server_name ++ (b':' ∷ port_text server.server_port)
      else server.server_name

  abbrev pub doh_request : List ℕ → Request
  doh_request message = record {
    target = server.path;
    host = host_header;
    user_agent = codes "cppbox-cpp/0.1";
    content_type = codes "application/dns-message";
    accept = codes "application/dns-message";
    body = message;
  }

  -- The status of the response that has been read.
  unfoldable pub check_status : ℕ → Io (Unit {0})
  check_status status =
      if not (status == 200)
      then throw (runtime_error_about "DoH server returned HTTP " (port_text status))
      else pure tt

  abbrev pub result : Io ℕ
  result events = (ok (p.status events), events)

  unfoldable pub async_query_https : List ℕ → Io (List ℕ)
  async_query_https message = do
    connect_nameserver_tls
    perform p (write_request (doh_request message))
    body ← perform p read_response
    close shutdown_tls
    status ← result
    check_status status
    pure body

  abbrev pub query_by : List ℕ → List ℕ → Io (List ℕ)
  query_by kind message =
      if text_eq kind (codes "udp")
      then async_query_udp message
      else if text_eq kind (codes "tcp")
      then async_query_tcp message
      else if text_eq kind (codes "tls")
      then async_query_tls message
      else if text_eq kind (codes "https")
      then async_query_https message
      else throw (runtime_error_about "unsupported DNS type: " kind)

  -- `DnsServer::query_dns`.
  unfoldable pub query_nameserver : List ℕ → Io (List ℕ)
  query_nameserver message = query_by server.kind message

-- The parameter `exchange` of the DNS server, on the network that answers each query like that.
unfoldable pub exchange_over :
    AddressText → (DnsItemConfig → List ℕ → Peer) → DnsItemConfig → List ℕ → Result (List ℕ)
exchange_over t peer server message = (query_nameserver t (peer server message) server message []).0
