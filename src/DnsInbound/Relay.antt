-- ===== src/DnsInbound/Relay.antt =====
-- A request of a client through src/dns/dns_inbound.cpp and src/dns/dns.cpp to a nameserver over TCP or TLS, and the way
-- back.
mod Tests
use cppbox.Prelude.{
  ℕ, ◌+◌, text_eq, Bool, ◌≡◌, ◌⊎◌, inl, inr, refl, sym, ap, ◌∙◌, true, false, ◌||◌, Bool-cases,
  Option, none, some, List, [], ◌∷◌, ◌++◌, codes, length, All, take, leb, if◌then◌else◌, Result, ok,
  err, system_error, ◌>>=◌,
}
use cppbox.Utils.{IsByte}
use cppbox.Address.{AddressText, Host, parse_host}
use cppbox.DnsMessage.{DnsQuestion, parse_question}
use cppbox.DnsServer.{
  DnsItemConfig, DnsServer, add_tcp_length, pick_nameserver, query_dns, query, is_plain, uses_tls,
}
use cppbox.Network.{Peer}
use cppbox.DnsServer.Exchange.{exchange_over}
use cppbox.DnsServer.Framing.{Delivers}
use cppbox.DnsServer.Answers.{query_nameserver-response}
use cppbox.DnsInbound.{ip_list_text, caught_request, handle_request}

known_kind :
    (kind : List ℕ)
    → (kind ≡ codes "tcp") ⊎ (kind ≡ codes "tls")
    → (text_eq kind (codes "udp")
        || text_eq kind (codes "tcp")
        || (text_eq kind (codes "tls") || text_eq kind (codes "https")))
      ≡ true
known_kind kind (inl e) = rw e refl
known_kind kind (inr e) = rw e refl

-- A known type of nameserver is handed the message.
query_dns-exchange :
    (t : AddressText) (exchange : DnsItemConfig → List ℕ → Result (List ℕ)) (server : DnsItemConfig)
    (message : List ℕ)
    → (server.kind ≡ codes "tcp") ⊎ (server.kind ≡ codes "tls")
    → query_dns t exchange server message ≡ exchange server message
unfolding query_dns
query_dns-exchange t exchange server message kind = rw (known_kind server.kind kind) refl

if-caught :
    (test : Bool) (response ips : List ℕ)
    → ip_list_text response ≡ ok ips
    → caught_request
        ((if test then ok response else err system_error) >>= λ r. ip_list_text r >>= λ ips. ok r)
      ≡ ok (if test then some response else none)
if-caught true response ips e = rw e refl
if-caught false response ips e = refl

-- A client asks the DNS inbound, and the nameserver that is picked for the question is reached over TCP or TLS, on a
-- connection that takes all that is sent. When the nameserver sends, behind its length, a response that can be parsed,
-- whatever else follows, and `k` of these bytes arrive, the client is sent that response unchanged where all of it has
-- arrived, and nothing where a part is missing.
pub handle_request-exchange_over :
    (t : AddressText) (peer : DnsItemConfig → List ℕ → Peer) (s : DnsServer)
    (server : DnsItemConfig) (host : Host) (question : DnsQuestion)
    (request framed response response_framed ips rest : List ℕ) (k : ℕ)
    → parse_question request ≡ ok question
    → pick_nameserver t s question.name ≡ ok server
    → (server.kind ≡ codes "tcp") ⊎ (server.kind ≡ codes "tls")
    → parse_host t server.server ≡ ok host
    → add_tcp_length request ≡ ok framed
    → add_tcp_length response ≡ ok response_framed
    → All IsByte (take k (response_framed ++ rest))
    → Delivers (peer server request) (take k (response_framed ++ rest))
    → ip_list_text response ≡ ok ips
    → handle_request t (exchange_over t peer) s request
      ≡ ok (if leb (length response + 2) k then some response else none)
unfolding handle_request query exchange_over
handle_request-exchange_over t peer s server host question request framed response response_framed
      ips rest k asked picked kind parsed small small' bytes d read =
    let (answered, _) =
      query_nameserver-response t (peer server request) server host request framed response
        response_framed rest k kind parsed small small' bytes d in
    rw
      (
        asked,
        ◌>>=◌,
        picked,
        query_dns-exchange t (exchange_over t peer) server request kind,
        exchange_over,
        answered,
      )
      (if-caught (leb (length response + 2) k) response ips read)
