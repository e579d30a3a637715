-- ===== src/DnsServer/Queries.antt =====
-- Concrete queries over TCP and TLS.
use cppbox.Prelude.{◌≡◌, refl, inl, inr, [], ◌∷◌, codes, arith, ok}
use cppbox.Address.{ipv4_address, parse_host, parse_v4}
use cppbox.Address.Tests.{tagged}
use cppbox.Network.{Done, write}
use cppbox.Network.Encrypted.{IsEncrypted}
use cppbox.DnsServer.{DnsItemConfig, add_tcp_length}
use cppbox.DnsServer.Exchange.{query_nameserver}
use cppbox.DnsServer.Framing.{sender, sender-Delivers}
use cppbox.DnsServer.Answers.{query_nameserver-response}
use cppbox.DnsServer.Encrypted.{query_nameserver-IsEncrypted}

abbrev tcp_server : DnsItemConfig
tcp_server = record {
  tag = codes "main";
  kind = codes "tcp";
  server = 4 ∷ 1 ∷ 1 ∷ 1 ∷ 1 ∷ [];
  server_port = 53;
  path = [];
  server_name = [];
}

abbrev https_server : DnsItemConfig
https_server = record tcp_server {
  kind = codes "https";
  path = codes "/dns-query";
  server_name = codes "one.one";
}

-- The response and the first byte of another one have arrived.
query_nameserver-response_example :
    let (r, events) =
      query_nameserver tagged (sender (0 ∷ 3 ∷ 7 ∷ 8 ∷ 9 ∷ 1 ∷ [])) tcp_server (5 ∷ 6 ∷ []) [] in
    (r ≡ ok (7 ∷ 8 ∷ 9 ∷ [])) × Done (write (0 ∷ 2 ∷ 5 ∷ 6 ∷ [])) events
unfolding add_tcp_length parse_host parse_v4
query_nameserver-response_example =
    query_nameserver-response tagged (sender (0 ∷ 3 ∷ 7 ∷ 8 ∷ 9 ∷ 1 ∷ [])) tcp_server
      (ipv4_address (1 ∷ 1 ∷ 1 ∷ 1 ∷ [])) (5 ∷ 6 ∷ []) (0 ∷ 2 ∷ 5 ∷ 6 ∷ []) (7 ∷ 8 ∷ 9 ∷ [])
      (0 ∷ 3 ∷ 7 ∷ 8 ∷ 9 ∷ []) (1 ∷ 2 ∷ []) 6 (inl refl) refl refl refl (omega arith)
      (sender-Delivers (0 ∷ 3 ∷ 7 ∷ 8 ∷ 9 ∷ 1 ∷ []))

query_nameserver-IsEncrypted_example :
    IsEncrypted
      (codes "one.one")
      (query_nameserver tagged (sender []) https_server (5 ∷ 6 ∷ []) []).1
query_nameserver-IsEncrypted_example =
    query_nameserver-IsEncrypted tagged (sender []) https_server (5 ∷ 6 ∷ []) (inr refl)
