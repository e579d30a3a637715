-- ===== src/DnsInbound/Relay/Tests.antt =====
-- A concrete request through the DNS inbound.
use cppbox.Prelude.{ℕ, ◌≡◌, refl, inl, none, some, List, [], ◌∷◌, codes, arith, ok}
use cppbox.Prelude.Map.{find}
use cppbox.Utils.{read_be16, read_be32}
use cppbox.Address.{ipv4_address, parse_host, parse_v4}
use cppbox.Address.Tests.{tagged}
use cppbox.DnsMessage.{
  DnsQuestion, label_loop, read_name_at, read_name, parse_question, skip_question, skip_questions,
  ipv4_text, answer_records, parse_answer, parse_answers, parse_response,
}
use cppbox.DnsServer.{
  DnsItemConfig, DnsServer, add_tcp_length, pick_nameserver, pick_from, find_nameserver,
  normalize_domain, strip_dots,
}
use cppbox.DnsServer.Exchange.{exchange_over}
use cppbox.DnsServer.Framing.{sender, sender-Delivers}
use cppbox.DnsInbound.{join_values, ip_list_text, handle_request}
use cppbox.DnsInbound.Relay.{handle_request-exchange_over}

abbrev tcp_server : DnsItemConfig
tcp_server = record {
  tag = codes "main";
  kind = codes "tcp";
  server = 4 ∷ 1 ∷ 1 ∷ 1 ∷ 1 ∷ [];
  server_port = 53;
  path = [];
  server_name = [];
}

abbrev dns : DnsServer
dns = record {
  config = record { listen = none; servers = tcp_server ∷ []; rules = []; final = codes "main" };
  nameservers = (codes "main", tcp_server) ∷ [];
  router = record {
    config = record { rules = []; final_outbound = codes "direct"; rule_set_configs = [] };
    rule_sets = [];
  };
}

-- A question for the addresses of a.org, and an answer with one.
abbrev request : List ℕ
request =
    0 ∷ 1 ∷ 1 ∷ 0 ∷ 0 ∷ 1 ∷ 0 ∷ 0 ∷ 0 ∷ 0 ∷ 0 ∷ 0 ∷ 1 ∷ b'a' ∷ 3 ∷ b'o' ∷ b'r' ∷ b'g' ∷ 0 ∷ 0 ∷ 1
    ∷ 0 ∷ 1 ∷ []

abbrev response : List ℕ
response =
    0 ∷ 1 ∷ 129 ∷ 128 ∷ 0 ∷ 0 ∷ 0 ∷ 1 ∷ 0 ∷ 0 ∷ 0 ∷ 0 ∷ 0 ∷ 0 ∷ 1 ∷ 0 ∷ 1 ∷ 0 ∷ 0 ∷ 0 ∷ 60 ∷ 0 ∷ 4
    ∷ 9 ∷ 9 ∷ 9 ∷ 9 ∷ []

abbrev question : DnsQuestion
question = record { name = codes "a.org"; type = 1 }

handle_request-exchange_over_example :
    handle_request tagged
      (exchange_over tagged (λ server message. sender (0 ∷ 27 ∷ response)))
      dns
      request
    ≡ ok (some response)
unfolding pick_nameserver pick_from find_nameserver find normalize_domain strip_dots parse_question
    read_be16 read_be32 skip_questions skip_question read_name read_name_at label_loop
    parse_response parse_answers parse_answer answer_records ipv4_text add_tcp_length parse_host
    parse_v4 ip_list_text join_values
handle_request-exchange_over_example =
    handle_request-exchange_over tagged (λ server message. sender (0 ∷ 27 ∷ response)) dns
      tcp_server (ipv4_address (1 ∷ 1 ∷ 1 ∷ 1 ∷ [])) question request (0 ∷ 23 ∷ request) response
      (0 ∷ 27 ∷ response) (codes "9.9.9.9") [] 29 refl refl (inl refl) refl refl refl (omega arith)
      (sender-Delivers (0 ∷ 27 ∷ response)) refl
