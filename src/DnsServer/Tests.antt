-- ===== src/DnsServer/Tests.antt =====
-- Concrete runs of DnsServer.
use cppbox.Prelude.{Option, ℕ, true, inl, ◌≡◌, refl, some, none, List, [], ◌∷◌, codes, Result, ok}
use cppbox.Prelude.Map.{find, insert, text_key}
use cppbox.Prelude.Texts.{ends_with}
use cppbox.Utils.{write_be16, read_be16, read_be32}
use cppbox.DnsMessage.{
  label_loop, read_name_at, read_name, parse_question, split_dot, build_labels, build_query,
  skip_question, skip_questions, ipv4_text, answer_records, parse_answer, parse_answers,
  parse_response,
}
use cppbox.Address.{AddressText, ipv4_address}
use cppbox.Address.Tests.{tagged}
use cppbox.Router.{Router, match_suffix}
use cppbox.DnsServer.{
  DnsRouteRuleConfig, DnsItemConfig, DnsConfig, DnsServer, normalize_domain, strip_dots,
  check_server, add_servers, find_nameserver, check_rules, make_dns_server, match_names, match_rule,
  pick_from, pick_nameserver, query_dns, query, lookup, addresses, record_address, resolve,
}
use cppbox.DnsServer.Servers.{pick_nameserver-total}
use cppbox.DnsInbound.{handle_request}
use cppbox.DnsInbound.Serving.{Sent, handle_request-Sent}
use cppbox.DnsServer.Resolving.{resolve-Yields}

abbrev no_rules : Router
no_rules = record {
  config = record { rules = []; final_outbound = codes "direct"; rule_set_configs = [] };
  rule_sets = [];
}

abbrev one_server : DnsItemConfig
one_server = record {
  tag = codes "main";
  kind = codes "udp";
  server = 4 ∷ 1 ∷ 1 ∷ 1 ∷ 1 ∷ [];
  server_port = 53;
  path = [];
  server_name = [];
}

abbrev org_names : DnsRouteRuleConfig
org_names = record {
  domain = [];
  domain_suffix = codes "ORG." ∷ [];
  domain_keyword = [];
  rule_set = [];
  server = codes "main";
}

abbrev one_config : DnsConfig
one_config = record {
  listen = none;
  servers = one_server ∷ [];
  rules = org_names ∷ [];
  final = codes "main";
}

abbrev one_dns : DnsServer
one_dns = record {
  config = one_config;
  nameservers = (codes "main", one_server) ∷ [];
  router = no_rules;
}

pick_nameserver-total_example :
    (server : DnsItemConfig) × (pick_nameserver tagged one_dns (codes "A.Org") ≡ ok server)
    × (check_server tagged server ≡ ok tt)
unfolding make_dns_server add_servers check_server find insert find_nameserver check_rules
    match_rule match_names match_suffix normalize_domain strip_dots ends_with
pick_nameserver-total_example =
    pick_nameserver-total tagged one_config no_rules one_dns (codes "A.Org") refl ((true, refl), tt)

-- A response with one A record, whatever is asked.
abbrev constant_answer : DnsItemConfig → List ℕ → Result (List ℕ)
constant_answer server message = ok (
    0 ∷ 0 ∷ 129 ∷ 128 ∷ 0 ∷ 0 ∷ 0 ∷ 1 ∷ 0 ∷ 0 ∷ 0 ∷ 0 ∷ 0 ∷ 0 ∷ 1 ∷ 0 ∷ 1 ∷ 0 ∷ 0 ∷ 0 ∷ 60 ∷ 0 ∷ 4
    ∷ 9 ∷ 9 ∷ 9 ∷ 9 ∷ [])

-- A question for a.org.
abbrev org_request : List ℕ
org_request =
    0 ∷ 1 ∷ 1 ∷ 0 ∷ 0 ∷ 1 ∷ 0 ∷ 0 ∷ 0 ∷ 0 ∷ 0 ∷ 0 ∷ 1 ∷ b'a' ∷ 3 ∷ b'o' ∷ b'r' ∷ b'g' ∷ 0 ∷ 0 ∷ 1
    ∷ 0 ∷ 1 ∷ []

handle_request-Sent_example :
    (reply : Option (List ℕ)) × (handle_request tagged constant_answer one_dns org_request
      ≡ ok reply)
    × Sent tagged constant_answer one_dns org_request reply
handle_request-Sent_example =
    handle_request-Sent tagged constant_answer one_dns org_request (λ server message. tt)

-- Every text is an IPv4 address, kept as it is.
abbrev loose : AddressText
loose = record {
  make_address_v4 = some;
  make_address_v6 = λ text. none;
  print_v4 = λ a. a;
  print_v6 = λ a. a;
}

resolve-Yields_example :
    resolve loose constant_answer one_dns (codes "a.org")
    ≡ ok (ipv4_address (codes "9.9.9.9") ∷ ipv4_address (codes "9.9.9.9") ∷ [])
unfolding lookup query pick_nameserver pick_from find_nameserver find query_dns addresses
    record_address match_rule match_names match_suffix normalize_domain strip_dots ends_with
    build_query build_labels split_dot write_be16 parse_question parse_response read_be16 read_be32
    skip_questions skip_question read_name read_name_at label_loop parse_answers parse_answer
    answer_records ipv4_text
resolve-Yields_example =
    resolve-Yields loose constant_answer one_dns (codes "a.org") (ipv4_address (codes "9.9.9.9"))
      (ipv4_address (codes "9.9.9.9") ∷ []) (ipv4_address (codes "9.9.9.9") ∷ [])
      (ipv4_address (codes "9.9.9.9") ∷ []) (inl refl) (inl refl) refl
