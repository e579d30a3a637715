-- ===== src/DnsServer.antt =====
-- The DNS server: src/dns/dns.cpp and the structs of src/config/config.hpp. The exchange of a message
-- with a nameserver over the network is the parameter `exchange`.
pub mod Returning
pub mod Servers
pub mod Resolving
pub mod Exchange
pub mod Framing
pub mod Answers
pub mod Encrypted
mod Queries
mod Tests
use cppbox.Prelude.{
  ℕ, ◌+◌, ◌-◌, ◌*◌, ◌/◌, ◌%◌, bit_and, Bool, true, false, ◌||◌, ◌&&◌, not, Option, none, some, List,
  [], ◌∷◌, ◌++◌, map, codes, length, ltb, ◌==◌, is_empty, text_eq, starts_with, if◌then◌else◌,
  Result, Error, ok, err, stuck, runtime_error, runtime_error_about, String, ◌>>=◌, ◌>>◌,
}
use cppbox.Prelude.Map.{Map, find, insert, contains, text_key}
use cppbox.Prelude.Texts.{has_text, ends_with}
use cppbox.Utils.{tolower}
use cppbox.Address.{
  AddressText, Host, ipv4_address, ipv6_address, Destination, make_domain, is_ip_literal,
}
use cppbox.DnsMessage.{
  DnsRecord, DnsQuestion, type_a, type_aaaa, parse_question, build_query, parse_response,
}
use cppbox.Router.{Router, any_of, any_of_result, match_suffix, match_rule_set}

pub record DnsRouteRuleConfig : Type 0 where
  pub domain : List (List ℕ)
  pub domain_suffix : List (List ℕ)
  pub domain_keyword : List (List ℕ)
  pub rule_set : List (List ℕ)
  pub server : List ℕ

pub record DnsItemConfig : Type 0 where
  pub tag : List ℕ
  pub kind : List ℕ
  pub server : List ℕ
  pub server_port : ℕ
  pub path : List ℕ
  pub server_name : List ℕ

pub record DnsConfig : Type 0 where
  pub listen : Option (List ℕ)
  pub servers : List DnsItemConfig
  pub rules : List DnsRouteRuleConfig
  pub final : List ℕ

pub record DnsServer : Type 0 where
  pub config : DnsConfig
  pub nameservers : Map (List ℕ) DnsItemConfig
  pub router : Router

unfoldable pub add_tcp_length : List ℕ → Result (List ℕ)
add_tcp_length message =
    if ltb 65535 (length message)
    then err (runtime_error "dns message too large")
    else ok ((length message / 256 % 256) ∷ bit_and (length message) 255 ∷ message)

-- `while (!result.empty() && result.back() == '.') result.pop_back();`
unfoldable pub strip_dots : List ℕ → List ℕ
strip_dots [] = []
strip_dots (c ∷ cs) =
    let rest = strip_dots cs in if is_empty rest && (c == b'.') then [] else c ∷ rest

unfoldable pub normalize_domain : List ℕ → List ℕ
normalize_domain domain = strip_dots (map tolower domain)

abbrev pub type_is : DnsItemConfig → String → Bool
type_is server name = text_eq server.kind (codes name)

abbrev pub uses_tls : DnsItemConfig → Bool
uses_tls server = type_is server "tls" || type_is server "https"

abbrev pub is_plain : DnsItemConfig → Bool
is_plain server = type_is server "udp" || type_is server "tcp"

-- `if (test) throw error;`
abbrev pub throw_when : Bool → Error → Result (Unit {0})
throw_when true error = err error
throw_when false error = ok tt

-- The tests on one server.
unfoldable pub check_server : AddressText → DnsItemConfig → Result (Unit {0})
check_server t server = do
  throw_when (is_empty server.tag) (runtime_error "dns server tag must not be empty")
  throw_when (not (is_ip_literal t server.server))
      (runtime_error_about "dns server must be an IP address: " server.tag)
  throw_when (server.server_port == 0)
      (runtime_error_about "dns server port must not be zero: " server.tag)
  throw_when (not (is_plain server || uses_tls server))
      (runtime_error_about "unsupported DNS server type: " server.kind)
  throw_when (is_plain server && not (is_empty server.server_name))
      (runtime_error_about "udp/tcp DNS server must not specify server_name: " server.tag)
  throw_when (uses_tls server && is_empty server.server_name)
      (runtime_error_about "tls/https DNS server requires server_name: " server.tag)
  throw_when
      (type_is server "https"
        && (is_empty server.path || not (starts_with server.path (codes "/"))))
      (runtime_error_about "https DNS server path must start with /: " server.tag)

-- The loop over the servers.
unfoldable pub add_servers :
    AddressText
    → List DnsItemConfig
    → Map (List ℕ) DnsItemConfig
    → Result (Map (List ℕ) DnsItemConfig)
add_servers t [] known = ok known
add_servers t (server ∷ servers) known = do
  check_server t server
  throw_when (contains server.tag known)
      (runtime_error_about "duplicate DNS server tag: " server.tag)
  add_servers t servers (insert server.tag server known)

unfoldable pub find_nameserver : Map (List ℕ) DnsItemConfig → List ℕ → Result DnsItemConfig
find_nameserver known tag = elim (find tag known) [
  | none ↦ err (runtime_error_about "unknown DNS server tag: " tag)
  | some server ↦ ok server
]

-- The test of a rule, as it is written.
abbrev pub is_null_rule : DnsRouteRuleConfig → Bool
is_null_rule rule =
    not (is_empty rule.rule_set)
    && not (is_empty rule.domain)
    && not (is_empty rule.domain_suffix)
    && not (is_empty rule.domain_keyword)

-- The loop over the rules.
unfoldable pub check_rules :
    Map (List ℕ) DnsItemConfig → List DnsRouteRuleConfig → Result (Unit {0})
check_rules known [] = ok tt
check_rules known (rule ∷ rules) = do
  throw_when (is_null_rule rule) (runtime_error "dns rule must not be null")
  server ← find_nameserver known rule.server
  check_rules known rules

-- The constructor.
unfoldable pub make_dns_server : AddressText → DnsConfig → Router → Result DnsServer
make_dns_server t config router = do
  throw_when (is_empty config.servers) (runtime_error "dns.servers must not be empty")
  known ← add_servers t config.servers []
  server ← find_nameserver known config.final
  check_rules known config.rules
  ok (record { config = config; nameservers = known; router = router })

-- The three loops over the names of a rule, for a normalized domain.
unfoldable pub match_names : DnsRouteRuleConfig → List ℕ → Bool
match_names rule domain =
    any_of (λ item. text_eq domain (normalize_domain item)) rule.domain
    || any_of (λ item. match_suffix domain (normalize_domain item)) rule.domain_suffix
    || any_of
        (λ item. not (is_empty (normalize_domain item)) && has_text domain (normalize_domain item))
        rule.domain_keyword

module _ (t : AddressText) where
  unfoldable pub match_rule : DnsServer → DnsRouteRuleConfig → List ℕ → Result Bool
  match_rule s rule domain =
      if match_names rule domain
      then ok true
      else (make_domain domain >>= λ host.
          any_of_result (λ tag. match_rule_set t s.router tag (record { host = host; port = 0 }))
            rule.rule_set)

  unfoldable pub pick_from : DnsServer → List DnsRouteRuleConfig → List ℕ → Result DnsItemConfig
  pick_from s [] domain = find_nameserver s.nameservers s.config.final
  pick_from s (rule ∷ rules) domain =
      let later = pick_from s rules domain in
      match_rule s rule domain >>= λ matched.
      if matched then find_nameserver s.nameservers rule.server else later

  unfoldable pub pick_nameserver : DnsServer → List ℕ → Result DnsItemConfig
  pick_nameserver s domain = pick_from s s.config.rules (normalize_domain domain)

  module _ (exchange : DnsItemConfig → List ℕ → Result (List ℕ)) where
    unfoldable pub query_dns : DnsItemConfig → List ℕ → Result (List ℕ)
    query_dns server message =
        if is_plain server || uses_tls server
        then exchange server message
        else err (runtime_error_about "unsupported DNS type: " server.kind)

    unfoldable pub query : DnsServer → List ℕ → Result (List ℕ)
    query s request = do
      question ← parse_question request
      server ← pick_nameserver s question.name
      query_dns server request

    -- The addresses among the records of a response. `ip::make_address` takes either kind.
    unfoldable pub record_address : DnsRecord → List Host
    record_address r =
        if not (r.type == type_a) && not (r.type == type_aaaa)
        then []
        else elim (t.make_address_v4 r.value) [
          | some a ↦ ipv4_address a ∷ []
          | none ↦ elim (t.make_address_v6 r.value) [ some a ↦ ipv6_address a ∷ [] | none ↦ [] ]
        ]

    unfoldable pub addresses : List DnsRecord → List Host
    addresses [] = []
    addresses (r ∷ records) = record_address r ++ addresses records

    -- The body of the `try` block for one type.
    unfoldable pub lookup : DnsServer → List ℕ → ℕ → Result (List Host)
    lookup s domain type = do
      request ← build_query domain type
      response ← query s request
      records ← parse_response response
      ok (addresses records)

    -- The `catch (...)` block keeps the error, and the loop goes on.
    abbrev pub caught :
        Result (List Host) → List Host → Option Error → Result (List Host × Option Error)
    caught (ok found) output last_error = ok (output ++ found, last_error)
    caught (err error) output last_error = ok (output, some error)
    caught stuck output last_error = stuck

    abbrev pub finish : List ℕ → List Host → Option Error → Result (List Host)
    finish domain [] none = err (runtime_error_about "DNS returned no address for " domain)
    finish domain [] (some error) = err error
    finish domain (a ∷ output) last_error = ok (a ∷ output)

    unfoldable pub resolve : DnsServer → List ℕ → Result (List Host)
    resolve s domain = do
      (output, last_error) ← caught (lookup s domain type_a) [] none
      (output, last_error) ← caught (lookup s domain type_aaaa) output last_error
      finish domain output last_error
