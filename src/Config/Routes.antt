-- ===== src/Config/Routes.antt =====
-- The route and the DNS sections of src/config/config.cpp.
use cppbox.Prelude.{
  ℕ, Bool, ◌||◌, ◌&&◌, not, Option, none, some, List, [], ◌∷◌, codes, is_empty, ◌==◌, text_eq,
  starts_with, if◌then◌else◌, Result, ok, err, runtime_error, runtime_error_about, String, ◌>>=◌,
  ◌>>◌,
}
use cppbox.Json.{
  each, each_in, or_null, Json, string, array, object, items_of, fields_of, Object, as_object,
  as_array, if_contains, at_key, get_string, get_u16, get_string_array,
}
use cppbox.Router.{RouteRuleConfig, RuleSetConfig, RouteConfig, any_of}
use cppbox.DnsServer.{
  DnsRouteRuleConfig, DnsItemConfig, DnsConfig, throw_when, type_is, is_plain, uses_tls,
}

unfoldable pub load_rule_set_config : Json → Result RuleSetConfig
load_rule_set_config j = do
  obj ← as_object j
  kind ← get_string obj "type"
  tag ← get_string obj "tag"
  format ← get_string obj "format"
  path ← get_string obj "path"
  ok (record { set_type = kind; tag = tag; format = format; path = path })

unfoldable pub load_rule : Json → Result RouteRuleConfig
load_rule j = do
  obj ← as_object j
  domain ← get_string_array obj "domain"
  domain_suffix ← get_string_array obj "domain_suffix"
  domain_keyword ← get_string_array obj "domain_keyword"
  ip_cidr ← get_string_array obj "ip_cidr"
  rule_set ← get_string_array obj "rule_set"
  throw_when
      (is_empty domain
        && is_empty domain_keyword
        && is_empty domain_suffix
        && is_empty ip_cidr
        && is_empty rule_set)
      (runtime_error "rule must be not null")
  outbound ← get_string obj "outbound"
  ok (record {
    domain = domain;
    domain_suffix = domain_suffix;
    domain_keyword = domain_keyword;
    ip_cidr = ip_cidr;
    rule_set = rule_set;
    outbound = outbound;
  })

unfoldable pub load_route : Object → Result RouteConfig
load_route root = do
  route ← as_object (or_null (if_contains root "route"))
  final ← get_string route "final"
  rule_sets ← each_in load_rule_set_config (if_contains route "rule_set")
  rules ← each_in load_rule (if_contains route "rules")
  ok (record { rules = rules; final_outbound = final; rule_set_configs = rule_sets })

-- `std::string(text.c_str())`: the text up to its first zero.
unfoldable pub c_str : List ℕ → List ℕ
c_str [] = []
c_str (c ∷ cs) = if c == 0 then [] else c ∷ c_str cs

unfoldable pub load_listen : Option Json → Result (Option (List ℕ))
load_listen none = ok none
load_listen (some (string s)) = ok (some (c_str s))
load_listen (some j) = err (runtime_error "dns.listen must be a string")

unfoldable pub load_server_name : Option Json → Result (List ℕ)
load_server_name none = ok []
load_server_name (some (string s)) = ok (c_str s)
load_server_name (some j) = err (runtime_error "dns server_name must be a string")

-- The two checks that an item is an object.
abbrev pub object_item : String → Json → Result Object
object_item message (object fields) = ok (fields_of fields)
object_item message j = err (runtime_error message)

-- `dns_server_tags.contains(tag)`.
abbrev pub has_tag : List ℕ → List (List ℕ) → Bool
has_tag tag tags = any_of (text_eq tag) tags

unfoldable pub load_path : Object → DnsItemConfig → Result DnsItemConfig
load_path obj server = do
  path ← get_string obj "path"
  throw_when (not (starts_with path (codes "/"))) (runtime_error "DNS HTTPS path must start with /")
  ok (record server { path = path })

-- The part behind the tag's check.
unfoldable pub load_by_kind : Object → DnsItemConfig → Result DnsItemConfig
load_by_kind obj server = do
  throw_when (not (is_plain server || uses_tls server))
      (runtime_error_about "unsupported DNS server type: " server.kind)
  server ← if type_is server "https" then load_path obj server else ok server
  server_name ← if uses_tls server then load_server_name (if_contains obj "server_name") else ok []
  ok (record server { server_name = server_name })

abbrev pub unnamed : List ℕ → List ℕ → List ℕ → ℕ → DnsItemConfig
unnamed tag kind server port = record {
  tag = tag;
  kind = kind;
  server = server;
  server_port = port;
  path = [];
  server_name = [];
}

-- One item of `servers`, with the tags of the servers before it.
unfoldable pub load_dns_server : List (List ℕ) → Json → Result DnsItemConfig
load_dns_server tags j = do
  obj ← object_item "dns.servers item must be an object" j
  tag ← get_string obj "tag"
  kind ← get_string obj "type"
  address ← get_string obj "server"
  port ← get_u16 obj "server_port"
  throw_when (has_tag tag tags) (runtime_error_about "duplicate DNS server tag: " tag)
  load_by_kind obj (unnamed tag kind address port)

-- The loop over the servers, with the tags that it has put into the set.
unfoldable pub load_dns_servers : List (List ℕ) → List Json → Result (List DnsItemConfig)
load_dns_servers tags [] = ok []
load_dns_servers tags (j ∷ rest) = do
  server ← load_dns_server tags j
  later ← load_dns_servers (server.tag ∷ tags) rest
  ok (server ∷ later)

unfoldable pub tags_of : List DnsItemConfig → List (List ℕ)
tags_of [] = []
tags_of (server ∷ servers) = server.tag ∷ tags_of servers

unfoldable pub load_dns_rule : List (List ℕ) → Json → Result DnsRouteRuleConfig
load_dns_rule tags j = do
  obj ← object_item "dns.rules item must be an object" j
  domain ← get_string_array obj "domain"
  domain_suffix ← get_string_array obj "domain_suffix"
  domain_keyword ← get_string_array obj "domain_keyword"
  rule_set ← get_string_array obj "rule_set"
  server ← get_string obj "server"
  throw_when
      (is_empty domain && is_empty domain_suffix && is_empty domain_keyword && is_empty rule_set)
      (runtime_error "dns rule must contain a match condition")
  throw_when (not (has_tag server tags))
      (runtime_error_about "dns rule references unknown server: " server)
  ok (record {
    domain = domain;
    domain_suffix = domain_suffix;
    domain_keyword = domain_keyword;
    rule_set = rule_set;
    server = server;
  })

unfoldable pub load_dns_rules : List (List ℕ) → Option Json → Result (List DnsRouteRuleConfig)
load_dns_rules tags none = ok []
load_dns_rules tags (some (array items)) = each (load_dns_rule tags) (items_of items)
load_dns_rules tags (some j) = err (runtime_error "dns.rules must be an array")

unfoldable pub load_dns : Object → Result DnsConfig
load_dns root = do
  dns ← at_key root "dns" >>= as_object
  listen ← load_listen (if_contains dns "listen")
  items ← at_key dns "servers" >>= as_array
  throw_when (is_empty items) (runtime_error "dns.servers must not be empty")
  servers ← load_dns_servers [] items
  rules ← load_dns_rules (tags_of servers) (if_contains dns "rules")
  final ← get_string dns "final"
  throw_when (not (has_tag final (tags_of servers)))
      (runtime_error_about "dns.final references unknown server: " final)
  ok (record { listen = listen; servers = servers; rules = rules; final = final })
