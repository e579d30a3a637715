-- ===== src/Config/Sound.antt =====
-- What `load_config` of src/config/config.cpp has checked of the DNS section it returns.
use cppbox.Prelude.{
  ℕ, ◌≡◌, ◌&&◌, not, Option, none, some, List, [], is_empty, All, ok, ◌>>=◌, >>=-eq-ok,
  ok_injective,
}
use cppbox.Json.{
  Json, array, items_of, Object, as_object, as_array, if_contains, at_key, get_string,
  get_string_array,
}
use cppbox.DnsServer.{DnsRouteRuleConfig, DnsConfig, throw_when}
use cppbox.Config.Routes.{
  has_tag, tags_of, load_listen, object_item, load_dns_servers, load_dns_rule, load_dns_rules,
  load_dns,
}
use cppbox.Config.Checked.{
  throw_when-eq-ok, each-All, IsSound, IsLoaded, not-false, load_dns_servers-AreFresh,
}

load_dns_rule-IsSound :
    (tags : List (List ℕ)) (j : Json) (rule : DnsRouteRuleConfig)
    → load_dns_rule tags j ≡ ok rule
    → IsSound tags rule
unfolding load_dns_rule
load_dns_rule-IsSound tags j rule e =
    let (obj, _, e1) = >>=-eq-ok (object_item _ j) _ e in
    let (domain, _, e2) = >>=-eq-ok (get_string_array obj "domain") _ e1 in
    let (suffix, _, e3) = >>=-eq-ok (get_string_array obj "domain_suffix") _ e2 in
    let (keyword, _, e4) = >>=-eq-ok (get_string_array obj "domain_keyword") _ e3 in
    let (rule_set, _, e5) = >>=-eq-ok (get_string_array obj "rule_set") _ e4 in
    let (server, _, e6) = >>=-eq-ok (get_string obj "server") _ e5 in
    let (_, some_list, e7) =
      >>=-eq-ok
        (throw_when (is_empty domain && is_empty suffix && is_empty keyword && is_empty rule_set) _)
        _ e6 in
    let (_, known, e8) = >>=-eq-ok (throw_when (not (has_tag server tags)) _) _ e7 in
    let made : DnsRouteRuleConfig = record {
      domain = domain;
      domain_suffix = suffix;
      domain_keyword = keyword;
      rule_set = rule_set;
      server = server;
    } in
    let w : made ≡ rule = ok_injective e8 in
    rw (← w) (throw_when-eq-ok _ _ some_list, not-false _ (throw_when-eq-ok _ _ known))

load_dns_rules-IsSound :
    (tags : List (List ℕ)) (j : Option Json) (rules : List DnsRouteRuleConfig)
    → load_dns_rules tags j ≡ ok rules
    → All (IsSound tags) rules
unfolding load_dns_rules
load_dns_rules-IsSound tags none rules e = let w : [] ≡ rules = cc in rw (← w) tt
load_dns_rules-IsSound tags (some (array items)) rules e =
    each-All (load_dns_rule tags) (IsSound tags) (load_dns_rule-IsSound tags) (items_of items) rules
      e
load_dns_rules-IsSound tags (some j) rules e = cc

pub load_dns-IsLoaded :
    (root : Object) (config : DnsConfig) → load_dns root ≡ ok config → IsLoaded config
unfolding load_dns
load_dns-IsLoaded root config e =
    let (dns, _, e1) = >>=-eq-ok (at_key root "dns" >>= as_object) _ e in
    let (listen, _, e2) = >>=-eq-ok (load_listen (if_contains dns "listen")) _ e1 in
    let (items, _, e3) = >>=-eq-ok (at_key dns "servers" >>= as_array) _ e2 in
    let (_, full, e4) = >>=-eq-ok (throw_when (is_empty items) _) _ e3 in
    let (servers, s, e5) = >>=-eq-ok (load_dns_servers [] items) _ e4 in
    let (rules, r, e6) =
      >>=-eq-ok (load_dns_rules (tags_of servers) (if_contains dns "rules")) _ e5 in
    let (final, _, e7) = >>=-eq-ok (get_string dns "final") _ e6 in
    let (_, known, e8) = >>=-eq-ok (throw_when (not (has_tag final (tags_of servers))) _) _ e7 in
    let (fresh, checked, same) = load_dns_servers-AreFresh [] items servers s in
    let made : DnsConfig = record {
      listen = listen;
      servers = servers;
      rules = rules;
      final = final;
    } in
    let w : made ≡ config = ok_injective e8 in
    rw (← w) (
      rw same (throw_when-eq-ok _ _ full),
      fresh,
      checked,
      load_dns_rules-IsSound (tags_of servers) _ rules r,
      not-false _ (throw_when-eq-ok _ _ known),
    )
