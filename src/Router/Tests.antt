-- ===== src/Router/Tests.antt =====
-- Concrete runs of Router.
use cppbox.Prelude.{
  String, ◌≡◌, ◌↔◌, ◌⊎◌, refl, arith, true, false, ℕ, List, [], ◌∷◌, ◌++◌, replicate, take, text_eq,
  codes, ok,
}
use cppbox.Address.{domain_name, ipv4_address, ipv6_address, host_text, Session}
use cppbox.Address.Tests.{tagged, tagged-IsFaithful}
use cppbox.Router.{
  RouteRuleConfig, Router, match_suffix, match_domain_host, match_ipv4_cidr, ipv4_to_u32,
  match_cidr, match_ip_cidr, match_rule_conditions, match_rule, pick_outbound,
}
use cppbox.Prelude.Texts.{split_at, has_char, stoi, digits_value, ends_with}
use cppbox.Router.Domains.{TakesDomain, match_domain_host_iff}
use cppbox.Router.Prefixes.{address_bits, match_cidr-address_bits}
use cppbox.Router.Picks.{IsFirst, IsFinal, pick_outbound-cases, pick_outbound-first}

abbrev ads_rule : RouteRuleConfig
ads_rule = record {
  domain = [];
  domain_suffix = codes "ads.org" ∷ [];
  domain_keyword = [];
  ip_cidr = [];
  rule_set = [];
  outbound = codes "block";
}

abbrev org_rule : RouteRuleConfig
org_rule = record {
  domain = codes "b.net" ∷ [];
  domain_suffix = codes ".org" ∷ [];
  domain_keyword = [];
  ip_cidr = [];
  rule_set = [];
  outbound = codes "proxy";
}

abbrev two_rules : Router
two_rules = record {
  config = record {
    rules = ads_rule ∷ org_rule ∷ [];
    final_outbound = codes "direct";
    rule_set_configs = [];
  };
  rule_sets = [];
}

abbrev visit : String → Session
visit name = record {
  destination = record { host = domain_name (codes name); port = 443 };
  initial_payload = [];
}

match_domain_host_iff_example :
    (match_domain_host org_rule (domain_name (codes "b.net")) ≡ true)
    ↔ TakesDomain org_rule (codes "b.net")
match_domain_host_iff_example = match_domain_host_iff org_rule (codes "b.net")

two_rules_first : pick_outbound tagged two_rules (visit "a.org") ≡ ok (codes "proxy")
unfolding match_rule match_rule_conditions match_ip_cidr match_domain_host match_suffix ends_with
two_rules_first =
    pick_outbound-first tagged two_rules (ads_rule ∷ []) [] org_rule (visit "a.org") refl (refl, tt)
      refl

pick_outbound-cases_example :
    IsFirst tagged two_rules (ads_rule ∷ org_rule ∷ []) (visit "a.org").destination (codes "proxy")
    ⊎ IsFinal tagged two_rules
        (ads_rule ∷ org_rule ∷ [])
        (visit "a.org").destination
        (codes "proxy")
pick_outbound-cases_example =
    pick_outbound-cases tagged two_rules (visit "a.org") (codes "proxy") two_rules_first

-- 2039::1 in 203a::/12.
abbrev near : List ℕ
near = 32 ∷ 57 ∷ replicate 13 0 ++ (1 ∷ [])

abbrev base6 : List ℕ
base6 = 32 ∷ 58 ∷ replicate 14 0

match_cidr-address_bits_example :
    (match_cidr tagged (ipv6_address near) (6 ∷ base6 ++ (b'/' ∷ codes "12"))
      ≡ ok (text_eq (take 12 (address_bits base6)) (take 12 (address_bits near))))
    × (match_cidr tagged (ipv4_address (10 ∷ 0 ∷ 0 ∷ 1 ∷ [])) (6 ∷ base6 ++ (b'/' ∷ codes "12"))
        ≡ ok false)
unfolding split_at stoi digits_value has_char
match_cidr-address_bits_example =
    match_cidr-address_bits tagged true (6 ∷ base6 ++ (b'/' ∷ codes "12")) (6 ∷ base6) (codes "12")
      base6 near (10 ∷ 0 ∷ 0 ∷ 1 ∷ []) 12 tagged-IsFaithful refl refl refl refl (omega arith)
      (omega arith) (omega arith)

-- 10.31.0.1 is in 10.16.0.0/12.
match_cidr_ipv4 :
    match_cidr tagged
      (ipv4_address (10 ∷ 31 ∷ 0 ∷ 1 ∷ []))
      (4 ∷ 10 ∷ 16 ∷ 0 ∷ 0 ∷ b'/' ∷ codes "12")
    ≡ ok true
unfolding split_at stoi digits_value has_char match_cidr match_ipv4_cidr ipv4_to_u32 host_text
match_cidr_ipv4 = refl
