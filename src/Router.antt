-- ===== src/Router.antt =====
-- Routing: src/route/router.cpp, src/route/rule_set.cpp and the structs of src/config/config.hpp.
-- Matching a CIDR can throw, so the tests that reach one return a `Result`.
pub mod Domains
pub mod Cidr
pub mod Prefixes
pub mod Picks
mod Tests
use cppbox.Prelude.{
  ℕ, ◌-◌, ◌*◌, ◌/◌, ◌%◌, bit_and, bit_or, Bool, true, false, ◌||◌, ◌&&◌, not, Option, none, some,
  List, [], ◌∷◌, codes, get_or, length, ltb, ◌==◌, is_empty, text_eq, if◌then◌else◌, Result, ok,
  err, runtime_error, runtime_error_about, system_error, ◌>>=◌, ◌>>◌,
}
use cppbox.Prelude.Bits.{pow2}
use cppbox.Prelude.Map.{Map, find, insert, text_key}
use cppbox.Prelude.Texts.{split_at, has_char, has_text, ends_with, stoi}
use cppbox.Address.{
  AddressText, Host, ipv4_address, ipv6_address, domain_name, Destination, Session, host_text,
}

pub record RouteRuleConfig : Type 0 where
  pub domain : List (List ℕ)
  pub domain_suffix : List (List ℕ)
  pub domain_keyword : List (List ℕ)
  pub ip_cidr : List (List ℕ)
  pub rule_set : List (List ℕ)
  pub outbound : List ℕ

pub record RuleSetConfig : Type 0 where
  pub set_type : List ℕ
  pub tag : List ℕ
  pub format : List ℕ
  pub path : List ℕ

pub record RouteConfig : Type 0 where
  pub rules : List RouteRuleConfig
  pub final_outbound : List ℕ
  pub rule_set_configs : List RuleSetConfig

-- A loop that returns true at the first item for which the test holds.
abbrev pub any_of {ℓ} : {A : Type ℓ} → (A → Bool) → List A → Bool
any_of test [] = false
any_of test (x ∷ xs) = test x || any_of test xs

-- The same loop, with a test that may throw.
abbrev pub any_of_result {ℓ} : {A : Type ℓ} → (A → Result Bool) → List A → Result Bool
any_of_result test [] = ok false
any_of_result test (x ∷ xs) =
    let later = any_of_result test xs in test x >>= λ found. if found then ok true else later

-- One item of `domain_suffix`.
unfoldable pub match_suffix : List ℕ → List ℕ → Bool
match_suffix domain [] = false
match_suffix domain (c ∷ cs) =
    if c == b'.'
    then ends_with domain (c ∷ cs)
    else text_eq domain (c ∷ cs) || ends_with domain (b'.' ∷ c ∷ cs)

unfoldable pub match_domain_host : RouteRuleConfig → Host → Bool
match_domain_host rule (domain_name d) =
    any_of (text_eq d) rule.domain
    || any_of (match_suffix d) rule.domain_suffix
    || any_of (has_text d) rule.domain_keyword
match_domain_host rule h = false

abbrev pub match_domain : RouteRuleConfig → Destination → Bool
match_domain rule dst = match_domain_host rule dst.host

unfoldable pub ipv4_to_u32 : List ℕ → ℕ
ipv4_to_u32 b =
    bit_or (bit_or (bit_or (get_or b 0 0 * 16777216) (get_or b 1 0 * 65536)) (get_or b 2 0 * 256))
      (get_or b 3 0)

-- `prefix == 0 ? 0 : 0xffffffffu << (32 - prefix)`.
abbrev pub mask32 : ℕ → ℕ
mask32 prefix = if prefix == 0 then 0 else (4294967295 * pow2 (32 - prefix)) % 4294967296

-- The throwing overloads of `ip::make_address_v4` and `ip::make_address_v6`.
abbrev pub or_throw : Option (List ℕ) → Result (List ℕ)
or_throw none = err system_error
or_throw (some bytes) = ok bytes

abbrev pub same_prefix4 : List ℕ → List ℕ → Option ℕ → Bool
same_prefix4 base ip none = false
same_prefix4 base ip (some prefix) =
    if ltb 32 prefix
    then false
    else bit_and (ipv4_to_u32 base) (mask32 prefix) == bit_and (ipv4_to_u32 ip) (mask32 prefix)

-- The loop over the full bytes, then the bits that are left.
unfoldable pub same_bits : ℕ → List ℕ → List ℕ → Bool
same_bits prefix [] ip = true
same_bits prefix (b ∷ base) [] = true
same_bits prefix (b ∷ base) (i ∷ ip) =
    let later = same_bits (prefix - 8) base ip in
    if ltb prefix 8
    then (prefix == 0)
      || (bit_and b ((255 * pow2 (8 - prefix)) % 256)
          == bit_and i ((255 * pow2 (8 - prefix)) % 256))
    else (b == i) && later

abbrev pub same_prefix6 : List ℕ → List ℕ → Option ℕ → Bool
same_prefix6 base ip none = false
same_prefix6 base ip (some prefix) = if ltb 128 prefix then false else same_bits prefix base ip

module _ (t : AddressText) where
  unfoldable pub match_ipv4_cidr : List ℕ → List ℕ → Result Bool
  match_ipv4_cidr ip_text cidr = elim (split_at b'/' cidr) [
    | none ↦ ok (text_eq ip_text cidr)
    | some (base_text, prefix_text) ↦ do
      base ← or_throw (t.make_address_v4 base_text)
      ip ← or_throw (t.make_address_v4 ip_text)
      prefix ← stoi prefix_text
      ok (same_prefix4 base ip prefix)
  ]

  unfoldable pub match_ipv6_cidr : List ℕ → List ℕ → Result Bool
  match_ipv6_cidr ip_text cidr = elim (split_at b'/' cidr) [
    | none ↦ ok (text_eq ip_text cidr)
    | some (base_text, prefix_text) ↦ do
      base ← or_throw (t.make_address_v6 base_text)
      ip ← or_throw (t.make_address_v6 ip_text)
      prefix ← stoi prefix_text
      ok (same_prefix6 base ip prefix)
  ]

  -- One item of `ip_cidr`.
  unfoldable pub match_cidr : Host → List ℕ → Result Bool
  match_cidr (ipv4_address a) cidr =
      if has_char b':' cidr then ok false else match_ipv4_cidr (host_text t (ipv4_address a)) cidr
  match_cidr (ipv6_address a) cidr =
      if has_char b':' cidr then match_ipv6_cidr (host_text t (ipv6_address a)) cidr else ok false
  match_cidr (domain_name d) cidr = ok false

  unfoldable pub match_ip_cidr : RouteRuleConfig → Destination → Result Bool
  match_ip_cidr rule dst = any_of_result (match_cidr dst.host) rule.ip_cidr

  unfoldable pub match_rule_conditions : RouteRuleConfig → Destination → Result Bool
  match_rule_conditions rule dst = if match_domain rule dst then ok true else match_ip_cidr rule dst

  -- `RuleSet::match`.
  unfoldable pub match_rule_list : List RouteRuleConfig → Destination → Result Bool
  match_rule_list rules dst = any_of_result (λ rule. match_rule_conditions rule dst) rules

-- The rule sets by their tags.
pub record Router : Type 0 where
  pub config : RouteConfig
  pub rule_sets : Map (List ℕ) (List RouteRuleConfig)

module _ (t : AddressText) where
  -- `it != rule_sets_.end() && it->second->match(dst)`.
  abbrev pub match_found : Option (List RouteRuleConfig) → Destination → Result Bool
  match_found none dst = ok false
  match_found (some rules) dst = match_rule_list t rules dst

  unfoldable pub match_rule_set : Router → List ℕ → Destination → Result Bool
  match_rule_set router tag dst = match_found (find tag router.rule_sets) dst

  unfoldable pub match_rule : Router → RouteRuleConfig → Destination → Result Bool
  match_rule router rule dst = match_rule_conditions t rule dst >>= λ matched.
      if matched
      then ok true
      else any_of_result (λ tag. match_rule_set router tag dst) rule.rule_set

  -- The loop over the rules.
  unfoldable pub pick_from : Router → List RouteRuleConfig → Destination → Result (List ℕ)
  pick_from router [] dst = ok (router.config.final_outbound)
  pick_from router (rule ∷ rules) dst =
      let later = pick_from router rules dst in
      match_rule router rule dst >>= λ matched. if matched then ok rule.outbound else later

  unfoldable pub pick_outbound : Router → Session → Result (List ℕ)
  pick_outbound router session = pick_from router router.config.rules session.destination
