-- ===== src/Config/Safe.antt =====
-- What `load_config` of src/config/config.cpp has checked of the configuration it returns.
use cppbox.Prelude.{
  ℕ, ◌<◌, ◌≡◌, subst, inl, inr, false, ◌&&◌, Option, Option-cases, none, some, List, [], is_empty,
  All, Result, ok, ◌>>=◌, >>=-eq-ok, ok_injective,
}
use cppbox.Json.{
  or_null, each_in, Json, object_in, array, items_of, Object, as_object, if_contains, get_string,
  get_u16, get_string_array,
}
use cppbox.Router.{RouteRuleConfig, RouteConfig}
use cppbox.RuleSet.{is_null_rule}
use cppbox.DnsServer.{throw_when}
use cppbox.Config.Sections.{
  InboundConfig, load_inbound, load_inbounds, load_outbounds, Unset, load_windows_proxy, load_tun,
}
use cppbox.Config.Routes.{load_rule_set_config, load_rule, load_route, load_dns}
use cppbox.Config.Load.{AppConfig, load_root, load_config}
use cppbox.Config.Checked.{throw_when-eq-ok, get_u16-lt, each-All, IsLoaded}
use cppbox.Config.Sound.{load_dns-IsLoaded}

each_in-All {ℓ} :
    {A : Type ℓ} (load : Json → Result A) (P : A → Type 0)
    → ((j : Json) (a : A) → load j ≡ ok a → P a)
    → (j : Option Json) (result : List A) → each_in load j ≡ ok result
    → All P result
each_in-All load P h (some (array items)) result e = each-All load P h (items_of items) result e
each_in-All load P h none result e = let w : [] ≡ result = ok_injective e in rw (← w) tt
each_in-All load P h (some j) result e = let w : [] ≡ result = ok_injective e in rw (← w) tt

-- A port of 16 bits.
abbrev pub HasPort : InboundConfig → Type 0
HasPort inbound = inbound.listen_port < 65536

load_inbound-HasPort :
    (j : Json) (inbound : InboundConfig) → load_inbound j ≡ ok inbound → HasPort inbound
unfolding load_inbound
load_inbound-HasPort j inbound e =
    let (obj, _, e1) = >>=-eq-ok (as_object j) _ e in
    let (kind, _, e2) = >>=-eq-ok (get_string obj "type") _ e1 in
    let (tag, _, e3) = >>=-eq-ok (get_string obj "tag") _ e2 in
    let (listen, _, e4) = >>=-eq-ok (get_string obj "listen") _ e3 in
    let (port, p, e5) = >>=-eq-ok (get_u16 obj "listen_port") _ e4 in
    subst HasPort (ok_injective e5) (get_u16-lt obj "listen_port" port p)

load_inbounds-HasPort :
    (root : Object) (inbounds : List InboundConfig)
    → load_inbounds root ≡ ok inbounds
    → All HasPort inbounds
unfolding load_inbounds
load_inbounds-HasPort root inbounds e =
    each_in-All load_inbound HasPort load_inbound-HasPort (if_contains root "inbounds") inbounds e

load_rule-is_null_rule :
    (j : Json) (rule : RouteRuleConfig) → load_rule j ≡ ok rule → is_null_rule rule ≡ false
unfolding load_rule
load_rule-is_null_rule j rule e =
    let (obj, _, e1) = >>=-eq-ok (as_object j) _ e in
    let (domain, _, e2) = >>=-eq-ok (get_string_array obj "domain") _ e1 in
    let (suffix, _, e3) = >>=-eq-ok (get_string_array obj "domain_suffix") _ e2 in
    let (keyword, _, e4) = >>=-eq-ok (get_string_array obj "domain_keyword") _ e3 in
    let (cidr, _, e5) = >>=-eq-ok (get_string_array obj "ip_cidr") _ e4 in
    let (rule_set, _, e6) = >>=-eq-ok (get_string_array obj "rule_set") _ e5 in
    let (_, some_list, e7) =
      >>=-eq-ok
        (throw_when
          (is_empty domain
            && is_empty keyword
            && is_empty suffix
            && is_empty cidr
            && is_empty rule_set)
          _)
        _ e6 in
    let (outbound, _, e8) = >>=-eq-ok (get_string obj "outbound") _ e7 in
    subst (λ rule. is_null_rule rule ≡ false) (ok_injective e8) (throw_when-eq-ok _ _ some_list)

load_route-is_null_rule :
    (root : Object) (route : RouteConfig)
    → load_route root ≡ ok route
    → All (λ rule. is_null_rule rule ≡ false) route.rules
unfolding load_route
load_route-is_null_rule root route e =
    let (obj, _, e1) = >>=-eq-ok (as_object (or_null (if_contains root "route"))) _ e in
    let (final, _, e2) = >>=-eq-ok (get_string obj "final") _ e1 in
    let (sets, _, e3) =
      >>=-eq-ok (each_in load_rule_set_config (if_contains obj "rule_set")) _ e2 in
    let (rules, r, e4) = >>=-eq-ok (each_in load_rule (if_contains obj "rules")) _ e3 in
    subst (λ route. All (λ rule. is_null_rule rule ≡ false) route.rules) (ok_injective e4)
      (each_in-All load_rule _ load_rule-is_null_rule (if_contains obj "rules") rules r)

-- What a configuration that was loaded satisfies.
abbrev pub IsSafe : AppConfig → Type 0
IsSafe config =
    All HasPort config.inbounds
    × All (λ rule. is_null_rule rule ≡ false) config.route.rules
    × IsLoaded config.dns

load_root-IsSafe :
    (unset : Unset) (root : Object) (config : AppConfig)
    → load_root unset root ≡ ok config
    → IsSafe config
unfolding load_root
load_root-IsSafe unset root config e =
    let (inbounds, i, e1) = >>=-eq-ok (load_inbounds root) _ e in
    let (outbounds, _, e2) = >>=-eq-ok (load_outbounds unset root) _ e1 in
    let (route, r, e3) = >>=-eq-ok (load_route root) _ e2 in
    let (proxy, _, e4) =
      >>=-eq-ok (load_windows_proxy unset (object_in (if_contains root "windows_proxy"))) _ e3 in
    let (dns, d, e5) = >>=-eq-ok (load_dns root) _ e4 in
    let (tun, _, e6) = >>=-eq-ok (load_tun (object_in (if_contains root "tun"))) _ e5 in
    subst IsSafe (ok_injective e6) (
      load_inbounds-HasPort root inbounds i,
      load_route-is_null_rule root route r,
      load_dns-IsLoaded root dns d,
    )

module _ (read_file : List ℕ → Option (List ℕ)) (parse : List ℕ → Result Json) where
  -- In every configuration that `load_config` returns the listening ports fit 16 bits, each route rule has
  -- a condition, and the DNS section is sound: there is a DNS server, no two have one tag, each has
  -- one of the four types and a port of 16 bits, an https server has a path that starts with a slash, a
  -- udp or tcp server has no server name, each DNS rule has a condition and names a DNS server, and so
  -- does `final`.
  pub load_config-IsSafe :
      (unset : Unset) (path : List ℕ) (config : AppConfig)
      → load_config read_file parse unset path ≡ ok config
      → IsSafe config
  unfolding load_config
  load_config-IsSafe unset path config e = elim (Option-cases (read_file path)) [
    | inl missing ↦ let w = rw (load_config, missing) at e in cc
    | inr (text, there) ↦
        let (root, _, loaded) =
          >>=-eq-ok (parse text >>= as_object) _ (rw (load_config, there) at e) in
        load_root-IsSafe unset root config loaded
  ]
