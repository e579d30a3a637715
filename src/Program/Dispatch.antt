-- ===== src/Program/Dispatch.antt =====
-- Where a session goes: the rules, the tags and the outbounds that src/main.cpp puts together.
use cppbox.Prelude.{
  ℕ, ◌≡◌, refl, sym, ap, ◌∙◌, subst, inl, inr, Bool, true, Bool-cases, Option, none, some, List, [],
  ◌∷◌, ◌++◌, All, text_eq, text_eq→eq, text_eq_self, Result, ok, ok_injective, ◌>>=◌, >>=-eq-ok,
}
use cppbox.Prelude.Map.{Map, find, insert, find-insert, text_key}
use cppbox.Address.{AddressText, Session}
use cppbox.Router.{RouteRuleConfig, RouteConfig, Router, match_rule}
use cppbox.RuleSet.{load_rule_sets, make_router}
use cppbox.Json.{Json}
use cppbox.Router.Picks.{Passes, pick_outbound-first}
use cppbox.DnsServer.{make_dns_server}
use cppbox.TunRoute.{RouteCalls}
use cppbox.Config.{OutboundConfig, AppConfig}
use cppbox.Program.{
  Outbound, Running, make_outbound, keep, make_outbounds, find_outbound, dispatch, outbound_index,
  first_inbounds, make_inbounds, add_dns_inbound, set_up,
}

module _ (t : AddressText) (override : Bool) where
  -- An item that has another tag, or makes nothing.
  abbrev pub Leaves : List ℕ → OutboundConfig → Type 0
  Leaves tag item = (item.tag ≡ tag) → make_outbound t override item ≡ ok none

  keep-find :
      (tag : List ℕ) (item : OutboundConfig) (made : Option Outbound)
      (outbounds : Map (List ℕ) Outbound) (o : Outbound)
      → make_outbound t override item ≡ ok made
      → Leaves tag item
      → find tag outbounds ≡ some o
      → find tag (keep t item.tag made outbounds) ≡ some o
  keep-find tag item none outbounds o e leaves there = there
  keep-find tag item (some new) outbounds o e leaves there =
      elim (Bool-cases (text_eq item.tag tag)) [
        | inl same ↦ let w = ok_injective (sym e ∙ leaves (text_eq→eq item.tag tag same)) in cc
        | inr other ↦ rw (find-insert item.tag tag new outbounds, other) there
      ]

  make_outbounds-keeps :
      (items : List OutboundConfig) (outbounds result : Map (List ℕ) Outbound) (tag : List ℕ)
      (o : Outbound)
      → All (Leaves tag) items
      → find tag outbounds ≡ some o
      → make_outbounds t override items outbounds ≡ ok result
      → find tag result ≡ some o
  unfolding make_outbounds
  make_outbounds-keeps [] outbounds result tag o leaves there e =
      let w : outbounds ≡ result = ok_injective e in rw (← w) there
  make_outbounds-keeps (item ∷ items) outbounds result tag o leaves there e =
      let (made, m, e') = >>=-eq-ok (make_outbound t override item) _ e in
      make_outbounds-keeps items (keep t item.tag made outbounds) result tag o leaves.1
        (keep-find tag item made outbounds o m leaves.0 there) e'

  -- The last item of a tag that makes an outbound is the one that is found.
  make_outbounds-last :
      (before after : List OutboundConfig) (item : OutboundConfig)
      (outbounds result : Map (List ℕ) Outbound) (o : Outbound)
      → make_outbounds t override (before ++ item ∷ after) outbounds ≡ ok result
      → make_outbound t override item ≡ ok (some o)
      → All (Leaves item.tag) after
      → find item.tag result ≡ some o
  unfolding make_outbounds
  make_outbounds-last [] after item outbounds result o e m leaves =
      let (made, m', e') = >>=-eq-ok (make_outbound t override item) _ e in
      let w : made ≡ some o = ok_injective (sym m' ∙ m) in
      make_outbounds-keeps after (insert item.tag o outbounds) result item.tag o leaves
        (rw (find-insert item.tag item.tag o outbounds, text_eq_self item.tag) refl)
        (subst
          (λ made. make_outbounds t override after (keep t item.tag made outbounds) ≡ ok result) w
          e')
  make_outbounds-last (first ∷ before) after item outbounds result o e m leaves =
      let (made, _, e') = >>=-eq-ok (make_outbound t override first) _ e in
      make_outbounds-last before after item (keep t first.tag made outbounds) result o e' m leaves

make_router-config :
    (read_file : List ℕ → Option (List ℕ)) (parse : List ℕ → Result Json) (config : RouteConfig)
    (router : Router)
    → make_router read_file parse config ≡ ok router
    → router.config ≡ config
unfolding make_router
make_router-config read_file parse config router e =
    let (sets, _, e') = >>=-eq-ok (load_rule_sets read_file parse config.rule_set_configs []) _ e in
    let w = ok_injective e' in rw (← w) refl

-- What the handler uses is what the configuration says.
abbrev IsWired : AddressText → AppConfig → Running → Type 0
IsWired t config running =
    (running.router.config ≡ config.route)
    × (make_outbounds t config.override_address config.outbounds [] ≡ ok running.outbounds)

set_up-IsWired :
    (t : AddressText) (read_file : List ℕ → Option (List ℕ)) (parse : List ℕ → Result Json)
    (calls : RouteCalls) (config : AppConfig) (running : Running)
    → set_up t read_file parse calls config ≡ ok running
    → IsWired t config running
unfolding set_up
set_up-IsWired t read_file parse calls config running e =
    let (router, r, e1) = >>=-eq-ok (make_router read_file parse config.route) _ e in
    let (dns, _, e2) = >>=-eq-ok (make_dns_server t config.dns router) _ e1 in
    let (outbounds, o, e3) =
      >>=-eq-ok (make_outbounds t config.override_address config.outbounds []) _ e2 in
    let (index, _, e4) = >>=-eq-ok (outbound_index t calls config.tun) _ e3 in
    let (inbounds, _, e5) =
      >>=-eq-ok (make_inbounds t config.inbounds (first_inbounds t config.tun)) _ e4 in
    let (all, _, e6) = >>=-eq-ok (add_dns_inbound t config.dns.listen inbounds) _ e5 in
    subst (IsWired t config) (ok_injective e6)
      (make_router-config read_file parse config.route router r, o)

module _ (t : AddressText) (read_file : List ℕ → Option (List ℕ)) (parse : List ℕ → Result Json)
    (calls : RouteCalls) where
  -- Once the program is set up, a session goes to the outbound that the configuration names: when the route
  -- rules before one pass and it matches the destination, the session is handled by what the last item
  -- of `outbounds` with the rule's tag makes, whatever outbounds of other tags there are.
  pub dispatch-set_up :
      (config : AppConfig) (running : Running) (session : Session)
      (rules_before rules_after : List RouteRuleConfig) (rule : RouteRuleConfig)
      (before after : List OutboundConfig) (item : OutboundConfig) (o : Outbound)
      → set_up t read_file parse calls config ≡ ok running
      → config.route.rules ≡ rules_before ++ rule ∷ rules_after
      → All (Passes t running.router session.destination) rules_before
      → match_rule t running.router rule session.destination ≡ ok true
      → config.outbounds ≡ before ++ item ∷ after
      → item.tag ≡ rule.outbound
      → make_outbound t config.override_address item ≡ ok (some o)
      → All (Leaves t config.override_address item.tag) after
      → dispatch t running.router running.outbounds session ≡ ok o
  unfolding dispatch find_outbound
  dispatch-set_up config running session rules_before rules_after rule before after item o e rules
        pass matched items named made leaves =
      let (wired, outbounds) = set_up-IsWired t read_file parse calls config running e in
      let found =
        make_outbounds-last t config.override_address before after item [] running.outbounds o
          (ap (λ items. make_outbounds t config.override_address items []) (sym items) ∙ outbounds)
          made leaves in
      let picked =
        pick_outbound-first t running.router rules_before rules_after rule session
          (ap (λ config. config.rules) wired ∙ rules) pass matched in
      rw (dispatch, picked, ◌>>=◌, find_outbound, ← named, found) refl
