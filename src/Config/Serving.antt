-- ===== src/Config/Serving.antt =====
-- A loaded configuration makes a DNS server: `load_config` of src/config/config.cpp in front of the
-- constructor of src/dns/dns.cpp.
use cppbox.Prelude.{
  ℕ, ◌==◌, ◌≡◌, refl, ◌∙◌, inl, inr, Bool, true, false, ◌||◌, ◌&&◌, not, Bool-cases, Option-cases,
  Option, List, [], ◌∷◌, arith, codes, is_empty, All, text_eq, text_eq→eq, starts_with, Result, ok,
  ◌>>=◌,
}
use cppbox.Prelude.Map.{Map, find, insert, contains, contains-insert, text_key, text_eq_iff}
use cppbox.Json.{Json}
use cppbox.Address.{AddressText, is_ip_literal}
use cppbox.Router.{Router}
use cppbox.DnsServer.{
  DnsRouteRuleConfig, DnsItemConfig, DnsConfig, DnsServer, type_is, uses_tls, check_server,
  add_servers, find_nameserver, is_null_rule, check_rules, make_dns_server,
}
use cppbox.Config.Sections.{Unset}
use cppbox.Config.Routes.{has_tag, tags_of}
use cppbox.Config.Load.{AppConfig, load_config}
use cppbox.Config.Safe.{load_config-IsSafe}
use cppbox.Config.Checked.{IsChecked, AreFresh, IsSound, IsLoaded}

-- What the constructor asks of a server and `load_config` has not checked.
abbrev pub Serves : AddressText → DnsItemConfig → Type 0
Serves t server =
    (is_empty server.tag ≡ false)
    × (is_ip_literal t server.server ≡ true)
    × ((server.server_port == 0) ≡ false)
    × ((uses_tls server && is_empty server.server_name) ≡ false)

https-slash :
    (server : DnsItemConfig)
    → (type_is server "https" && not (starts_with server.path (codes "/"))) ≡ false
    → (type_is server "https"
        && (is_empty server.path || not (starts_with server.path (codes "/"))))
      ≡ false
https-slash server slash = ground arith

check_server-IsChecked :
    (t : AddressText) (server : DnsItemConfig)
    → IsChecked server
    → Serves t server
    → check_server t server ≡ ok tt
unfolding check_server
check_server-IsChecked t server (_, known, slash, plain) (tag, ip, port, name) =
    rw (tag, ip, port, known, plain, name, https-slash server slash) refl

or_false : (a : Bool) → a ≡ (a || false)
or_false a = ground arith

or_assoc : (a b c : Bool) → ((a || b) || c) ≡ (b || (a || c))
or_assoc a b c = ground arith

text_eq_comm : (a b : List ℕ) → text_eq a b ≡ text_eq b a
text_eq_comm a b = elim (Bool-cases (text_eq a b)) [
  | inl same ↦ rw (text_eq→eq a b same) refl
  | inr other ↦ ground (arith, text_eq_iff a b, text_eq_iff b a)
]

-- The tags of the map are those before and those of the servers.
abbrev HasTags : Map (List ℕ) DnsItemConfig → List (List ℕ) → Type 0
HasTags known tags = (tag : List ℕ) → contains tag known ≡ has_tag tag tags

insert-HasTags :
    (server : DnsItemConfig) (known : Map (List ℕ) DnsItemConfig) (tags : List (List ℕ))
    → HasTags known tags
    → HasTags (insert server.tag server known) (server.tag ∷ tags)
insert-HasTags server known tags h tag = elim (Bool-cases (text_eq server.tag tag)) [
  | inl same ↦
      rw (contains-insert server.tag tag server known, text_eq_comm tag server.tag, same) refl
  | inr other ↦
      rw (contains-insert server.tag tag server known, text_eq_comm tag server.tag, other) (h tag)
]

module _ (t : AddressText) where
  add_servers-total :
      (servers : List DnsItemConfig) (known : Map (List ℕ) DnsItemConfig) (tags : List (List ℕ))
      → HasTags known tags
      → AreFresh tags servers
      → All IsChecked servers
      → All (Serves t) servers
      → (result : Map (List ℕ) DnsItemConfig) × (add_servers t servers known ≡ ok result)
        × ((tag : List ℕ)
            → contains tag result ≡ (has_tag tag tags || has_tag tag (tags_of servers)))
  unfolding add_servers tags_of
  add_servers-total [] known tags h fresh checked serve =
      (known, refl, λ tag. h tag ∙ or_false (has_tag tag tags))
  add_servers-total (server ∷ servers) known tags h fresh checked serve =
      let (result, e, has) =
        add_servers-total servers (insert server.tag server known) (server.tag ∷ tags)
          (insert-HasTags server known tags h) fresh.1 checked.1 serve.1 in
      (
        result,
        rw (check_server-IsChecked t server checked.0 serve.0, ◌>>=◌, h server.tag, fresh.0) e,
        λ tag.
            has tag
            ∙ or_assoc (text_eq tag server.tag) (has_tag tag tags) (has_tag tag (tags_of servers)),
      )

  find_nameserver-total :
      (known : Map (List ℕ) DnsItemConfig) (tag : List ℕ)
      → contains tag known ≡ true
      → (server : DnsItemConfig) × (find_nameserver known tag ≡ ok server)
  unfolding find_nameserver
  find_nameserver-total known tag h = elim (Option-cases (find tag known)) [
    | inl missing ↦ let w = rw (contains, missing) at h in cc
    | inr (server, there) ↦ (server, rw (find_nameserver, there) refl)
  ]

  check_rules-total :
      (known : Map (List ℕ) DnsItemConfig) (tags : List (List ℕ)) (rules : List DnsRouteRuleConfig)
      → HasTags known tags
      → All (IsSound tags) rules
      → All (λ rule. is_null_rule rule ≡ false) rules
      → check_rules known rules ≡ ok tt
  unfolding check_rules
  check_rules-total known tags [] h sound full = refl
  check_rules-total known tags (rule ∷ rules) h sound full =
      let (server, found) =
        find_nameserver-total known rule.server (rw (h rule.server) sound.0.1) in
      rw (full.0, ◌>>=◌, found, ◌>>=◌) (check_rules-total known tags rules h sound.1 full.1)

  IsLoaded-make_dns_server :
      (config : DnsConfig) (router : Router)
      → IsLoaded config
      → All (Serves t) config.servers
      → All (λ rule. is_null_rule rule ≡ false) config.rules
      → (s : DnsServer) × (make_dns_server t config router ≡ ok s)
  unfolding make_dns_server find
  IsLoaded-make_dns_server config router (full, fresh, checked, sound, final) serve rules =
      let (known, added, has) =
        add_servers-total config.servers [] [] (λ tag. refl) fresh checked serve in
      let (server, found) = find_nameserver-total known config.final (has config.final ∙ final) in
      let passed = check_rules-total known (tags_of config.servers) config.rules has sound rules in
      (
        record { config = config; nameservers = known; router = router },
        rw (full, ◌>>=◌, added, ◌>>=◌, found, ◌>>=◌, passed) refl,
      )

  module _ (read_file : List ℕ → Option (List ℕ)) (parse : List ℕ → Result Json) where
    -- The DNS section that `load_config` returns is accepted by the constructor of the DNS server, for any
    -- router, when each of its servers has a tag, an address literal, a port other than 0 and, for tls
    -- and https, a server name, and when no DNS rule has all four kinds of conditions. The rest of what
    -- the constructor checks, `load_config` has checked: that there is a server, that the tags differ,
    -- the types, the paths of https servers, and that `final` and the rules name a server.
    pub load_config-make_dns_server :
        (unset : Unset) (path : List ℕ) (config : AppConfig) (router : Router)
        → load_config read_file parse unset path ≡ ok config
        → All (Serves t) config.dns.servers
        → All (λ rule. is_null_rule rule ≡ false) config.dns.rules
        → (s : DnsServer) × (make_dns_server t config.dns router ≡ ok s)
    load_config-make_dns_server unset path config router e serve rules =
        IsLoaded-make_dns_server config.dns router
          (load_config-IsSafe read_file parse unset path config e).2 serve rules
