-- ===== src/Config/Checked.antt =====
-- What the values that src/config/config.cpp loads satisfy, and the DNS servers among them.
use cppbox.Prelude.{
  ℕ, ◌<◌, arith, ◌≡◌, refl, sym, ap, ◌∙◌, subst, inl, inr, Bool, true, false, ◌||◌, ◌&&◌, not,
  Bool-cases, Option, List, [], ◌∷◌, codes, is_empty, All, text_eq→eq, starts_with, if◌then◌else◌,
  Result, Error, ok, String, >>=-eq-ok, ok_injective,
}
use cppbox.Json.{
  each, Json, int64, negative, Object, if_contains, at_key, u16_of, get_string, get_u16,
}
use cppbox.DnsServer.{
  DnsRouteRuleConfig, DnsItemConfig, DnsConfig, throw_when, type_is, is_plain, uses_tls,
}
use cppbox.Config.Routes.{
  has_tag, tags_of, load_server_name, object_item, load_path, unnamed, load_by_kind,
  load_dns_server, load_dns_servers,
}

pub throw_when-eq-ok : (test : Bool) (error : Error) → throw_when test error ≡ ok tt → test ≡ false
throw_when-eq-ok true error e = cc
throw_when-eq-ok false error e = refl

pub u16_of-lt : (j : Json) (v : ℕ) → u16_of j ≡ ok v → v < 65536
u16_of-lt (int64 n) v e = ground arith
u16_of-lt (negative n) v e = ground arith
u16_of-lt j v e = ground arith

pub get_u16-lt : (o : Object) (key : String) (v : ℕ) → get_u16 o key ≡ ok v → v < 65536
unfolding get_u16
get_u16-lt o key v e = let (j, _, e') = >>=-eq-ok (at_key o key) _ e in u16_of-lt j v e'

-- What is known of each item of a list that `each` loads.
pub each-All {ℓ} :
    {A : Type ℓ} (load : Json → Result A) (P : A → Type 0)
    → ((j : Json) (a : A) → load j ≡ ok a → P a)
    → (items : List Json) (result : List A) → each load items ≡ ok result
    → All P result
unfolding each
each-All load P h [] result e = let w : [] ≡ result = cc in rw (← w) tt
each-All load P h (j ∷ items) result e =
    let (a, ea, e1) = >>=-eq-ok (load j) _ e in
    let (later, el, e2) = >>=-eq-ok (each load items) _ e1 in
    let w : a ∷ later ≡ result = cc in rw (← w) (h j a ea, each-All load P h items later el)

-- The path of an https server starts with a slash, a udp or tcp server has no name.
abbrev pub IsChecked : DnsItemConfig → Type 0
IsChecked server =
    (server.server_port < 65536)
    × ((is_plain server || uses_tls server) ≡ true)
    × ((type_is server "https" && not (starts_with server.path (codes "/"))) ≡ false)
    × ((is_plain server && not (is_empty server.server_name)) ≡ false)

-- No tag comes twice, nor is one among the tags before.
abbrev pub AreFresh : List (List ℕ) → List DnsItemConfig → Type 0
AreFresh tags [] = Unit
AreFresh tags (server ∷ servers) =
    (has_tag server.tag tags ≡ false) × AreFresh (server.tag ∷ tags) servers

-- A rule with a condition, and with a server that is there.
abbrev pub IsSound : List (List ℕ) → DnsRouteRuleConfig → Type 0
IsSound tags rule =
    ((is_empty rule.domain
        && is_empty rule.domain_suffix
        && is_empty rule.domain_keyword
        && is_empty rule.rule_set)
      ≡ false)
    × (has_tag rule.server tags ≡ true)

abbrev pub IsLoaded : DnsConfig → Type 0
IsLoaded config =
    (is_empty config.servers ≡ false)
    × AreFresh [] config.servers
    × All IsChecked config.servers
    × All (IsSound (tags_of config.servers)) config.rules
    × (has_tag config.final (tags_of config.servers) ≡ true)

pub not-false : (b : Bool) → not b ≡ false → b ≡ true
not-false b e = ground arith

pub is_plain-uses_tls : (server : DnsItemConfig) → is_plain server ≡ true → uses_tls server ≡ false
is_plain-uses_tls server plain = elim (Bool-cases (type_is server "udp")) [
  | inl udp ↦ let w = text_eq→eq server.kind (codes "udp") udp in rw w refl
  | inr e ↦
      let tcp : type_is server "tcp" ≡ true = ground arith in
      let w = text_eq→eq server.kind (codes "tcp") tcp in rw w refl
]

pub load_path-eq-ok :
    (obj : Object) (server result : DnsItemConfig)
    → (if type_is server "https" then load_path obj server else ok server) ≡ ok result
    → (path : List ℕ) × (result ≡ record server { path = path })
      × ((type_is server "https" && not (starts_with path (codes "/"))) ≡ false)
unfolding load_path
load_path-eq-ok obj server result e = elim (Bool-cases (type_is server "https")) [
  | inl https ↦
      let (path, _, e1) = >>=-eq-ok (get_string obj "path") _ (rw https at e) in
      let (_, slash, e2) = >>=-eq-ok (throw_when (not (starts_with path (codes "/"))) _) _ e1 in
      (path, cc, rw https (throw_when-eq-ok _ _ slash))
  | inr other ↦ (server.path, (let e' = rw other at e in cc), rw other refl)
]

pub load_server_name-eq-ok :
    (server : DnsItemConfig) (j : Option Json) (name : List ℕ)
    → (if uses_tls server then load_server_name j else ok []) ≡ ok name
    → (is_plain server && not (is_empty name)) ≡ false
load_server_name-eq-ok server j name e = elim (Bool-cases (is_plain server)) [
  | inl plain ↦
      let e' = rw (is_plain-uses_tls server plain) at e in
      let w : [] ≡ name = cc in rw (plain, ← w) refl
  | inr other ↦ rw other refl
]

-- The checks that come after the tag and the port.
abbrev pub HasForm : DnsItemConfig → Type 0
HasForm server =
    ((is_plain server || uses_tls server) ≡ true)
    × ((type_is server "https" && not (starts_with server.path (codes "/"))) ≡ false)
    × ((is_plain server && not (is_empty server.server_name)) ≡ false)

pub load_by_kind-HasForm :
    (obj : Object) (first server : DnsItemConfig)
    → load_by_kind obj first ≡ ok server
    → (server.tag ≡ first.tag) × (server.server_port ≡ first.server_port) × HasForm server
unfolding load_by_kind
load_by_kind-HasForm obj first server e =
    let (_, known, e1) = >>=-eq-ok (throw_when (not (is_plain first || uses_tls first)) _) _ e in
    let (second, m, e2) =
      >>=-eq-ok (if type_is first "https" then load_path obj first else ok first) _ e1 in
    let (name, n, e3) =
      >>=-eq-ok
        (if uses_tls second then load_server_name (if_contains obj "server_name") else ok []) _
        e2 in
    let (path, w, slash) = load_path-eq-ok obj first second m in
    named second name path w slash (throw_when-eq-ok _ _ known)
      (load_server_name-eq-ok second _ name n) (ok_injective e3)
  where
    named :
        (second : DnsItemConfig) (name path : List ℕ)
        → second ≡ record first { path = path }
        → (type_is first "https" && not (starts_with path (codes "/"))) ≡ false
        → not (is_plain first || uses_tls first) ≡ false
        → (is_plain second && not (is_empty name)) ≡ false
        → record second { server_name = name } ≡ server
        → (server.tag ≡ first.tag) × (server.server_port ≡ first.server_port) × HasForm server
    named second name path w slash known plain w' =
        let v : record first { path = path; server_name = name } ≡ server =
          sym (ap {A = DnsItemConfig} (λ s. record s { server_name = name }) w) ∙ w' in
        subst (λ s. (s.tag ≡ first.tag) × (s.server_port ≡ first.server_port) × HasForm s) v
          (refl, refl, (not-false _ known, slash, rw w at plain))

pub load_dns_server-IsChecked :
    (tags : List (List ℕ)) (j : Json) (server : DnsItemConfig)
    → load_dns_server tags j ≡ ok server
    → (has_tag server.tag tags ≡ false) × IsChecked server
unfolding load_dns_server
load_dns_server-IsChecked tags j server e =
    let (obj, _, e1) = >>=-eq-ok (object_item _ j) _ e in
    let (tag, _, e2) = >>=-eq-ok (get_string obj "tag") _ e1 in
    let (kind, _, e3) = >>=-eq-ok (get_string obj "type") _ e2 in
    let (address, _, e4) = >>=-eq-ok (get_string obj "server") _ e3 in
    let (port, p, e5) = >>=-eq-ok (get_u16 obj "server_port") _ e4 in
    let (_, fresh, e6) = >>=-eq-ok (throw_when (has_tag tag tags) _) _ e5 in
    let (same_tag, same_port, form) =
      load_by_kind-HasForm obj (unnamed tag kind address port) server e6 in
    (
      rw same_tag (throw_when-eq-ok _ _ fresh),
      (rw same_port (get_u16-lt obj "server_port" port p), form.0, form.1, form.2),
    )

pub load_dns_servers-AreFresh :
    (tags : List (List ℕ)) (items : List Json) (servers : List DnsItemConfig)
    → load_dns_servers tags items ≡ ok servers
    → AreFresh tags servers × All IsChecked servers × (is_empty servers ≡ is_empty items)
unfolding load_dns_servers
load_dns_servers-AreFresh tags [] servers e = let w : [] ≡ servers = cc in rw (← w) (tt, tt, refl)
load_dns_servers-AreFresh tags (j ∷ items) servers e =
    let (server, s, e1) = >>=-eq-ok (load_dns_server tags j) _ e in
    let (later, l, e2) = >>=-eq-ok (load_dns_servers (server.tag ∷ tags) items) _ e1 in
    let (fresh, checked) = load_dns_server-IsChecked tags j server s in
    let (fresh', checked', _) = load_dns_servers-AreFresh (server.tag ∷ tags) items later l in
    let w : server ∷ later ≡ servers = cc in rw (← w) ((fresh, fresh'), (checked, checked'), refl)
