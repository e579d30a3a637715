-- ===== src/DnsServer/Servers.antt =====
-- The servers that the constructor of src/dns/dns.cpp accepts are those that a query is sent to.
use cppbox.Prelude.{
  ℕ, ◌≡◌, refl, sym, ap, subst, ◌∙◌, ◌⊎◌, inl, inr, Bool, true, false, ◌&&◌, some, List, [], ◌∷◌,
  map, arith, ◌==◌, is_empty, All, if◌then◌else◌, Bool-cases, Option-cases, ok, ◌>>=◌, >>=-eq-ok,
}
use cppbox.Prelude.Map.{Map, find, insert, contains, find-insert, text_key}
use cppbox.Utils.{tolower}
use cppbox.Address.{AddressText}
use cppbox.Router.{Router}
use cppbox.DnsServer.{
  DnsRouteRuleConfig, DnsItemConfig, DnsConfig, DnsServer, throw_when, check_server, add_servers,
  find_nameserver, check_rules, make_dns_server, match_rule, pick_from, pick_nameserver,
  is_null_rule, strip_dots, normalize_domain,
}

tolower_idem : (c : ℕ) → tolower (tolower c) ≡ tolower c
tolower_idem c = ground arith

tolower-dot : (c : ℕ) → (tolower c == b'.') ≡ (c == b'.')
tolower-dot c = ground arith

-- The last step of `strip_dots`.
abbrev step_dots : ℕ → List ℕ → List ℕ
step_dots c rest = if is_empty rest && (c == b'.') then [] else c ∷ rest

map-step_dots :
    (c : ℕ) (rest : List ℕ)
    → map tolower (step_dots c rest) ≡ step_dots (tolower c) (map tolower rest)
map-step_dots c [] = elim (Bool-cases (c == b'.')) [
  | inl e ↦ rw (tolower-dot c, e) refl
  | inr e ↦ rw (tolower-dot c, e) refl
]
map-step_dots c (x ∷ rest) = refl

map-strip_dots : (xs : List ℕ) → map tolower (strip_dots xs) ≡ strip_dots (map tolower xs)
unfolding strip_dots
map-strip_dots [] = refl
map-strip_dots (x ∷ xs) =
    map-step_dots x (strip_dots xs) ∙ ap (step_dots (tolower x)) (map-strip_dots xs)

strip_dots-step_dots :
    (c : ℕ) (rest : List ℕ)
    → strip_dots rest ≡ rest
    → strip_dots (step_dots c rest) ≡ step_dots c rest
unfolding strip_dots
strip_dots-step_dots c [] h = elim (Bool-cases (c == b'.')) [
  | inl e ↦ rw e refl
  | inr e ↦ rw (e, strip_dots, e) refl
]
strip_dots-step_dots c (x ∷ rest) h = ap (step_dots c) h

strip_dots_idem : (xs : List ℕ) → strip_dots (strip_dots xs) ≡ strip_dots xs
unfolding strip_dots
strip_dots_idem [] = refl
strip_dots_idem (x ∷ xs) = strip_dots-step_dots x (strip_dots xs) (strip_dots_idem xs)

map-tolower_idem : (xs : List ℕ) → map tolower (map tolower xs) ≡ map tolower xs
map-tolower_idem [] = refl
map-tolower_idem (x ∷ xs) = rw (tolower_idem x, map-tolower_idem xs) refl

-- Normalizing is idempotent: a domain that `normalize_domain` has put in lower case and freed of trailing
-- dots is not changed again.
normalize_domain-normalize_domain :
    (domain : List ℕ) → normalize_domain (normalize_domain domain) ≡ normalize_domain domain
unfolding normalize_domain
normalize_domain-normalize_domain domain =
    ap strip_dots (map-strip_dots (map tolower domain) ∙ ap strip_dots (map-tolower_idem domain))
    ∙ strip_dots_idem (map tolower domain)

module _ (t : AddressText) where
  -- A server that passed the tests, under its own tag.
  abbrev pub IsKnown : Map (List ℕ) DnsItemConfig → Type 0
  IsKnown known =
      (tag : List ℕ) (server : DnsItemConfig)
      → find tag known ≡ some server
      → (server.tag ≡ tag) × (check_server t server ≡ ok tt)

  add_servers-IsKnown :
      (servers : List DnsItemConfig) (known result : Map (List ℕ) DnsItemConfig)
      → IsKnown known
      → add_servers t servers known ≡ ok result
      → IsKnown result
  unfolding add_servers
  add_servers-IsKnown [] known result k e = let w : known ≡ result = cc in rw (← w) k
  add_servers-IsKnown (server ∷ servers) known result k e =
      let (_, checked, e') = >>=-eq-ok (check_server t server) _ e in
      let (_, fresh, e'') = >>=-eq-ok (throw_when (contains server.tag known) _) _ e' in
      add_servers-IsKnown servers (insert server.tag server known) result
        (λ tag found h.
          grows tag found (Bool-cases (text_key.same server.tag tag)) checked
            (sym (find-insert server.tag tag server known) ∙ h))
        e''
    where
      grows :
          (tag : List ℕ) (found : DnsItemConfig)
          → (text_key.same server.tag tag ≡ true) ⊎ (text_key.same server.tag tag ≡ false)
          → check_server t server ≡ ok tt
          → (if text_key.same server.tag tag then some server else find tag known) ≡ some found
          → (found.tag ≡ tag) × (check_server t found ≡ ok tt)
      grows tag found (inl same) checked h =
          let w : server ≡ found = cc in
          rw (← w) ((text_key.same_iff server.tag tag).0 same, checked)
      grows tag found (inr other) checked h = k tag found (rw other at h)

  -- A tag that leads to a server that passed the tests.
  abbrev HasServer : Map (List ℕ) DnsItemConfig → List ℕ → Type 0
  HasServer known tag =
      (server : DnsItemConfig) × (find_nameserver known tag ≡ ok server)
      × (check_server t server ≡ ok tt)

  find_nameserver-HasServer :
      (known : Map (List ℕ) DnsItemConfig) (tag : List ℕ) (server : DnsItemConfig)
      → IsKnown known
      → find_nameserver known tag ≡ ok server
      → HasServer known tag
  unfolding find_nameserver
  find_nameserver-HasServer known tag server k e = elim (Option-cases (find tag known)) [
    | inl missing ↦ ground arith
    | inr (found, there) ↦ (found, rw (there, find_nameserver) refl, (k tag found there).1)
  ]

  check_rules-HasServer :
      (known : Map (List ℕ) DnsItemConfig) (rules : List DnsRouteRuleConfig)
      → IsKnown known
      → check_rules known rules ≡ ok tt
      → All (λ rule. HasServer known rule.server) rules
  unfolding check_rules
  check_rules-HasServer known [] k e = tt
  check_rules-HasServer known (rule ∷ rules) k e =
      let (_, _, e') = >>=-eq-ok (throw_when (is_null_rule rule) _) _ e in
      let (server, f, e'') = >>=-eq-ok (find_nameserver known rule.server) _ e' in
      (
        find_nameserver-HasServer known rule.server server k f,
        check_rules-HasServer known rules k e'',
      )

  -- The rule's tests throw nothing on the domain.
  abbrev pub Answers : DnsServer → List ℕ → DnsRouteRuleConfig → Type 0
  Answers s domain rule = (b : Bool) × (match_rule t s rule domain ≡ ok b)

  pick_from-total :
      (s : DnsServer) (rules : List DnsRouteRuleConfig) (domain : List ℕ)
      → HasServer s.nameservers s.config.final
      → All (λ rule. HasServer s.nameservers rule.server) rules
      → All (Answers s domain) rules
      → (server : DnsItemConfig) × (pick_from t s rules domain ≡ ok server)
        × (check_server t server ≡ ok tt)
  unfolding pick_from
  pick_from-total s [] domain final a b = final
  pick_from-total s (rule ∷ rules) domain final a ((true, e), b) =
      (a.0.0, rw (e, ◌>>=◌) a.0.1, a.0.2)
  pick_from-total s (rule ∷ rules) domain final a ((false, e), b) =
      let (server, f, c) = pick_from-total s rules domain final a.1 b in
      (server, rw (e, ◌>>=◌) f, c)

  empty-IsKnown : IsKnown []
  unfolding find
  empty-IsKnown tag server h = cc

  -- A server that the constructor accepts picks a nameserver for every domain on which the tests of
  -- its rules throw nothing, and that nameserver has passed the tests of the constructor: a query is
  -- never sent to an unknown tag or to a server of the wrong form.
  pub pick_nameserver-total :
      (config : DnsConfig) (router : Router) (s : DnsServer) (domain : List ℕ)
      → make_dns_server t config router ≡ ok s
      → All (Answers s (normalize_domain domain)) config.rules
      → (server : DnsItemConfig) × (pick_nameserver t s domain ≡ ok server)
        × (check_server t server ≡ ok tt)
  unfolding make_dns_server pick_nameserver
  pick_nameserver-total config router s domain e answers =
      let (_, _, e1) = >>=-eq-ok (throw_when (is_empty config.servers) _) _ e in
      let (known, added, e2) = >>=-eq-ok (add_servers t config.servers []) _ e1 in
      let (final, found, e3) = >>=-eq-ok (find_nameserver known config.final) _ e2 in
      let (_, checked, e4) = >>=-eq-ok (check_rules known config.rules) _ e3 in
      let k : IsKnown known = add_servers-IsKnown config.servers [] known empty-IsKnown added in
      let w : record { config = config; nameservers = known; router = router } ≡ s = cc in
      go known w (find_nameserver-HasServer known config.final final k found)
        (check_rules-HasServer known config.rules k checked)
    where
      go :
          (known : Map (List ℕ) DnsItemConfig)
          → record { config = config; nameservers = known; router = router } ≡ s
          → HasServer known config.final
          → All (λ rule. HasServer known rule.server) config.rules
          → (server : DnsItemConfig) × (pick_nameserver t s domain ≡ ok server)
            × (check_server t server ≡ ok tt)
      go known w final rules =
          subst
            (λ s.
              All (Answers s (normalize_domain domain)) config.rules
              → (server : DnsItemConfig) × (pick_nameserver t s domain ≡ ok server)
                × (check_server t server ≡ ok tt))
            w (pick_from-total _ config.rules (normalize_domain domain) final rules) answers
