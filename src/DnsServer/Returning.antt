-- ===== src/DnsServer/Returning.antt =====
-- The rules of src/dns/dns.cpp and of src/route/router.cpp return or throw on every domain.
use cppbox.Prelude.{
  ℕ, ◌≡◌, refl, Bool, true, false, none, some, List, [], ◌∷◌, ◌⊎◌, inl, inr, ltb, length, is_empty,
  arith, if◌then◌else◌, Result, Error, runtime_error_about, ok, err, stuck, ◌>>=◌,
}
use cppbox.Prelude.Map.{find, text_key}
use cppbox.Address.{AddressText, Host, domain_name, make_domain}
use cppbox.DnsMessage.Safety.{IsSafe}
use cppbox.Router.{
  RouteRuleConfig, Router, any_of_result, match_domain, match_cidr, match_ip_cidr,
  match_rule_conditions, match_rule_list, match_found, match_rule_set,
}
use cppbox.DnsServer.{
  DnsItemConfig, DnsRouteRuleConfig, DnsServer, match_names, match_rule, find_nameserver, pick_from,
  normalize_domain, pick_nameserver,
}

abbrev pub Returns {ℓ} : {A : Type ℓ} → Result A → Type 0
Returns (ok a) = Unit
Returns (err error) = Unit
Returns stuck = ⊥

pub IsSafe-Returns {ℓ} : {A : Type ℓ} (m : Result A) → IsSafe m → Returns m
IsSafe-Returns (ok a) h = tt
IsSafe-Returns (err error) h = tt
IsSafe-Returns stuck h = absurd h

abbrev pub Throws {ℓ} : {A : Type ℓ} → Result A → Type ℓ
Throws m = (error : Error) × (m ≡ err error)

pub Returns-cases {ℓ} : {A : Type ℓ} (m : Result A) → Returns m → ((a : A) × (m ≡ ok a)) ⊎ Throws m
Returns-cases (ok a) h = inl (a, refl)
Returns-cases (err error) h = inr (error, refl)
Returns-cases stuck h = absurd h

bind-Returns {ℓ κ} :
    {A : Type ℓ} {B : Type κ} (m : Result A) (f : A → Result B)
    → Returns m
    → ((a : A) → m ≡ ok a → Returns (f a))
    → Returns (m >>= f)
bind-Returns (ok a) f h k = k a refl
bind-Returns (err error) f h k = tt
bind-Returns stuck f h k = absurd h

if-Returns {ℓ} :
    {A : Type ℓ} (test : Bool) (x y : Result A)
    → Returns x
    → Returns y
    → Returns (if test then x else y)
if-Returns true x y h k = h
if-Returns false x y h k = k

any_of_result-Returns {ℓ} :
    {A : Type ℓ} (test : A → Result Bool) (xs : List A)
    → ((x : A) → Returns (test x))
    → Returns (any_of_result test xs)
any_of_result-Returns test [] h = tt
any_of_result-Returns test (x ∷ xs) h =
    bind-Returns (test x) (λ found. if found then ok true else any_of_result test xs) (h x)
      λ found _.
        if-Returns found (ok true) (any_of_result test xs) tt (any_of_result-Returns test xs h)

make_domain-Returns : (value : List ℕ) → Returns (make_domain value)
unfolding make_domain
make_domain-Returns value =
    if-Returns (is_empty value) _ _ tt (if-Returns (ltb 255 (length value)) _ _ tt tt)

make_domain-host :
    (value : List ℕ) (host : Host) → make_domain value ≡ ok host → host ≡ domain_name value
unfolding make_domain
make_domain-host value host e = ground arith

find_nameserver-Returns :
    (s : DnsServer) (tag : List ℕ) → Returns (find_nameserver s.nameservers tag)
unfolding find_nameserver
find_nameserver-Returns s tag =
    elim (find tag s.nameservers)
      as (λ found. Returns (elim found as (λ _. Result DnsItemConfig) [
        | none ↦ err (runtime_error_about "unknown DNS server tag: " tag)
        | some server ↦ ok server
      ])) [ none ↦ tt | some server ↦ tt ]

module _ (t : AddressText) where
  match_rule_list-Returns :
      (rules : List RouteRuleConfig) (d : List ℕ) (port : ℕ)
      → Returns (match_rule_list t rules (record { host = domain_name d; port = port }))
  unfolding match_rule_list match_rule_conditions match_ip_cidr match_cidr
  match_rule_list-Returns rules d port = any_of_result-Returns _ rules λ rule.
      if-Returns (match_domain rule (record { host = domain_name d; port = port })) (ok true) _ tt
        (any_of_result-Returns (match_cidr t (domain_name d)) rule.ip_cidr (λ cidr. tt))

  match_rule_set-Returns :
      (router : Router) (tag d : List ℕ) (port : ℕ)
      → Returns (match_rule_set t router tag (record { host = domain_name d; port = port }))
  unfolding match_rule_set
  match_rule_set-Returns router tag d port =
      elim (find tag router.rule_sets)
        as (λ found. Returns (match_found t found (record { host = domain_name d; port = port }))) [
          | none ↦ tt
          | some rules ↦ match_rule_list-Returns rules d port
        ]

  match_rule-Returns :
      (s : DnsServer) (rule : DnsRouteRuleConfig) (domain : List ℕ)
      → Returns (match_rule t s rule domain)
  unfolding match_rule
  match_rule-Returns s rule domain =
      let sets : Returns (
          any_of_result
            (λ tag. match_rule_set t s.router tag (record { host = domain_name domain; port = 0 }))
            rule.rule_set) =
        any_of_result-Returns _ rule.rule_set
          (λ tag. match_rule_set-Returns s.router tag domain 0) in
      if-Returns (match_names rule domain) (ok true) _ tt (
        bind-Returns (make_domain domain) _ (make_domain-Returns domain)
          λ host e. rw (make_domain-host domain host e) sets)

  pick_from-Returns :
      (s : DnsServer) (rules : List DnsRouteRuleConfig) (domain : List ℕ)
      → Returns (pick_from t s rules domain)
  unfolding pick_from
  pick_from-Returns s [] domain = find_nameserver-Returns s s.config.final
  pick_from-Returns s (rule ∷ rules) domain =
      bind-Returns (match_rule t s rule domain) _ (match_rule-Returns s rule domain) λ matched _.
        if-Returns matched (find_nameserver s.nameservers rule.server) (pick_from t s rules domain)
          (find_nameserver-Returns s rule.server) (pick_from-Returns s rules domain)

  pub pick_nameserver-Returns :
      (s : DnsServer) (domain : List ℕ) → Returns (pick_nameserver t s domain)
  unfolding pick_nameserver
  pick_nameserver-Returns s domain = pick_from-Returns s s.config.rules (normalize_domain domain)
