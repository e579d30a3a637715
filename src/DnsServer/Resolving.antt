-- ===== src/DnsServer/Resolving.antt =====
-- One answer is enough: `resolve` of src/dns/dns.cpp.
use cppbox.Prelude.{
  ℕ, ◌≡◌, refl, sym, ap, ◌∙◌, ◌⊎◌, inl, inr, List, [], ◌∷◌, ◌++◌, append-nil, Result, Error, ok,
  err, ◌>>=◌,
}
use cppbox.Address.{AddressText, Host}
use cppbox.DnsMessage.{type_a, type_aaaa}
use cppbox.DnsServer.{DnsItemConfig, DnsServer, lookup, resolve}

module _ (t : AddressText) (exchange : DnsItemConfig → List ℕ → Result (List ℕ)) (s : DnsServer)
    (domain : List ℕ) where
  -- What a lookup contributes: nothing where it throws.
  abbrev pub Yields : ℕ → List Host → Type 0
  Yields type found =
      (lookup t exchange s domain type ≡ ok found)
      ⊎ ((found ≡ []) × ((error : Error) × (lookup t exchange s domain type ≡ err error)))

  -- If one of the lookups, for IPv4 or for IPv6, yields an address, `resolve` returns the addresses of
  -- both, those of the first in front, also where the other lookup throws.
  pub resolve-Yields :
      (a : Host) (rest four six : List Host)
      → Yields type_a four
      → Yields type_aaaa six
      → four ++ six ≡ a ∷ rest
      → resolve t exchange s domain ≡ ok (a ∷ rest)
  unfolding resolve
  resolve-Yields a rest four six (inl e) (inl f) w = rw (e, f, ◌>>=◌, w) refl
  resolve-Yields a rest four six (inl e) (inr (n, (error, f))) w =
      rw (e, f, ◌>>=◌, sym (append-nil four) ∙ ap (◌++◌ four) (sym n) ∙ w) refl
  resolve-Yields a rest four six (inr (n, (error, e))) (inl f) w =
      rw (e, f, ◌>>=◌, ap (λ found. found ++ six) (sym n) ∙ w) refl
  resolve-Yields a rest four six (inr (n, (error, e))) (inr (m, (error', f))) w =
      let never : [] ≡ a ∷ rest = sym m ∙ ap (λ found. found ++ six) (sym n) ∙ w in cc
