-- ===== src/Address/Laws.antt =====
-- `Host::parse` of src/core/address.cpp reads back what `Host::to_string` printed.
use cppbox.Prelude.{◌<◌, ◌≤◌, ◌≡◌, none, [], ◌∷◌, length, arith, ok}
use cppbox.Address.{
  AddressText, IsFaithful, Host, ipv4_address, ipv6_address, domain_name, make_domain, parse_v4,
  parse_v6, parse_host, host_text,
}

module _ (t : AddressText) where
  -- Addresses of the right size, and domains that are no address and that DomainName accepts.
  abbrev pub IsHost : Host → Type 0
  IsHost (ipv4_address a) = length a ≡ 4
  IsHost (ipv6_address a) = length a ≡ 16
  IsHost (domain_name d) =
      (0 < length d)
      × (length d ≤ 255)
      × (t.make_address_v4 d ≡ none)
      × (t.make_address_v6 d ≡ none)

  -- `Host::parse` reads back what `Host::to_string` printed, for addresses and for domains of 1 to
  -- 255 bytes that are no address.
  pub parse_host-host_text :
      (h : Host) → IsFaithful t → IsHost h → parse_host t (host_text t h) ≡ ok h
  unfolding parse_host parse_v4 parse_v6 make_domain host_text
  parse_host-host_text (ipv4_address a) f n = ground (arith, f.v4_print a)
  parse_host-host_text (ipv6_address a) f n = ground (arith, f.v6_print a, f.v6_only a)
  parse_host-host_text (domain_name []) f n = absurd (omega arith)
  parse_host-host_text (domain_name (c ∷ d)) f n = ground arith
