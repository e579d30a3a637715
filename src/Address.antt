-- ===== src/Address.antt =====
-- Hosts and destinations: src/core/address.hpp, src/core/address.cpp and src/core/session.hpp.
-- An IPv4 address is its 4 bytes, an IPv6 address its 16 bytes. The parsers and printers of
-- Boost.Asio are the parameter `AddressText`.
pub mod Laws
pub mod Tests
use cppbox.Prelude.{
  ℕ, zero, suc, get_or, ◌+◌, ◌*◌, ◌/◌, ◌%◌, ◌<◌, ◌≡◌, Bool, true, false, ◌||◌, not, Option, none,
  some, List, [], ◌∷◌, ◌++◌, length, ltb, is_empty, if◌then◌else◌, All, Result, Error, ok, err,
  runtime_error, runtime_error_about, system_error, ◌>>=◌, ◌>>◌,
}

-- `ip::make_address_v4`, `ip::make_address_v6` and their `to_string`; a text that is no address is
-- `none`.
pub record AddressText : Type 0 where
  pub make_address_v4 : List ℕ → Option (List ℕ)
  pub make_address_v6 : List ℕ → Option (List ℕ)
  pub print_v4 : List ℕ → List ℕ
  pub print_v6 : List ℕ → List ℕ

-- The documented behaviour: printing and parsing are inverse, and no text is an address of both
-- kinds.
pub record IsFaithful (t : AddressText) : Type 0 where
  pub v4_print : (a : List ℕ) → length a ≡ 4 → t.make_address_v4 (t.print_v4 a) ≡ some a
  pub v6_print : (a : List ℕ) → length a ≡ 16 → t.make_address_v6 (t.print_v6 a) ≡ some a
  pub v6_only : (a : List ℕ) → length a ≡ 16 → t.make_address_v4 (t.print_v6 a) ≡ none

pub data HostType : Type 0 where
  ipv4_type ipv6_type domain_type : HostType

-- `Host::Value`, a variant.
pub data Host : Type 0 where
  ipv4_address : List ℕ → Host
  ipv6_address : List ℕ → Host
  domain_name : List ℕ → Host

pub record Destination : Type 0 where
  pub host : Host
  pub port : ℕ

pub record Session : Type 0 where
  pub destination : Destination
  pub initial_payload : List ℕ

-- The constructor of DomainName.
unfoldable pub make_domain : List ℕ → Result Host
make_domain value =
    if is_empty value
    then err (runtime_error "domain must not be empty")
    else if ltb 255 (length value)
    then err (runtime_error_about "domain too long: " value)
    else ok (domain_name value)

abbrev pub host_type : Host → HostType
host_type (ipv4_address a) = ipv4_type
host_type (ipv6_address a) = ipv6_type
host_type (domain_name d) = domain_type

abbrev pub is_ip : Host → Bool
is_ip (domain_name d) = false
is_ip h = true

abbrev pub is_domain : Host → Bool
is_domain (domain_name d) = true
is_domain h = false

-- The variants of `ip::address`: an address of either kind.
unfoldable pub asio_address : Host → Result Host
asio_address (ipv4_address a) = ok (ipv4_address a)
asio_address (ipv6_address a) = ok (ipv6_address a)
asio_address (domain_name d) = err (runtime_error "domain has no asio address before DNS resolve")

-- `Host::domain().value()`.
unfoldable pub domain_value : Host → Result (List ℕ)
domain_value (domain_name d) = ok d
domain_value h = err (runtime_error "host is not domain")

-- `std::to_string` of a port, with `n` digits in front of the last.
unfoldable pub port_digits : ℕ → ℕ → List ℕ
port_digits zero port = (b'0' + port % 10) ∷ []
port_digits (suc n) port =
    let front = port_digits n (port / 10) in
    if ltb port 10 then (b'0' + port) ∷ [] else front ++ ((b'0' + port % 10) ∷ [])

abbrev pub port_text : ℕ → List ℕ
port_text port = port_digits 4 port

-- `memcpy` of four bytes into a uint32_t and back: the first byte is the lowest.
unfoldable pub net_order : List ℕ → ℕ
net_order bytes =
    get_or bytes 0 0
    + get_or bytes 1 0 * 256
    + get_or bytes 2 0 * 65536
    + get_or bytes 3 0 * 16777216

unfoldable pub address_v4_from_net_order_u32 : ℕ → List ℕ
address_v4_from_net_order_u32 value =
    (value % 256) ∷ (value / 256 % 256) ∷ (value / 65536 % 256) ∷ (value / 16777216 % 256) ∷ []

module _ (t : AddressText) where
  abbrev pub is_valid_v4 : List ℕ → Bool
  is_valid_v4 text = elim (t.make_address_v4 text) [ none ↦ false | some a ↦ true ]

  abbrev pub is_valid_v6 : List ℕ → Bool
  is_valid_v6 text = elim (t.make_address_v6 text) [ none ↦ false | some a ↦ true ]

  -- `ip::make_address` takes an address of either kind.
  abbrev pub is_ip_literal : List ℕ → Bool
  is_ip_literal text = is_valid_v4 text || is_valid_v6 text

  unfoldable pub parse_v4 : List ℕ → Result Host
  parse_v4 text = elim (t.make_address_v4 text) [
    | none ↦ err (runtime_error_about "invalid IPv4 address: " text)
    | some a ↦ ok (ipv4_address a)
  ]

  unfoldable pub parse_v6 : List ℕ → Result Host
  parse_v6 text = elim (t.make_address_v6 text) [
    | none ↦ err (runtime_error_about "invalid IPv6 address: " text)
    | some a ↦ ok (ipv6_address a)
  ]

  unfoldable pub parse_host : List ℕ → Result Host
  parse_host text =
      if is_valid_v4 text
      then parse_v4 text
      else if is_valid_v6 text
      then parse_v6 text
      else make_domain text

  unfoldable pub host_text : Host → List ℕ
  host_text (ipv4_address a) = t.print_v4 a
  host_text (ipv6_address a) = t.print_v6 a
  host_text (domain_name d) = d

  -- `Destination::to_string`.
  unfoldable pub destination_text : Destination → List ℕ
  destination_text destination = host_text destination.host ++ (b':' ∷ port_text destination.port)

  -- The throwing overload of `make_address_v4`.
  unfoldable pub ipv4_to_net_order_u32 : List ℕ → Result ℕ
  ipv4_to_net_order_u32 text = elim (t.make_address_v4 text) [
    | none ↦ err system_error
    | some bytes ↦ ok (net_order bytes)
  ]
