-- ===== src/Connector.antt =====
-- Connecting to a destination: src/transport/connector.cpp, as it is built for Windows. A socket belongs
-- to Boost.Asio: what its calls return is the parameter `SocketCalls`.
pub mod Attempts
mod Tests
use cppbox.Prelude.{
  ℕ, ◌+◌, ◌*◌, ◌/◌, ◌%◌, Bool, true, false, ◌||◌, Option, none, some, List, [], ◌∷◌, ◌++◌, is_empty,
  ◌==◌, if◌then◌else◌, Result, ok, err, runtime_error, runtime_error_about, ◌>>=◌, ◌>>◌,
}
use cppbox.Address.{
  AddressText, Host, ipv4_address, ipv6_address, domain_name, Destination, is_ip, asio_address,
  domain_value, destination_text,
}
use cppbox.DnsServer.{DnsItemConfig, DnsServer, throw_when, resolve}

-- What the calls return in the attempt of that number, to that address: the message of the error of
-- `open`, whether `setsockopt` succeeds with that value, the message of the error of `async_connect`.
pub record SocketCalls : Type 0 where
  pub open_error : ℕ → Host → Option (List ℕ)
  pub unicast_if : ℕ → Host → ℕ → Bool
  pub connect_error : ℕ → Host → ℕ → Option (List ℕ)

-- The bytes of a 32-bit number in the other order.
unfoldable pub htonl : ℕ → ℕ
htonl n = n % 256 * 16777216 + n / 256 % 256 * 65536 + n / 65536 % 256 * 256 + n / 16777216 % 256

-- The value that the option takes: in network order for IPv4 only.
unfoldable pub interface_value : Host → ℕ → ℕ
interface_value (ipv4_address a) index = htonl index
interface_value h index = index

module _ (calls : SocketCalls) where
  -- `n` is the number of the attempt.
  unfoldable pub bind_socket_to_interface : ℕ → Host → ℕ → Bool
  bind_socket_to_interface n address index =
      index == 0 || calls.unicast_if n address (interface_value address index)

  module _ (index : ℕ) (port : ℕ) where
    -- The loop over the addresses: the address that the socket ends up connected to.
    unfoldable pub try_addresses : ℕ → List ℕ → List Host → Result Host
    try_addresses n last_ec [] = err (runtime_error_about "connect failed: " last_ec)
    try_addresses n last_ec (address ∷ rest) = elim (calls.open_error n address) [
      | some ec ↦ try_addresses (n + 1) ec rest
      | none ↦ elim (bind_socket_to_interface n address index) [
        | false ↦ err (runtime_error "failed to bind outbound socket to interface")
        | true ↦ elim (calls.connect_error n address port) [
          | some ec ↦ try_addresses (n + 1) ec rest
          | none ↦ ok address
        ]
      ]
    ]

    -- The calls of the UDP overload, for the first address.
    unfoldable pub try_first : Host → Result Host
    try_first address = elim (calls.open_error 0 address) [
      | some ec ↦ err (runtime_error_about "udp open failed: " ec)
      | none ↦ elim (bind_socket_to_interface 0 address index) [
        | false ↦ err (runtime_error "failed to bind outbound UDP socket to interface")
        | true ↦ elim (calls.connect_error 0 address port) [
          | some ec ↦ err (runtime_error_about "udp connect failed: " ec)
          | none ↦ ok address
        ]
      ]
    ]

-- `dns_server_.resolve` for a name; an address stands for itself.
module _ (t : AddressText) (exchange : DnsItemConfig → List ℕ → Result (List ℕ))
    (s : DnsServer) where
  unfoldable pub resolve_destination : Destination → Result (List Host)
  resolve_destination destination =
      if is_ip destination.host
      then (asio_address destination.host >>= λ address. ok (address ∷ []))
      else (domain_value destination.host >>= resolve t exchange s)

  module _ (calls : SocketCalls) (index : ℕ) where
    abbrev pub no_endpoint : Destination → Result Host
    no_endpoint destination =
        err (runtime_error_about "no endpoint resolved for: " (destination_text t destination))

    unfoldable pub connect_tcp : Destination → Result Host
    connect_tcp destination = do
      addresses ← resolve_destination destination
      if is_empty addresses
          then no_endpoint destination
          else try_addresses calls index destination.port 0 [] addresses

    unfoldable pub connect_udp : Destination → Result Host
    connect_udp destination = resolve_destination destination >>= λ addresses. elim addresses [
      | [] ↦ no_endpoint destination
      | address ∷ rest ↦ try_first calls index destination.port address
    ]
