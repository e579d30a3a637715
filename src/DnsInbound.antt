-- ===== src/DnsInbound.antt =====
-- The DNS inbound: src/dns/dns_inbound.cpp. The socket belongs to Boost.Asio: a request comes as its bytes,
-- and what is sent back is returned.
pub mod Relay
pub mod Serving
mod Tests
use cppbox.Prelude.{
  ℕ, Bool, true, false, ◌||◌, ◌&&◌, not, Option, none, some, List, [], ◌∷◌, ◌++◌, codes, drop, leb,
  is_empty, starts_with, ◌==◌, if◌then◌else◌, Result, Error, ok, err, stuck, runtime_error,
  runtime_error_about, ◌>>=◌,
}
use cppbox.Prelude.Texts.{split_at, has_char, digits_value}
use cppbox.HttpProxy.{all_digits}
use cppbox.Address.{AddressText, Host, ipv4_address, ipv6_address, Destination}
use cppbox.DnsMessage.{DnsRecord, type_a, type_aaaa, parse_response}
use cppbox.DnsServer.{DnsItemConfig, DnsServer, query}

-- `std::from_chars` must take the whole text; a value that is out of range for it is also above 65535.
unfoldable pub parse_port : List ℕ → Result ℕ
parse_port text =
    if not (is_empty text) && all_digits text && leb (digits_value text 0) 65535
    then ok (digits_value text 0)
    else err (runtime_error "invalid DNS listen port")

-- The two parts of an endpoint: `[ipv6]:port`, behind its bracket, and `ipv4:port`.
unfoldable pub split_bracketed : List ℕ → Result (List ℕ × List ℕ)
split_bracketed listen = elim (split_at b']' listen) [
  | some (host, c ∷ port) ↦
      if c == b':' then ok (host, port) else err (runtime_error "dns.listen must be [ipv6]:port")
  | none ↦ err (runtime_error "dns.listen must be [ipv6]:port")
  | some (host, []) ↦ err (runtime_error "dns.listen must be [ipv6]:port")
]

unfoldable pub split_plain : List ℕ → Result (List ℕ × List ℕ)
split_plain listen = elim (split_at b':' listen) [
  | none ↦ err (runtime_error "dns.listen must be ipv4:port or [ipv6]:port")
  | some (host, port) ↦
      if has_char b':' port
      then err (runtime_error "dns.listen must be ipv4:port or [ipv6]:port")
      else ok (host, port)
]

abbrev pub split_endpoint : List ℕ → Result (List ℕ × List ℕ)
split_endpoint listen =
    if starts_with listen (codes "[") then split_bracketed (drop 1 listen) else split_plain listen

module _ (t : AddressText) where
  -- `ip::make_address` takes an address of either kind.
  unfoldable pub listen_address : List ℕ → Result Host
  listen_address host = elim (t.make_address_v4 host) [
    | some a ↦ ok (ipv4_address a)
    | none ↦ elim (t.make_address_v6 host) [
      | some a ↦ ok (ipv6_address a)
      | none ↦ err (runtime_error_about "invalid DNS listen IP: " host)
    ]
  ]

  unfoldable pub parse_endpoint : List ℕ → Result Destination
  parse_endpoint listen = do
    (host, port) ← split_endpoint listen
    address ← listen_address host
    number ← parse_port port
    ok (record { host = address; port = number })

-- The values of the A and AAAA records, with a comma between.
unfoldable pub join_values : Bool → List DnsRecord → List ℕ
join_values first [] = if first then codes "<empty>" else []
join_values first (r ∷ records) =
    let skipped = join_values first records in
    let later = join_values false records in
    if not (r.type == type_a) && not (r.type == type_aaaa)
    then skipped
    else (if first then [] else codes ", ") ++ (r.value ++ later)

unfoldable pub ip_list_text : List ℕ → Result (List ℕ)
ip_list_text response = parse_response response >>= λ records. ok (join_values true records)

-- What `handle_request` sends to the client; an error is caught and logged, and nothing is sent.
abbrev pub caught_request : Result (List ℕ) → Result (Option (List ℕ))
caught_request (ok response) = ok (some response)
caught_request (err error) = ok none
caught_request stuck = stuck

-- The first `try` block only sets what is logged.
module _ (t : AddressText) (exchange : DnsItemConfig → List ℕ → Result (List ℕ)) where
  unfoldable pub handle_request : DnsServer → List ℕ → Result (Option (List ℕ))
  handle_request s request =
      caught_request
        (query t exchange s request >>= λ response. ip_list_text response >>= λ ips. ok response)

-- `stopping_` and whether the socket is open.
pub record DnsInbound : Type 0 where
  pub stopping : Bool
  pub socket_open : Bool

unfoldable pub stop : DnsInbound → DnsInbound
stop inbound = if inbound.stopping then inbound else record { stopping = true; socket_open = false }
