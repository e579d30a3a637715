-- ===== src/Vless.antt =====
-- The VLESS protocol: src/protocol/vless.cpp, and the parts of src/outbound/vless_outbound.cpp that
-- compute: the TLS settings, the destination and the bytes that the relay passes on.
pub mod Requests
pub mod Responses
mod Tests
use cppbox.Prelude.{
  ℕ, ◌+◌, Bool, true, false, ◌&&◌, ◌||◌, not, Option, none, some, List, [], ◌∷◌, ◌++◌, codes,
  length, drop, leb, is_empty, text_eq, if◌then◌else◌, Result, ok, err, stuck, runtime_error,
  system_error, require, ◌>>=◌, ◌>>◌,
}
use cppbox.Utils.{byte, write_be16, parse_uuid}
use cppbox.Address.{
  AddressText, Host, ipv4_address, ipv6_address, domain_name, Destination, Session, make_domain,
  host_text,
}
use cppbox.TlsSniffer.{sniff_tls_sni}
use cppbox.Streams.{ErrorCode, is_stream_closed, is_error}

-- The request up to the port.
unfoldable pub request_head : List ℕ → ℕ → List ℕ
request_head uuid port = write_be16 (((0 ∷ []) ++ uuid) ++ (0 ∷ 1 ∷ [])) port

-- The request behind the port.
unfoldable pub request_host : List ℕ → Host → Result (List ℕ)
request_host out (ipv4_address a) = ok ((out ++ (1 ∷ [])) ++ a)
request_host out (ipv6_address a) = ok ((out ++ (3 ∷ [])) ++ a)
request_host out (domain_name d) = do
  require (leb (length d) 255) "vless domain too long"
  ok ((out ++ (2 ∷ length d ∷ [])) ++ d)

-- `VlessProtocol::build_request`, with the configured UUID.
unfoldable pub build_request : List ℕ → Destination → Result (List ℕ)
build_request uuid dst = do
  uuid_bytes ← parse_uuid uuid
  request_host (request_head uuid_bytes dst.port) dst.host

unfoldable pub strip_response_header : List ℕ → Result (List ℕ)
strip_response_header bytes = do
  require (leb 2 (length bytes)) "short vless response header"
  extra ← byte bytes 1
  require (leb (2 + extra) (length bytes)) "incomplete vless header"
  ok (drop (2 + extra) bytes)

-- TlsConfig of src/config/config.hpp.
pub record TlsConfig : Type 0 where
  pub enabled : Bool
  pub server_name : List ℕ
  pub insecure : Bool

-- `TlsConfig out;` leaves `enabled` and `insecure` without a value when nothing is configured:
-- `unset` stands for what they then hold.
abbrev pub copied_tls : TlsConfig → Option TlsConfig → TlsConfig
copied_tls unset none = unset
copied_tls unset (some tls) = tls

abbrev pub default_name : TlsConfig → List ℕ → TlsConfig
default_name out server =
    if out.enabled && is_empty out.server_name then record out { server_name = server } else out

unfoldable pub normalize_tls : TlsConfig → Option TlsConfig → List ℕ → TlsConfig
normalize_tls unset tls server = default_name (copied_tls unset tls) server

-- The part of `handle` that sets the destination. `peeked` is what `read_initial_payload` gives when
-- it is called.
unfoldable pub override_host : AddressText → Destination → Option (List ℕ) → Result Destination
override_host t destination none = ok destination
override_host t destination (some sni) =
    if not (text_eq (host_text t destination.host) sni)
    then (make_domain sni >>= λ host. ok (record destination { host = host }))
    else ok destination

abbrev pub initial_payload : Bool → List ℕ → Session → List ℕ
initial_payload override_address peeked session =
    if override_address && is_empty session.initial_payload then peeked else session.initial_payload

unfoldable pub choose_destination : AddressText → Bool → List ℕ → Session → Result Destination
choose_destination t override_address peeked session =
    if override_address && not (is_empty (initial_payload override_address peeked session))
    then (sniff_tls_sni (initial_payload override_address peeked session)
        >>= override_host t session.destination)
    else ok session.destination

-- What `handle` writes to the server ahead of the relay: the request, then the initial payload.
unfoldable pub opening : AddressText → Bool → List ℕ → List ℕ → Session → Result (List (List ℕ))
opening t override_address uuid peeked session = do
  destination ← choose_destination t override_address peeked session
  request ← build_request uuid destination
  ok (
      if is_empty (initial_payload override_address peeked session)
      then request ∷ []
      else request ∷ initial_payload override_address peeked session ∷ [])

-- One round of `relay_stream_to_tcp`: what `stream.read` gives, and how the write to the socket ends.
pub record Message : Type 0 where
  pub read : Result (List ℕ)
  pub write_ec : ErrorCode

-- What has been given to the writes, and whether the relay has returned (`ok true`), thrown, or goes on
-- (`ok false`).
pub data Passed : Type 0 where
  passed : List (List ℕ) → Result Bool → Passed

abbrev pub ahead : List ℕ → Passed → Passed
ahead bytes (passed later result) = passed (bytes ∷ later) result

-- The write, and what follows it.
abbrev pub after_write : List ℕ → ErrorCode → Passed → Passed
after_write bytes ec later =
    if is_stream_closed ec
    then passed (bytes ∷ []) (ok true)
    else if is_error ec
    then passed (bytes ∷ []) (err system_error)
    else ahead bytes later

-- The first message loses its header.
abbrev pub stripped : Bool → List ℕ → Result (List ℕ)
stripped first_message bytes = if first_message then strip_response_header bytes else ok bytes

unfoldable pub relay_stream_to_tcp : Bool → List Message → Passed
relay_stream_to_tcp first_message [] = passed [] (ok false)
relay_stream_to_tcp first_message (message ∷ messages) =
    let later = relay_stream_to_tcp false messages in
    elim message.read [
      | err e ↦ passed [] (err e)
      | stuck ↦ passed [] stuck
      | ok bytes ↦
          if is_empty bytes then passed [] (ok true) else (elim (stripped first_message bytes) [
            | err e ↦ passed [] (err e)
            | stuck ↦ passed [] stuck
            | ok out ↦ after_write out message.write_ec later
          ])
    ]
