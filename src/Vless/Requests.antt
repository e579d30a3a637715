-- ===== src/Vless/Requests.antt =====
-- Requests of src/protocol/vless.cpp against a server's reading of them.
use cppbox.Prelude.{
  ℕ, ◌+◌, ◌*◌, ◌/◌, ◌<◌, ◌≤◌, ◌≡◌, refl, ap, ◌∙◌, sym, Option, none, some, List, [], ◌∷◌, ◌++◌,
  append_assoc, arith, length, take, drop, ◌==◌, ◌&&◌, if◌then◌else◌, drop-append_left,
  take-append_left, le→leb, ok, ◌>>=◌,
}
use cppbox.Prelude.Bits.{and_255}
use cppbox.Utils.{be16_hi, be16_lo, write_be16, parse_uuid}
use cppbox.Utils.Uuid.{parse_uuid-length}
use cppbox.Address.{Host, ipv4_address, ipv6_address, domain_name, Destination}
use cppbox.Vless.{request_head, request_host, build_request}

-- What a server reads: 16 bytes of UUID behind the version, no addons, the command TCP, the port, the
-- kind of address and the address. What follows is payload.
abbrev pub counted_domain : List ℕ → Option (Host × List ℕ)
counted_domain [] = none
counted_domain (n ∷ rest) = some (domain_name (take n rest), drop n rest)

abbrev pub address_of : ℕ → List ℕ → Option (Host × List ℕ)
address_of kind rest =
    if kind == 1
    then some (ipv4_address (take 4 rest), drop 4 rest)
    else if kind == 2
    then counted_domain rest
    else if kind == 3
    then some (ipv6_address (take 16 rest), drop 16 rest)
    else none

abbrev pub command_of : List ℕ → Option (ℕ × (Host × List ℕ))
command_of (addons ∷ command ∷ hi ∷ lo ∷ kind ∷ rest) =
    if (addons == 0) && (command == 1)
    then (elim (address_of kind rest) [ none ↦ none | some found ↦ some (hi * 256 + lo, found) ])
    else none
command_of _ = none

abbrev pub read_request : List ℕ → Option (List ℕ × (ℕ × (Host × List ℕ)))
read_request [] = none
read_request (version ∷ request) =
    if version == 0
    then (elim (command_of (drop 16 request)) [
      | none ↦ none
      | some found ↦ some (take 16 request, found)
    ])
    else none

abbrev pub IsSized : Host → Type 0
IsSized (ipv4_address a) = length a ≡ 4
IsSized (ipv6_address a) = length a ≡ 16
IsSized (domain_name d) = length d ≤ 255

-- The bytes behind the UUID.
abbrev address_bytes : Host → List ℕ
address_bytes (ipv4_address a) = 1 ∷ a
address_bytes (ipv6_address a) = 3 ∷ a
address_bytes (domain_name d) = 2 ∷ length d ∷ d

request_host-bytes :
    (out : List ℕ) (h : Host) → IsSized h → request_host out h ≡ ok (out ++ address_bytes h)
unfolding request_host
request_host-bytes out (ipv4_address a) s = ap ok (append_assoc out (1 ∷ []) a)
request_host-bytes out (ipv6_address a) s = ap ok (append_assoc out (3 ∷ []) a)
request_host-bytes out (domain_name d) s =
    rw (le→leb (length d) 255 s, ◌>>=◌) (ap ok (append_assoc out (2 ∷ length d ∷ []) d))

request_head-bytes :
    (uuid : List ℕ) (port : ℕ)
    → request_head uuid port ≡ 0 ∷ (uuid ++ (0 ∷ 1 ∷ be16_hi port ∷ be16_lo port ∷ []))
unfolding request_head write_be16
request_head-bytes uuid port = ap (◌∷◌ 0) (
    append_assoc (uuid ++ (0 ∷ 1 ∷ [])) (be16_hi port ∷ []) (be16_lo port ∷ [])
    ∙ append_assoc uuid (0 ∷ 1 ∷ []) (be16_hi port ∷ be16_lo port ∷ []))

port-bytes : (port : ℕ) → port < 65536 → be16_hi port * 256 + be16_lo port ≡ port
port-bytes port h = omega (arith, and_255 (port / 256), and_255 port)

command_of-bytes :
    (h : Host) (port : ℕ) (payload : List ℕ)
    → port < 65536
    → IsSized h
    → command_of (0 ∷ 1 ∷ be16_hi port ∷ be16_lo port ∷ (address_bytes h ++ payload))
      ≡ some (port, (h, payload))
command_of-bytes (ipv4_address a) port payload hp s =
    rw
      (
        take-append_left a payload 4 (sym s),
        drop-append_left a payload 4 (sym s),
        port-bytes port hp,
      )
      refl
command_of-bytes (ipv6_address a) port payload hp s =
    rw
      (
        take-append_left a payload 16 (sym s),
        drop-append_left a payload 16 (sym s),
        port-bytes port hp,
      )
      refl
command_of-bytes (domain_name d) port payload hp s =
    rw
      (
        take-append_left d payload (length d) refl,
        drop-append_left d payload (length d) refl,
        port-bytes port hp,
      )
      refl

read_request-tail :
    (uuid tail : List ℕ) (found : ℕ × (Host × List ℕ))
    → length uuid ≡ 16
    → command_of tail ≡ some found
    → read_request (0 ∷ (uuid ++ tail)) ≡ some (uuid, found)
read_request-tail uuid tail found size e =
    rw
      (
        read_request,
        drop-append_left uuid tail 16 (sym size),
        e,
        take-append_left uuid tail 16 (sym size),
      )
      refl

-- `build_request` returns when the UUID does, and a server reads the UUID, the port and the host from
-- what it built, whatever payload follows, for a port below 65536 and an address of its size or a
-- domain of up to 255 bytes.
pub read_request-build_request :
    (uuid uuid_bytes : List ℕ) (dst : Destination) (payload : List ℕ)
    → parse_uuid uuid ≡ ok uuid_bytes
    → dst.port < 65536
    → IsSized dst.host
    → (request : List ℕ) × (build_request uuid dst ≡ ok request)
      × (read_request (request ++ payload) ≡ some (uuid_bytes, (dst.port, (dst.host, payload))))
unfolding build_request
read_request-build_request uuid uuid_bytes dst payload parsed hp s = (
  request_head uuid_bytes dst.port ++ address_bytes dst.host,
  rw (parsed, ◌>>=◌) (request_host-bytes (request_head uuid_bytes dst.port) dst.host s),
  rw layout
      (read_request-tail uuid_bytes tail _ size (command_of-bytes dst.host dst.port payload hp s)),
)
  where
    size : length uuid_bytes ≡ 16
    size = (parse_uuid-length uuid uuid_bytes parsed).0

    tail : List ℕ
    tail = 0 ∷ 1 ∷ be16_hi dst.port ∷ be16_lo dst.port ∷ (address_bytes dst.host ++ payload)

    layout :
        (request_head uuid_bytes dst.port ++ address_bytes dst.host) ++ payload
        ≡ 0 ∷ (uuid_bytes ++ tail)
    layout = rw (request_head-bytes uuid_bytes dst.port) (
        ap (◌∷◌ 0) (
          ap (λ x. x ++ payload)
            (append_assoc uuid_bytes (0 ∷ 1 ∷ be16_hi dst.port ∷ be16_lo dst.port ∷ [])
              (address_bytes dst.host))
          ∙ append_assoc uuid_bytes _ payload))
