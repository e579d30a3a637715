-- ===== src/Socks5/Handshake.antt =====
-- The handshake of src/protocol/socks5.cpp with a client that follows RFC 1928.
use cppbox.Prelude.{
  ℕ, ◌/◌, ◌<◌, ◌≤◌, ◌≡◌, refl, sym, ap, ◌∙◌, true, false, List, [], ◌∷◌, ◌++◌, arith, length,
  le→leb, lt→ltb, length-append, take-append_left, drop-append_left, ok, err, runtime_error,
}
use cppbox.Prelude.Bits.{and_255}
use cppbox.Utils.Bytes.{read_be16_at_lem}
use cppbox.Utils.{be16_hi, be16_lo, read_be16_at}
use cppbox.Address.{Host, ipv4_address, ipv6_address, domain_name, Session, make_domain}
use cppbox.Socks5.{
  ran, ◌>>=◌, async_read, read_domain, read_host, has_no_auth, success_reply, read_methods,
  read_request, read_session,
}

-- What a client sends.
abbrev pub greeting_of : List ℕ → List ℕ
greeting_of methods = 5 ∷ length methods ∷ methods

abbrev pub host_kind : Host → ℕ
host_kind (ipv4_address a) = 1
host_kind (ipv6_address a) = 4
host_kind (domain_name d) = 3

abbrev pub host_body : Host → List ℕ
host_body (ipv4_address a) = a
host_body (ipv6_address a) = a
host_body (domain_name d) = length d ∷ d

abbrev pub request_of : Host → ℕ → List ℕ → List ℕ
request_of h port rest =
    5 ∷ 1 ∷ 0 ∷ host_kind h ∷ (host_body h ++ (be16_hi port ∷ be16_lo port ∷ rest))

abbrev pub IsSendable : Host → Type 0
IsSendable (ipv4_address a) = length a ≡ 4
IsSendable (ipv6_address a) = length a ≡ 16
IsSendable (domain_name d) = (0 < length d) × (length d ≤ 255)

async_read-append :
    (n : ℕ) (block rest : List ℕ)
    → n ≡ length block
    → async_read n (block ++ rest) ≡ ran [] (ok (block, rest))
unfolding async_read
async_read-append n block rest h =
    rw
      (
        le→leb n (length (block ++ rest)) (omega (arith, length-append block rest)),
        take-append_left block rest n h,
        drop-append_left block rest n h,
      )
      refl

port-bytes : (port : ℕ) → port < 65536 → read_be16_at (be16_hi port ∷ be16_lo port ∷ []) 0 ≡ ok port
port-bytes port h =
    read_be16_at_lem (be16_hi port ∷ be16_lo port ∷ []) 0 (be16_hi port) (be16_lo port) refl refl
      (omega (arith, and_255 (port / 256))) (omega (arith, and_255 port))
    ∙ ap ok (omega (arith, and_255 (port / 256), and_255 port))

make_domain-short :
    (d : List ℕ) → 0 < length d → length d ≤ 255 → make_domain d ≡ ok (domain_name d)
unfolding make_domain
make_domain-short [] h l = absurd (omega arith)
make_domain-short (c ∷ d) h l = ground arith

read_host-bytes :
    (h : Host) (rest : List ℕ)
    → IsSendable h
    → read_host (host_kind h) (host_body h ++ rest) ≡ ran [] (ok (h, rest))
unfolding read_host read_domain
read_host-bytes (ipv4_address a) rest s = rw (async_read-append 4 a rest (sym s), ◌>>=◌) refl
read_host-bytes (ipv6_address a) rest s = rw (async_read-append 16 a rest (sym s), ◌>>=◌) refl
read_host-bytes (domain_name d) rest s =
    rw
      (
        async_read-append 1 (length d ∷ []) (d ++ rest) refl,
        ◌>>=◌,
        lt→ltb 0 (length d) s.0,
        async_read-append (length d) d rest refl,
        make_domain-short d s.0 s.1,
      )
      refl

read_methods-greeting :
    (methods rest : List ℕ)
    → has_no_auth methods ≡ true
    → read_methods (greeting_of methods ++ rest) ≡ ran (5 ∷ 0 ∷ []) (ok rest)
unfolding read_methods
read_methods-greeting [] rest h = cc
read_methods-greeting (m ∷ methods) rest h =
    rw
      (
        async_read-append 2 (5 ∷ length (m ∷ methods) ∷ []) ((m ∷ methods) ++ rest) refl,
        ◌>>=◌,
        async_read-append (length (m ∷ methods)) (m ∷ methods) rest refl,
        h,
      )
      (ground arith)

abbrev pub session_to : Host → ℕ → Session
session_to h port = record { destination = record { host = h; port = port }; initial_payload = [] }

read_request-request_of :
    (h : Host) (port : ℕ) (rest : List ℕ)
    → port < 65536
    → IsSendable h
    → read_request (request_of h port rest) ≡ ran success_reply (ok (session_to h port, rest))
unfolding read_request
read_request-request_of h port rest p s =
    rw
      (
        async_read-append 4 (5 ∷ 1 ∷ 0 ∷ host_kind h ∷ [])
            (host_body h ++ (be16_hi port ∷ be16_lo port ∷ rest)) refl,
        ◌>>=◌,
        read_host-bytes h (be16_hi port ∷ be16_lo port ∷ rest) s,
        async_read-append 2 (be16_hi port ∷ be16_lo port ∷ []) rest refl,
        port-bytes port p,
      )
      refl

-- A client that offers no authentication and asks to connect is answered by the method 0 and the
-- success reply, and the session has the host and the port that it sent, whatever it sends behind:
-- for a port below 65536, an address of its size or a domain of 1 to 255 bytes.
pub read_session-request_of :
    (methods : List ℕ) (h : Host) (port : ℕ) (rest : List ℕ)
    → has_no_auth methods ≡ true
    → port < 65536
    → IsSendable h
    → read_session (greeting_of methods ++ request_of h port rest)
      ≡ ran (5 ∷ 0 ∷ success_reply) (ok (session_to h port, rest))
unfolding read_session
read_session-request_of methods h port rest n p s =
    rw
      (
        read_methods-greeting methods (request_of h port rest) n,
        ◌>>=◌,
        read_request-request_of h port rest p s,
      )
      refl

-- A client that does not offer the method without authentication is answered by the method 255, and the handshake throws.
read_session-no_methods :
    (m : ℕ) (methods rest : List ℕ)
    → has_no_auth (m ∷ methods) ≡ false
    → read_session (greeting_of (m ∷ methods) ++ rest)
      ≡ ran (5 ∷ 255 ∷ []) (err (runtime_error "socks no-auth method not supported by client"))
unfolding read_session read_methods
read_session-no_methods m methods rest n =
    rw
      (
        async_read-append 2 (5 ∷ length (m ∷ methods) ∷ []) ((m ∷ methods) ++ rest) refl,
        ◌>>=◌,
        async_read-append (length (m ∷ methods)) (m ∷ methods) rest refl,
        n,
      )
      (ground arith)
