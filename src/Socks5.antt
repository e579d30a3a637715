-- ===== src/Socks5.antt =====
-- The SOCKS5 handshake: src/protocol/socks5.cpp. A connection is the list of bytes that the client
-- sends; a read that finds too few of them throws, since the client has then closed the connection.
-- What is written is kept also when the handshake throws.
pub mod Handshake
mod Tests
use cppbox.Prelude.{
  ℕ, Bool, true, false, ◌||◌, List, [], ◌∷◌, ◌++◌, String, length, take, drop, get_or, leb, ltb,
  ◌==◌, if◌then◌else◌, Result, Error, ok, err, stuck, runtime_error, system_error,
}
use cppbox.Prelude
use cppbox.Utils.{read_be16_at}
use cppbox.Address.{Host, ipv4_address, ipv6_address, Destination, Session, make_domain}

-- What was written, and the result.
pub data Run {ℓ} (A : Type ℓ) : Type ℓ where
  ran : List ℕ → Result A → Run A

abbrev pub prepend {ℓ} : {A : Type ℓ} → List ℕ → Run A → Run A
prepend written (ran later result) = ran (written ++ later) result

infixl 5 ◌>>=◌ ◌>>◌
abbrev pub ◌>>=◌ {ℓ κ} : {A : Type ℓ} {B : Type κ} → Run A → (A → Run B) → Run B
ran written (ok value) >>= next = prepend written (next value)
ran written (err thrown) >>= next = ran written (err thrown)
ran written stuck >>= next = ran written stuck

abbrev pub ◌>>◌ {κ} : {B : Type κ} → Run (Unit {0}) → Run B → Run B
first >> rest = first >>= λ _. rest

abbrev pub returns {ℓ} : {A : Type ℓ} → Result A → Run A
returns result = ran [] result

abbrev pub require : Bool → String → Run (Unit {0})
require test message = returns (Prelude.require test message)

-- `async_read` of `n` bytes: the bytes and what is left.
unfoldable pub async_read : ℕ → List ℕ → Run (List ℕ × List ℕ)
async_read n input =
    returns (if leb n (length input) then ok (take n input, drop n input) else err system_error)

abbrev pub async_write : List ℕ → Run (Unit {0})
async_write bytes = ran bytes (ok tt)

unfoldable pub read_domain : List ℕ → Run (Host × List ℕ)
read_domain input = do
  (size, input) ← async_read 1 input
  require (ltb 0 (get_or size 0 0)) "empty socks5 domain"
  (raw, input) ← async_read (get_or size 0 0) input
  host ← returns (make_domain raw)
  returns (ok (host, input))

unfoldable pub read_host : ℕ → List ℕ → Run (Host × List ℕ)
read_host atyp input =
    if atyp == 1
    then (async_read 4 input >>= λ (raw, input). returns (ok (ipv4_address raw, input)))
    else if atyp == 4
    then (async_read 16 input >>= λ (raw, input). returns (ok (ipv6_address raw, input)))
    else if atyp == 3
    then read_domain input
    else returns (err (runtime_error "unsupported socks5 address type"))

-- The search of the method list.
abbrev pub has_no_auth : List ℕ → Bool
has_no_auth [] = false
has_no_auth (method ∷ methods) = (method == 0) || has_no_auth methods

abbrev pub success_reply : List ℕ
success_reply = 5 ∷ 0 ∷ 0 ∷ 1 ∷ 0 ∷ 0 ∷ 0 ∷ 0 ∷ 0 ∷ 0 ∷ []

unfoldable pub read_methods : List ℕ → Run (List ℕ)
read_methods input = do
  (greeting, input) ← async_read 2 input
  require (get_or greeting 0 0 == 5) "invalid socks version"
  require (ltb 0 (get_or greeting 1 0)) "empty socks method list"
  (methods, input) ← async_read (get_or greeting 1 0) input
  async_write (5 ∷ (if has_no_auth methods then 0 else 255) ∷ [])
  require (has_no_auth methods) "socks no-auth method not supported by client"
  returns (ok input)

unfoldable pub read_request : List ℕ → Run (Session × List ℕ)
read_request input = do
  (header, input) ← async_read 4 input
  require (get_or header 0 0 == 5) "invalid socks request version"
  require (get_or header 1 0 == 1) "only socks CONNECT is supported"
  require (get_or header 2 0 == 0) "invalid socks reserved byte"
  (host, input) ← read_host (get_or header 3 0) input
  (port, input) ← async_read 2 input
  destination_port ← returns (read_be16_at port 0)
  async_write success_reply
  returns (
      ok (
        record {
          destination = record { host = host; port = destination_port };
          initial_payload = [];
        },
        input,
      ))

-- `read_session`: the session, and the bytes that the client has sent behind the handshake.
unfoldable pub read_session : List ℕ → Run (Session × List ℕ)
read_session input = read_methods input >>= read_request
