-- ===== src/Network.antt =====
-- The calls that the coroutines of src/transport, src/outbound, src/core/tls.cpp and src/dns/dns.cpp make of
-- Boost.Asio, Beast and OpenSSL, one after another. What each call returns is the parameter `Peer`.
pub mod Rules
pub mod Encrypted
use cppbox.Prelude.{
  ℕ, ◌≡◌, ◌⊎◌, Bool, true, false, Option, none, some, List, [], ◌∷◌, Result, Error, ok, err, stuck,
  if◌then◌else◌,
}
use cppbox.Address.{Destination}

-- The fields of an HTTP request: its target, Host, User-Agent, Content-Type, Accept and its body.
pub record Request : Type 0 where
  pub target : List ℕ
  pub host : List ℕ
  pub user_agent : List ℕ
  pub content_type : List ℕ
  pub accept : List ℕ
  pub body : List ℕ

-- `set_verify_mode true` is `verify_peer`. `read` fills a buffer of that size, `receive` at most one.
-- `load_system_roots` is `load_system_root_certificates`, which Tls/Roots models.
-- `relay` is the two relays of an outbound side by side, until one of them ends.
pub data Call : Type 0 where
  load_system_roots : Call
  set_verify_mode : Bool → Call
  set_tlsext_host_name : List ℕ → Call
  host_name_verification : List ℕ → Call
  connect : Destination → Call
  tls_handshake : Call
  set_decorator : List ℕ → List ℕ → Call
  ws_handshake : List ℕ → List ℕ → Call
  write : List ℕ → Call
  read : ℕ → Call
  receive : ℕ → Call
  write_request : Request → Call
  read_response : Call
  shutdown_tls : Call
  read_inbound : Call
  relay : Call
  close_stream : Call
  close_inbound : Call

-- A call returns, with the bytes that it has read, if any, or throws.
pub data Answer : Type 0 where
  returned : List ℕ → Answer
  thrown : Error → Answer

-- A call that has been made.
pub record Event : Type 0 where
  pub call : Call
  pub answer : Answer

-- What the calls return may depend on all calls before, the last one in front. `status` is the HTTP status
-- of the response that was read last.
pub record Peer : Type 0 where
  pub answer : List Event → Call → Answer
  pub status : List Event → ℕ

-- Code that makes calls: its result, and the calls made.
abbrev pub Io {ℓ} : Type ℓ → Type ℓ
Io A = List Event → Result A × List Event

module _ {ℓ} {A : Type ℓ} where
  abbrev pub pure : A → Io A
  pure a events = (ok a, events)

  -- Code that makes no call.
  abbrev pub lift : Result A → Io A
  lift r events = (r, events)

  abbrev pub throw : Error → Io A
  throw error events = (err error, events)

  abbrev pub caught : Result A → Result (Option A)
  caught (ok a) = ok (some a)
  caught (err error) = ok none
  caught stuck = stuck

  -- `try { … } catch (const std::exception &e) { log_error(…); }`
  abbrev pub attempt : Io A → Io (Option A)
  attempt m events = let (r, later) = m events in (caught r, later)

abbrev pub and_then {ℓ κ} :
    {A : Type ℓ} {B : Type κ} → Result A → List Event → (A → Io B) → Result B × List Event
and_then (ok a) events next = next a events
and_then (err error) events next = (err error, events)
and_then stuck events next = (stuck, events)

infixl 5 ◌>>=◌ ◌>>◌
abbrev pub ◌>>=◌ {ℓ κ} : {A : Type ℓ} {B : Type κ} → Io A → (A → Io B) → Io B
◌>>=◌ m next events = let (r, later) = m events in and_then r later next

abbrev pub ◌>>◌ {ℓ κ} : {A : Type ℓ} {B : Type κ} → Io A → Io B → Io B
m >> next = m >>= λ _. next

abbrev pub result_of : Answer → Result (List ℕ)
result_of (returned bytes) = ok bytes
result_of (thrown error) = err error

abbrev pub perform : Peer → Call → Io (List ℕ)
perform p c events =
    let a = p.answer events c in (result_of a, record { call = c; answer = a } ∷ events)

-- `if (test) call;`
abbrev pub perform_when : Peer → Bool → Call → Io (List ℕ)
perform_when p true c = perform p c
perform_when p false c = pure []

-- Closing, which ignores every error.
abbrev pub close : Call → Io (Unit {0})
close c events = (ok tt, record { call = c; answer = returned [] } ∷ events)

abbrev pub IsReturned : Answer → Type 0
IsReturned (returned bytes) = Unit {0}
IsReturned (thrown error) = ⊥

-- The call has been made and has returned.
abbrev pub Done : Call → List Event → Type 0
Done c [] = ⊥
Done c (e ∷ events) = ((e.call ≡ c) × IsReturned e.answer) ⊎ Done c events
