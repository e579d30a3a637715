-- ===== src/Streams.antt =====
-- Streams and the relays between them: src/transport/stream_utils.hpp, `DirectOutbound::relay` of
-- src/outbound/direct_outbound.cpp and the relay to the server of src/outbound/vless_outbound.cpp. What a
-- read or a write of Boost.Asio gives is a parameter.
use cppbox.Prelude.{
  ℕ, ◌≡◌, refl, sym, ap, ◌∙◌, Bool, true, false, ◌||◌, List, [], ◌∷◌, ◌++◌, append_assoc, All,
  if◌then◌else◌, Result, ok, err, stuck, system_error,
}

pub data ErrorCode : Type 0 where
  success eof connection_reset operation_aborted websocket_closed other_error : ErrorCode

unfoldable pub is_stream_closed : ErrorCode → Bool
is_stream_closed eof = true
is_stream_closed connection_reset = true
is_stream_closed operation_aborted = true
is_stream_closed ec = false

abbrev pub is_closed_frame : ErrorCode → Bool
is_closed_frame websocket_closed = true
is_closed_frame ec = false

unfoldable pub is_websocket_closed : ErrorCode → Bool
is_websocket_closed ec = is_stream_closed ec || is_closed_frame ec

abbrev pub is_error : ErrorCode → Bool
is_error success = false
is_error ec = true

-- `TcpStreamImpl::read`, for the test of a closed stream, which then reads nothing.
unfoldable pub read_stream : (ErrorCode → Bool) → ErrorCode → List ℕ → Result (List ℕ)
read_stream is_closed ec bytes =
    if is_closed ec then ok [] else if is_error ec then err system_error else ok bytes

-- `TcpStreamImpl::write`, for the test of a closed stream, which is no error.
unfoldable pub write_stream : (ErrorCode → Bool) → ErrorCode → Result (Unit {0})
write_stream is_closed ec =
    if is_closed ec then ok tt else if is_error ec then err system_error else ok tt

-- `WsStreamImpl::read` and `WsStreamImpl::write`.
unfoldable pub read_websocket : ErrorCode → List ℕ → Result (List ℕ)
read_websocket ec message = read_stream is_websocket_closed ec message

unfoldable pub write_websocket : ErrorCode → Result (Unit {0})
write_websocket ec = write_stream is_websocket_closed ec

-- `VlessOutbound::read_initial_payload`, which reads from the inbound socket.
unfoldable pub read_initial_payload : ErrorCode → List ℕ → Result (List ℕ)
read_initial_payload ec bytes = read_stream is_stream_closed ec bytes

-- One round of a relay: what the read gives, and how the write ends.
pub record Turn : Type 0 where
  pub bytes : List ℕ
  pub read_ec : ErrorCode
  pub write_ec : ErrorCode

-- What has been given to the writes, and whether the relay has returned (`ok true`), thrown, or goes on
-- (`ok false`).
pub data Relayed : Type 0 where
  relayed : List ℕ → Result Bool → Relayed

abbrev pub behind : List ℕ → Relayed → Relayed
behind bytes (relayed later result) = relayed (bytes ++ later) result

-- The loop of a relay, for the write that it makes.
unfoldable pub relay_by : (ErrorCode → Result (Unit {0})) → List Turn → Relayed
relay_by write [] = relayed [] (ok false)
relay_by write (turn ∷ turns) =
    let later = relay_by write turns in
    if is_stream_closed turn.read_ec
    then relayed [] (ok true)
    else if is_error turn.read_ec
    then relayed [] (err system_error)
    else elim (write turn.write_ec) [
      | ok _ ↦ behind turn.bytes later
      | err error ↦ relayed turn.bytes (err error)
      | stuck ↦ relayed turn.bytes stuck
    ]

-- `asio::async_write` throws on every error.
abbrev pub write_socket : ErrorCode → Result (Unit {0})
write_socket ec = if is_error ec then err system_error else ok tt

-- `DirectOutbound::relay`.
unfoldable pub relay : List Turn → Relayed
relay turns = relay_by write_socket turns

-- `VlessOutbound::relay_tcp_to_stream`, on a stream over TCP.
unfoldable pub relay_tcp_to_stream : List Turn → Relayed
relay_tcp_to_stream turns = relay_by (write_stream is_stream_closed) turns

-- `VlessOutbound::relay_tcp_to_stream`, on a stream over a WebSocket.
unfoldable pub relay_tcp_to_websocket : List Turn → Relayed
relay_tcp_to_websocket turns = relay_by write_websocket turns

-- Nothing goes wrong in the round.
abbrev IsGood : Turn → Type 0
IsGood turn = (turn.read_ec ≡ success) × (turn.write_ec ≡ success)

abbrev all_bytes : List Turn → List ℕ
all_bytes [] = []
all_bytes (turn ∷ turns) = turn.bytes ++ all_bytes turns

behind_nil : (r : Relayed) → r ≡ behind [] r
behind_nil (relayed later result) = refl

behind_assoc : (a b : List ℕ) (r : Relayed) → behind a (behind b r) ≡ behind (a ++ b) r
behind_assoc a b (relayed later result) =
    ap (λ bytes. relayed bytes result) (sym (append_assoc a b later))

-- After good rounds the relay has passed on all bytes in their order, and goes on with the next round.
relay-good :
    (good rest : List Turn)
    → All IsGood good
    → relay (good ++ rest) ≡ behind (all_bytes good) (relay rest)
unfolding relay relay_by is_stream_closed
relay-good [] rest h = behind_nil (relay rest)
relay-good (turn ∷ good) rest h =
    rw (h.0.0, h.0.1)
      (ap (behind turn.bytes) (relay-good good rest h.1)
        ∙ behind_assoc turn.bytes (all_bytes good) (relay rest))
