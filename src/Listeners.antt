-- ===== src/Listeners.antt =====
-- The clients of the listening inbounds: src/inbound/mixed_inbound.cpp, src/inbound/socks5_inbound.cpp and
-- src/inbound/http_inbound.cpp. A client is the bytes that it sends; for HTTP also the place where the
-- empty line ends, which `async_read_until` finds.
pub mod Mixed
use cppbox.Prelude.{
  ℕ, Bool, true, false, List, [], ◌∷◌, ◌==◌, if◌then◌else◌, Result, ok, err, stuck, system_error,
}
use cppbox.Address.{AddressText, Session}
use cppbox.Socks5.{Run, ran, read_session as read_socks5}
use cppbox.HttpProxy.{read_session as read_http}

-- The session that the handler is given, or a socket that is closed; with what was written to the client.
pub data Outcome : Type 0 where
  handed_on : List ℕ → Session → Outcome
  closed : List ℕ → Outcome

abbrev pub of_run : Run (Session × List ℕ) → Result Outcome
of_run (ran written (ok (session, rest))) = ok (handed_on written session)
of_run (ran written (err error)) = ok (closed written)
of_run (ran written stuck) = stuck

abbrev pub of_result : Result (Session × List ℕ) → Result Outcome
of_result (ok (session, written)) = ok (handed_on written session)
of_result (err error) = ok (closed [])
of_result stuck = stuck

-- `Socks5Inbound::handle_client`.
unfoldable pub socks5_client : List ℕ → Result Outcome
socks5_client input = of_run (read_socks5 input)

module _ (t : AddressText) (header_size : ℕ) where
  -- `HttpInbound::handle_client`.
  unfoldable pub http_client : List ℕ → Result Outcome
  http_client input = of_result (read_http t input header_size)

  -- `MixedInbound::handle_client`: the first byte is looked at and stays in the socket. A client that sends
  -- nothing makes the receive throw.
  unfoldable pub mixed_client : List ℕ → Result Outcome
  mixed_client [] = ok (closed [])
  mixed_client (first ∷ rest) =
      if first == 5 then socks5_client (first ∷ rest) else http_client (first ∷ rest)
