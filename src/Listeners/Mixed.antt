-- ===== src/Listeners/Mixed.antt =====
-- The mixed inbound of src/inbound/mixed_inbound.cpp serves the clients of both protocols.
use cppbox.Prelude.{ℕ, ◌<◌, ◌≡◌, refl, true, false, List, ◌∷◌, ◌++◌, ◌==◌, ok}
use cppbox.Address.{AddressText, Host}
use cppbox.Socks5.{has_no_auth, success_reply}
use cppbox.Socks5.Handshake.{
  greeting_of, request_of, session_to, IsSendable, read_session-request_of,
}
use cppbox.Listeners.{handed_on, socks5_client, http_client, mixed_client}

module _ (t : AddressText) (header_size : ℕ) where
  -- A SOCKS5 client that offers no authentication and asks to connect is handed on to the destination that
  -- it names.
  mixed_client-request_of :
      (methods : List ℕ) (h : Host) (port : ℕ) (rest : List ℕ)
      → has_no_auth methods ≡ true
      → port < 65536
      → IsSendable h
      → mixed_client t header_size (greeting_of methods ++ request_of h port rest)
        ≡ ok (handed_on (5 ∷ 0 ∷ success_reply) (session_to h port))
  unfolding mixed_client socks5_client
  mixed_client-request_of methods h port rest n p s =
      rw (read_session-request_of methods h port rest n p s) refl

  -- A client whose first byte is another one is served as by the HTTP inbound.
  mixed_client-http_client :
      (first : ℕ) (rest : List ℕ)
      → (first == 5) ≡ false
      → mixed_client t header_size (first ∷ rest) ≡ http_client t header_size (first ∷ rest)
  unfolding mixed_client
  mixed_client-http_client first rest other = rw other refl
