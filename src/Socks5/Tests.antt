-- ===== src/Socks5/Tests.antt =====
-- Concrete runs of Socks5.
use cppbox.Prelude.{◌≡◌, ◌++◌, refl, arith, [], ◌∷◌, codes, ok}
use cppbox.Address.{domain_name}
use cppbox.Socks5.{ran, success_reply, read_session}
use cppbox.Socks5.Handshake.{greeting_of, request_of, session_to, read_session-request_of}

read_session-request_of_example :
    read_session
      (greeting_of (2 ∷ 0 ∷ []) ++ request_of (domain_name (codes "a.org")) 443 (22 ∷ []))
    ≡ ran (5 ∷ 0 ∷ success_reply) (ok (session_to (domain_name (codes "a.org")) 443, 22 ∷ []))
read_session-request_of_example =
    read_session-request_of (2 ∷ 0 ∷ []) (domain_name (codes "a.org")) 443 (22 ∷ []) refl
      (omega arith) (omega arith, omega arith)
