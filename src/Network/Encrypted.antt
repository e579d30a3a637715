-- ===== src/Network/Encrypted.antt =====
-- Histories of calls in which nothing is sent ahead of a TLS handshake that checks the server's name.
use cppbox.Prelude.{ℕ, ◌≡◌, refl, inl, inr, Bool, true, false, List, [], ◌∷◌, All}
use cppbox.Network.{
  Call, Event, returned, Done, load_system_roots, set_verify_mode, set_tlsext_host_name,
  host_name_verification, tls_handshake, ws_handshake, write, read, receive, write_request,
  read_response, relay, Peer, close, perform, perform_when,
}
use cppbox.Network.Rules.{Yields, Yields-perform, Yields-close, Yields-pure}

module _ (name : List ℕ) where
  -- What has to be done ahead of a call. The settings are made for that name only, and no call turns the
  -- verification off.
  abbrev pub Allowed : Call → List Event → Type 0
  Allowed (set_verify_mode verify) earlier = verify ≡ true
  Allowed (set_tlsext_host_name n) earlier = n ≡ name
  Allowed (host_name_verification n) earlier = n ≡ name
  Allowed tls_handshake earlier =
      Done load_system_roots earlier
      × Done (set_verify_mode true) earlier
      × Done (set_tlsext_host_name name) earlier
      × Done (host_name_verification name) earlier
  Allowed (ws_handshake host path) earlier = Done tls_handshake earlier
  Allowed (write bytes) earlier = Done tls_handshake earlier
  Allowed (read n) earlier = Done tls_handshake earlier
  Allowed (receive n) earlier = Done tls_handshake earlier
  Allowed (write_request request) earlier = Done tls_handshake earlier
  Allowed read_response earlier = Done tls_handshake earlier
  Allowed relay earlier = Done tls_handshake earlier
  Allowed c earlier = Unit {0}

  abbrev pub IsEncrypted : List Event → Type 0
  IsEncrypted [] = Unit {0}
  IsEncrypted (e ∷ earlier) = Allowed e.call earlier × IsEncrypted earlier

  -- The calls of the list are done.
  pub record Has (calls : List Call) (events : List Event) : Type 0 where
    pub encrypted : IsEncrypted events
    pub all_done : All (λ c. Done c events) calls

  All-next :
      (calls : List Call) (e : Event) (events : List Event)
      → All (λ c. Done c events) calls
      → All (λ c. Done c (e ∷ events)) calls
  All-next [] e events h = tt
  All-next (c ∷ calls) e events h = (inr h.0, All-next calls e events h.1)

  -- A call that is allowed is done when it returns.
  pub perform-Has :
      (p : Peer) (c : Call) (calls : List Call)
      → ((events : List Event) → Has calls events → Allowed c events)
      → Yields (Has calls) (perform p c) (λ _. Has (c ∷ calls)) IsEncrypted
  perform-Has p c calls allowed =
      Yields-perform p c (λ _. Has (c ∷ calls))
        (λ events bytes h. record {
          encrypted = (allowed events h, h.encrypted);
          all_done = (
            inl (refl, tt),
            All-next calls (record { call = c; answer = returned bytes }) events h.all_done,
          );
        })
        (λ events r h. (allowed events h, h.encrypted))

  pub perform_when-Has :
      (p : Peer) (test : Bool) (c : Call) (calls : List Call)
      → ((events : List Event) → Has calls events → Allowed c events)
      → Yields (Has calls) (perform_when p test c) (λ _. Has calls) IsEncrypted
  perform_when-Has p true c calls allowed =
      Yields-perform p c (λ _. Has calls)
        (λ events bytes h. record {
          encrypted = (allowed events h, h.encrypted);
          all_done =
              All-next calls (record { call = c; answer = returned bytes }) events h.all_done;
        })
        (λ events r h. (allowed events h, h.encrypted))
  perform_when-Has p false c calls allowed = Yields-pure [] (λ _. Has calls) (λ events h. h)

  pub close-IsEncrypted :
      (c : Call)
      → ((events : List Event) → IsEncrypted events → Allowed c events)
      → Yields IsEncrypted (close c) (λ _. IsEncrypted) IsEncrypted
  close-IsEncrypted c allowed =
      Yields-close c (λ _. IsEncrypted) (λ events h. (allowed events h, h))

  pub close-Has :
      (c : Call) (calls : List Call)
      → ((events : List Event) → Has calls events → Allowed c events)
      → Yields (Has calls) (close c) (λ _. Has calls) IsEncrypted
  close-Has c calls allowed =
      Yields-close c (λ _. Has calls)
        (λ events h. record {
          encrypted = (allowed events h, h.encrypted);
          all_done = All-next calls (record { call = c; answer = returned [] }) events h.all_done;
        })
