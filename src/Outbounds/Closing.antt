-- ===== src/Outbounds/Closing.antt =====
-- The VLESS outbound closes what it has opened, on every path.
use cppbox.Prelude.{ℕ, ◌≡◌, ◌≢◌, refl, List, [], ◌∷◌, All, Result, ok, err, stuck}
use cppbox.Utils.{IsByte}
use cppbox.Address.{AddressText, Destination, Session}
use cppbox.Vless.{TlsConfig}
use cppbox.Program.{VlessOutboundConfig}
use cppbox.Network.{
  Event, Peer, Call, returned, close_stream, close_inbound, caught, and_then, ◌>>◌, close,
}
use cppbox.Outbounds.{open_stream, use_stream, finish_stream, handle_vless}
use cppbox.Outbounds.Halting.{ReadsBytes, use_stream-Halts, open_stream-Halts}

abbrev pub closed : Call → Event
closed c = record { call = c; answer = returned [] }

module _ (t : AddressText) (p : Peer) (unset : TlsConfig) (config : VlessOutboundConfig)
    (session : Session) where
  -- The history of `handle` behind that of `open_stream`.
  abbrev pub closing : Result (Destination × List ℕ) → List Event → List Event
  closing (ok (destination, payload)) events =
      closed close_inbound
      ∷ closed close_stream
      ∷ (use_stream t p unset config destination payload events).1
  closing (err error) events = closed close_inbound ∷ events
  closing stuck events = events

  behind_use :
      (r : Result (List ℕ)) (events : List Event)
      → r ≢ stuck
      → let (r', later) = and_then (caught r) events (λ _. close close_stream) in
        and_then r' later (λ _. close close_inbound)
        ≡ (ok tt, closed close_inbound ∷ closed close_stream ∷ events)
  behind_use (ok bytes) events h = refl
  behind_use (err error) events h = refl
  behind_use stuck events h = absurd (h refl)

  behind_open :
      (r : Result (Destination × List ℕ)) (events : List Event)
      → r ≢ stuck
      → and_then
          (caught r)
          events
          (λ opened. finish_stream t p unset config opened >> close close_inbound)
        ≡ (ok tt, closing r events)
  behind_open (ok (destination, payload)) events h =
      behind_use _ _ ((use_stream-Halts t p unset config destination payload).at events)
  behind_open (err error) events h = refl
  behind_open stuck events h = absurd (h refl)

  -- Where the payloads are bytes, `handle` always returns, whatever throws in it. It ends by closing the socket
  -- of the client, and ahead of that the stream to the server, exactly when that was opened.
  pub handle_vless-closing :
      All IsByte session.initial_payload
      → ReadsBytes t p unset config
      → let (opened, events) = open_stream t p unset config session [] in
        (opened ≢ stuck)
        × (handle_vless t p unset config session [] ≡ (ok tt, closing opened events))
  unfolding handle_vless
  handle_vless-closing given r =
      let h = (open_stream-Halts t p unset config session given r).at [] in
      (
        h,
        behind_open (open_stream t p unset config session []).0
            (open_stream t p unset config session []).1 h,
      )
