-- ===== src/Vless/Responses.antt =====
-- What the client receives of a server's response: `strip_response_header` of src/protocol/vless.cpp and
-- `relay_stream_to_tcp` of src/outbound/vless_outbound.cpp.
use cppbox.Prelude.{
  ◌≡◌, refl, ap, ◌∙◌, ◌⊎◌, inl, inr, ℕ, Bool, true, false, Option, none, some, List, [], ◌∷◌, ◌++◌,
  map, arith, length, All, is_empty, length-append, drop-append_left, Result, ok, err, system_error,
}
use cppbox.Streams.{
  ErrorCode, success, eof, connection_reset, operation_aborted, websocket_closed, other_error,
  is_stream_closed,
}
use cppbox.Vless.{
  strip_response_header, Message, Passed, passed, ahead, after_write, relay_stream_to_tcp,
}

-- A response header of a version, a length and as many bytes is taken off, and nothing else.
strip_response_header-header :
    (version : ℕ) (addons payload : List ℕ)
    → strip_response_header (version ∷ length addons ∷ (addons ++ payload)) ≡ ok payload
unfolding strip_response_header
strip_response_header-header version addons payload =
    ground
      (arith, length-append addons payload, drop-append_left addons payload (length addons) refl)

-- A write of the bytes that the client is to receive, and how it ends.
pub record Write : Type 0 where
  pub bytes : List ℕ
  pub write_ec : ErrorCode

abbrev pub IsFull : Write → Type 0
IsFull w = is_empty w.bytes ≡ false

-- How a write ends the relay: not at all, by a return where the client is gone, or by throwing.
abbrev pub end_of : ErrorCode → Option (Result Bool)
end_of success = none
end_of eof = some (ok true)
end_of connection_reset = some (ok true)
end_of operation_aborted = some (ok true)
end_of websocket_closed = some (err system_error)
end_of other_error = some (err system_error)

abbrev pub Succeeds : Write → Type 0
Succeeds w = w.write_ec ≡ success

abbrev pub bytes_of : List Write → List (List ℕ)
bytes_of ws = map (λ w. w.bytes) ws

-- Every write succeeds, all the bytes are passed on, and the relay returns; or one write is the first that
-- fails, what stands before it and its own bytes were given to the writes, and it ends the relay.
abbrev pub Passes : List Write → Passed → Type 0
Passes ws p =
    (All Succeeds ws × (p ≡ passed (bytes_of ws) (ok true)))
    ⊎ ((before : List Write) × (w : Write) × (after : List Write) × (ws ≡ before ++ w ∷ after)
        × All Succeeds before
        × (result : Result Bool) × (end_of w.write_ec ≡ some result)
        × (p ≡ passed (bytes_of before ++ (w.bytes ∷ [])) result))

abbrev Ended : List ℕ → ErrorCode → Passed → Type 0
Ended bytes ec later =
    (result : Result Bool) × (end_of ec ≡ some result)
    × (after_write bytes ec later ≡ passed (bytes ∷ []) result)

after_write-cases :
    (bytes : List ℕ) (ec : ErrorCode) (later : Passed)
    → ((ec ≡ success) × (after_write bytes ec later ≡ ahead bytes later)) ⊎ Ended bytes ec later
unfolding is_stream_closed
after_write-cases bytes success later = inl (refl, refl)
after_write-cases bytes eof later = inr (ok true, refl, refl)
after_write-cases bytes connection_reset later = inr (ok true, refl, refl)
after_write-cases bytes operation_aborted later = inr (ok true, refl, refl)
after_write-cases bytes websocket_closed later = inr (err system_error, refl, refl)
after_write-cases bytes other_error later = inr (err system_error, refl, refl)

after_write-Passes :
    (w : Write) (ws : List Write) (later : Passed)
    → Passes ws later
    → Passes (w ∷ ws) (after_write w.bytes w.write_ec later)
after_write-Passes w ws later rest = elim (after_write-cases w.bytes w.write_ec later) [
  | inr (result, e, p) ↦ inr ([], w, ws, refl, tt, result, e, p)
  | inl (good, p) ↦ elim rest [
    | inl (all, e) ↦ inl ((good, all), p ∙ ap (ahead w.bytes) e)
    | inr (before, x, after, split, all, result, ends, e) ↦ inr (
      w ∷ before,
      x,
      after,
      ap (◌∷◌ w) split,
      (good, all),
      result,
      ends,
      p ∙ ap (ahead w.bytes) e,
    )
  ]
]

-- The messages of a stream that gives those bytes, then its end.
abbrev pub ended : Message
ended = record { read = ok []; write_ec = success }

abbrev pub messages_of : List Write → List Message
messages_of [] = ended ∷ []
messages_of (w ∷ ws) = record { read = ok w.bytes; write_ec = w.write_ec } ∷ messages_of ws

relay_rest :
    (ws : List Write) → All IsFull ws → Passes ws (relay_stream_to_tcp false (messages_of ws))
unfolding relay_stream_to_tcp
relay_rest [] h = inl (tt, refl)
relay_rest (w ∷ ws) h =
    rw (relay_stream_to_tcp, h.0)
      (after_write-Passes w ws (relay_stream_to_tcp false (messages_of ws)) (relay_rest ws h.1))

-- The first message with a response header in front of the bytes that the client is to receive.
abbrev pub headed : ℕ → List ℕ → Write → Message
headed version addons w = record {
  read = ok (version ∷ length addons ∷ (addons ++ w.bytes));
  write_ec = w.write_ec;
}

-- The relay takes the response header off the first message, where the message holds all of it, and
-- passes on what is behind it, then the other messages unchanged, in their order, up to the end of the
-- stream, upon which it returns. At the first write that fails it ends, after it was given the bytes:
-- it returns where the client is gone (end of file, a reset or an aborted operation), and throws
-- otherwise.
pub relay_stream_to_tcp-header :
    (version : ℕ) (addons : List ℕ) (w : Write) (ws : List Write)
    → All IsFull ws
    → Passes (w ∷ ws) (relay_stream_to_tcp true (headed version addons w ∷ messages_of ws))
unfolding relay_stream_to_tcp
relay_stream_to_tcp-header version addons w ws h =
    rw (relay_stream_to_tcp, strip_response_header-header version addons w.bytes)
      (after_write-Passes w ws (relay_stream_to_tcp false (messages_of ws)) (relay_rest ws h))
