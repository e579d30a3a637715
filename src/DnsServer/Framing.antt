-- ===== src/DnsServer/Framing.antt =====
-- Messages behind their length, over TCP and TLS: what the nameserver frames is what the query returns.
use cppbox.Prelude.{
  zero, suc, length-take, Bool-cases, inl, inr, ok_injective, ℕ, ◌+◌, ◌*◌, ◌/◌, ◌%◌, ◌<◌, ◌≤◌, ◌≡◌,
  refl, ap, ◌∙◌, sym, Bool, true, false, List, [], ◌∷◌, ◌++◌, All, length, length-append, take,
  drop, take-append_left, leb, ltb, if◌then◌else◌, arith, Result, ok, err, system_error,
}
use native.Mathlib.Decide.{dec_le}
use cppbox.Prelude.Bits.{and_255, or_byte}
use cppbox.Utils.{IsByte, read_be16_at}
use cppbox.Network.{
  Call, Event, Answer, returned, thrown, Peer, result_of, and_then, lift, ◌>>=◌, Done, write, read,
  perform,
}
use cppbox.Network.Rules.{Yields, Yields-perform, Yields-lift, Yields-bind, Ends-always}
use cppbox.DnsServer.{add_tcp_length}
use cppbox.DnsServer.Exchange.{exchange_framed}

-- `async_read` on a connection: a full buffer, or the end of the bytes.
abbrev pub exactly : ℕ → List ℕ → Answer
exactly n bytes = if leb n (length bytes) then returned (take n bytes) else thrown system_error

abbrev pub count_read : Call → Answer → ℕ
count_read (read n) (returned bytes) = n
count_read c a = 0

-- How many bytes have been read.
abbrev pub received : List Event → ℕ
received [] = 0
received (e ∷ events) = count_read e.call e.answer + received events

abbrev pub is_read : Call → Bool
is_read (read n) = true
is_read c = false

-- A connection that takes all that is sent, and on which the nameserver sends those bytes.
pub record Delivers (p : Peer) (incoming : List ℕ) : Type 0 where
  pub takes : (events : List Event) (c : Call) → is_read c ≡ false → p.answer events c ≡ returned []
  pub gives :
      (events : List Event) (n : ℕ)
      → p.answer events (read n) ≡ exactly n (drop (received events) incoming)

-- A connection on which the nameserver sends those bytes.
abbrev pub sending : List ℕ → List Event → Call → Answer
sending incoming events (read n) = exactly n (drop (received events) incoming)
sending incoming events c = returned []

abbrev pub sender : List ℕ → Peer
sender incoming = record { answer = sending incoming; status = λ events. 200 }

sending-takes :
    (incoming : List ℕ) (events : List Event) (c : Call)
    → is_read c ≡ false
    → sending incoming events c ≡ returned []
sending-takes incoming events (read n) h = cc
sending-takes incoming events c h = refl

pub sender-Delivers : (incoming : List ℕ) → Delivers (sender incoming) incoming
sender-Delivers incoming = record { takes = sending-takes incoming; gives = λ events n. refl }

-- What a response is cut out of the bytes received.
abbrev pub unframe : List ℕ → Result (List ℕ)
unframe [] = err system_error
unframe (hi ∷ []) = err system_error
unframe (hi ∷ lo ∷ rest) =
    if leb (hi * 256 + lo) (length rest) then ok (take (hi * 256 + lo) rest) else err system_error

read_be16_at-two :
    (hi lo : ℕ) → hi < 256 → lo < 256 → read_be16_at (hi ∷ lo ∷ []) 0 ≡ ok (hi * 256 + lo)
unfolding read_be16_at
read_be16_at-two hi lo h l = rw (or_byte hi lo l) (ap ok (omega arith))

result_of-exactly :
    (n : ℕ) (bytes : List ℕ)
    → result_of (exactly n bytes)
      ≡ (if leb n (length bytes) then ok (take n bytes) else err system_error)
result_of-exactly n bytes = ground arith

exactly-two : (hi lo : ℕ) (rest : List ℕ) → exactly 2 (hi ∷ lo ∷ rest) ≡ returned (hi ∷ lo ∷ [])
exactly-two hi lo rest = ground arith

not_read : (c : Call) (a : Answer) → is_read c ≡ false → count_read c a ≡ 0
not_read (read n) a h = cc
not_read c a h = refl

module _ (p : Peer) (incoming : List ℕ) (d : Delivers p incoming) (message framed : List ℕ)
    (small : add_tcp_length message ≡ ok framed) where
  -- From the length on.
  behind_length :
      (bytes : List ℕ) (events : List Event)
      → bytes ≡ incoming
      → All IsByte bytes
      → received events ≡ 0
      → (and_then
          (result_of (exactly 2 bytes))
          (record { call = read 2; answer = exactly 2 bytes } ∷ events)
          (λ length_bytes. lift (read_be16_at length_bytes 0) >>= λ size. perform p (read size))).0
        ≡ unframe bytes
  behind_length [] events e h none_read = refl
  behind_length (hi ∷ []) events e h none_read = refl
  behind_length (hi ∷ lo ∷ rest) events e h none_read =
      rw
        (
          exactly-two hi lo rest,
          read_be16_at-two hi lo h.0 h.1.0,
          d.gives (record { call = read 2; answer = returned (hi ∷ lo ∷ []) } ∷ events)
              (hi * 256 + lo),
          none_read,
          ← e,
        )
        (result_of-exactly (hi * 256 + lo) rest)

  pub exchange_framed-unframe :
      (events : List Event)
      → received events ≡ 0
      → All IsByte incoming
      → (exchange_framed p message events).0 ≡ unframe incoming
  unfolding exchange_framed
  exchange_framed-unframe events none_read bytes =
      let sent : Event = record { call = write framed; answer = returned [] } in
      rw (small, d.takes events (write framed) refl, d.gives (sent ∷ events) 2, none_read)
        (behind_length incoming (sent ∷ events) refl bytes (rw none_read refl))

module _ (p : Peer) {incoming : List ℕ} (d : Delivers p incoming) where
  abbrev pub NoneRead : List Event → Type 0
  NoneRead events = received events ≡ 0

  -- Calls that read nothing do not throw.
  pub Yields-takes :
      (c : Call) → is_read c ≡ false → Yields NoneRead (perform p c) (λ _. NoneRead) (λ _. ⊥)
  Yields-takes c h = record {
    at = λ events none_read.
        rw (d.takes events c h) (omega (arith, not_read c (returned []) h, none_read));
  }

take-take : {A : Type 0} (n k : ℕ) (xs : List A) → n ≤ k → take n (take k xs) ≡ take n xs
take-take zero k xs h = refl
take-take (suc n) zero xs h = absurd (omega arith)
take-take (suc n) (suc k) [] h = refl
take-take (suc n) (suc k) (x ∷ xs) h = ap (◌∷◌ x) (take-take n k xs (omega arith))

-- What of a response of that length has arrived.
take_response :
    (response rest : List ℕ) (k n : ℕ)
    → n ≡ length response
    → (if leb n (length (take k (response ++ rest)))
        then ok (take n (take k (response ++ rest)))
        else err system_error)
      ≡ (if leb n k then ok response else err system_error)
take_response response rest k n e = elim (dec_le n k) [
  | yes h ↦
      rw (take-take n k (response ++ rest) h, take-append_left response rest n e)
        (ground (arith, length-take k (response ++ rest), length-append response rest))
  | no h ↦ ground (arith, length-take k (response ++ rest), length-append response rest)
]

-- The two bytes of the length.
framed_bytes :
    (message framed : List ℕ)
    → add_tcp_length message ≡ ok framed
    → (length message < 65536)
      × (framed ≡ (length message / 256 % 256) ∷ (length message % 256) ∷ message)
unfolding add_tcp_length
framed_bytes message framed e = (
  ground arith,
  elim (Bool-cases (ltb 65535 (length message))) [
    | inl h ↦ absurd (ground arith)
    | inr h ↦
        sym (ok_injective (rw h at e))
        ∙ ap (λ low. (length message / 256 % 256) ∷ low ∷ message) (and_255 (length message))
  ],
)

unframe_two :
    (response rest : List ℕ) (k hi lo : ℕ)
    → hi * 256 + lo ≡ length response
    → unframe (take k (hi ∷ lo ∷ response ++ rest))
      ≡ (if leb (length response + 2) k then ok response else err system_error)
unframe_two response rest zero hi lo e = ground arith
unframe_two response rest (suc zero) hi lo e = ground arith
unframe_two response rest (suc (suc k)) hi lo e =
    take_response response rest k (hi * 256 + lo) e ∙ ground arith

-- Of a framed response that has arrived in part the query throws.
pub unframe-take :
    (response framed rest : List ℕ) (k : ℕ)
    → add_tcp_length response ≡ ok framed
    → unframe (take k (framed ++ rest))
      ≡ (if leb (length response + 2) k then ok response else err system_error)
unframe-take response framed rest k e =
    let (small, shape) = framed_bytes response framed e in
    rw shape (
      unframe_two response rest k (length response / 256 % 256) (length response % 256)
        (omega arith))

Yields-Done :
    (p : Peer) (c done : Call) → Yields (Done done) (perform p c) (λ _. Done done) (Done done)
Yields-Done p c done = Yields-perform p c _ (λ events bytes h. inr h) (λ events a h. inr h)

-- The message is sent behind its length.
pub exchange_framed-sends :
    (p : Peer) (incoming : List ℕ) (d : Delivers p incoming) (message framed : List ℕ)
    (events : List Event)
    → add_tcp_length message ≡ ok framed
    → Done (write framed) (exchange_framed p message events).1
unfolding exchange_framed
exchange_framed-sends p incoming d message framed events small =
    let sent : Event = record { call = write framed; answer = returned [] } in
    rw (small, d.takes events (write framed) refl)
      (Ends-always (Done (write framed)) _ _ (
        (Yields-bind _ _ _ (Yields-Done p (read 2) (write framed)) (λ length_bytes.
            Yields-bind _ _ _
              (Yields-lift (read_be16_at length_bytes 0) (λ _. Done (write framed))
                (λ events a e h. h) (λ events h. h))
              (λ size. Yields-Done p (read size) (write framed)))).at
          (sent ∷ events) (inl (refl, tt))))
