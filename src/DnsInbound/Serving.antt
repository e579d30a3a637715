-- ===== src/DnsInbound/Serving.antt =====
-- The loop of the DNS inbound, `DnsInbound::start` of src/dns/dns_inbound.cpp, and what becomes of each request.
use cppbox.Prelude.{
  ℕ, ◌≡◌, refl, sym, ◌∙◌, Bool, true, false, not, Option, none, some, List, [], ◌∷◌, ◌++◌,
  append-nil, append_assoc, inl, inr, ◌⊎◌, ◌||◌, Bool-cases, if◌then◌else◌, Result, ok, ◌>>=◌,
}
use cppbox.Address.{AddressText}
use cppbox.DnsMessage.{DnsQuestion, parse_question, parse_response}
use cppbox.DnsMessage.Safety.{parse_question-IsSafe, parse_response-IsSafe}
use cppbox.DnsServer.{
  is_plain, uses_tls, DnsItemConfig, DnsServer, pick_nameserver, query_dns, query,
}
use cppbox.DnsServer.Returning.{
  Returns, Throws, IsSafe-Returns, Returns-cases, pick_nameserver-Returns,
}
use cppbox.DnsInbound.{DnsInbound, stop, ip_list_text, handle_request}

-- The coroutine `start`: whether it waits for a datagram, and the requests with their clients for which it
-- has spawned `handle_request`.
pub record Receiving : Type 0 where
  pub inbound : DnsInbound
  pub waiting : Bool
  pub handled : List (List ℕ × ℕ)

-- A datagram comes, the receive fails or is cancelled, or `stop` is called.
pub data Event : Type 0 where
  receives : List ℕ → ℕ → Event
  fails : Event
  stops : Event

-- `while (!stopping_.load())`.
unfoldable pub loop_head : Receiving → Receiving
loop_head r = record r { waiting = not r.inbound.stopping }

unfoldable pub start_dns : DnsInbound → Receiving
unfolding loop_head
start_dns inbound =
    loop_head
      (record { inbound = record inbound { socket_open = true }; waiting = false; handled = [] })

-- A receive that is done when `stop` comes still returns its datagram.
unfoldable pub turn : Event → Receiving → Receiving
unfolding loop_head
turn (receives request client) r =
    if r.waiting
    then loop_head (record r { handled = r.handled ++ ((request, client) ∷ []) })
    else r
turn fails r = record r { waiting = false }
turn stops r = record r { inbound = stop r.inbound }

unfoldable pub run : List Event → Receiving → Receiving
run [] r = r
run (event ∷ events) r = run events (turn event r)

-- The first request, where no failure comes ahead of it.
abbrev pub last_request : List Event → List (List ℕ × ℕ)
last_request [] = []
last_request (receives request client ∷ events) = (request, client) ∷ []
last_request (fails ∷ events) = []
last_request (stops ∷ events) = last_request events

-- The requests up to the first failure or the first call of `stop`, and at most one behind that.
abbrev pub requests : List Event → List (List ℕ × ℕ)
requests [] = []
requests (receives request client ∷ events) = (request, client) ∷ requests events
requests (fails ∷ events) = []
requests (stops ∷ events) = last_request events

abbrev state : Bool → Bool → Bool → List (List ℕ × ℕ) → Receiving
state stopping is_open waiting handled = record {
  inbound = record { stopping = stopping; socket_open = is_open };
  waiting = waiting;
  handled = handled;
}

run-ended :
    (events : List Event) (stopping is_open : Bool) (handled : List (List ℕ × ℕ))
    → (run events (state stopping is_open false handled)).handled ≡ handled
unfolding run turn stop
run-ended [] stopping is_open handled = refl
run-ended (receives request client ∷ events) stopping is_open handled =
    run-ended events stopping is_open handled
run-ended (fails ∷ events) stopping is_open handled = run-ended events stopping is_open handled
run-ended (stops ∷ events) true is_open handled = run-ended events true is_open handled
run-ended (stops ∷ events) false is_open handled = run-ended events true false handled

run-last_request :
    (events : List Event) (is_open : Bool) (handled : List (List ℕ × ℕ))
    → (run events (state true is_open true handled)).handled ≡ handled ++ last_request events
unfolding run turn stop
run-last_request [] is_open handled = sym (append-nil handled)
run-last_request (receives request client ∷ events) is_open handled =
    run-ended events true is_open (handled ++ ((request, client) ∷ []))
run-last_request (fails ∷ events) is_open handled =
    run-ended events true is_open handled ∙ sym (append-nil handled)
run-last_request (stops ∷ events) is_open handled = run-last_request events is_open handled

run-requests :
    (events : List Event) (is_open : Bool) (handled : List (List ℕ × ℕ))
    → (run events (state false is_open true handled)).handled ≡ handled ++ requests events
unfolding run turn stop
run-requests [] is_open handled = sym (append-nil handled)
run-requests (receives request client ∷ events) is_open handled =
    run-requests events is_open (handled ++ ((request, client) ∷ []))
    ∙ append_assoc handled ((request, client) ∷ []) (requests events)
run-requests (fails ∷ events) is_open handled =
    run-ended events false is_open handled ∙ sym (append-nil handled)
run-requests (stops ∷ events) is_open handled = run-last_request events false handled

-- Whatever comes, and in whatever order, the DNS inbound handles each request that is received before
-- the first failure and the first call of stop, in their order, and behind that call at most one more.
pub start_dns-requests :
    (events : List Event) (is_open : Bool)
    → (run events (start_dns (record { stopping = false; socket_open = is_open }))).handled
      ≡ requests events
unfolding start_dns
start_dns-requests events is_open = run-requests events true []

ip_list_text-Returns : (response : List ℕ) → Returns (ip_list_text response)
unfolding ip_list_text
ip_list_text-Returns response =
    elim (Returns-cases (parse_response response)
      (IsSafe-Returns _ (parse_response-IsSafe response))) [
        | inl (records, e) ↦ rw (e, ◌>>=◌) tt
        | inr (error, e) ↦ rw (e, ◌>>=◌) tt
      ]

module _ (t : AddressText) (exchange : DnsItemConfig → List ℕ → Result (List ℕ)) where
  query_dns-Returns :
      (server : DnsItemConfig) (message : List ℕ)
      → Returns (exchange server message)
      → Returns (query_dns t exchange server message)
  unfolding query_dns
  query_dns-Returns server message h = elim (Bool-cases (is_plain server || uses_tls server)) [
    | inl known ↦ rw (known, query_dns) h
    | inr other ↦ rw (other, query_dns) tt
  ]

  -- A client is sent the response of the nameserver that is picked for its question, if it can be parsed.
  abbrev pub Replies : DnsServer → List ℕ → DnsItemConfig → Option (List ℕ) → Type 0
  Replies s request server (some response) =
      (query_dns t exchange server request ≡ ok response)
      × ((ips : List ℕ) × (ip_list_text response ≡ ok ips))
  Replies s request server none =
      Throws (query_dns t exchange server request)
      ⊎ ((response : List ℕ) × (query_dns t exchange server request ≡ ok response)
          × Throws (ip_list_text response))

  -- It is sent nothing if the request has no question that can be read, or a rule throws on its name.
  abbrev pub Sent : DnsServer → List ℕ → Option (List ℕ) → Type 0
  Sent s request reply =
      ((reply ≡ none) × Throws (parse_question request))
      ⊎ ((question : DnsQuestion) × (parse_question request ≡ ok question)
          × (((reply ≡ none) × Throws (pick_nameserver t s question.name))
              ⊎ ((server : DnsItemConfig) × (pick_nameserver t s question.name ≡ ok server)
                  × Replies s request server reply)))

  picked_request :
      (s : DnsServer) (request : List ℕ) (question : DnsQuestion) (server : DnsItemConfig)
      → Returns (exchange server request)
      → parse_question request ≡ ok question
      → pick_nameserver t s question.name ≡ ok server
      → (reply : Option (List ℕ)) × (handle_request t exchange s request ≡ ok reply)
        × Replies s request server reply
  unfolding handle_request query
  picked_request s request question server returns asked picked =
      elim (Returns-cases (query_dns t exchange server request)
        (query_dns-Returns server request returns)) [
          | inr (error, e) ↦
              let none_sent : Replies s request server none = inl (error, e) in
              (none, rw (asked, ◌>>=◌, picked, e) refl, none_sent)
          | inl (response, e) ↦
              elim (Returns-cases (ip_list_text response) (ip_list_text-Returns response)) [
                | inl (ips, f) ↦
                    let response_sent : Replies s request server (some response) = (e, (ips, f)) in
                    (some response, rw (asked, ◌>>=◌, picked, e, f) refl, response_sent)
                | inr (error, f) ↦
                    let none_sent : Replies s request server none = inr (response, e, (error, f)) in
                    (none, rw (asked, ◌>>=◌, picked, e, f) refl, none_sent)
              ]
        ]

  -- Where every query returns or throws, handle_request returns on every request, and sends the client the
  -- response of the nameserver that is picked for its question, if it can be parsed. It sends nothing
  -- exactly where something throws: reading the question, picking the nameserver, the query, or parsing the
  -- response.
  pub handle_request-Sent :
      (s : DnsServer) (request : List ℕ)
      → ((server : DnsItemConfig) (message : List ℕ) → Returns (exchange server message))
      → (reply : Option (List ℕ)) × (handle_request t exchange s request ≡ ok reply)
        × Sent s request reply
  unfolding handle_request query
  handle_request-Sent s request returns =
      elim (Returns-cases (parse_question request)
        (IsSafe-Returns _ (parse_question-IsSafe request))) [
          | inr (error, e) ↦ (none, rw (e, ◌>>=◌) refl, inl (refl, (error, e)))
          | inl (question, e) ↦
              elim (Returns-cases (pick_nameserver t s question.name)
                (pick_nameserver-Returns t s question.name)) [
                  | inr (error, f) ↦
                      (none, rw (e, ◌>>=◌, f) refl, inr (question, e, inl (refl, (error, f))))
                  | inl (server, picked) ↦
                      let (reply, f, r) =
                        picked_request s request question server (returns server request) e
                          picked in
                      (reply, f, inr (question, e, inr (server, picked, r)))
                ]
        ]
