-- ===== src/UdpFlow.antt =====
-- The UDP flows of the TUN inbound: TunUdpFlow of src/inbound/tun_inbound.cpp. Each critical section
-- under the mutex of a flow is one step; what a step spawns is a result.
pub mod Phases
pub mod Progress
pub mod Tests
use cppbox.Prelude.{
  ℕ, suc, ◌+◌, ◌≡◌, Bool, true, false, ◌&&◌, not, Option, none, some, List, [], ◌∷◌, ◌++◌,
  if◌then◌else◌,
}

-- The part of TunUdpFlow that its mutex guards.
pub record TunUdpFlow : Type 0 where
  pub pending : List (List ℕ)
  pub connecting : Bool
  pub connected : Bool
  pub sending : Bool

pub data Spawn : Type 0 where
  nothing : Spawn
  spawn_start : Spawn
  spawn_send_loop : Spawn

unfoldable pub new_flow : TunUdpFlow
new_flow = record { pending = []; connecting = false; connected = false; sending = false }

abbrev pub push : List ℕ → TunUdpFlow → TunUdpFlow
push payload f = record f { pending = f.pending ++ (payload ∷ []) }

unfoldable pub enqueue : List ℕ → TunUdpFlow → TunUdpFlow × Spawn
enqueue payload f =
    if not f.connecting && not f.connected
    then (record (push payload f) { connecting = true }, spawn_start)
    else if f.connected && not f.sending
    then (record (push payload f) { sending = true }, spawn_send_loop)
    else (push payload f, nothing)

-- The critical section of `start`, once the socket is connected.
unfoldable pub start_connected : TunUdpFlow → TunUdpFlow × Spawn
start_connected f =
    if not f.sending
    then (record f { connected = true; connecting = false; sending = true }, spawn_send_loop)
    else (record f { connected = true; connecting = false }, nothing)

-- The critical section of `send_loop`: the payload that it takes, or none, upon which it returns.
abbrev pub take_from : List (List ℕ) → TunUdpFlow → TunUdpFlow × Option (List ℕ)
take_from [] f = (record f { sending = false }, none)
take_from (payload ∷ rest) f = (record f { pending = rest }, some payload)

unfoldable pub send_step : TunUdpFlow → TunUdpFlow × Option (List ℕ)
send_step f = take_from f.pending f

-- A flow with the coroutines that run on it: `starts` that wait for the connection, `loops` that are
-- at the head of `send_loop`, and `busy`, the payloads that other loops are sending. `queued` and
-- `sent` are the payloads that went in and out so far, in their order. `lost` are the payloads whose
-- send failed, and `failed` tells whether `start` or `send_loop`
-- has failed, and called `erase_udp_flow`.
pub record Running : Type 0 where
  pub flow : TunUdpFlow
  pub starts : ℕ
  pub loops : ℕ
  pub busy : List (List ℕ)
  pub queued : List (List ℕ)
  pub sent : List (List ℕ)
  pub lost : List (List ℕ)
  pub failed : Bool

unfoldable pub begin : Running
begin = record {
  flow = new_flow;
  starts = 0;
  loops = 0;
  busy = [];
  queued = [];
  sent = [];
  lost = [];
  failed = false;
}

abbrev pub spawn : Spawn → Running → Running
spawn nothing r = r
spawn spawn_start r = record r { starts = suc r.starts }
spawn spawn_send_loop r = record r { loops = suc r.loops }

unfoldable pub after_enqueue : List ℕ → Running → Running
after_enqueue payload r =
    let (f, s) = enqueue payload r.flow in
    spawn s (record r { flow = f; queued = r.queued ++ (payload ∷ []) })

unfoldable pub after_start : ℕ → Running → Running
after_start starts r =
    let (f, s) = start_connected r.flow in spawn s (record r { flow = f; starts = starts })

abbrev pub took : TunUdpFlow × Option (List ℕ) → ℕ → Running → Running
took (f, none) loops r = record r { flow = f; loops = loops }
took (f, some payload) loops r = record r { flow = f; loops = loops; busy = payload ∷ r.busy }

unfoldable pub after_take : ℕ → Running → Running
after_take loops r = took (send_step r.flow) loops r

-- The catch blocks of `start` and of `send_loop`: the coroutine ends, and the flags stay as they are.
unfoldable pub start_failed : ℕ → Running → Running
start_failed starts r = record r { starts = starts; failed = true }

unfoldable pub send_failed : List ℕ → List (List ℕ) → Running → Running
send_failed payload rest r = record r {
  busy = rest;
  lost = r.lost ++ (payload ∷ []);
  failed = true;
}

-- The steps of the coroutines, in any order. Connecting and sending succeed or fail. Payloads may still
-- be queued in a flow that has failed, by one who found it before it was taken out of the table.
pub data Step : Running → Running → Type 0 where
  enqueues : (payload : List ℕ) (r : Running) → Step r (after_enqueue payload r)
  connects : (starts : ℕ) (r : Running) → r.starts ≡ suc starts → Step r (after_start starts r)
  takes : (loops : ℕ) (r : Running) → r.loops ≡ suc loops → Step r (after_take loops r)
  sends :
      (payload : List ℕ) (rest : List (List ℕ)) (r : Running)
      → r.busy ≡ payload ∷ rest
      → Step r (record r { busy = rest; loops = suc r.loops; sent = r.sent ++ (payload ∷ []) })
  connect_fails :
      (starts : ℕ) (r : Running) → r.starts ≡ suc starts → Step r (start_failed starts r)
  send_fails :
      (payload : List ℕ) (rest : List (List ℕ)) (r : Running)
      → r.busy ≡ payload ∷ rest
      → Step r (send_failed payload rest r)

-- Runs of steps from a new flow.
pub data Reach : Running → Type 0 where
  starts_new : Reach begin
  steps : {r s : Running} → Reach r → Step r s → Reach s
