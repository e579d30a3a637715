-- ===== src/UdpFlow/Progress.antt =====
-- The payloads of a UDP flow, of which none is sent twice or out of order, and the coroutines that send
-- them: the flags of TunUdpFlow in src/inbound/tun_inbound.cpp.
use cppbox.Prelude.{
  ℕ, ◌+◌, ◌<◌, ◌≤◌, ◌≡◌, refl, sym, ◌∙◌, true, false, List, [], ◌∷◌, ◌++◌, append_assoc, append-nil,
  arith, length,
}
use cppbox.UdpFlow.{
  Running, start_connected, send_step, after_start, after_take, Step, connects, takes, sends, Reach,
}
use cppbox.UdpFlow.Phases.{
  flow_of, Phase, Reach-Phase, idle, opening, resting, ready, sending, unconnected, broken,
}

-- At most one coroutine is at work on a flow, none once the flow has failed, and one while a payload is
-- pending in a flow that has not.
abbrev pub IsServed : Running → Type 0
IsServed r =
    (r.starts + (r.loops + length r.busy) ≤ 1)
    × (r.failed ≡ true → r.starts + (r.loops + length r.busy) ≡ 0)
    × (r.failed ≡ false → 0 < length r.flow.pending → r.starts + (r.loops + length r.busy) ≡ 1)

Phase-IsServed : {r : Running} → Phase r → IsServed r
Phase-IsServed (idle queued) = (omega arith, (λ f. cc), λ f h. absurd (omega arith))
Phase-IsServed (opening pending queued sent e) = (omega arith, (λ f. cc), λ f h. refl)
Phase-IsServed (resting queued sent e) = (omega arith, (λ f. cc), λ f h. absurd (omega arith))
Phase-IsServed (ready pending queued sent e) = (omega arith, (λ f. cc), λ f h. refl)
Phase-IsServed (sending p pending queued sent e) = (omega arith, (λ f. cc), λ f h. refl)
Phase-IsServed (unconnected pending queued sent e) = (omega arith, (λ f. refl), λ f h. cc)
Phase-IsServed (broken p pending queued sent e) = (omega arith, (λ f. refl), λ f h. cc)

-- In every reachable state of a flow at most one coroutine is at work, connecting or sending. There is
-- one whenever a payload is pending, unless connecting or a send has failed: then there is none.
pub Reach-IsServed : (r : Running) → Reach r → IsServed r
Reach-IsServed r reach = Phase-IsServed (Reach-Phase reach)

Phase-order : {r : Running} → Phase r → r.queued ≡ r.sent ++ (r.busy ++ (r.lost ++ r.flow.pending))
Phase-order (idle queued) = sym (append-nil queued)
Phase-order (opening pending queued sent e) = e
Phase-order (resting queued sent e) = e
Phase-order (ready pending queued sent e) = e
Phase-order (sending p pending queued sent e) = e
Phase-order (unconnected pending queued sent e) = e
Phase-order (broken p pending queued sent e) = e

-- In every reachable state, also of a flow that has failed, the payloads queued are those sent, then
-- the one being sent or the one whose send failed, then those pending, in the order in which they
-- were queued.
pub Reach-order :
    (r : Running) → Reach r → r.queued ≡ r.sent ++ (r.busy ++ (r.lost ++ r.flow.pending))
Reach-order r reach = Phase-order (Reach-Phase reach)

-- The steps other than new payloads.
pub data Serves : Running → Running → Type 0 where
  done : (r : Running) → Serves r r
  next : (r s u : Running) → Step r s → s.queued ≡ r.queued → Serves s u → Serves r u

-- A state in which all that was queued is sent.
abbrev pub IsSent : Running → List (List ℕ) → Type 0
IsSent r queued = (r.flow.pending ≡ []) × (r.busy ≡ []) × (r.sent ≡ queued)

abbrev ready_state : List (List ℕ) → List (List ℕ) → List (List ℕ) → Running
ready_state pending queued sent = record {
  flow = flow_of pending false true true;
  starts = 0;
  loops = 1;
  busy = [];
  queued = queued;
  sent = sent;
  lost = [];
  failed = false;
}

abbrev Drains : Running → Type 0
Drains r = (u : Running) × Serves r u × IsSent u r.queued

Drains-ready :
    (pending queued sent : List (List ℕ))
    → queued ≡ sent ++ pending
    → Drains (ready_state pending queued sent)
unfolding after_take send_step
Drains-ready [] queued sent e = (
  after_take 0 (ready_state [] queued sent),
  next _ _ _ (takes 0 (ready_state [] queued sent) refl) refl (done _),
  (refl, refl, sym (append-nil sent) ∙ sym e),
)
Drains-ready (p ∷ pending) queued sent e =
    let (u, run, s) =
      Drains-ready pending queued (sent ++ (p ∷ []))
        (e ∙ sym (append_assoc sent (p ∷ []) pending)) in
    (
      u,
      next _ _ _ (takes 0 (ready_state (p ∷ pending) queued sent) refl) refl (
          next _ _ _ (sends p [] (after_take 0 (ready_state (p ∷ pending) queued sent)) refl) refl
            run),
      s,
    )

Drains-Phase : {r : Running} → Phase r → r.failed ≡ false → Drains r
unfolding after_start start_connected
Drains-Phase (idle queued) f = (_, done _, (refl, refl, refl))
Drains-Phase (unconnected pending queued sent e) f = cc
Drains-Phase (broken p pending queued sent e) f = cc
Drains-Phase (resting queued sent e) f = (_, done _, (refl, refl, sym (append-nil sent) ∙ sym e))
Drains-Phase (ready pending queued sent e) f = Drains-ready pending queued sent e
Drains-Phase (opening pending queued sent e) f =
    let (u, run, s) = Drains-ready pending queued sent e in
    (u, next _ _ _ (connects 0 _ refl) refl run, s)
Drains-Phase (sending p pending queued sent e) f =
    let (u, run, s) =
      Drains-ready pending queued (sent ++ (p ∷ []))
        (e ∙ sym (append_assoc sent (p ∷ []) pending)) in
    (u, next _ _ _ (sends p [] _ refl) refl run, s)

-- From every reachable state of a flow in which neither connecting nor a send has failed, the
-- coroutines at work, with no new payload, can come to a state in which nothing is pending and all
-- that was queued is sent, in its order.
pub Reach-drains :
    (r : Running) → Reach r → r.failed ≡ false → (u : Running) × Serves r u × IsSent u r.queued
Reach-drains r reach well = Drains-Phase (Reach-Phase reach) well
