-- ===== src/UdpFlow/Phases.antt =====
-- The phases of a UDP flow of src/inbound/tun_inbound.cpp, one of which every reachable state is in.
use cppbox.Prelude.{
  ℕ, zero, suc, ◌≡◌, refl, sym, ◌∙◌, Bool, true, false, List, [], ◌∷◌, ◌++◌, append_assoc, arith,
}
use cppbox.UdpFlow.{
  TunUdpFlow, Running, new_flow, begin, enqueue, start_connected, send_step, after_enqueue,
  after_start, after_take, start_failed, send_failed, Step, enqueues, connects, takes, sends,
  connect_fails, send_fails, Reach, starts_new, steps,
}

abbrev pub flow_of : List (List ℕ) → Bool → Bool → Bool → TunUdpFlow
flow_of pending connecting connected sending = record {
  pending = pending;
  connecting = connecting;
  connected = connected;
  sending = sending;
}

-- The five phases of a flow that has not failed, and the two of one that has.
pub data Phase : Running → Type 0 where
  idle :
      (queued : List (List ℕ))
      → Phase (record {
        flow = flow_of [] false false false;
        starts = 0;
        loops = 0;
        busy = [];
        queued = queued;
        sent = queued;
        lost = [];
        failed = false;
      })
  opening :
      (pending queued sent : List (List ℕ))
      → queued ≡ sent ++ pending
      → Phase (record {
        flow = flow_of pending true false false;
        starts = 1;
        loops = 0;
        busy = [];
        queued = queued;
        sent = sent;
        lost = [];
        failed = false;
      })
  resting :
      (queued sent : List (List ℕ))
      → queued ≡ sent ++ []
      → Phase (record {
        flow = flow_of [] false true false;
        starts = 0;
        loops = 0;
        busy = [];
        queued = queued;
        sent = sent;
        lost = [];
        failed = false;
      })
  ready :
      (pending queued sent : List (List ℕ))
      → queued ≡ sent ++ pending
      → Phase (record {
        flow = flow_of pending false true true;
        starts = 0;
        loops = 1;
        busy = [];
        queued = queued;
        sent = sent;
        lost = [];
        failed = false;
      })
  sending :
      (payload : List ℕ) (pending queued sent : List (List ℕ))
      → queued ≡ sent ++ (payload ∷ pending)
      → Phase (record {
        flow = flow_of pending false true true;
        starts = 0;
        loops = 0;
        busy = payload ∷ [];
        queued = queued;
        sent = sent;
        lost = [];
        failed = false;
      })
  unconnected :
      (pending queued sent : List (List ℕ))
      → queued ≡ sent ++ pending
      → Phase (record {
        flow = flow_of pending true false false;
        starts = 0;
        loops = 0;
        busy = [];
        queued = queued;
        sent = sent;
        lost = [];
        failed = true;
      })
  broken :
      (payload : List ℕ) (pending queued sent : List (List ℕ))
      → queued ≡ sent ++ (payload ∷ pending)
      → Phase (record {
        flow = flow_of pending false true true;
        starts = 0;
        loops = 0;
        busy = [];
        queued = queued;
        sent = sent;
        lost = payload ∷ [];
        failed = true;
      })

-- A payload more behind what is pending.
pub behind :
    (payload : List ℕ) (queued sent pending : List (List ℕ))
    → queued ≡ sent ++ pending
    → queued ++ (payload ∷ []) ≡ sent ++ (pending ++ (payload ∷ []))
behind payload queued sent pending e = rw e (append_assoc sent pending (payload ∷ []))

pub Phase-enqueue : (payload : List ℕ) (r : Running) → Phase r → Phase (after_enqueue payload r)
unfolding after_enqueue enqueue
Phase-enqueue payload _ (idle queued) = opening (payload ∷ []) _ queued refl
Phase-enqueue payload _ (opening pending queued sent e) =
    opening _ _ sent (behind payload queued sent pending e)
Phase-enqueue payload _ (resting queued sent e) = ready _ _ sent (behind payload queued sent [] e)
Phase-enqueue payload _ (ready pending queued sent e) =
    ready _ _ sent (behind payload queued sent pending e)
Phase-enqueue payload _ (sending p pending queued sent e) =
    sending p _ _ sent (behind payload queued sent (p ∷ pending) e)
Phase-enqueue payload _ (unconnected pending queued sent e) =
    unconnected _ _ sent (behind payload queued sent pending e)
Phase-enqueue payload _ (broken p pending queued sent e) =
    broken p _ _ sent (behind payload queued sent (p ∷ pending) e)

pub Phase-start :
    (starts : ℕ) (r : Running) → r.starts ≡ suc starts → Phase r → Phase (after_start starts r)
unfolding after_start start_connected
Phase-start starts _ h (idle queued) = absurd (omega arith)
Phase-start zero _ h (opening pending queued sent e) = ready pending queued sent e
Phase-start (suc starts) _ h (opening pending queued sent e) = absurd (omega arith)
Phase-start starts _ h (resting queued sent e) = absurd (omega arith)
Phase-start starts _ h (unconnected pending queued sent e) = absurd (omega arith)
Phase-start starts _ h (broken p pending queued sent e) = absurd (omega arith)
Phase-start starts _ h (ready pending queued sent e) = absurd (omega arith)
Phase-start starts _ h (sending p pending queued sent e) = absurd (omega arith)

pub Phase-take :
    (loops : ℕ) (r : Running) → r.loops ≡ suc loops → Phase r → Phase (after_take loops r)
unfolding after_take send_step
Phase-take loops _ h (idle queued) = absurd (omega arith)
Phase-take loops _ h (opening pending queued sent e) = absurd (omega arith)
Phase-take loops _ h (resting queued sent e) = absurd (omega arith)
Phase-take loops _ h (unconnected pending queued sent e) = absurd (omega arith)
Phase-take loops _ h (broken p pending queued sent e) = absurd (omega arith)
Phase-take zero _ h (ready [] queued sent e) = resting queued sent e
Phase-take zero _ h (ready (p ∷ pending) queued sent e) = sending p pending queued sent e
Phase-take (suc loops) _ h (ready pending queued sent e) = absurd (omega arith)
Phase-take loops _ h (sending p pending queued sent e) = absurd (omega arith)

pub Phase-send :
    (payload : List ℕ) (rest : List (List ℕ)) (r : Running)
    → r.busy ≡ payload ∷ rest
    → Phase r
    → Phase (record r { busy = rest; loops = suc r.loops; sent = r.sent ++ (payload ∷ []) })
Phase-send payload rest _ h (idle queued) = cc
Phase-send payload rest _ h (opening pending queued sent e) = cc
Phase-send payload rest _ h (resting queued sent e) = cc
Phase-send payload rest _ h (unconnected pending queued sent e) = cc
Phase-send payload rest _ h (broken p pending queued sent e) = cc
Phase-send payload rest _ h (ready pending queued sent e) = cc
Phase-send payload rest _ h (sending p pending queued sent e) =
    rw (none_left, same) (ready pending queued _ (e ∙ sym (append_assoc sent (p ∷ []) pending)))
  where
    same : payload ≡ p
    same = cc

    none_left : rest ≡ []
    none_left = cc

pub Phase-start_failed :
    (starts : ℕ) (r : Running) → r.starts ≡ suc starts → Phase r → Phase (start_failed starts r)
unfolding start_failed
Phase-start_failed starts _ h (idle queued) = absurd (omega arith)
Phase-start_failed zero _ h (opening pending queued sent e) = unconnected pending queued sent e
Phase-start_failed (suc starts) _ h (opening pending queued sent e) = absurd (omega arith)
Phase-start_failed starts _ h (resting queued sent e) = absurd (omega arith)
Phase-start_failed starts _ h (ready pending queued sent e) = absurd (omega arith)
Phase-start_failed starts _ h (sending p pending queued sent e) = absurd (omega arith)
Phase-start_failed starts _ h (unconnected pending queued sent e) = absurd (omega arith)
Phase-start_failed starts _ h (broken p pending queued sent e) = absurd (omega arith)

pub Phase-send_failed :
    (payload : List ℕ) (rest : List (List ℕ)) (r : Running)
    → r.busy ≡ payload ∷ rest
    → Phase r
    → Phase (send_failed payload rest r)
unfolding send_failed
Phase-send_failed payload rest _ h (idle queued) = cc
Phase-send_failed payload rest _ h (opening pending queued sent e) = cc
Phase-send_failed payload rest _ h (resting queued sent e) = cc
Phase-send_failed payload rest _ h (ready pending queued sent e) = cc
Phase-send_failed payload rest _ h (unconnected pending queued sent e) = cc
Phase-send_failed payload rest _ h (broken p pending queued sent e) = cc
Phase-send_failed payload rest _ h (sending p pending queued sent e) =
    rw (none_left, same) (broken p pending queued sent e)
  where
    same : payload ≡ p
    same = cc

    none_left : rest ≡ []
    none_left = cc

pub Phase-step : {r s : Running} → Step r s → Phase r → Phase s
Phase-step (enqueues payload r) p = Phase-enqueue payload r p
Phase-step (connects starts r h) p = Phase-start starts r h p
Phase-step (takes loops r h) p = Phase-take loops r h p
Phase-step (sends payload rest r h) p = Phase-send payload rest r h p
Phase-step (connect_fails starts r h) p = Phase-start_failed starts r h p
Phase-step (send_fails payload rest r h) p = Phase-send_failed payload rest r h p

pub Reach-Phase : {r : Running} → Reach r → Phase r
unfolding begin new_flow
Reach-Phase starts_new = idle []
Reach-Phase (steps reach step) = Phase-step step (Reach-Phase reach)
