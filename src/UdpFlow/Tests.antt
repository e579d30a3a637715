-- ===== src/UdpFlow/Tests.antt =====
-- Concrete runs of UdpFlow.
use cppbox.Prelude.{refl, ◌≡◌, false, [], ◌∷◌, ◌++◌}
use cppbox.UdpFlow.{
  Running, begin, new_flow, enqueue, after_enqueue, after_start, start_connected, enqueues,
  connects, Reach, starts_new, steps,
}
use cppbox.UdpFlow.Progress.{IsServed, Serves, IsSent, Reach-IsServed, Reach-order, Reach-drains}

-- Two payloads queued, then the socket is connected.
abbrev two_queued : Running
two_queued = after_enqueue (2 ∷ []) (after_enqueue (1 ∷ []) begin)

abbrev connected_flow : Running
connected_flow = after_start 0 two_queued

connected_flow-Reach : Reach connected_flow
unfolding begin new_flow after_enqueue enqueue
connected_flow-Reach =
    steps
      (steps (steps starts_new (enqueues (1 ∷ []) begin))
        (enqueues (2 ∷ []) (after_enqueue (1 ∷ []) begin)))
      (connects 0 two_queued refl)

Reach-IsServed_example : IsServed connected_flow
Reach-IsServed_example = Reach-IsServed connected_flow connected_flow-Reach

Reach-order_example :
    connected_flow.queued
    ≡ connected_flow.sent
      ++ (connected_flow.busy ++ (connected_flow.lost ++ connected_flow.flow.pending))
Reach-order_example = Reach-order connected_flow connected_flow-Reach

well : connected_flow.failed ≡ false
unfolding begin after_enqueue enqueue after_start start_connected new_flow
well = refl

Reach-drains_example : (u : Running) × Serves connected_flow u × IsSent u connected_flow.queued
Reach-drains_example = Reach-drains connected_flow connected_flow-Reach well
