-- ===== src/Shutdown/Tests.antt =====
-- Concrete runs of Shutdown.
use cppbox.Prelude.{List, [], ◌∷◌}
use cppbox.Shutdown.{Event, registers, starts, stops, presses, polls, proceeds, started, run}
use cppbox.Shutdown.Once.{Ran, registered_until, run-before_stop}

abbrev some_events : List Event
some_events =
    registers 1
    ∷ starts
    ∷ registers 2
    ∷ presses 0
    ∷ polls
    ∷ registers 3
    ∷ proceeds
    ∷ stops
    ∷ registers 4
    ∷ proceeds
    ∷ proceeds
    ∷ polls
    ∷ []

run-before_stop_example : Ran (registered_until started some_events) (run some_events started)
run-before_stop_example = run-before_stop some_events
