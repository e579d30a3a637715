-- ===== src/Shutdown.antt =====
-- Shutting down: src/core/shutdown.hpp and src/core/shutdown.cpp, as built for Windows. A callback is
-- a name; one that throws is logged, and the next one runs.
pub mod States
pub mod Once
pub mod Stops
mod Tests
use cppbox.Prelude.{
  ℕ, zero, suc, Bool, true, false, ◌==◌, ◌||◌, ◌&&◌, not, List, [], ◌∷◌, ◌++◌, if◌then◌else◌,
}

-- How far the `request_stop` that found `stopping_` unset has come: nobody called it, it has set
-- `stopping_`, it calls the callbacks that it has swapped out, of which these are left, it has returned.
pub data Stop : Type 0 where
  not_yet : Stop
  requested : Stop
  calling : List ℕ → Stop
  finished : Stop

-- `ran` are the callbacks called so far, `posted` counts the requests to stop that are posted to the
-- io_context, `waiting` tells whether `signals_.async_wait` is pending, `handler_set` whether Windows
-- has the console handler, `global_set` whether `g_shutdown` is not null, and `io_stopped` whether
-- `io_.stop()` was called.
pub record Shutdown : Type 0 where
  pub stopping : Bool
  pub progress : Stop
  pub callbacks : List ℕ
  pub ran : List ℕ
  pub posted : ℕ
  pub waiting : Bool
  pub handler_set : Bool
  pub global_set : Bool
  pub io_stopped : Bool

unfoldable pub started : Shutdown
started = record {
  stopping = false;
  progress = not_yet;
  callbacks = [];
  ran = [];
  posted = 0;
  waiting = false;
  handler_set = false;
  global_set = true;
  io_stopped = false;
}

unfoldable pub on_stop : ℕ → Shutdown → Shutdown
on_stop callback s = record s { callbacks = s.callbacks ++ (callback ∷ []) }

-- `request_stop` up to the callbacks: of two calls, the second returns here.
unfoldable pub request_stop : Shutdown → Shutdown
request_stop s = elim s.stopping [
  | true ↦ s
  | false ↦ record s { stopping = true; progress = requested }
]

-- `run_callbacks_once`: the swap under the mutex, then one callback at a time.
unfoldable pub swap_callbacks : Shutdown → Shutdown
swap_callbacks s = record s { callbacks = []; progress = calling s.callbacks }

unfoldable pub call_next : ℕ → List ℕ → Shutdown → Shutdown
call_next callback rest s = record s { ran = s.ran ++ (callback ∷ []); progress = calling rest }

-- `request_stop` behind the callbacks.
unfoldable pub stop_io : Shutdown → Shutdown
stop_io s = record s {
  handler_set = false;
  global_set = false;
  waiting = false;
  io_stopped = true;
  progress = finished;
}

-- The next piece of the `request_stop` that is running, if one is.
unfoldable pub proceed : Stop → Shutdown → Shutdown
proceed not_yet s = s
proceed requested s = swap_callbacks s
proceed (calling []) s = stop_io s
proceed (calling (callback ∷ rest)) s = call_next callback rest s
proceed finished s = s

unfoldable pub start : Shutdown → Shutdown
start s = record s { handler_set = true; waiting = true }

unfoldable pub stop : Shutdown → Shutdown
stop s = record s { posted = suc s.posted }

-- CTRL_C_EVENT, CTRL_BREAK_EVENT, CTRL_CLOSE_EVENT, CTRL_LOGOFF_EVENT and CTRL_SHUTDOWN_EVENT.
unfoldable pub is_stop_event : ℕ → Bool
is_stop_event signal = signal == 0 || signal == 1 || signal == 2 || signal == 5 || signal == 6

-- With its result.
unfoldable pub console_handler : ℕ → Shutdown → Shutdown × Bool
console_handler signal s = elim (is_stop_event signal) [
  | true ↦ (if s.global_set then stop s else s, true)
  | false ↦ (s, false)
]

-- The handler of `signals_.async_wait`.
unfoldable pub on_signal : Bool → Shutdown → Shutdown
on_signal failed s = elim failed [
  | true ↦ record s { waiting = false }
  | false ↦ request_stop (record s { waiting = false })
]

-- The handler that `stop` posts.
abbrev pub run_posted : ℕ → Shutdown → Shutdown
run_posted zero s = s
run_posted (suc posted) s = request_stop (record s { posted = posted })

-- What may happen, in any order. `presses` is a console event, `signals` the end of the wait for a
-- signal, with an error or not, `polls` the io_context running one posted handler, and `proceeds` the
-- running `request_stop` doing its next piece.
pub data Event : Type 0 where
  registers : ℕ → Event
  starts : Event
  stops : Event
  presses : ℕ → Event
  signals : Bool → Event
  polls : Event
  proceeds : Event

-- Windows calls the console handler only while it is set, and the io_context runs handlers only until
-- it is stopped.
unfoldable pub step : Event → Shutdown → Shutdown
step (registers callback) s = on_stop callback s
step starts s = start s
step stops s = stop s
step (presses signal) s = elim s.handler_set [ true ↦ (console_handler signal s).0 | false ↦ s ]
step (signals failed) s = elim (s.waiting && not s.io_stopped) [
  | true ↦ on_signal failed s
  | false ↦ s
]
step polls s = elim s.io_stopped [ true ↦ s | false ↦ run_posted s.posted s ]
step proceeds s = proceed s.progress s

unfoldable pub run : List Event → Shutdown → Shutdown
run [] s = s
run (event ∷ events) s = run events (step event s)
