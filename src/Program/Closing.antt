-- ===== src/Program/Closing.antt =====
-- How the program ends: the callbacks that src/main.cpp registers, on top of Shutdown.
use cppbox.Prelude.{
  ℕ, zero, suc, ◌≡◌, refl, sym, ap, ◌∙◌, inr, Bool, true, false, List, [], ◌∷◌, ◌++◌, replicate,
  if◌then◌else◌,
}
use cppbox.Shutdown.{
  not_yet, Shutdown, Event, registers, starts, presses, polls, proceeds, started, on_stop, start,
  is_stop_event, step, run,
}
use cppbox.Shutdown.States.{state}
use cppbox.Shutdown.Once.{
  registered_until, run-waiting, run-append, IsQuiet, registered_until-append, Ran-stopped,
}
use cppbox.Shutdown.Stops.{run-Live, presses-stops}

-- The names of the two callbacks: one stops every inbound, the other calls `unsetWindowsProxy`.
abbrev pub stop_inbounds : ℕ
stop_inbounds = 0

abbrev pub unset_proxy : ℕ
unset_proxy = 1

-- What `main` does with the shutdown, where the configuration enables the Windows proxy or not.
unfoldable pub register_callbacks : Bool → List Event
register_callbacks enabled =
    if enabled
    then registers stop_inbounds ∷ registers unset_proxy ∷ []
    else registers stop_inbounds ∷ []

unfoldable pub main_events : Bool → List Event
unfolding register_callbacks
main_events enabled = register_callbacks enabled ++ (starts ∷ [])

-- The callbacks in their order.
abbrev pub callbacks : Bool → List ℕ
callbacks true = stop_inbounds ∷ unset_proxy ∷ []
callbacks false = stop_inbounds ∷ []

main-started :
    (enabled : Bool)
    → run (main_events enabled) started ≡ state not_yet (callbacks enabled) [] true true 0
unfolding started main_events register_callbacks run step on_stop start
main-started true = refl
main-started false = refl

IsQuiet-proceeds : (n : ℕ) → IsQuiet (replicate n proceeds)
IsQuiet-proceeds zero = tt
IsQuiet-proceeds (suc n) = (refl, IsQuiet-proceeds n)

-- Whatever happens once `main` has registered its callbacks and started the shutdown, after a console
-- event that ends programs and one posted handler that the io_context then runs, the running
-- `request_stop` comes to its end and the io_context is stopped. The callbacks that have run by then are
-- exactly these, each once: the one that stops the inbounds, then, where the configuration enables the
-- Windows proxy, the one that unsets it, then those that what happened has registered, in their
-- order, until a request to stop swapped the callbacks out.
pub main-stops :
    (enabled : Bool) (events : List Event) (signal : ℕ)
    → is_stop_event signal ≡ true
    → (n : ℕ) × ((run
          (main_events enabled ++ (events ++ (presses signal ∷ polls ∷ replicate n proceeds)))
          started).io_stopped
        ≡ true)
      × ((run
            (main_events enabled ++ (events ++ (presses signal ∷ polls ∷ replicate n proceeds)))
            started).ran
          ≡ callbacks enabled ++ registered_until (run (main_events enabled) started) events)
main-stops enabled events signal known =
    let s0 : Shutdown = state not_yet (callbacks enabled) [] true true 0 in
    let (n, e) =
      presses-stops signal known (run events s0)
        (run-Live events s0 (not_yet, _, _, _, _, _, inr refl, refl)) in
    let last : List Event = presses signal ∷ polls ∷ replicate n proceeds in
    let down : (run (events ++ last) s0).io_stopped ≡ true =
      ap (λ s. s.io_stopped) (run-append events last s0) ∙ e in
    let all : run (main_events enabled ++ (events ++ last)) started ≡ run (events ++ last) s0 =
      run-append (main_events enabled) (events ++ last) started
      ∙ ap (run (events ++ last)) (main-started enabled) in
    let ran : (run (events ++ last) s0).ran ≡ callbacks enabled ++ registered_until s0 events =
      Ran-stopped _ (run (events ++ last) s0)
        (run-waiting (events ++ last) not_yet (callbacks enabled) true true 0 refl) down
      ∙ ap (◌++◌ (callbacks enabled))
          (registered_until-append events last s0 (refl, (refl, IsQuiet-proceeds n))) in
    (
      n,
      ap (λ s. s.io_stopped) all ∙ down,
      ap (λ s. s.ran) all
          ∙ ran
          ∙ ap (λ s. callbacks enabled ++ registered_until s events) (sym (main-started enabled)),
    )
