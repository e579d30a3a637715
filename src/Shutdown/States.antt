-- ===== src/Shutdown/States.antt =====
-- The states that src/core/shutdown.cpp comes to, and its steps between them.
use cppbox.Prelude.{
  ℕ, zero, suc, ◌≡◌, refl, sym, ap, ◌∙◌, ◌⊎◌, inl, inr, Bool, Bool-cases, true, false, not, List,
  [], ◌∷◌, ◌++◌, append-nil,
}
use cppbox.Shutdown.{
  Stop, not_yet, requested, calling, finished, Shutdown, Event, registers, starts, stops, presses,
  signals, polls, proceeds, on_stop, request_stop, start, stop, is_stop_event, console_handler,
  on_signal, step,
}

abbrev pub is_asked : Stop → Bool
is_asked not_yet = false
is_asked p = true

abbrev pub is_finished : Stop → Bool
is_finished finished = true
is_finished p = false

abbrev pub state : Stop → List ℕ → List ℕ → Bool → Bool → ℕ → Shutdown
state p callbacks ran handler waiting posted = record {
  stopping = is_asked p;
  progress = p;
  callbacks = callbacks;
  ran = ran;
  posted = posted;
  waiting = waiting;
  handler_set = handler;
  global_set = not (is_finished p);
  io_stopped = is_finished p;
}

-- The callbacks that an event registers.
abbrev pub registered : Event → List ℕ
registered (registers callback) = callback ∷ []
registered event = []

-- What an event other than `proceeds` does: it may begin the first request, and it leaves the console
-- handler set.
abbrev pub Kept : Event → Stop → List ℕ → List ℕ → Bool → Shutdown → Type 0
Kept event p callbacks ran handler s =
    (q : Stop) × (handler' : Bool) × (waiting : Bool) × (posted : ℕ) × ((q ≡ p)
      ⊎ ((p ≡ not_yet) × (q ≡ requested)))
    × (handler ≡ true → handler' ≡ true)
    × (s ≡ state q (callbacks ++ registered event) ran handler' waiting posted)

module _ (callbacks ran : List ℕ) where
  -- Of an event that registers nothing.
  quiet :
      (event : Event) (p q : Stop) (handler handler' waiting : Bool) (posted : ℕ) (s : Shutdown)
      → registered event ≡ []
      → (q ≡ p) ⊎ ((p ≡ not_yet) × (q ≡ requested))
      → (handler ≡ true → handler' ≡ true)
      → s ≡ state q callbacks ran handler' waiting posted
      → Kept event p callbacks ran handler s
  quiet event p q handler handler' waiting posted s none same set e = (
    q,
    handler',
    waiting,
    posted,
    same,
    set,
    e
        ∙ ap (λ c. state q c ran handler' waiting posted)
            (sym (ap (◌++◌ callbacks) none ∙ append-nil callbacks)),
  )

  presses-known :
      (signal : ℕ) (p : Stop) (waiting : Bool) (posted : ℕ)
      → is_stop_event signal ≡ true
      → Kept
          (presses signal)
          p
          callbacks
          ran
          true
          (step (presses signal) (state p callbacks ran true waiting posted))
  unfolding step console_handler stop
  presses-known signal finished waiting posted known =
      quiet (presses signal) finished finished true true waiting posted _ refl (inl refl) (λ e. e)
        (rw (step, console_handler, known) refl)
  presses-known signal not_yet waiting posted known =
      quiet (presses signal) not_yet not_yet true true waiting (suc posted) _ refl (inl refl)
        (λ e. e) (rw (step, console_handler, known) refl)
  presses-known signal requested waiting posted known =
      quiet (presses signal) requested requested true true waiting (suc posted) _ refl (inl refl)
        (λ e. e) (rw (step, console_handler, known) refl)
  presses-known signal (calling rest) waiting posted known =
      quiet (presses signal) (calling rest) (calling rest) true true waiting (suc posted) _ refl
        (inl refl) (λ e. e) (rw (step, console_handler, known) refl)

  pub presses-Kept :
      (signal : ℕ) (p : Stop) (handler waiting : Bool) (posted : ℕ)
      → Kept
          (presses signal)
          p
          callbacks
          ran
          handler
          (step (presses signal) (state p callbacks ran handler waiting posted))
  unfolding step console_handler
  presses-Kept signal p false waiting posted =
      quiet (presses signal) p p false false waiting posted _ refl (inl refl) (λ e. e) refl
  presses-Kept signal p true waiting posted = elim (Bool-cases (is_stop_event signal)) [
    | inr other ↦
        quiet (presses signal) p p true true waiting posted _ refl (inl refl) (λ e. e)
          (rw (step, console_handler, other) refl)
    | inl known ↦ presses-known signal p waiting posted known
  ]

  signals-Kept :
      (failed : Bool) (p : Stop) (handler waiting : Bool) (posted : ℕ)
      → Kept
          (signals failed)
          p
          callbacks
          ran
          handler
          (step (signals failed) (state p callbacks ran handler waiting posted))
  unfolding step on_signal request_stop
  signals-Kept failed p handler false posted =
      quiet (signals failed) p p handler handler false posted _ refl (inl refl) (λ e. e) refl
  signals-Kept failed finished handler true posted =
      quiet (signals failed) finished finished handler handler true posted _ refl (inl refl)
        (λ e. e) refl
  signals-Kept true not_yet handler true posted =
      quiet (signals true) not_yet not_yet handler handler false posted _ refl (inl refl) (λ e. e)
        refl
  signals-Kept false not_yet handler true posted =
      quiet (signals false) not_yet requested handler handler false posted _ refl (inr (refl, refl))
        (λ e. e) refl
  signals-Kept true requested handler true posted =
      quiet (signals true) requested requested handler handler false posted _ refl (inl refl)
        (λ e. e) refl
  signals-Kept false requested handler true posted =
      quiet (signals false) requested requested handler handler false posted _ refl (inl refl)
        (λ e. e) refl
  signals-Kept true (calling rest) handler true posted =
      quiet (signals true) (calling rest) (calling rest) handler handler false posted _ refl
        (inl refl) (λ e. e) refl
  signals-Kept false (calling rest) handler true posted =
      quiet (signals false) (calling rest) (calling rest) handler handler false posted _ refl
        (inl refl) (λ e. e) refl

  pub polls-Kept :
      (p : Stop) (handler waiting : Bool) (posted : ℕ)
      → Kept polls p callbacks ran handler
          (step polls (state p callbacks ran handler waiting posted))
  unfolding step request_stop
  polls-Kept finished handler waiting posted =
      quiet polls finished finished handler handler waiting posted _ refl (inl refl) (λ e. e) refl
  polls-Kept not_yet handler waiting zero =
      quiet polls not_yet not_yet handler handler waiting 0 _ refl (inl refl) (λ e. e) refl
  polls-Kept requested handler waiting zero =
      quiet polls requested requested handler handler waiting 0 _ refl (inl refl) (λ e. e) refl
  polls-Kept (calling rest) handler waiting zero =
      quiet polls (calling rest) (calling rest) handler handler waiting 0 _ refl (inl refl) (λ e. e)
        refl
  polls-Kept not_yet handler waiting (suc posted) =
      quiet polls not_yet requested handler handler waiting posted _ refl (inr (refl, refl))
        (λ e. e) refl
  polls-Kept requested handler waiting (suc posted) =
      quiet polls requested requested handler handler waiting posted _ refl (inl refl) (λ e. e) refl
  polls-Kept (calling rest) handler waiting (suc posted) =
      quiet polls (calling rest) (calling rest) handler handler waiting posted _ refl (inl refl)
        (λ e. e) refl

  pub step-Kept :
      (event : Event) (p : Stop) (handler waiting : Bool) (posted : ℕ)
      → (event ≡ proceeds)
        ⊎ Kept event p callbacks ran handler
            (step event (state p callbacks ran handler waiting posted))
  unfolding step on_stop start stop
  step-Kept (registers callback) p handler waiting posted =
      inr (p, handler, waiting, posted, inl refl, (λ e. e), refl)
  step-Kept starts p handler waiting posted =
      inr (quiet starts p p handler true true posted _ refl (inl refl) (λ e. refl) refl)
  step-Kept stops p handler waiting posted =
      inr (quiet stops p p handler handler waiting (suc posted) _ refl (inl refl) (λ e. e) refl)
  step-Kept (presses signal) p handler waiting posted =
      inr (presses-Kept signal p handler waiting posted)
  step-Kept (signals failed) p handler waiting posted =
      inr (signals-Kept failed p handler waiting posted)
  step-Kept polls p handler waiting posted = inr (polls-Kept p handler waiting posted)
  step-Kept proceeds p handler waiting posted = inl refl
