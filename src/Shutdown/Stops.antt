-- ===== src/Shutdown/Stops.antt =====
-- A console event stops the io_context: src/core/shutdown.cpp.
use cppbox.Prelude.{
  ℕ, suc, ◌≡◌, refl, sym, ap, ◌∙◌, ◌⊎◌, inl, inr, Bool, true, false, List, [], ◌∷◌, ◌++◌, replicate,
}
use cppbox.Shutdown.{
  Stop, not_yet, requested, calling, finished, Shutdown, Event, presses, polls, proceeds,
  request_stop, stop, is_stop_event, console_handler, step, run,
}
use cppbox.Shutdown.States.{is_asked, state, registered, Kept, step-Kept, presses-Kept, polls-Kept}
use cppbox.Shutdown.Once.{
  proceeds-not_yet, proceeds-requested, proceeds-calling, proceeds-called, proceeds-finished,
}

-- The console handler is set, or the request to stop has returned.
abbrev pub Live : Shutdown → Type 0
Live s =
    (p : Stop) × (callbacks : List ℕ) × (ran : List ℕ) × (handler : Bool) × (waiting : Bool)
    × (posted : ℕ) × ((p ≡ finished) ⊎ (handler ≡ true))
    × (s ≡ state p callbacks ran handler waiting posted)

Kept-set :
    (p q : Stop) (handler handler' : Bool)
    → (q ≡ p) ⊎ ((p ≡ not_yet) × (q ≡ requested))
    → (handler ≡ true → handler' ≡ true)
    → (p ≡ finished) ⊎ (handler ≡ true)
    → (q ≡ finished) ⊎ (handler' ≡ true)
Kept-set p q handler handler' same keeps (inr set) = inr (keeps set)
Kept-set p q handler handler' (inl same) keeps (inl end) = inl (same ∙ end)
Kept-set p q handler handler' (inr (early, _)) keeps (inl end) =
    let w : not_yet ≡ finished = sym early ∙ end in cc

proceeds-Live :
    (p : Stop) (callbacks ran : List ℕ) (handler waiting : Bool) (posted : ℕ)
    → (p ≡ finished) ⊎ (handler ≡ true)
    → Live (step proceeds (state p callbacks ran handler waiting posted))
proceeds-Live not_yet callbacks ran handler waiting posted set =
    (_, _, _, _, _, _, set, proceeds-not_yet callbacks ran handler waiting posted)
proceeds-Live requested callbacks ran handler waiting posted (inl end) = cc
proceeds-Live requested callbacks ran handler waiting posted (inr set) =
    (_, _, _, _, _, _, inr set, proceeds-requested callbacks ran handler waiting posted)
proceeds-Live (calling []) callbacks ran handler waiting posted set =
    (_, _, _, _, _, _, inl refl, proceeds-called callbacks ran handler waiting posted)
proceeds-Live (calling (c ∷ rest)) callbacks ran handler waiting posted (inl end) = cc
proceeds-Live (calling (c ∷ rest)) callbacks ran handler waiting posted (inr set) =
    (_, _, _, _, _, _, inr set, proceeds-calling callbacks ran handler waiting posted c rest)
proceeds-Live finished callbacks ran handler waiting posted set =
    (_, _, _, _, _, _, inl refl, proceeds-finished callbacks ran handler waiting posted)

step-Live : (event : Event) (s : Shutdown) → Live s → Live (step event s)
step-Live event s (p, callbacks, ran, handler, waiting, posted, set, e) =
    rw e elim (step-Kept callbacks ran event p handler waiting posted) [
      | inl is ↦ rw is (proceeds-Live p callbacks ran handler waiting posted set)
      | inr (q, h, w, n, same, keeps, e') ↦
          (q, _, ran, h, w, n, Kept-set p q handler h same keeps set, e')
    ]

pub run-Live : (events : List Event) (s : Shutdown) → Live s → Live (run events s)
unfolding run
run-Live [] s h = h
run-Live (event ∷ events) s h = run-Live events (step event s) (step-Live event s h)

-- The running `request_stop`, left alone, stops the io_context.
abbrev pub Finishes : Shutdown → Type 0
Finishes s = (n : ℕ) × ((run (replicate n proceeds) s).io_stopped ≡ true)

Finishes-next : (s t : Shutdown) → step proceeds s ≡ t → Finishes t → Finishes s
unfolding run
Finishes-next s t e (n, h) = (suc n, ap (λ u. (run (replicate n proceeds) u).io_stopped) e ∙ h)

calling-Finishes :
    (rest callbacks ran : List ℕ) (handler waiting : Bool) (posted : ℕ)
    → Finishes (state (calling rest) callbacks ran handler waiting posted)
unfolding run
calling-Finishes [] callbacks ran handler waiting posted =
    Finishes-next _ (state finished callbacks ran false false posted)
      (proceeds-called callbacks ran handler waiting posted) (0, refl)
calling-Finishes (c ∷ rest) callbacks ran handler waiting posted =
    Finishes-next _ (state (calling rest) callbacks (ran ++ (c ∷ [])) handler waiting posted)
      (proceeds-calling callbacks ran handler waiting posted c rest)
      (calling-Finishes rest callbacks (ran ++ (c ∷ [])) handler waiting posted)

asked-Finishes :
    (p : Stop) (callbacks ran : List ℕ) (handler waiting : Bool) (posted : ℕ)
    → is_asked p ≡ true
    → Finishes (state p callbacks ran handler waiting posted)
unfolding run
asked-Finishes not_yet callbacks ran handler waiting posted h = cc
asked-Finishes requested callbacks ran handler waiting posted h =
    Finishes-next _ (state (calling callbacks) [] ran handler waiting posted)
      (proceeds-requested callbacks ran handler waiting posted)
      (calling-Finishes callbacks [] ran handler waiting posted)
asked-Finishes (calling rest) callbacks ran handler waiting posted h =
    calling-Finishes rest callbacks ran handler waiting posted
asked-Finishes finished callbacks ran handler waiting posted h = (0, refl)

Kept-asked :
    (event : Event) (p : Stop) (callbacks ran : List ℕ) (handler : Bool) (s : Shutdown)
    → is_asked p ≡ true
    → Kept event p callbacks ran handler s
    → (q : Stop) × (is_asked q ≡ true)
      × (h : Bool) × (w : Bool) × (n : ℕ) × (s ≡ state q (callbacks ++ registered event) ran h w n)
Kept-asked event p callbacks ran handler s h (q, h', w, n, inl same, _, e) =
    (q, ap is_asked same ∙ h, h', w, n, e)
Kept-asked event p callbacks ran handler s h (q, h', w, n, inr (_, asked), _, e) =
    (q, ap is_asked asked, h', w, n, e)

-- A press of a known event while the request has come as far as `p`, and one posted handler.
module _ (signal : ℕ) (known : is_stop_event signal ≡ true) where
  asked-pressed :
      (p : Stop) (callbacks ran : List ℕ) (handler waiting : Bool) (posted : ℕ)
      → is_asked p ≡ true
      → Finishes (step polls (step (presses signal) (state p callbacks ran handler waiting posted)))
  asked-pressed p callbacks ran handler waiting posted h =
      let (q, a, h', w, n, e) =
        Kept-asked (presses signal) p callbacks ran handler _ h
          (presses-Kept callbacks ran signal p handler waiting posted) in
      let (q', a', h'', w', n', e') =
        Kept-asked polls q (callbacks ++ []) ran h' _ a
          (polls-Kept (callbacks ++ []) ran q h' w n) in
      rw (e, e') (asked-Finishes q' ((callbacks ++ []) ++ []) ran h'' w' n' a')

  first-pressed :
      (callbacks ran : List ℕ) (waiting : Bool) (posted : ℕ)
      → step polls (step (presses signal) (state not_yet callbacks ran true waiting posted))
        ≡ state requested callbacks ran true waiting posted
  unfolding step console_handler stop request_stop
  first-pressed callbacks ran waiting posted = ap (step polls) pressed
    where
      pressed :
          step (presses signal) (state not_yet callbacks ran true waiting posted)
          ≡ state not_yet callbacks ran true waiting (suc posted)
      pressed = rw (step, console_handler, known) refl

  Live-pressed : (s : Shutdown) → Live s → Finishes (step polls (step (presses signal) s))
  Live-pressed s (not_yet, callbacks, ran, handler, waiting, posted, inl end, e) = cc
  Live-pressed s (not_yet, callbacks, ran, handler, waiting, posted, inr set, e) =
      rw (e, set, first-pressed callbacks ran waiting posted)
        (asked-Finishes requested callbacks ran true waiting posted refl)
  Live-pressed s (requested, callbacks, ran, handler, waiting, posted, set, e) =
      rw e (asked-pressed requested callbacks ran handler waiting posted refl)
  Live-pressed s (calling rest, callbacks, ran, handler, waiting, posted, set, e) =
      rw e (asked-pressed (calling rest) callbacks ran handler waiting posted refl)
  Live-pressed s (finished, callbacks, ran, handler, waiting, posted, set, e) =
      rw e (asked-pressed finished callbacks ran handler waiting posted refl)

  pub presses-stops :
      (s : Shutdown)
      → Live s
      → (n : ℕ) × ((run (presses signal ∷ polls ∷ replicate n proceeds) s).io_stopped ≡ true)
  unfolding run
  presses-stops s live = Live-pressed s live
