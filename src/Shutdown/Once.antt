-- ===== src/Shutdown/Once.antt =====
-- Which callbacks run when the program stops, and when: src/core/shutdown.cpp.
use cppbox.Prelude.{
  ℕ, ◌≡◌, refl, sym, ap, ◌∙◌, ◌⊎◌, inl, inr, Bool, Bool-cases, true, false, subst, List, [], ◌∷◌,
  ◌++◌, append-nil, append_assoc, All,
}
use cppbox.Shutdown.{
  Stop, not_yet, requested, calling, finished, Shutdown, Event, proceeds, started, swap_callbacks,
  call_next, stop_io, proceed, step, run,
}
use cppbox.Shutdown.States.{state, registered, step-Kept}

-- The callbacks have been swapped out.
abbrev pub is_swapped : Stop → Bool
is_swapped not_yet = false
is_swapped requested = false
is_swapped (calling rest) = true
is_swapped finished = true

-- The callbacks that the events register until the first request to stop swaps them out.
abbrev pub registered_until : Shutdown → List Event → List ℕ
registered_until s [] = []
registered_until s (event ∷ events) = elim (is_swapped s.progress) [
  | true ↦ []
  | false ↦ registered event ++ registered_until (step event s) events
]

-- What has run, for each point that the request to stop has come to: nothing until the callbacks are
-- swapped out, then `known` but for those left, then `known`. `stopping_` is set before anything runs, and
-- the io_context is stopped after everything has run.
abbrev pub RanAt : Stop → List ℕ → Shutdown → Type 0
RanAt not_yet known s = (s.stopping ≡ false) × (s.ran ≡ []) × (s.io_stopped ≡ false)
RanAt requested known s = (s.stopping ≡ true) × (s.ran ≡ []) × (s.io_stopped ≡ false)
RanAt (calling rest) known s =
    (s.stopping ≡ true) × (known ≡ s.ran ++ rest) × (s.io_stopped ≡ false)
RanAt finished known s = (s.stopping ≡ true) × (s.ran ≡ known) × (s.io_stopped ≡ true)

abbrev pub Ran : List ℕ → Shutdown → Type 0
Ran known s = RanAt s.progress known s

-- What `proceeds` does at each point.
module _ (callbacks ran : List ℕ) (handler waiting : Bool) (posted : ℕ) where
  pub proceeds-not_yet :
      step proceeds (state not_yet callbacks ran handler waiting posted)
      ≡ state not_yet callbacks ran handler waiting posted
  unfolding step proceed
  proceeds-not_yet = refl

  pub proceeds-requested :
      step proceeds (state requested callbacks ran handler waiting posted)
      ≡ state (calling callbacks) [] ran handler waiting posted
  unfolding step proceed swap_callbacks
  proceeds-requested = refl

  pub proceeds-calling :
      (callback : ℕ) (rest : List ℕ)
      → step proceeds (state (calling (callback ∷ rest)) callbacks ran handler waiting posted)
        ≡ state (calling rest) callbacks (ran ++ (callback ∷ [])) handler waiting posted
  unfolding step proceed call_next
  proceeds-calling callback rest = refl

  pub proceeds-called :
      step proceeds (state (calling []) callbacks ran handler waiting posted)
      ≡ state finished callbacks ran false false posted
  unfolding step proceed stop_io
  proceeds-called = refl

  pub proceeds-finished :
      step proceeds (state finished callbacks ran handler waiting posted)
      ≡ state finished callbacks ran handler waiting posted
  unfolding step proceed
  proceeds-finished = refl

Ran-known : (known known' : List ℕ) (s : Shutdown) → known ≡ known' → Ran known' s → Ran known s
Ran-known known known' s e h = subst (λ k. Ran k s) (sym e) h

Ran-next :
    (known : List ℕ) (events : List Event) (s t : Shutdown)
    → s ≡ t
    → Ran known (run events t)
    → Ran known (run events s)
Ran-next known events s t e h = subst (λ u. Ran known (run events u)) (sym e) h

run-finished :
    (events : List Event) (callbacks ran : List ℕ) (handler waiting : Bool) (posted : ℕ)
    → Ran ran (run events (state finished callbacks ran handler waiting posted))
unfolding run
run-finished [] callbacks ran handler waiting posted = (refl, refl, refl)
run-finished (event ∷ events) callbacks ran handler waiting posted =
    let s : Shutdown = state finished callbacks ran handler waiting posted in
    elim (step-Kept callbacks ran event finished handler waiting posted) [
      | inl is ↦
          Ran-next ran events (step event s) s
            (ap (λ e. step e s) is ∙ proceeds-finished callbacks ran handler waiting posted)
            (run-finished events callbacks ran handler waiting posted)
      | inr (q, h, w, n, inl same, _, e) ↦
          Ran-next ran events (step event s)
            (state finished (callbacks ++ registered event) ran h w n)
            (e ∙ ap (λ p. state p (callbacks ++ registered event) ran h w n) same)
            (run-finished events (callbacks ++ registered event) ran h w n)
      | inr (q, h, w, n, inr (early, _), _, e) ↦ cc
    ]

-- The next callback, or the end.
calling-proceeds :
    (events : List Event) (rest known callbacks ran : List ℕ) (handler waiting : Bool) (posted : ℕ)
    → known ≡ ran ++ rest
    → ((c : ℕ) (later : List ℕ)
        → known ≡ (ran ++ (c ∷ [])) ++ later
        → Ran known
            (run events (state (calling later) callbacks (ran ++ (c ∷ [])) handler waiting posted)))
    → Ran known
        (run events (step proceeds (state (calling rest) callbacks ran handler waiting posted)))
calling-proceeds events [] known callbacks ran handler waiting posted k again =
    Ran-next known events _ _ (proceeds-called callbacks ran handler waiting posted) (
      Ran-known known ran _ (k ∙ append-nil ran)
        (run-finished events callbacks ran false false posted))
calling-proceeds events (c ∷ rest) known callbacks ran handler waiting posted k again =
    Ran-next known events _ _ (proceeds-calling callbacks ran handler waiting posted c rest)
      (again c rest (k ∙ sym (append_assoc ran (c ∷ []) rest)))

run-calling :
    (events : List Event) (rest known callbacks ran : List ℕ) (handler waiting : Bool) (posted : ℕ)
    → known ≡ ran ++ rest
    → Ran known (run events (state (calling rest) callbacks ran handler waiting posted))
unfolding run
run-calling [] rest known callbacks ran handler waiting posted k = (refl, k, refl)
run-calling (event ∷ events) rest known callbacks ran handler waiting posted k =
    let s : Shutdown = state (calling rest) callbacks ran handler waiting posted in
    elim (step-Kept callbacks ran event (calling rest) handler waiting posted) [
      | inl is ↦ Ran-next known events (step event s) (step proceeds s) (ap (λ e. step e s) is) (
          calling-proceeds events rest known callbacks ran handler waiting posted k λ c later k'.
            run-calling events later known callbacks (ran ++ (c ∷ [])) handler waiting posted k')
      | inr (q, h, w, n, inl same, _, e) ↦
          Ran-next known events (step event s)
            (state (calling rest) (callbacks ++ registered event) ran h w n)
            (e ∙ ap (λ p. state p (callbacks ++ registered event) ran h w n) same)
            (run-calling events rest known (callbacks ++ registered event) ran h w n k)
      | inr (q, h, w, n, inr (early, _), _, e) ↦ cc
    ]

registered_until-swapped :
    (events : List Event) (s : Shutdown)
    → is_swapped s.progress ≡ true
    → registered_until s events ≡ []
registered_until-swapped [] s h = refl
registered_until-swapped (event ∷ events) s h = rw (registered_until, h) refl

-- What the callbacks so far and the events to come add up to.
abbrev RunsAll : List ℕ → List Event → Shutdown → Type 0
RunsAll callbacks events s = Ran (callbacks ++ registered_until s events) (run events s)

RunsAll-next :
    (callbacks : List ℕ) (events : List Event) (s t : Shutdown)
    → s ≡ t
    → RunsAll callbacks events t
    → RunsAll callbacks events s
RunsAll-next callbacks events s t e h = subst (RunsAll callbacks events) (sym e) h

waiting-proceeds :
    (events : List Event) (p : Stop) (callbacks : List ℕ) (handler waiting : Bool) (posted : ℕ)
    → is_swapped p ≡ false
    → RunsAll callbacks events (state not_yet callbacks [] handler waiting posted)
    → RunsAll callbacks events (step proceeds (state p callbacks [] handler waiting posted))
waiting-proceeds events not_yet callbacks handler waiting posted h again =
    RunsAll-next callbacks events _ _ (proceeds-not_yet callbacks [] handler waiting posted) again
waiting-proceeds events requested callbacks handler waiting posted h again =
    let s : Shutdown = state (calling callbacks) [] [] handler waiting posted in
    RunsAll-next callbacks events _ s (proceeds-requested callbacks [] handler waiting posted) (
      run-calling events callbacks _ [] [] handler waiting posted
        (ap (◌++◌ callbacks) (registered_until-swapped events s refl) ∙ append-nil callbacks))
waiting-proceeds events (calling rest) callbacks handler waiting posted h again = cc
waiting-proceeds events finished callbacks handler waiting posted h again = cc

Kept-waiting :
    (p q : Stop)
    → (q ≡ p) ⊎ ((p ≡ not_yet) × (q ≡ requested))
    → is_swapped p ≡ false
    → is_swapped q ≡ false
Kept-waiting p q (inl same) h = ap is_swapped same ∙ h
Kept-waiting p q (inr (_, asked)) h = ap is_swapped asked

pub run-waiting :
    (events : List Event) (p : Stop) (callbacks : List ℕ) (handler waiting : Bool) (posted : ℕ)
    → is_swapped p ≡ false
    → Ran
        (callbacks ++ registered_until (state p callbacks [] handler waiting posted) events)
        (run events (state p callbacks [] handler waiting posted))
unfolding run
run-waiting [] not_yet callbacks handler waiting posted h = (refl, refl, refl)
run-waiting [] requested callbacks handler waiting posted h = (refl, refl, refl)
run-waiting [] (calling rest) callbacks handler waiting posted h = cc
run-waiting [] finished callbacks handler waiting posted h = cc
run-waiting (event ∷ events) p callbacks handler waiting posted h =
    let s : Shutdown = state p callbacks [] handler waiting posted in
    let more : List ℕ = callbacks ++ registered event in
    let all : callbacks ++ registered_until s (event ∷ events)
        ≡ more ++ registered_until (step event s) events =
      ap (◌++◌ callbacks) (rw (registered_until, h) refl)
      ∙ sym (append_assoc callbacks (registered event) (registered_until (step event s) events)) in
    Ran-known _ _ (run events (step event s)) all
      elim (step-Kept callbacks [] event p handler waiting posted) [
        | inl is ↦
            let none : more ≡ callbacks =
              ap (λ e. callbacks ++ registered e) is ∙ append-nil callbacks in
            subst (λ c. RunsAll c events (step event s)) (sym none)
              (RunsAll-next callbacks events (step event s) (step proceeds s)
                (ap (λ e. step e s) is)
                (waiting-proceeds events p callbacks handler waiting posted h
                  (run-waiting events not_yet callbacks handler waiting posted refl)))
        | inr (q, h', w, n, same, _, e) ↦
            RunsAll-next more events (step event s) (state q more [] h' w n) e
              (run-waiting events q more h' w n (Kept-waiting p q same h))
      ]

-- Whatever happens, and in whatever order, no callback runs before `stopping_` is set. Those that run
-- are the ones registered until the first request to stop swaps them out, each once and in the order of
-- registration, and the io_context is stopped only when all of them have run.
pub run-before_stop :
    (events : List Event) → Ran (registered_until started events) (run events started)
unfolding started
run-before_stop events = run-waiting events not_yet [] false false 0 refl

pub run-append : (xs ys : List Event) (s : Shutdown) → run (xs ++ ys) s ≡ run ys (run xs s)
unfolding run
run-append [] ys s = refl
run-append (x ∷ xs) ys s = run-append xs ys (step x s)

-- Events that register nothing change nothing of it.
abbrev pub IsQuiet : List Event → Type 0
IsQuiet = All (λ event. registered event ≡ [])

registered_until-quiet : (ys : List Event) (s : Shutdown) → IsQuiet ys → registered_until s ys ≡ []
registered_until-quiet [] s h = refl
registered_until-quiet (y ∷ ys) s h = elim (Bool-cases (is_swapped s.progress)) [
  | inl on ↦ rw (registered_until, on) refl
  | inr off ↦ rw (registered_until, off, h.0) (registered_until-quiet ys (step y s) h.1)
]

pub registered_until-append :
    (xs ys : List Event) (s : Shutdown)
    → IsQuiet ys
    → registered_until s (xs ++ ys) ≡ registered_until s xs
registered_until-append [] ys s h = registered_until-quiet ys s h
registered_until-append (x ∷ xs) ys s h =
    ap
      (λ later. elim (is_swapped s.progress) as (λ _. List ℕ) [
        | true ↦ []
        | false ↦ registered x ++ later
      ])
      (registered_until-append xs ys (step x s) h)

pub Ran-stopped :
    (known : List ℕ) (s : Shutdown) → Ran known s → s.io_stopped ≡ true → s.ran ≡ known
Ran-stopped known s h down = go s.progress h
  where
    go : (p : Stop) → RanAt p known s → s.ran ≡ known
    go not_yet (_, _, up) = let w = sym up ∙ down in cc
    go requested (_, _, up) = let w = sym up ∙ down in cc
    go (calling rest) (_, _, up) = let w = sym up ∙ down in cc
    go finished (_, e, _) = e
