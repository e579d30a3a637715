-- ===== src/Network/Rules.antt =====
-- What holds after code that makes calls, one rule for each way to build such code.
use cppbox.Prelude.{
  ℕ, ◌≡◌, ◌≢◌, refl, Bool, true, false, Option, none, some, List, [], ◌∷◌, Result, Error, ok, err,
  stuck, if◌then◌else◌,
}
use cppbox.Network.{
  Call, Event, Answer, returned, thrown, result_of, close, Peer, Io, pure, lift, throw, attempt,
  perform, perform_when, and_then, caught, ◌>>=◌,
}

-- `Q` for a result, `E` where the code throws or does not end.
abbrev pub Ends {ℓ} :
    {A : Type ℓ}
    → (A → List Event → Type 0)
    → (List Event → Type 0)
    → Result A
    → List Event
    → Type 0
Ends Q E (ok a) events = Q a events
Ends Q E (err error) events = E events
Ends Q E stuck events = E events

-- Behind a `try` block, whether it has returned or thrown.
abbrev pub After {ℓ} :
    {A : Type ℓ}
    → (A → List Event → Type 0)
    → (List Event → Type 0)
    → Option A
    → List Event
    → Type 0
After Q E none events = E events
After Q E (some a) events = Q a events

-- From every history with `P`, the code ends with `Q` or throws with `E`.
pub record Yields {ℓ} {A : Type ℓ} (P : List Event → Type 0) (m : Io A)
    (Q : A → List Event → Type 0) (E : List Event → Type 0) : Type ℓ where
  pub at : (events : List Event) → P events → Ends Q E (m events).0 (m events).1

module _ {P E : List Event → Type 0} where
  pub Yields-perform :
      (p : Peer) (c : Call) (Q : List ℕ → List Event → Type 0)
      → ((events : List Event) (bytes : List ℕ)
          → P events
          → Q bytes (record { call = c; answer = returned bytes } ∷ events))
      → ((events : List Event) (a : Answer)
          → P events
          → E (record { call = c; answer = a } ∷ events))
      → Yields P (perform p c) Q E
  Yields-perform p c Q good bad = record { at = λ events h. go events (p.answer events c) h }
    where
      go :
          (events : List Event) (a : Answer)
          → P events
          → Ends Q E (result_of a) (record { call = c; answer = a } ∷ events)
      go events (returned bytes) h = good events bytes h
      go events (thrown error) h = bad events (thrown error) h

  pub Yields-close :
      (c : Call) (Q : Unit {0} → List Event → Type 0)
      → ((events : List Event)
          → P events
          → Q tt (record { call = c; answer = returned [] } ∷ events))
      → Yields P (close c) Q E
  Yields-close c Q h = record { at = h }

module _ {ℓ} {A : Type ℓ} {P E : List Event → Type 0} where
  pub Yields-pure :
      (a : A) (Q : A → List Event → Type 0)
      → ((events : List Event) → P events → Q a events)
      → Yields P (pure a) Q E
  Yields-pure a Q h = record { at = h }

  pub Yields-lift :
      (r : Result A) (Q : A → List Event → Type 0)
      → ((events : List Event) (a : A) → r ≡ ok a → P events → Q a events)
      → ((events : List Event) → P events → E events)
      → Yields P (lift r) Q E
  Yields-lift (ok a) Q good bad = record { at = λ events h. good events a refl h }
  Yields-lift (err error) Q good bad = record { at = bad }
  Yields-lift stuck Q good bad = record { at = bad }

  -- The precondition may be weakened on the way in.
  pub Yields-pre :
      {P' : List Event → Type 0} (m : Io A) (Q : A → List Event → Type 0)
      → ((events : List Event) → P' events → P events)
      → Yields P m Q E
      → Yields P' m Q E
  Yields-pre m Q weaken y = record { at = λ events h. y.at events (weaken events h) }

  pub Yields-throw :
      (error : Error) (Q : A → List Event → Type 0)
      → ((events : List Event) → P events → E events)
      → Yields P (throw error) Q E
  Yields-throw error Q h = record { at = h }

  pub Yields-attempt :
      {Q : A → List Event → Type 0} (m : Io A) → Yields P m Q E → Yields P (attempt m) (After Q E) E
  Yields-attempt {Q} m y = record { at = λ events h. go (m events).0 (m events).1 (y.at events h) }
    where
      go :
          (r : Result A) (events : List Event)
          → Ends Q E r events
          → Ends (After Q E) E (caught r) events
      go (ok a) events h = h
      go (err error) events h = h
      go stuck events h = h

  pub Yields-then :
      (test : Bool) (m n : Io A) (Q : A → List Event → Type 0)
      → test ≡ true
      → Yields P m Q E
      → Yields P (if test then m else n) Q E
  Yields-then true m n Q h y = y
  Yields-then false m n Q h y = cc

  pub Yields-if :
      (test : Bool) {m n : Io A} {Q : A → List Event → Type 0}
      → Yields P m Q E
      → Yields P n Q E
      → Yields P (if test then m else n) Q E
  Yields-if true y z = y
  Yields-if false y z = z

  pub Yields-post :
      {Q R : A → List Event → Type 0} (m : Io A)
      → ((a : A) (events : List Event) → Q a events → R a events)
      → Yields P m Q E
      → Yields P m R E
  Yields-post {Q} {R} m weaken y = record {
    at = λ events h. go (m events).0 (m events).1 (y.at events h);
  }
    where
      go : (r : Result A) (events : List Event) → Ends Q E r events → Ends R E r events
      go (ok a) events h = weaken a events h
      go (err error) events h = h
      go stuck events h = h

module _ {ℓ κ} {A : Type ℓ} {B : Type κ} {P E : List Event → Type 0} where
  pub Yields-bind :
      (m : Io A) (next : A → Io B) {Q : A → List Event → Type 0} (R : B → List Event → Type 0)
      → Yields P m Q E
      → ((a : A) → Yields (Q a) (next a) R E)
      → Yields P (m >>= next) R E
  Yields-bind m next {Q} R first second = record {
    at = λ events h. go (m events).0 (m events).1 (first.at events h);
  }
    where
      go :
          (r : Result A) (events : List Event)
          → Ends Q E r events
          → Ends R E (and_then r events next).0 (and_then r events next).1
      go (ok a) events h = (second a).at events h
      go (err error) events h = h
      go stuck events h = h

-- Where the first part returns a value that is known.
pub Yields-known :
    {A B : Type 0} {P E : List Event → Type 0} {Q : B → List Event → Type 0} (a b : A)
    (next : A → Io B)
    → Yields P (next b) Q E
    → Yields (λ events. (a ≡ b) × P events) (next a) Q E
Yields-known a b next y = record { at = λ events h. rw h.0 (y.at events h.1) }

pub Ends-always {ℓ} :
    {A : Type ℓ} (E : List Event → Type 0) (r : Result A) (events : List Event)
    → Ends (λ _. E) E r events
    → E events
Ends-always E (ok a) events h = h
Ends-always E (err error) events h = h
Ends-always E stuck events h = h

pub After-always {ℓ} :
    {A : Type ℓ} (E : List Event → Type 0) (o : Option A) (events : List Event)
    → After (λ _. E) E o events
    → E events
After-always E none events h = h
After-always E (some a) events h = h

-- The code returns or throws: no loop in it runs out of fuel.
pub record Halts {ℓ} {A : Type ℓ} (m : Io A) : Type ℓ where
  pub at : (events : List Event) → (m events).0 ≢ stuck

module _ {ℓ} {A : Type ℓ} where
  pub Halts-pure : (a : A) → Halts (pure a)
  Halts-pure a = record { at = λ events e. cc }

  pub Halts-throw : (error : Error) → Halts (throw {A = A} error)
  Halts-throw error = record { at = λ events e. cc }

  pub Halts-lift : (r : Result A) → r ≢ stuck → Halts (lift r)
  Halts-lift r h = record { at = λ events. h }

  pub Halts-if : (test : Bool) {m n : Io A} → Halts m → Halts n → Halts (if test then m else n)
  Halts-if true h k = h
  Halts-if false h k = k

pub Halts-perform : (p : Peer) (c : Call) → Halts (perform p c)
Halts-perform p c = record { at = λ events. go (p.answer events c) }
  where
    go : (a : Answer) → result_of a ≢ stuck
    go (returned bytes) e = cc
    go (thrown error) e = cc

pub Halts-perform_when : (p : Peer) (test : Bool) (c : Call) → Halts (perform_when p test c)
Halts-perform_when p true c = Halts-perform p c
Halts-perform_when p false c = Halts-pure []

module _ {ℓ κ} {A : Type ℓ} {B : Type κ} where
  -- The rest of the block may use what the first part has returned.
  pub Halts-bind_from :
      (m : Io A) (next : A → Io B)
      → Halts m
      → ((a : A) (events : List Event) → (m events).0 ≡ ok a → Halts (next a))
      → Halts (m >>= next)
  Halts-bind_from m next first rest = record {
    at = λ events. go events (m events).0 (m events).1 refl (first.at events);
  }
    where
      go :
          (events : List Event) (r : Result A) (later : List Event)
          → (m events).0 ≡ r
          → r ≢ stuck
          → (and_then r later next).0 ≢ stuck
      go events (ok a) later e h = (rest a events e).at later
      go events (err error) later e h = λ f. cc
      go events stuck later e h = λ f. h refl

  pub Halts-bind :
      (m : Io A) (next : A → Io B) → Halts m → ((a : A) → Halts (next a)) → Halts (m >>= next)
  Halts-bind m next first rest = Halts-bind_from m next first (λ a events e. rest a)

pub ruleset halting =
    (Halts-pure, Halts-throw, Halts-if, Halts-perform, Halts-perform_when, Halts-bind)
