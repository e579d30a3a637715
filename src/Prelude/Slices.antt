-- ===== src/Prelude/Slices.antt =====
-- Stores into a buffer, seen from a part of it.
use Prim.Native.Nat.{ℕ, zero, suc, ◌+◌, ◌<◌, ◌≤◌}
use mathlib.Core.Path.{◌≡◌, refl, ap}
use mathlib.Core.Logic.{◌≢◌}
use mathlib.Core.List.{List, [], ◌∷◌, ◌++◌}
use mathlib.Core.Option.{some}
use native.Mathlib.Omega.{arith}
use cppbox.Prelude.Lists.{length, set, get_elem?, take, drop, All}

module _ {ℓ} {A : Type ℓ} where
  pub get_elem?-set_self :
      (xs : List A) (i : ℕ) (v : A) → i < length xs → get_elem? (set xs i v) i ≡ some v
  get_elem?-set_self [] i v h = absurd (omega arith)
  get_elem?-set_self (x ∷ xs) zero v h = refl
  get_elem?-set_self (x ∷ xs) (suc i) v h = get_elem?-set_self xs i v (omega arith)

  pub get_elem?-set_ne :
      (xs : List A) (i j : ℕ) (v : A) → i ≢ j → get_elem? (set xs i v) j ≡ get_elem? xs j
  get_elem?-set_ne [] i j v h = refl
  get_elem?-set_ne (x ∷ xs) zero zero v h = absurd (h refl)
  get_elem?-set_ne (x ∷ xs) zero (suc j) v h = refl
  get_elem?-set_ne (x ∷ xs) (suc i) zero v h = refl
  get_elem?-set_ne (x ∷ xs) (suc i) (suc j) v h = get_elem?-set_ne xs i j v (λ e. h (ap suc e))

  pub get_elem?-take : (n i : ℕ) (xs : List A) → i < n → get_elem? (take n xs) i ≡ get_elem? xs i
  get_elem?-take zero i xs h = absurd (omega arith)
  get_elem?-take (suc n) i [] h = refl
  get_elem?-take (suc n) zero (x ∷ xs) h = refl
  get_elem?-take (suc n) (suc i) (x ∷ xs) h = get_elem?-take n i xs (omega arith)

  pub get_elem?-drop :
      (t i j : ℕ) (xs : List A) → j ≡ t + i → get_elem? (drop t xs) i ≡ get_elem? xs j
  get_elem?-drop zero i j xs h = ap (get_elem? xs) (omega arith)
  get_elem?-drop (suc t) i j [] h = refl
  get_elem?-drop (suc t) i zero (x ∷ xs) h = absurd (omega arith)
  get_elem?-drop (suc t) i (suc j) (x ∷ xs) h = get_elem?-drop t i j xs (omega arith)

  pub get_elem?-append_right :
      (xs ys : List A) (i j : ℕ) → j ≡ length xs + i → get_elem? (xs ++ ys) j ≡ get_elem? ys i
  get_elem?-append_right [] ys i j h = ap (get_elem? ys) (omega arith)
  get_elem?-append_right (x ∷ xs) ys i zero h = absurd (omega arith)
  get_elem?-append_right (x ∷ xs) ys i (suc j) h = get_elem?-append_right xs ys i j (omega arith)

  pub take-set : (n i : ℕ) (xs : List A) (v : A) → take n (set xs i v) ≡ set (take n xs) i v
  take-set zero i xs v = refl
  take-set (suc n) i [] v = refl
  take-set (suc n) zero (x ∷ xs) v = refl
  take-set (suc n) (suc i) (x ∷ xs) v = ap (◌∷◌ x) (take-set n i xs v)

  pub drop-set :
      (t i j : ℕ) (xs : List A) (v : A) → j ≡ t + i → drop t (set xs j v) ≡ set (drop t xs) i v
  drop-set zero i j xs v h = ap (λ k. set xs k v) (omega arith)
  drop-set (suc t) i j [] v h = refl
  drop-set (suc t) i zero (x ∷ xs) v h = absurd (omega arith)
  drop-set (suc t) i (suc j) (x ∷ xs) v h = drop-set t i j xs v (omega arith)

  take-set_above : (n i : ℕ) (xs : List A) (v : A) → n ≤ i → take n (set xs i v) ≡ take n xs
  take-set_above zero i xs v h = refl
  take-set_above (suc n) i [] v h = refl
  take-set_above (suc n) zero (x ∷ xs) v h = absurd (omega arith)
  take-set_above (suc n) (suc i) (x ∷ xs) v h = ap (◌∷◌ x) (take-set_above n i xs v (omega arith))

  -- A slice below the store.
  pub slice-set_above :
      (m n i : ℕ) (xs : List A) (v : A)
      → m + n ≤ i
      → take n (drop m (set xs i v)) ≡ take n (drop m xs)
  slice-set_above zero n i xs v h = take-set_above n i xs v (omega arith)
  slice-set_above (suc m) n i [] v h = refl
  slice-set_above (suc m) n zero (x ∷ xs) v h = absurd (omega arith)
  slice-set_above (suc m) n (suc i) (x ∷ xs) v h = slice-set_above m n i xs v (omega arith)

  pub set-append_right :
      (xs ys : List A) (i j : ℕ) (v : A) → j ≡ length xs + i → set (xs ++ ys) j v ≡ xs ++ set ys i v
  set-append_right [] ys i j v h = ap (λ k. set ys k v) (omega arith)
  set-append_right (x ∷ xs) ys i zero v h = absurd (omega arith)
  set-append_right (x ∷ xs) ys i (suc j) v h =
      ap (◌∷◌ x) (set-append_right xs ys i j v (omega arith))

module _ {ℓ κ} {A : Type ℓ} (P : A → Type κ) where
  pub All-set : (xs : List A) (i : ℕ) (v : A) → P v → All P xs → All P (set xs i v)
  All-set [] i v p h = tt
  All-set (x ∷ xs) zero v p h = (p, h.1)
  All-set (x ∷ xs) (suc i) v p h = (h.0, All-set xs i v p h.1)

  pub All-take : (n : ℕ) (xs : List A) → All P xs → All P (take n xs)
  All-take zero xs h = tt
  All-take (suc n) [] h = tt
  All-take (suc n) (x ∷ xs) h = (h.0, All-take n xs h.1)

  pub All-drop : (n : ℕ) (xs : List A) → All P xs → All P (drop n xs)
  All-drop zero xs h = h
  All-drop (suc n) [] h = tt
  All-drop (suc n) (x ∷ xs) h = All-drop n xs h.1
