-- ===== src/Prelude/Map.antt =====
-- Maps with one value to a key, as the code uses std::unordered_map: `insert` is `m[k] = v`, and
-- `erase` takes the key out. The order of the entries is not observed.
use Prim.Native.Nat.{ℕ, ◌+◌, ◌≤◌, ◌<◌}
use mathlib.Core.Path.{◌≡◌, refl}
use mathlib.Core.Logic.{◌↔◌, inl, inr}
use mathlib.Core.Bool.{Bool, true, false}
use mathlib.Core.List.{List, [], ◌∷◌}
use mathlib.Core.Option.{Option, none, some}
use native.Mathlib.Omega.{arith}
use cppbox.Prelude.Tests.{◌==◌, ==_iff, Bool-cases, if◌then◌else◌}
use cppbox.Prelude.Lists.{length, text_eq, text_eq→eq, text_eq_self}

pub record Key {ℓ} (K : Type ℓ) : Type ℓ where
  pub same : K → K → Bool
  pub same_iff : (a b : K) → (same a b ≡ true) ↔ (a ≡ b)

instance abbrev pub nat_key : Key ℕ
nat_key = record { same = ◌==◌; same_iff = ==_iff }

pub text_eq_iff : (xs ys : List ℕ) → (text_eq xs ys ≡ true) ↔ (xs ≡ ys)
text_eq_iff xs ys = (text_eq→eq xs ys, λ e. back e)
  where
    back : xs ≡ ys → text_eq xs ys ≡ true
    back e = rw e (text_eq_self ys)

instance abbrev pub text_key : Key (List ℕ)
text_key = record { same = text_eq; same_iff = text_eq_iff }

abbrev pub Map : Type 0 → Type 0 → Type 0
Map K V = List (K × V)

module _ {K V : Type 0} ⦃key : Key K⦄ where
  unfoldable pub find : K → Map K V → Option V
  find k [] = none
  find k ((j, v) ∷ m) = if key.same j k then some v else find k m

  unfoldable pub insert : K → V → Map K V → Map K V
  insert k v [] = (k, v) ∷ []
  insert k v ((j, w) ∷ m) = if key.same j k then (j, v) ∷ m else (j, w) ∷ insert k v m

  unfoldable pub erase : K → Map K V → Map K V
  erase k [] = []
  erase k ((j, v) ∷ m) = if key.same j k then erase k m else (j, v) ∷ erase k m

  abbrev pub contains : K → Map K V → Bool
  contains k m = elim (find k m) [ none ↦ false | some v ↦ true ]

  pub find-insert :
      (k j : K) (v : V) (m : Map K V)
      → find j (insert k v m) ≡ (if key.same k j then some v else find j m)
  unfolding find insert
  find-insert k j v [] = refl
  find-insert k j v ((i, w) ∷ m) =
      ground (arith, find-insert k j v m, key.same_iff i k, key.same_iff k j, key.same_iff i j)

  pub contains-insert :
      (k j : K) (v : V) (m : Map K V)
      → contains j (insert k v m) ≡ (if key.same k j then true else contains j m)
  contains-insert k j v m = elim (Bool-cases (key.same k j)) [
    | inl e ↦ rw (contains, find-insert k j v m, e) refl
    | inr e ↦ rw (contains, find-insert k j v m, e) refl
  ]

  pub find-erase :
      (k j : K) (m : Map K V) → find j (erase k m) ≡ (if key.same k j then none else find j m)
  unfolding find erase
  find-erase k j [] = ground arith
  find-erase k j ((i, w) ∷ m) =
      ground (arith, find-erase k j m, key.same_iff i k, key.same_iff k j, key.same_iff i j)

  pub size-insert-le : (k : K) (v : V) (m : Map K V) → length (insert k v m) ≤ length m + 1
  unfolding insert
  size-insert-le k v [] = omega arith
  size-insert-le k v ((i, w) ∷ m) = ground (arith, size-insert-le k v m)

  pub size-erase-le : (k : K) (m : Map K V) → length (erase k m) ≤ length m
  unfolding erase
  size-erase-le k [] = omega arith
  size-erase-le k ((i, w) ∷ m) = ground (arith, size-erase-le k m)

  pub size-erase-lt :
      (k : K) (m : Map K V) (v : V) → find k m ≡ some v → length (erase k m) < length m
  unfolding find erase
  size-erase-lt k [] v h = cc
  size-erase-lt k ((i, w) ∷ m) v h = ground (arith, size-erase-lt k m v, size-erase-le k m)
