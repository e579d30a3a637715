-- ===== src/TunNat/Lru.antt =====
-- The list `lru_` of src/inbound/tun_nat.cpp: what a port that is taken out or moved to the back
-- leaves behind.
use cppbox.Prelude.{
  ℕ, ◌≡◌, refl, Bool, true, false, List, [], ◌∷◌, ◌++◌, arith, ◌==◌, if◌then◌else◌,
}
use cppbox.TunNat.{remove_first}

abbrev pub mem : ℕ → List ℕ → Bool
mem p [] = false
mem p (q ∷ qs) = if q == p then true else mem p qs

-- No port stands in the list twice.
abbrev pub Distinct : List ℕ → Type 0
Distinct [] = Unit {0}
Distinct (q ∷ qs) = (mem q qs ≡ false) × Distinct qs

pub mem-remove_first :
    (p q : ℕ) (qs : List ℕ)
    → Distinct qs
    → mem q (remove_first p qs) ≡ (if p == q then false else mem q qs)
unfolding remove_first
mem-remove_first p q [] d = ground arith
mem-remove_first p q (x ∷ qs) d = ground (arith, mem-remove_first p q qs d.1)

pub mem-append : (q : ℕ) (xs ys : List ℕ) → mem q (xs ++ ys) ≡ (if mem q xs then true else mem q ys)
mem-append q [] ys = refl
mem-append q (x ∷ xs) ys = ground (arith, mem-append q xs ys)

-- `touch_locked` keeps the members, and adds the port.
pub mem-touch :
    (p q : ℕ) (qs : List ℕ)
    → Distinct qs
    → mem q (remove_first p qs ++ (p ∷ [])) ≡ (if p == q then true else mem q qs)
mem-touch p q qs d =
    ground (arith, mem-append q (remove_first p qs) (p ∷ []), mem-remove_first p q qs d)

pub remove_first-Distinct : (p : ℕ) (qs : List ℕ) → Distinct qs → Distinct (remove_first p qs)
unfolding remove_first
remove_first-Distinct p [] d = tt
remove_first-Distinct p (x ∷ qs) d =
    ground (arith, remove_first-Distinct p qs d.1, mem-remove_first p x qs d.1)

append-Distinct : (p : ℕ) (qs : List ℕ) → Distinct qs → mem p qs ≡ false → Distinct (qs ++ (p ∷ []))
append-Distinct p [] d h = (refl, tt)
append-Distinct p (x ∷ qs) d h = ground (arith, append-Distinct p qs d.1, mem-append x qs (p ∷ []))

pub touch-Distinct : (p : ℕ) (qs : List ℕ) → Distinct qs → Distinct (remove_first p qs ++ (p ∷ []))
touch-Distinct p qs d =
    append-Distinct p (remove_first p qs) (remove_first-Distinct p qs d)
      (ground (arith, mem-remove_first p p qs d))
