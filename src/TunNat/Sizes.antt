-- ===== src/TunNat/Sizes.antt =====
-- The sizes of the maps and of the list of src/inbound/tun_nat.cpp: each port in use is counted once.
use cppbox.Prelude.{
  ℕ, ◌+◌, ◌≡◌, refl, sym, ap, subst, ◌∙◌, inl, inr, Bool-cases, Option, true, false, List, [], ◌∷◌,
  arith, length, length-append, ◌==◌, if◌then◌else◌,
}
use cppbox.Prelude.Map.{Map, nat_key, find, insert, erase, contains, contains-insert, find-erase}
use cppbox.TunNat.{TunNat, TunFlowKey, remove_first, touch_locked}
use cppbox.TunNat.Invariant.{add_flow}
use cppbox.TunNat.Methods.{Room, spare, evicted}
use cppbox.TunNat.Lru.{mem}

-- No port has two entries.
abbrev pub HasUniqueKeys : {V : Type 0} → Map ℕ V → Type 0
HasUniqueKeys [] = Unit
HasUniqueKeys ((k, v) ∷ m) = (contains k m ≡ false) × HasUniqueKeys m

module _ {V : Type 0} where
  contains-erase :
      (k j : ℕ) (m : Map ℕ V) → contains j (erase k m) ≡ (if k == j then false else contains j m)
  contains-erase k j m = ground (arith, find-erase k j m)

  pub insert-HasUniqueKeys :
      (k : ℕ) (v : V) (m : Map ℕ V) → HasUniqueKeys m → HasUniqueKeys (insert k v m)
  unfolding insert find
  insert-HasUniqueKeys k v [] u = (refl, tt)
  insert-HasUniqueKeys k v ((j, w) ∷ m) u =
      ground (arith, insert-HasUniqueKeys k v m u.1, contains-insert k j v m)

  pub erase-HasUniqueKeys : (k : ℕ) (m : Map ℕ V) → HasUniqueKeys m → HasUniqueKeys (erase k m)
  unfolding erase
  erase-HasUniqueKeys k [] u = tt
  erase-HasUniqueKeys k ((j, w) ∷ m) u =
      ground (arith, erase-HasUniqueKeys k m u.1, contains-erase k j m)

  pub length-insert_new :
      (k : ℕ) (v : V) (m : Map ℕ V) → contains k m ≡ false → length (insert k v m) ≡ length m + 1
  unfolding insert find
  length-insert_new k v [] h = refl
  length-insert_new k v ((j, w) ∷ m) h = ground (arith, length-insert_new k v m)

  length-erase_missing :
      (k : ℕ) (m : Map ℕ V) → contains k m ≡ false → length (erase k m) ≡ length m
  unfolding erase find
  length-erase_missing k [] h = refl
  length-erase_missing k ((j, w) ∷ m) h = ground (arith, length-erase_missing k m)

  pub length-erase :
      (k : ℕ) (m : Map ℕ V)
      → HasUniqueKeys m
      → contains k m ≡ true
      → length (erase k m) + 1 ≡ length m
  unfolding erase find
  length-erase k [] u h = cc
  length-erase k ((j, w) ∷ m) u h = ground (arith, length-erase k m u.1, length-erase_missing k m)

pub length-remove_first :
    (p : ℕ) (l : List ℕ) → mem p l ≡ true → length (remove_first p l) + 1 ≡ length l
unfolding remove_first
length-remove_first p [] h = cc
length-remove_first p (q ∷ l) h = ground (arith, length-remove_first p l)

-- Each port in use is counted once.
abbrev pub IsCounted : TunNat → Type 0
IsCounted n = (length n.lru ≡ length n.reverse) × HasUniqueKeys n.reverse

pub remove_first_absent : (p : ℕ) (l : List ℕ) → mem p l ≡ false → remove_first p l ≡ l
unfolding remove_first
remove_first_absent p [] h = refl
remove_first_absent p (q ∷ l) h = elim (Bool-cases (q == p)) [
  | inl same ↦ let h' = rw same at h in cc
  | inr other ↦ rw other (ap (◌∷◌ q) (remove_first_absent p l (rw other at h)))
]

pub Room-IsCounted : (n m : TunNat) {o : Option ℕ} → IsCounted n → Room n m o → IsCounted m
Room-IsCounted n m c (spare _ w) = subst IsCounted (sym w) c
Room-IsCounted n m c (evicted p rest key _ ev w) =
    let less = length-erase p n.reverse c.1 (rw (contains, ev.flow) refl) in
    let size : length (p ∷ rest) ≡ length n.reverse = ap length (sym ev.oldest) ∙ c.0 in
    subst IsCounted (sym w) (omega arith, erase-HasUniqueKeys p n.reverse c.1)

pub touch-IsCounted :
    (p : ℕ) (n : TunNat) → mem p n.lru ≡ true → IsCounted n → IsCounted (touch_locked p n)
unfolding touch_locked
touch-IsCounted p n there c = (
  omega (
    arith,
    length-append (remove_first p n.lru) (p ∷ []),
    length-remove_first p n.lru there,
    c.0,
  ),
  c.1,
)

pub add_flow-IsCounted :
    (p next : ℕ) (key : TunFlowKey) (n : TunNat)
    → mem p n.lru ≡ false
    → contains p n.reverse ≡ false
    → IsCounted n
    → IsCounted (add_flow p next key n)
unfolding touch_locked add_flow
add_flow-IsCounted p next key n absent free c = (
  omega (
    arith,
    length-append (remove_first p n.lru) (p ∷ []),
    ap length (remove_first_absent p n.lru absent),
    length-insert_new p key n.reverse free,
    c.0,
  ),
  insert-HasUniqueKeys p key n.reverse c.1,
)
