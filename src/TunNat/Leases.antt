-- ===== src/TunNat/Leases.antt =====
-- The table of src/inbound/tun_nat.cpp as what it stands for: the ports given out, each with its flow, the one
-- used longest ago in front. Two maps and a list implement it.
use cppbox.Prelude.{
  ℕ, suc, ◌≤◌, ◌<◌, ◌≡◌, ◌≢◌, refl, ap, ◌⊎◌, inl, inr, true, Bool-cases, Option, none, some, List,
  [], ◌∷◌, ◌++◌, arith, length, ◌==◌, ==_iff, ==_self, if◌then◌else◌,
}
use cppbox.Prelude.Map.{Map, nat_key, find}
use cppbox.TunNat.{TunNat, TunFlowKey, flow_key, remove_first}
use cppbox.TunNat.Lru.{mem}
use cppbox.TunNat.Traces.{Call, creates, erases}

abbrev pub Leases : Type 0
Leases = Map ℕ (Option TunFlowKey)

-- Each port of a list with what it leads to.
abbrev pub entries : (ℕ → Option TunFlowKey) → List ℕ → Leases
entries flow [] = []
entries flow (p ∷ ps) = (p, flow p) ∷ entries flow ps

unfoldable pub leases : TunNat → Leases
leases n = entries (λ p. find p n.reverse) n.lru

unfoldable pub take_out : ℕ → Leases → Leases
take_out p [] = []
take_out p ((q, flow) ∷ xs) = if q == p then xs else (q, flow) ∷ take_out p xs

-- With no place left the lease in front ends.
abbrev pub HasPlace : ℕ → Leases → Leases → Type 0
HasPlace limit xs ys =
    ((limit ≢ 0 → length xs < limit) × (ys ≡ xs))
    ⊎ ((limit ≢ 0) × (limit ≤ length xs) × (lease : ℕ × Option TunFlowKey) × (xs ≡ lease ∷ ys))

-- The service that the table gives: a flow that has a port keeps it and becomes the newest, another flow
-- is given a port that is not in use, and a port that is erased is in use no more.
pub data Serves (limit : ℕ) : Call → Leases → Leases → Type 0 where
  renews :
      (key : TunFlowKey) (p : ℕ) (xs : Leases)
      → find p xs ≡ some (some key)
      → Serves limit (creates key) xs (take_out p xs ++ ((p, some key) ∷ []))
  grants :
      (key : TunFlowKey) (p : ℕ) (xs ys : Leases)
      → ((q : ℕ) → find q xs ≢ some (some key))
      → HasPlace limit xs ys
      → find p ys ≡ none
      → Serves limit (creates key) xs (ys ++ ((p, some key) ∷ []))
  releases : (p : ℕ) (xs : Leases) → Serves limit (erases p) xs (take_out p xs)

pub data ServesAll (limit : ℕ) : List Call → Leases → Leases → Type 0 where
  idle : (xs : Leases) → ServesAll limit [] xs xs
  then_serves :
      (c : Call) (cs : List Call) (xs ys zs : Leases)
      → Serves limit c xs ys
      → ServesAll limit cs ys zs
      → ServesAll limit (c ∷ cs) xs zs

pub find-entries :
    (flow : ℕ → Option TunFlowKey) (l : List ℕ) (p : ℕ)
    → find p (entries flow l) ≡ (if mem p l then some (flow p) else none)
unfolding find
find-entries flow [] p = refl
find-entries flow (q ∷ l) p = elim (Bool-cases (q == p)) [
  | inl same ↦ let w : q ≡ p = (==_iff q p).0 same in rw (w, ==_self p) refl
  | inr other ↦ rw other (find-entries flow l p)
]

pub entries-append :
    (flow : ℕ → Option TunFlowKey) (l m : List ℕ)
    → entries flow (l ++ m) ≡ entries flow l ++ entries flow m
entries-append flow [] m = refl
entries-append flow (p ∷ l) m = ap (◌∷◌ (p, flow p)) (entries-append flow l m)

pub entries-remove_first :
    (flow : ℕ → Option TunFlowKey) (p : ℕ) (l : List ℕ)
    → entries flow (remove_first p l) ≡ take_out p (entries flow l)
unfolding remove_first take_out
entries-remove_first flow p [] = refl
entries-remove_first flow p (q ∷ l) = elim (Bool-cases (q == p)) [
  | inl same ↦ rw same refl
  | inr other ↦ rw other (ap (◌∷◌ (q, flow q)) (entries-remove_first flow p l))
]

pub entries-agree :
    (flow other : ℕ → Option TunFlowKey) (l : List ℕ)
    → ((p : ℕ) → mem p l ≡ true → flow p ≡ other p)
    → entries flow l ≡ entries other l
entries-agree flow other [] h = refl
entries-agree flow other (p ∷ l) h =
    rw (h p (rw (mem, ==_self p) refl))
      (ap (◌∷◌ (p, other p)) (entries-agree flow other l (λ q m. h q (ground arith))))

pub length-entries :
    (flow : ℕ → Option TunFlowKey) (l : List ℕ) → length (entries flow l) ≡ length l
length-entries flow [] = refl
length-entries flow (p ∷ l) = ap suc (length-entries flow l)
