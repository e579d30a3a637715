-- ===== src/TunNat/Exhaustion.antt =====
-- When `allocate_port_locked` ends, and when it runs for ever.
use cppbox.Prelude.{
  ℕ, zero, suc, ◌-◌, ◌≤◌, ◌<◌, ◌≡◌, refl, true, ◌≢◌, arith, length, Result, Error, ok, err, stuck,
  inl, inr, ◌⊎◌,
}
use cppbox.Prelude.Map.{Map, nat_key, contains}
use cppbox.TunNat.{
  TunFlowKey, TunNat, port_after, allocate_loop, allocate_port_locked, search_rounds, flow_key,
}
use cppbox.TunNat.Ports.{
  IsNextPort, IsFreePort, scan_used, scan_wraps, run-le-size, allocate_loop_sound,
}

allocate_loop-ne-err :
    (fuel n : ℕ) (used : Map ℕ TunFlowKey) (x : Error) → allocate_loop fuel n used ≢ err x
unfolding allocate_loop
allocate_loop-ne-err zero n used x e = cc
allocate_loop-ne-err (suc fuel) n used x e =
    ground (
      arith,
      allocate_loop-ne-err fuel 10000 used x,
      allocate_loop-ne-err fuel (port_after n) used x,
    )

ok_or_stuck :
    (r : Result (ℕ × ℕ))
    → ((x : Error) → r ≢ err x)
    → ((p : ℕ) × (next : ℕ) × (r ≡ ok (p, next))) ⊎ (r ≡ stuck)
ok_or_stuck (ok (p, next)) h = inl (p, next, refl)
ok_or_stuck (err x) h = absurd (h x refl)
ok_or_stuck stuck h = inr refl

-- A search of two rounds that met only used ports would have met 55536 of them.
full_round :
    (fuel n : ℕ) (used : Map ℕ TunFlowKey)
    → 131072 ≤ fuel
    → IsNextPort n
    → allocate_loop fuel n used ≡ stuck
    → 55536 ≤ length used
full_round zero n used h v e = absurd (omega arith)
full_round (suc fuel) n used h (inl z) e = run-le-size 55536 10000 used λ q low high.
    scan_used fuel 10000 used q (omega arith) (at_zero z e) low (omega arith) (omega arith)
  where
    at_zero :
        n ≡ 0 → allocate_loop (suc fuel) n used ≡ stuck → allocate_loop fuel 10000 used ≡ stuck
    at_zero z e = unfold allocate_loop in ground arith
full_round (suc fuel) n used h (inr b) e = run-le-size 55536 10000 used λ q low high.
    scan_used (suc fuel - (65536 - n) - 1) 10000 used q (omega arith)
      (scan_wraps (suc fuel) n used (omega arith) b.1 (omega arith) e) low (omega arith)
      (omega arith)

-- The search of `allocate_port_locked` ends while fewer than 55536 ports are in use.
pub allocate-total :
    (n : TunNat)
    → IsNextPort n.next_port
    → length n.reverse < 55536
    → (p : ℕ) × (next : ℕ) × (allocate_port_locked n ≡ ok (record n { next_port = next }, p))
      × IsFreePort n.reverse p next
unfolding allocate_port_locked
allocate-total n v room =
    elim (ok_or_stuck (allocate_loop search_rounds n.next_port n.reverse)
      (allocate_loop-ne-err search_rounds n.next_port n.reverse)) [
        | inl (p, next, e) ↦
            (p, next, rw e, allocate_loop_sound search_rounds n.next_port n.reverse p next v e)
        | inr e ↦
            absurd (omega (arith, full_round search_rounds n.next_port n.reverse (omega arith) v e))
      ]

pub allocate-eq-ok :
    (n m : TunNat) (p : ℕ)
    → IsNextPort n.next_port
    → allocate_port_locked n ≡ ok (m, p)
    → (next : ℕ) × (m ≡ record n { next_port = next }) × IsFreePort n.reverse p next
unfolding allocate_port_locked
allocate-eq-ok n m p v e =
    elim (ok_or_stuck (allocate_loop search_rounds n.next_port n.reverse)
      (allocate_loop-ne-err search_rounds n.next_port n.reverse)) [
        | inl (q, next, f) ↦ (
          next,
          ground (arith, f),
          ground (arith, f, allocate_loop_sound search_rounds n.next_port n.reverse q next v f),
        )
        | inr f ↦ absurd (ground (arith, f))
      ]

-- Every port that the search tries is in use.
abbrev pub IsFull : Map ℕ TunFlowKey → Type 0
IsFull used = (q : ℕ) → 10000 ≤ q → q < 65536 → contains q used ≡ true

allocate_loop-IsFull :
    (fuel n : ℕ) (used : Map ℕ TunFlowKey)
    → IsFull used
    → IsNextPort n
    → allocate_loop fuel n used ≡ stuck
unfolding allocate_loop
allocate_loop-IsFull zero n used full v = refl
allocate_loop-IsFull (suc fuel) n used full v = ground (
  arith,
  full n,
  allocate_loop-IsFull fuel 10000 used full,
  allocate_loop-IsFull fuel (port_after n) used full,
)

-- With every port in use, the loop of `allocate_port_locked` goes on for ever: no number of rounds
-- gives a port.
pub allocate_loop-full-stuck :
    (fuel : ℕ) (n : TunNat)
    → IsNextPort n.next_port
    → IsFull n.reverse
    → allocate_loop fuel n.next_port n.reverse ≡ stuck
allocate_loop-full-stuck fuel n v full = allocate_loop-IsFull fuel n.next_port n.reverse full v
