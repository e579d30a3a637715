-- ===== src/TunNat/Ports.antt =====
-- The search for a free port, `allocate_port_locked` of src/inbound/tun_nat.cpp.
use cppbox.Prelude.{
  ℕ, zero, suc, ◌+◌, ◌-◌, ◌≤◌, ◌<◌, ◌≡◌, true, false, arith, length, Option-cases, inl, inr, ◌⊎◌,
  ok, stuck,
}
use cppbox.Prelude.Map.{Map, nat_key, find, contains, erase, find-erase, size-erase-lt}
use cppbox.TunNat.{TunFlowKey, port_after, allocate_loop}

-- What a successful search returns.
pub record IsFreePort (used : Map ℕ TunFlowKey) (p next : ℕ) : Type 0 where
  pub free : contains p used ≡ false
  pub low : 10000 ≤ p
  pub high : p < 65536
  pub next_eq : next ≡ port_after p

-- The values that `next_port_` takes.
abbrev pub IsNextPort : ℕ → Type 0
IsNextPort n = (n ≡ 0) ⊎ ((10000 ≤ n) × (n < 65536))

pub port_after-IsNextPort : (n : ℕ) → 10000 ≤ n → n < 65536 → IsNextPort (port_after n)
port_after-IsNextPort n low high = ground arith

pub allocate_loop_sound :
    (fuel n : ℕ) (used : Map ℕ TunFlowKey) (p next : ℕ)
    → IsNextPort n
    → allocate_loop fuel n used ≡ ok (p, next)
    → IsFreePort used p next
unfolding allocate_loop
allocate_loop_sound zero n used p next h e = cc
allocate_loop_sound (suc fuel) n used p next h e = ground (
  arith,
  allocate_loop_sound fuel 10000 used p next,
  allocate_loop_sound fuel (port_after n) used p next,
)

-- A search that does not end has met only used ports, up to the wrap-around ...
pub scan_used :
    (fuel n : ℕ) (used : Map ℕ TunFlowKey) (q : ℕ)
    → 0 < n
    → allocate_loop fuel n used ≡ stuck
    → n ≤ q
    → q < n + fuel
    → q < 65536
    → contains q used ≡ true
unfolding allocate_loop
scan_used zero n used q h0 e low near high = absurd (omega arith)
scan_used (suc fuel) n used q h0 e low near high =
    ground (arith, scan_used fuel (port_after n) used q)

-- ... and then starts over from 10000.
pub scan_wraps :
    (fuel n : ℕ) (used : Map ℕ TunFlowKey)
    → 0 < n
    → n < 65536
    → 65536 - n < fuel
    → allocate_loop fuel n used ≡ stuck
    → allocate_loop (fuel - (65536 - n) - 1) 10000 used ≡ stuck
unfolding allocate_loop
scan_wraps zero n used h0 h l e = absurd (omega arith)
scan_wraps (suc zero) n used h0 h l e = absurd (omega arith)
scan_wraps (suc (suc fuel)) n used h0 h l e =
    ground (arith, scan_wraps (suc fuel) (port_after n) used)

-- `n` used ports in a row are `n` entries at least.
pub run-le-size :
    (n lo : ℕ) (used : Map ℕ TunFlowKey)
    → ((q : ℕ) → lo ≤ q → q < lo + n → contains q used ≡ true)
    → n ≤ length used
run-le-size zero lo used h = omega arith
run-le-size (suc n) lo used h = elim (Option-cases (find lo used)) [
  | inl e ↦ absurd (ground (arith, h lo))
  | inr (key, e) ↦ omega (
    arith,
    size-erase-lt lo used key e,
    run-le-size n (lo + 1) (erase lo used)
        (λ q low high. ground (arith, h q, find-erase lo q used)),
  )
]
