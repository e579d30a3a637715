-- ===== src/TunNat/Tests.antt =====
-- Runs of TunNat, and its theorems at concrete inputs.
use cppbox.Prelude.{
  ℕ, zero, suc, ◌+◌, ◌≤◌, ◌<◌, ◌≡◌, refl, true, none, some, [], ◌∷◌, inr, arith, ok, stuck,
}
use cppbox.Prelude.Map.{Map, nat_key, find, contains, insert, erase as erase_key}
use cppbox.TunNat.{
  TunNat, TunFlowKey, TunNatLookupResult, flow_key, init, remove_first, touch_locked, evict_loop,
  evict_one_locked, allocate_loop, allocate_port_locked, make_room, create, lookup_or_create,
  lookup_back,
}
use cppbox.TunNat.Leases.{ServesAll, leases}
use cppbox.TunNat.Refines.{run-init-Serves}
use cppbox.TunNat.Invariant.{IsValid}
use cppbox.TunNat.Exhaustion.{allocate_loop-full-stuck}
use cppbox.TunNat.Methods.{lookup_or_create-IsValid, lookup_or_create-total}
use cppbox.TunNat.Traces.{creates, erases, step, run, run-init-IsValid, run-init-total}

abbrev web : TunFlowKey
web = record { src_ip = 16777226; src_port = 40000; dst_ip = 134744072; dst_port = 443 }

abbrev dns : TunFlowKey
dns = record { src_ip = 16777226; src_port = 40001; dst_ip = 134744072; dst_port = 53 }

-- A table for one session that holds `web`.
abbrev one : TunNat
one = record {
  next_port = 10001;
  max_sessions = 1;
  forward = (web, 10000) ∷ [];
  reverse = (10000, web) ∷ [];
  lru = 10000 ∷ [];
}

-- A table for two sessions that holds `web`.
abbrev two : TunNat
two = record one { max_sessions = 2 }

all_steps : run (creates web ∷ []) (init 1) ≡ ok one
unfolding run step lookup_or_create create make_room evict_one_locked evict_loop
    allocate_port_locked allocate_loop touch_locked remove_first find insert init
all_steps = refl

all_steps_two : run (creates web ∷ []) (init 2) ≡ ok two
unfolding run step lookup_or_create create make_room evict_one_locked evict_loop
    allocate_port_locked allocate_loop touch_locked remove_first find insert init
all_steps_two = refl

one-IsValid : IsValid one
one-IsValid = run-init-IsValid 1 (creates web ∷ []) one all_steps

two-IsValid : IsValid two
two-IsValid = run-init-IsValid 2 (creates web ∷ []) two all_steps_two

abbrev swapped : TunNat
swapped = record {
  next_port = 10002;
  max_sessions = 1;
  forward = (dns, 10001) ∷ [];
  reverse = (10001, dns) ∷ [];
  lru = 10001 ∷ [];
}

abbrev swap_result : TunNatLookupResult
swap_result = record { nat_port = 10001; evicted_nat_port = some 10000 }

create_evicts : lookup_or_create dns one ≡ ok (swapped, swap_result)
unfolding lookup_or_create create make_room evict_one_locked evict_loop allocate_port_locked
    allocate_loop touch_locked remove_first find insert erase_key
create_evicts = refl

abbrev both : TunNat
both = record {
  next_port = 10002;
  max_sessions = 2;
  forward = (web, 10000) ∷ (dns, 10001) ∷ [];
  reverse = (10000, web) ∷ (10001, dns) ∷ [];
  lru = 10000 ∷ 10001 ∷ [];
}

create_adds :
    lookup_or_create dns two ≡ ok (both, record { nat_port = 10001; evicted_nat_port = none })
unfolding lookup_or_create create make_room evict_one_locked evict_loop allocate_port_locked
    allocate_loop touch_locked remove_first find insert erase_key
create_adds = refl

create_finds :
    lookup_or_create web one ≡ ok (one, record { nat_port = 10000; evicted_nat_port = none })
unfolding lookup_or_create touch_locked remove_first find
create_finds = refl

wraps_to_10000 : allocate_loop 3 65535 ((65535, web) ∷ []) ≡ ok (10000, 10001)
unfolding allocate_loop find
wraps_to_10000 = refl

lookup_or_create-IsValid_example : IsValid swapped
lookup_or_create-IsValid_example =
    lookup_or_create-IsValid dns one swapped swap_result one-IsValid create_evicts

lookup_or_create-total_example :
    (n' : TunNat) × (r : TunNatLookupResult) × (lookup_or_create dns one ≡ ok (n', r))
lookup_or_create-total_example = lookup_or_create-total dns one one-IsValid (inr (omega arith))

web_known : find web one.forward ≡ some 10000
unfolding find
web_known = refl

abbrev kept_result : TunNatLookupResult
kept_result = record { nat_port = 10000; evicted_nat_port = none }

web_back : lookup_back 10000 two ≡ some web
unfolding lookup_back find
web_back = refl

web_back_one : lookup_back 10000 one ≡ some web
unfolding lookup_back find
web_back_one = refl

run-init-total_example :
    (n : TunNat) × (run (creates web ∷ creates dns ∷ erases 10001 ∷ []) (init 1) ≡ ok n) × IsValid n
run-init-total_example =
    run-init-total 1 (creates web ∷ creates dns ∷ erases 10001 ∷ []) (omega arith) (omega arith)

-- A table in which the ports lo ... lo + n - 1 are in use.
run_of : ℕ → ℕ → Map ℕ TunFlowKey
run_of zero lo = []
run_of (suc n) lo = (lo, web) ∷ run_of n (lo + 1)

run_of-contains : (n lo q : ℕ) → lo ≤ q → q < lo + n → contains q (run_of n lo) ≡ true
unfolding run_of find
run_of-contains zero lo q low high = absurd (omega arith)
run_of-contains (suc n) lo q low high = ground (arith, run_of-contains n (lo + 1) q)

crowded : TunNat
crowded = record {
  next_port = 10000;
  max_sessions = 0;
  forward = [];
  reverse = run_of 55536 10000;
  lru = [];
}

allocate_loop-full-stuck_example : allocate_loop 200000 10000 (run_of 55536 10000) ≡ stuck
unfolding crowded
allocate_loop-full-stuck_example =
    allocate_loop-full-stuck 200000 crowded (inr (omega arith))
      (λ q low high. run_of-contains 55536 10000 q low (omega arith))

run-init-Serves_example : ServesAll 1 (creates web ∷ []) [] (leases one)
run-init-Serves_example = run-init-Serves 1 (creates web ∷ []) one all_steps
