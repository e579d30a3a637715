-- ===== src/TunNat.antt =====
-- The translation table of the TUN inbound: src/inbound/tun_nat.hpp and src/inbound/tun_nat.cpp.
-- `forward_` and `reverse_` are maps, `lru_` is a list with the port used longest ago in front.
-- Each method runs under the table's mutex, so a call is one step on the state. The hash of a key
-- only places it in std::unordered_map, and is left out.
pub mod Ports
pub mod Lru
pub mod Sizes
pub mod Leases
pub mod Entries
pub mod Refines
pub mod Lookup
pub mod Invariant
pub mod Methods
pub mod Exhaustion
pub mod Traces
pub mod Tests
use cppbox.Prelude.{
  ℕ, zero, suc, ◌+◌, ◌%◌, ◌≡◌, Bool, true, false, ◌&&◌, ◌||◌, not, Option, none, some, List, [],
  ◌∷◌, ◌++◌, ==_iff, ◌↔◌, arith, length, leb, ◌==◌, if◌then◌else◌, Result, ok, stuck, ◌>>=◌,
}
use cppbox.Prelude.Map.{Map, Key, nat_key, find, insert, erase as erase_key, contains}

pub record TunFlowKey : Type 0 where
  pub src_ip : ℕ
  pub src_port : ℕ
  pub dst_ip : ℕ
  pub dst_port : ℕ

-- `operator==`, field by field.
abbrev pub key_eq : TunFlowKey → TunFlowKey → Bool
key_eq a b =
    (a.src_ip == b.src_ip)
    && ((a.src_port == b.src_port) && ((a.dst_ip == b.dst_ip) && (a.dst_port == b.dst_port)))

pub key_eq_iff : (a b : TunFlowKey) → (key_eq a b ≡ true) ↔ (a ≡ b)
key_eq_iff a b = (λ h. ground arith, λ h. ground arith)

instance abbrev pub flow_key : Key TunFlowKey
flow_key = record { same = key_eq; same_iff = key_eq_iff }

pub record TunNatLookupResult : Type 0 where
  pub nat_port : ℕ
  pub evicted_nat_port : Option ℕ

pub record TunNat : Type 0 where
  pub next_port : ℕ
  pub max_sessions : ℕ
  pub forward : Map TunFlowKey ℕ
  pub reverse : Map ℕ TunFlowKey
  pub lru : List ℕ

unfoldable pub init : ℕ → TunNat
init max_sessions = record {
  next_port = 10000;
  max_sessions = max_sessions;
  forward = [];
  reverse = [];
  lru = [];
}

-- Erasing what `std::find` finds: the first occurrence, if there is one.
unfoldable pub remove_first : ℕ → List ℕ → List ℕ
remove_first p [] = []
remove_first p (q ∷ qs) = if q == p then qs else q ∷ remove_first p qs

unfoldable pub touch_locked : ℕ → TunNat → TunNat
touch_locked p n = record n { lru = remove_first p n.lru ++ (p ∷ []) }

-- The loop over `lru_`, which is its first argument.
unfoldable pub evict_loop : List ℕ → TunNat → TunNat × Option ℕ
evict_loop [] n = (record n { lru = [] }, none)
evict_loop (p ∷ rest) n = elim (find p n.reverse) [
  | none ↦ evict_loop rest n
  | some key ↦ (
    record n { forward = erase_key key n.forward; reverse = erase_key p n.reverse; lru = rest },
    some p,
  )
]

unfoldable pub evict_one_locked : TunNat → TunNat × Option ℕ
evict_one_locked n = evict_loop n.lru n

-- `next_port_++` on a uint16_t.
abbrev pub port_after : ℕ → ℕ
port_after p = (p + 1) % 65536

-- `for (;;)` on fuel. The result is the port and the new `next_port_`.
unfoldable pub allocate_loop : ℕ → ℕ → Map ℕ TunFlowKey → Result (ℕ × ℕ)
allocate_loop zero next used = stuck
allocate_loop (suc fuel) next used = elim (next == 0) [
  | true ↦ allocate_loop fuel 10000 used
  | false ↦ elim (contains next used) [
    | true ↦ allocate_loop fuel (port_after next) used
    | false ↦ ok (next, port_after next)
  ]
]

-- Two rounds through the ports: `Ports.allocate-total` shows that these are enough when a port is
-- free.
abbrev pub search_rounds : ℕ
search_rounds = 131072

unfoldable pub allocate_port_locked : TunNat → Result (TunNat × ℕ)
allocate_port_locked n = do
  (p, next) ← allocate_loop search_rounds n.next_port n.reverse
  ok (record n { next_port = next }, p)

-- The part of `lookup_or_create` behind the search in `forward_`.
unfoldable pub make_room : TunNat → TunNat × Option ℕ
make_room n =
    if not (n.max_sessions == 0) && leb n.max_sessions (length n.reverse)
    then evict_one_locked n
    else (n, none)

unfoldable pub create : TunFlowKey → TunNat → Result (TunNat × TunNatLookupResult)
create key n = do
  let room = make_room n
  (n', p) ← allocate_port_locked room.0
  ok (
    touch_locked p
        (record n' { forward = insert key p n'.forward; reverse = insert p key n'.reverse }),
    record { nat_port = p; evicted_nat_port = room.1 },
  )

unfoldable pub lookup_or_create : TunFlowKey → TunNat → Result (TunNat × TunNatLookupResult)
lookup_or_create key n = elim (find key n.forward) [
  | some p ↦ ok (touch_locked p n, record { nat_port = p; evicted_nat_port = none })
  | none ↦ create key n
]

unfoldable pub lookup_back : ℕ → TunNat → Option TunFlowKey
lookup_back p n = find p n.reverse

unfoldable pub erase : ℕ → TunNat → TunNat
erase p n = elim (find p n.reverse) [
  | none ↦ n
  | some key ↦ record n {
    forward = erase_key key n.forward;
    reverse = erase_key p n.reverse;
    lru = remove_first p n.lru;
  }
]
