-- ===== src/TunNat/Methods.antt =====
-- What `lookup_or_create` does on each branch, and that it keeps the invariant.
use cppbox.Prelude.{
  ℕ, ◌≤◌, ◌<◌, ◌≡◌, ◌≢◌, refl, sym, subst, Option, none, some, List, ◌⊎◌, inl, inr, arith, length,
  leb, ◌==◌, ◌&&◌, not, Bool-cases, Option-cases, ok, >>=-eq-ok,
}
use cppbox.Prelude.Map.{nat_key, find, contains, find-erase, size-erase-lt}
use cppbox.TunNat.{
  TunNat, TunFlowKey, TunNatLookupResult, flow_key, touch_locked, allocate_port_locked, make_room,
  create, lookup_or_create,
}
use cppbox.TunNat.Ports.{IsFreePort}
use cppbox.TunNat.Exhaustion.{allocate-total, allocate-eq-ok}
use cppbox.TunNat.Invariant.{
  IsValid, without, Evicts, evict-Evicts, evict-IsValid, add_flow, add_flow-IsValid, touch-IsValid,
}

-- The table takes no more flows without giving one up.
abbrev pub IsAtLimit : TunNat → Type 0
IsAtLimit n = (n.max_sessions ≢ 0) × (n.max_sessions ≤ length n.reverse)

-- The two outcomes of `make_room`.
pub data Room (n m : TunNat) : Option ℕ → Type 0 where
  spare : (n.max_sessions ≢ 0 → length n.reverse < n.max_sessions) → m ≡ n → Room n m none
  evicted :
      (p : ℕ) (rest : List ℕ) (key : TunFlowKey)
      → IsAtLimit n
      → Evicts n p rest key
      → m ≡ without p key rest n
      → Room n m (some p)

pub make_room-Room : (n : TunNat) → IsValid n → Room n (make_room n).0 (make_room n).1
unfolding make_room
make_room-Room n v =
    elim (Bool-cases (not (n.max_sessions == 0) && leb n.max_sessions (length n.reverse))) [
      | inl full ↦
          let (p, rest, key, e) = evict-Evicts n v (ground arith) in
          rw (full, make_room)
            (rw e.result (evicted p rest key (ground arith, ground arith) e refl))
      | inr free ↦ rw (free, make_room) (spare (λ nz. ground arith) refl)
    ]

-- There is a port for one more flow: the table is bounded by the number of ports, or is not full.
abbrev pub HasRoom : TunNat → Type 0
HasRoom n = ((n.max_sessions ≢ 0) × (n.max_sessions ≤ 55536)) ⊎ (length n.reverse < 55536)

-- How `lookup_or_create` adds a flow: it makes room, takes a free port and enters the flow.
pub record Creates (key : TunFlowKey) (n n' : TunNat) (r : TunNatLookupResult) : Type 0 where
  pub table : TunNat
  pub room : Room n table r.evicted_nat_port
  pub next : ℕ
  pub free : IsFreePort table.reverse r.nat_port next
  pub result : n' ≡ add_flow r.nat_port next key table

pub Room-IsValid : (n m : TunNat) {o : Option ℕ} → IsValid n → Room n m o → IsValid m
Room-IsValid n m v (spare _ e) = subst IsValid (sym e) v
Room-IsValid n m v (evicted p rest key _ ev e) =
    subst IsValid (sym e) (evict-IsValid n p rest key ev v)

Room-left :
    (n m : TunNat) {o : Option ℕ}
    → IsValid n
    → Room n m o
    → (m.max_sessions ≢ 0 → length m.reverse < m.max_sessions)
Room-left n m v (spare h e) =
    subst (λ (t : TunNat). t.max_sessions ≢ 0 → length t.reverse < t.max_sessions) (sym e) h
Room-left n m v (evicted p rest key full ev e) =
    subst (λ (t : TunNat). t.max_sessions ≢ 0 → length t.reverse < t.max_sessions) (sym e)
      (λ nz. omega (arith, v.bounded nz, size-erase-lt p n.reverse key ev.flow))

Room-HasRoom :
    (n m : TunNat) {o : Option ℕ} → IsValid n → HasRoom n → Room n m o → length m.reverse < 55536
Room-HasRoom n m v h (spare s e) = rw e (ground (arith, s))
Room-HasRoom n m v h (evicted p rest key full ev e) =
    rw e (ground (arith, v.bounded full.0, size-erase-lt p n.reverse key ev.flow))

pub Room-new :
    (key : TunFlowKey) (n m : TunNat) {o : Option ℕ}
    → Room n m o
    → find key n.forward ≡ none
    → find key m.forward ≡ none
Room-new key n m (spare s e) h = rw e h
Room-new key n m (evicted p rest k full ev e) h =
    rw (e, find-erase k key n.forward, h) (ground arith)

create-Creates :
    (key : TunFlowKey) (n n' : TunNat) (r : TunNatLookupResult)
    → IsValid n
    → create key n ≡ ok (n', r)
    → Creates key n n' r
unfolding create add_flow
create-Creates key n n' r v e =
    let room = make_room-Room n v in
    let ((m, p), a, b) = >>=-eq-ok (allocate_port_locked (make_room n).0) _ e in
    let (next, c, free) = allocate-eq-ok (make_room n).0 m p (Room-IsValid n _ v room).next a in
    let d : r ≡ record { nat_port = p; evicted_nat_port = (make_room n).1 } = ground arith in
    record {
      table = (make_room n).0;
      room = rw d room;
      next = next;
      free = rw d free;
      result = ground (arith, c);
    }

create-total :
    (key : TunFlowKey) (n : TunNat)
    → IsValid n
    → HasRoom n
    → (n' : TunNat) × (r : TunNatLookupResult) × (create key n ≡ ok (n', r))
unfolding create
create-total key n v h =
    let room = make_room-Room n v in
    let (p, next, e, free) =
      allocate-total (make_room n).0 (Room-IsValid n _ v room).next (Room-HasRoom n _ v h room) in
    (
      add_flow p next key (make_room n).0,
      record { nat_port = p; evicted_nat_port = (make_room n).1 },
      unfold add_flow in rw e,
    )

-- While there is room, `lookup_or_create` returns.
pub lookup_or_create-total :
    (key : TunFlowKey) (n : TunNat)
    → IsValid n
    → HasRoom n
    → (n' : TunNat) × (r : TunNatLookupResult) × (lookup_or_create key n ≡ ok (n', r))
unfolding lookup_or_create
lookup_or_create-total key n v h = elim (Option-cases (find key n.forward)) [
  | inl e ↦ rw (e, lookup_or_create) (create-total key n v h)
  | inr (p, e) ↦
      (touch_locked p n, record { nat_port = p; evicted_nat_port = none }, rw (e, lookup_or_create))
]

-- What a call has done: it has found the flow, or added it.
pub data Outcome (key : TunFlowKey) (n n' : TunNat) (r : TunNatLookupResult) : Type 0 where
  known :
      find key n.forward ≡ some r.nat_port
      → r.evicted_nat_port ≡ none
      → n' ≡ touch_locked r.nat_port n
      → Outcome key n n' r
  added : find key n.forward ≡ none → Creates key n n' r → Outcome key n n' r

pub lookup_or_create-Outcome :
    (key : TunFlowKey) (n n' : TunNat) (r : TunNatLookupResult)
    → IsValid n
    → lookup_or_create key n ≡ ok (n', r)
    → Outcome key n n' r
unfolding lookup_or_create
lookup_or_create-Outcome key n n' r v e = elim (Option-cases (find key n.forward)) [
  | inl f ↦ added f (create-Creates key n n' r v (rw (f, lookup_or_create) at e))
  | inr (p, f) ↦ known (ground arith) (ground arith) (ground arith)
]

-- The invariant holds after every call of `lookup_or_create` that returns.
pub lookup_or_create-IsValid :
    (key : TunFlowKey) (n n' : TunNat) (r : TunNatLookupResult)
    → IsValid n
    → lookup_or_create key n ≡ ok (n', r)
    → IsValid n'
lookup_or_create-IsValid key n n' r v e = go (lookup_or_create-Outcome key n n' r v e)
  where
    go : Outcome key n n' r → IsValid n'
    go (known f _ w) = rw w (touch-IsValid r.nat_port n (rw (v.back key r.nat_port f, contains)) v)
    go (added f c) = rw c.result (
        add_flow-IsValid r.nat_port c.next key c.table (Room-new key n c.table c.room f) c.free
          (Room-left n c.table v c.room) (Room-IsValid n c.table v c.room))
