-- ===== src/TunNat/Invariant.antt =====
-- The invariant of TunNat (src/inbound/tun_nat.cpp), kept by the steps of each method.
use cppbox.Prelude.{
  ℕ, ◌≤◌, ◌<◌, ◌≡◌, ◌≢◌, refl, sym, subst, true, false, none, some, List, [], ◌∷◌, inl, inr, arith,
  length, ◌==◌, if◌then◌else◌, Option-cases,
}
use cppbox.Prelude.Map.{
  Map, nat_key, find, contains, insert, erase as erase_key, find-insert, find-erase, size-insert-le,
  size-erase-lt,
}
use cppbox.TunNat.{
  TunNat, TunFlowKey, flow_key, key_eq_iff, init, remove_first, touch_locked, evict_loop,
  evict_one_locked, erase,
}
use cppbox.TunNat.Lru.{
  mem, Distinct, mem-touch, touch-Distinct, mem-remove_first, remove_first-Distinct,
}
use cppbox.TunNat.Ports.{IsNextPort, IsFreePort, port_after-IsNextPort}

pub record IsValid (n : TunNat) : Type 0 where
  -- The two maps are inverse to one another.
  pub back : (k : TunFlowKey) (p : ℕ) → find k n.forward ≡ some p → find p n.reverse ≡ some k
  pub forth : (k : TunFlowKey) (p : ℕ) → find p n.reverse ≡ some k → find k n.forward ≡ some p
  -- `lru_` lists the ports in use, each once.
  pub listed : (p : ℕ) → mem p n.lru ≡ contains p n.reverse
  pub distinct : Distinct n.lru
  pub ports : (p : ℕ) → contains p n.reverse ≡ true → (10000 ≤ p) × (p < 65536)
  pub next : IsNextPort n.next_port
  pub bounded : n.max_sessions ≢ 0 → length n.reverse ≤ n.max_sessions

pub init-IsValid : (m : ℕ) → IsValid (init m)
unfolding init find
init-IsValid m = record {
  back = λ k p e. cc;
  forth = λ k p e. cc;
  listed = λ p. refl;
  distinct = tt;
  ports = λ p e. cc;
  next = inr (omega arith);
  bounded = λ h. omega arith;
}

pub touch-IsValid :
    (p : ℕ) (n : TunNat) → contains p n.reverse ≡ true → IsValid n → IsValid (touch_locked p n)
unfolding touch_locked
touch-IsValid p n h v = record {
  back = v.back;
  forth = v.forth;
  listed = λ q. ground (arith, mem-touch p q n.lru v.distinct, v.listed q);
  distinct = touch-Distinct p n.lru v.distinct;
  ports = v.ports;
  next = v.next;
  bounded = v.bounded;
}

-- A flow and its port are taken out, the port from the list too.
abbrev pub without : ℕ → TunFlowKey → List ℕ → TunNat → TunNat
without p key rest n = record n {
  forward = erase_key key n.forward;
  reverse = erase_key p n.reverse;
  lru = rest;
}

pub without-IsValid :
    (p : ℕ) (key : TunFlowKey) (rest : List ℕ) (n : TunNat)
    → find p n.reverse ≡ some key
    → ((q : ℕ) → mem q rest ≡ (if p == q then false else mem q n.lru))
    → Distinct rest
    → IsValid n
    → IsValid (without p key rest n)
without-IsValid p key rest n e h d v = record {
  back = λ k q f. ground (
    arith,
    find-erase key k n.forward,
    find-erase p q n.reverse,
    v.back k q,
    v.back k p,
    key_eq_iff key k,
  );
  forth = λ k q f. ground (
    arith,
    find-erase key k n.forward,
    find-erase p q n.reverse,
    v.forth k q,
    v.forth key p,
    key_eq_iff key k,
  );
  listed = λ q. ground (arith, h q, v.listed q, find-erase p q n.reverse);
  distinct = d;
  ports = λ q c. ground (arith, v.ports q, find-erase p q n.reverse);
  next = v.next;
  bounded = λ nz. omega (arith, v.bounded nz, size-erase-lt p n.reverse key e);
}

pub erase-IsValid : (p : ℕ) (n : TunNat) → IsValid n → IsValid (erase p n)
unfolding erase
erase-IsValid p n v = elim (Option-cases (find p n.reverse)) [
  | inl e ↦ rw (e, erase) v
  | inr (key, e) ↦
      rw (e, erase)
        (without-IsValid p key (remove_first p n.lru) n e
          (λ q. mem-remove_first p q n.lru v.distinct) (remove_first-Distinct p n.lru v.distinct) v)
]

-- `make_room` on a full table: the port in front of `lru_` goes, and with it its flow.
pub record Evicts (n : TunNat) (p : ℕ) (rest : List ℕ) (key : TunFlowKey) : Type 0 where
  pub oldest : n.lru ≡ p ∷ rest
  pub flow : find p n.reverse ≡ some key
  pub result : evict_one_locked n ≡ (without p key rest n, some p)

evict_loop-hit :
    (p : ℕ) (rest : List ℕ) (key : TunFlowKey) (n : TunNat)
    → find p n.reverse ≡ some key
    → evict_loop (p ∷ rest) n ≡ (without p key rest n, some p)
unfolding evict_loop
evict_loop-hit p rest key n e = rw (e, evict_loop)

evict_front :
    (n : TunNat) (l : List ℕ)
    → IsValid n
    → l ≡ n.lru
    → 0 < length n.reverse
    → (p : ℕ) × (rest : List ℕ) × (key : TunFlowKey) × Evicts n p rest key
unfolding evict_one_locked
evict_front n [] v e h = absurd (no_entry n.reverse h λ q. ground (arith, v.listed q))
  where
    no_entry : (m : Map ℕ TunFlowKey) → 0 < length m → ((q : ℕ) → contains q m ≡ false) → ⊥
    no_entry [] pos none_in = omega arith
    no_entry ((q, k) ∷ m) pos none_in = unfold find in ground (arith, none_in q)
evict_front n (p ∷ rest) v e h = elim (Option-cases (find p n.reverse)) [
  | inl f ↦ absurd (ground (arith, v.listed p))
  | inr (key, f) ↦ (
    p,
    rest,
    key,
    record {
      oldest = sym e;
      flow = f;
      result =
          subst (λ l. evict_loop l n ≡ (without p key rest n, some p)) e
            (evict_loop-hit p rest key n f);
    },
  )
]

pub evict-Evicts :
    (n : TunNat)
    → IsValid n
    → 0 < length n.reverse
    → (p : ℕ) × (rest : List ℕ) × (key : TunFlowKey) × Evicts n p rest key
evict-Evicts n v h = evict_front n n.lru v refl h

pub evict-IsValid :
    (n : TunNat) (p : ℕ) (rest : List ℕ) (key : TunFlowKey)
    → Evicts n p rest key
    → IsValid n
    → IsValid (without p key rest n)
evict-IsValid n p rest key e v =
    let d : Distinct (p ∷ rest) = subst Distinct e.oldest v.distinct in
    without-IsValid p key rest n e.flow (λ q. rw e.oldest (ground arith)) d.1 v

-- A new flow under a free port.
unfoldable pub add_flow : ℕ → ℕ → TunFlowKey → TunNat → TunNat
add_flow p next key n = touch_locked p (record n {
  next_port = next;
  forward = insert key p n.forward;
  reverse = insert p key n.reverse;
})

pub add_flow-IsValid :
    (p next : ℕ) (key : TunFlowKey) (n : TunNat)
    → find key n.forward ≡ none
    → IsFreePort n.reverse p next
    → (n.max_sessions ≢ 0 → length n.reverse < n.max_sessions)
    → IsValid n
    → IsValid (add_flow p next key n)
unfolding add_flow touch_locked
add_flow-IsValid p next key n new f room v = record {
  back = λ k q e. ground (
    arith,
    find-insert key k p n.forward,
    find-insert p q key n.reverse,
    v.back k q,
    f.free,
    key_eq_iff key k,
  );
  forth = λ k q e. ground (
    arith,
    find-insert key k p n.forward,
    find-insert p q key n.reverse,
    v.forth k q,
    key_eq_iff key k,
  );
  listed = λ q.
      ground (arith, mem-touch p q n.lru v.distinct, v.listed q, find-insert p q key n.reverse);
  distinct = touch-Distinct p n.lru v.distinct;
  ports = λ q c. ground (arith, v.ports q, f, find-insert p q key n.reverse);
  next = rw f.next_eq (port_after-IsNextPort p f.low f.high);
  bounded = λ nz. omega (arith, room nz, size-insert-le p key n.reverse);
}
