-- ===== src/TunNat/Lookup.antt =====
-- What callers of TunNat see: the flow of a port, the port of a flow, and who is evicted.
use cppbox.Prelude.{
  ℕ, ◌≡◌, ◌≢◌, subst, Option, none, some, List, [], ◌∷◌, ◌++◌, arith, ◌==◌, if◌then◌else◌, ok,
}
use cppbox.Prelude.Map.{nat_key, find, find-insert, find-erase}
use cppbox.TunNat.{
  TunNat, TunFlowKey, TunNatLookupResult, flow_key, remove_first, touch_locked, lookup_or_create,
  lookup_back, erase,
}
use cppbox.TunNat.Invariant.{IsValid, add_flow}
use cppbox.TunNat.Methods.{
  IsAtLimit, Room, spare, evicted, Outcome, known, added, lookup_or_create-Outcome,
}

module _ (key : TunFlowKey) (n n' : TunNat) (r : TunNatLookupResult) (v : IsValid n)
    (e : lookup_or_create key n ≡ ok (n', r)) where
  -- The port that `lookup_or_create` returns leads back to the flow.
  pub lookup_back-lookup_or_create : lookup_back r.nat_port n' ≡ some key
  unfolding lookup_back touch_locked add_flow
  lookup_back-lookup_or_create = go (lookup_or_create-Outcome key n n' r v e)
    where
      go : Outcome key n n' r → find r.nat_port n'.reverse ≡ some key
      go (known f _ w) = rw w (v.back key r.nat_port f)
      go (added f c) =
          rw c.result (ground (arith, find-insert r.nat_port r.nat_port key c.table.reverse))

  -- A flow that is there keeps its port, nothing is evicted, and the port becomes the newest.
  lookup_or_create-known :
      (p : ℕ)
      → find key n.forward ≡ some p
      → (r ≡ record { nat_port = p; evicted_nat_port = none }) × (n' ≡ touch_locked p n)
  lookup_or_create-known p h = go (lookup_or_create-Outcome key n n' r v e)
    where
      go :
          Outcome key n n' r
          → (r ≡ record { nat_port = p; evicted_nat_port = none }) × (n' ≡ touch_locked p n)
      go (known f g w) =
          let q : r.nat_port ≡ p = ground arith in
          (ground arith, subst (λ x. n' ≡ touch_locked x n) q w)
      go (added f c) = absurd (ground arith)

  -- Every other flow keeps its port, unless that port is the one evicted.
  pub lookup_or_create-frame :
      (q : ℕ) (other : TunFlowKey)
      → lookup_back q n ≡ some other
      → other ≢ key
      → r.evicted_nat_port ≢ some q
      → lookup_back q n' ≡ some other
  unfolding lookup_back touch_locked add_flow
  lookup_or_create-frame q other h ne kept = go (lookup_or_create-Outcome key n n' r v e)
    where
      table_keeps :
          (m : TunNat) (o : Option ℕ) → o ≢ some q → Room n m o → find q m.reverse ≡ some other
      table_keeps m _ k (spare _ w) = rw w h
      table_keeps m _ k (evicted p rest gone _ ev w) =
          rw (w, find-erase p q n.reverse) (ground (arith, h))

      go : Outcome key n n' r → find q n'.reverse ≡ some other
      go (known f _ w) = rw w h
      go (added f c) = rw c.result (
          ground (
            arith,
            table_keeps c.table r.evicted_nat_port kept c.room,
            c.free,
            find-insert r.nat_port q key c.table.reverse,
          ))

  -- An eviction happens only when the table is at its limit, and takes the port in front of `lru_`;
  -- the new port stands at the back.
  pub lookup_or_create-evicts :
      (p : ℕ)
      → r.evicted_nat_port ≡ some p
      → IsAtLimit n
        × ((rest : List ℕ) × (n.lru ≡ p ∷ rest)
            × (n'.lru ≡ remove_first r.nat_port rest ++ (r.nat_port ∷ [])))
  unfolding touch_locked add_flow
  lookup_or_create-evicts p h = go (lookup_or_create-Outcome key n n' r v e)
    where
      Goal : Type 0
      Goal =
          IsAtLimit n
          × ((rest : List ℕ) × (n.lru ≡ p ∷ rest)
              × (n'.lru ≡ remove_first r.nat_port rest ++ (r.nat_port ∷ [])))

      from_room :
          (m : TunNat) (o : Option ℕ)
          → Room n m o
          → o ≡ some p
          → n'.lru ≡ remove_first r.nat_port m.lru ++ (r.nat_port ∷ [])
          → Goal
      from_room m _ (spare _ w) i j = cc
      from_room m _ (evicted q rest gone full ev w) i j =
          (full, (rest, ground (arith, ev.oldest), ground (arith, w)))

      go : Outcome key n n' r → Goal
      go (known f g w) = absurd (ground arith)
      go (added f c) = from_room c.table r.evicted_nat_port c.room h (rw c.result)

-- An erased port is free, and the others keep their flows.
lookup_back-erase :
    (p q : ℕ) (n : TunNat) → lookup_back q (erase p n) ≡ (if p == q then none else lookup_back q n)
unfolding lookup_back erase
lookup_back-erase p q n = ground (arith, find-erase p q n.reverse)
