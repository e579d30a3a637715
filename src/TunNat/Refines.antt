-- ===== src/TunNat/Refines.antt =====
-- The methods of src/inbound/tun_nat.cpp give the service of `Leases`.
use cppbox.Prelude.{
  ℕ, ◌≡◌, refl, sym, subst, ◌∙◌, inl, inr, true, false, none, some, Option-cases, List, [], ◌∷◌,
  arith, ==_self, ok, ok_injective, >>=-eq-ok,
}
use cppbox.Prelude.Map.{nat_key, find, contains}
use cppbox.TunNat.{
  TunNat, TunFlowKey, TunNatLookupResult, flow_key, init, remove_first, touch_locked,
  lookup_or_create, erase,
}
use cppbox.TunNat.Lru.{mem, mem-remove_first}
use cppbox.TunNat.Invariant.{IsValid, init-IsValid, without, add_flow}
use cppbox.TunNat.Methods.{Outcome, known, added, lookup_or_create-Outcome, Room-IsValid}
use cppbox.TunNat.Sizes.{
  erase-HasUniqueKeys, IsCounted, Room-IsCounted, touch-IsCounted, add_flow-IsCounted, length-erase,
  length-remove_first,
}
use cppbox.TunNat.Leases.{
  leases, Serves, renews, grants, releases, ServesAll, idle, then_serves, entries-remove_first,
}
use cppbox.TunNat.Traces.{Call, creates, erases, step, run, step-IsValid}
use cppbox.TunNat.Entries.{
  leases-touch_locked, leases-add_flow, entries-erase, Room-HasPlace, take_out_absent, IsServed,
  find-leases, Room-max_sessions, no_lease,
}

Outcome-IsServed :
    (key : TunFlowKey) (n n' : TunNat) (r : TunNatLookupResult)
    → IsValid n
    → IsCounted n
    → Outcome key n n' r
    → IsServed (creates key) n n'
Outcome-IsServed key n n' r v c (known there _ w) =
    let back = v.back key r.nat_port there in
    let listed : mem r.nat_port n.lru ≡ true = v.listed r.nat_port ∙ (rw (contains, back) refl) in
    subst (IsServed (creates key) n) (sym w) (
      subst (Serves n.max_sessions (creates key) (leases n))
          (sym (leases-touch_locked r.nat_port key n back))
          (renews key r.nat_port (leases n) (find-leases n r.nat_port ∙ (rw (listed, back) refl))),
      touch-IsCounted r.nat_port n listed c,
      unfold touch_locked in refl,
    )
Outcome-IsServed key n n' r v c (added missing made) =
    let place = Room-HasPlace n made.table v c made.room in
    let valid = Room-IsValid n made.table v made.room in
    let absent : mem r.nat_port made.table.lru ≡ false = valid.listed r.nat_port ∙ made.free.free in
    subst (IsServed (creates key) n) (sym made.result) (
      subst (Serves n.max_sessions (creates key) (leases n))
          (sym (leases-add_flow r.nat_port made.next key made.table absent))
          (grants key r.nat_port (leases n) (leases made.table) (no_lease key n v missing) place
            (find-leases made.table r.nat_port ∙ (rw absent refl))),
      add_flow-IsCounted r.nat_port made.next key made.table absent made.free.free
          (Room-IsCounted n made.table c made.room),
      unfold touch_locked add_flow in Room-max_sessions n made.table made.room,
    )

erase-IsServed : (p : ℕ) (n : TunNat) → IsValid n → IsCounted n → IsServed (erases p) n (erase p n)
unfolding leases erase
erase-IsServed p n v c = elim (Option-cases (find p n.reverse)) [
  | inl missing ↦
      let absent : mem p n.lru ≡ false = v.listed p ∙ (rw (contains, missing) refl) in
      subst (IsServed (erases p) n) (sym (erase-none missing)) (
        subst (Serves n.max_sessions (erases p) (leases n))
            (take_out_absent (λ q. find q n.reverse) p n.lru absent) (releases p (leases n)),
        c,
        refl,
      )
  | inr (key, there) ↦
      let listed : mem p n.lru ≡ true = v.listed p ∙ (rw (contains, there) refl) in
      let left : mem p (remove_first p n.lru) ≡ false =
        mem-remove_first p p n.lru v.distinct ∙ (rw (==_self p) refl) in
      let fewer = length-remove_first p n.lru listed in
      let less = length-erase p n.reverse c.1 (rw (contains, there) refl) in
      subst (IsServed (erases p) n) (sym (erase-some key there)) (
        subst (Serves n.max_sessions (erases p) (leases n))
            (sym (
              entries-erase p n (remove_first p n.lru) left
              ∙ entries-remove_first (λ q. find q n.reverse) p n.lru))
            (releases p (leases n)),
        (omega arith, erase-HasUniqueKeys p n.reverse c.1),
        refl,
      )
]
  where
    erase-none : find p n.reverse ≡ none → erase p n ≡ n
    erase-none missing = rw (erase, missing) refl

    erase-some :
        (key : TunFlowKey)
        → find p n.reverse ≡ some key
        → erase p n ≡ without p key (remove_first p n.lru) n
    erase-some key there = rw (erase, there) refl

step-IsServed :
    (c : Call) (n n' : TunNat) → IsValid n → IsCounted n → step c n ≡ ok n' → IsServed c n n'
unfolding step
step-IsServed (creates key) n n' v c e =
    let ((m, r), made, e') = >>=-eq-ok (lookup_or_create key n) _ e in
    subst (IsServed (creates key) n) (ok_injective e')
      (Outcome-IsServed key n m r v c (lookup_or_create-Outcome key n m r v made))
step-IsServed (erases p) n n' v c e =
    subst (IsServed (erases p) n) (ok_injective e) (erase-IsServed p n v c)

run-Serves :
    (cs : List Call) (n n' : TunNat)
    → IsValid n
    → IsCounted n
    → run cs n ≡ ok n'
    → ServesAll n.max_sessions cs (leases n) (leases n')
unfolding run
run-Serves [] n n' v c e =
    subst (λ n'. ServesAll n.max_sessions [] (leases n) (leases n')) (ok_injective e)
      (idle (leases n))
run-Serves (call ∷ cs) n n' v c e =
    let (m, first, rest) = >>=-eq-ok (step call n) _ e in
    let (served, counted, same) = step-IsServed call n m v c first in
    then_serves call cs (leases n) (leases m) (leases n') served (
      subst (λ limit. ServesAll limit cs (leases m) (leases n')) same
        (run-Serves cs m n' (step-IsValid call n m v first) counted rest))

-- Every history of calls on a new table that returns is a history of the abstract service: seen as the
-- list of the ports given out with their flows, the one used longest ago in front, the table renews a
-- flow that has a port, gives a new flow a port that is not in use, ends the oldest lease when and only
-- when there is no place left, and frees a port that is erased.
pub run-init-Serves :
    (max_sessions : ℕ) (cs : List Call) (n : TunNat)
    → run cs (init max_sessions) ≡ ok n
    → ServesAll max_sessions cs [] (leases n)
unfolding init leases
run-init-Serves max_sessions cs n e =
    run-Serves cs (init max_sessions) n (init-IsValid max_sessions) (refl, tt) e
