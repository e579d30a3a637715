-- ===== src/TunNat/Traces.antt =====
-- Histories of calls on one TunNat.
use cppbox.Prelude.{
  ℕ, ◌≤◌, ◌<◌, ◌≡◌, ◌≢◌, refl, Option, some, List, [], ◌∷◌, inl, arith, Result, ok, ◌>>=◌,
  >>=-eq-ok,
}
use cppbox.Prelude.Map.{nat_key}
use cppbox.TunNat.{
  TunNat, TunFlowKey, TunNatLookupResult, init, touch_locked, lookup_or_create, lookup_back, erase,
}
use cppbox.TunNat.Invariant.{IsValid, init-IsValid, erase-IsValid, add_flow}
use cppbox.TunNat.Methods.{
  Room, spare, evicted, Outcome, known, added, lookup_or_create-Outcome, lookup_or_create-IsValid,
  lookup_or_create-total,
}

pub data Call : Type 0 where
  creates : TunFlowKey → Call
  erases : ℕ → Call

unfoldable pub step : Call → TunNat → Result TunNat
step (creates key) n = do (n', r) ← lookup_or_create key n; ok n'
step (erases p) n = ok (erase p n)

unfoldable pub run : List Call → TunNat → Result TunNat
run [] n = ok n
run (c ∷ cs) n = do n' ← step c n; run cs n'

pub step-IsValid : (c : Call) (n n' : TunNat) → IsValid n → step c n ≡ ok n' → IsValid n'
unfolding step
step-IsValid (creates key) n n' v e =
    let ((m, r), a, b) = >>=-eq-ok (lookup_or_create key n) _ e in
    let w : m ≡ n' = ground arith in rw (← w) (lookup_or_create-IsValid key n m r v a)
step-IsValid (erases p) n n' v e =
    let w : erase p n ≡ n' = ground arith in rw (← w) (erase-IsValid p n v)

run-IsValid : (cs : List Call) (n n' : TunNat) → IsValid n → run cs n ≡ ok n' → IsValid n'
unfolding run
run-IsValid [] n n' v e = let w : n ≡ n' = ground arith in rw (← w) v
run-IsValid (c ∷ cs) n n' v e =
    let (m, a, b) = >>=-eq-ok (step c n) _ e in run-IsValid cs m n' (step-IsValid c n m v a) b

-- The invariant holds after any history of calls on a new table.
pub run-init-IsValid : (m : ℕ) (cs : List Call) (n : TunNat) → run cs (init m) ≡ ok n → IsValid n
run-init-IsValid m cs n e = run-IsValid cs (init m) n (init-IsValid m) e

-- After any history of calls, no two flows share a port, and no flow has two.
run-init-one_port :
    (m : ℕ) (cs : List Call) (n : TunNat) (p q : ℕ) (k : TunFlowKey)
    → run cs (init m) ≡ ok n
    → lookup_back p n ≡ some k
    → lookup_back q n ≡ some k
    → p ≡ q
unfolding lookup_back
run-init-one_port m cs n p q k e h i =
    let v = run-init-IsValid m cs n e in ground (arith, v.forth k p, v.forth k q)

abbrev IsBounded : TunNat → Type 0
IsBounded n = (n.max_sessions ≢ 0) × (n.max_sessions ≤ 55536)

Room-IsBounded : (n m : TunNat) {o : Option ℕ} → IsBounded n → Room n m o → IsBounded m
Room-IsBounded n m b (spare _ w) = rw w b
Room-IsBounded n m b (evicted p rest key _ _ w) = rw w b

step-IsBounded :
    (c : Call) (n n' : TunNat) → IsValid n → IsBounded n → step c n ≡ ok n' → IsBounded n'
unfolding step erase
step-IsBounded (creates key) n n' v b e =
    let ((m, r), a, w) = >>=-eq-ok (lookup_or_create key n) _ e in
    let w' : m ≡ n' = ground arith in rw (← w') (go m r (lookup_or_create-Outcome key n m r v a))
  where
    go : (m : TunNat) (r : TunNatLookupResult) → Outcome key n m r → IsBounded m
    go m r (known _ _ w) = unfold touch_locked in rw w b
    go m r (added _ c) =
        unfold add_flow touch_locked in rw c.result (Room-IsBounded n c.table b c.room)
step-IsBounded (erases p) n n' v b e = ground arith

step-total : (c : Call) (n : TunNat) → IsValid n → IsBounded n → (n' : TunNat) × (step c n ≡ ok n')
unfolding step
step-total (creates key) n v b =
    let (n', r, e) = lookup_or_create-total key n v (inl b) in (n', rw e)
step-total (erases p) n v b = (erase p n, refl)

run-total :
    (cs : List Call) (n : TunNat) → IsValid n → IsBounded n → (n' : TunNat) × (run cs n ≡ ok n')
unfolding run
run-total [] n v b = (n, refl)
run-total (c ∷ cs) n v b =
    let (m, e) = step-total c n v b in
    let (n', f) = run-total cs m (step-IsValid c n m v e) (step-IsBounded c n m v b e) in
    (n', rw (e, ◌>>=◌) f)

-- On a table that is bounded by at most 55536 sessions, every history of calls ends, and leaves a
-- valid table.
pub run-init-total :
    (m : ℕ) (cs : List Call)
    → 0 < m
    → m ≤ 55536
    → (n : TunNat) × (run cs (init m) ≡ ok n) × IsValid n
run-init-total m cs pos small =
    let (n, e) = run-total cs (init m) (init-IsValid m) (unfold init in omega arith) in
    (n, e, run-init-IsValid m cs n e)
