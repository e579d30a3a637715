-- ===== src/TunNat/Entries.antt =====
-- The leases of a table of src/inbound/tun_nat.cpp, as its operations change them.
use cppbox.Prelude.{
  ℕ, ◌≤◌, ◌<◌, ◌≡◌, ◌≢◌, refl, sym, ap, subst, ◌∙◌, inl, inr, true, false, Bool-cases, Option, none,
  some, List, [], ◌∷◌, ◌++◌, arith, length, ◌==◌, ==_iff, ==_self, if◌then◌else◌, some_injective,
}
use cppbox.Prelude.Map.{nat_key, find, insert, erase as erase_key, find-insert, find-erase}
use cppbox.TunNat.{TunNat, TunFlowKey, flow_key, remove_first, touch_locked}
use cppbox.TunNat.Lru.{mem, Distinct}
use cppbox.TunNat.Invariant.{IsValid, add_flow}
use cppbox.TunNat.Methods.{Room, spare, evicted}
use cppbox.TunNat.Sizes.{IsCounted, remove_first_absent}
use cppbox.TunNat.Leases.{
  entries, leases, take_out, HasPlace, Serves, find-entries, entries-append, entries-remove_first,
  entries-agree, length-entries,
}
use cppbox.TunNat.Traces.{Call}

pub mem-ne : (p q : ℕ) (l : List ℕ) → mem p l ≡ false → mem q l ≡ true → (p == q) ≡ false
mem-ne p q l h i = elim (Bool-cases (p == q)) [
  | inl same ↦
      let w : p ≡ q = (==_iff p q).0 same in
      let c : true ≡ false = sym i ∙ subst (λ p. mem p l ≡ false) w h in absurd (ground arith)
  | inr other ↦ other
]

-- A port that moves to the back keeps its flow.
pub leases-touch_locked :
    (p : ℕ) (key : TunFlowKey) (n : TunNat)
    → find p n.reverse ≡ some key
    → leases (touch_locked p n) ≡ take_out p (leases n) ++ ((p, some key) ∷ [])
unfolding leases touch_locked
leases-touch_locked p key n e =
    entries-append (λ q. find q n.reverse) (remove_first p n.lru) (p ∷ [])
    ∙ ap (λ xs. xs ++ ((p, find p n.reverse) ∷ []))
        (entries-remove_first (λ q. find q n.reverse) p n.lru)
    ∙ ap (λ flow. take_out p (entries (λ q. find q n.reverse) n.lru) ++ ((p, flow) ∷ [])) e

pub leases-add_flow :
    (p next : ℕ) (key : TunFlowKey) (n : TunNat)
    → mem p n.lru ≡ false
    → leases (add_flow p next key n) ≡ leases n ++ ((p, some key) ∷ [])
unfolding leases touch_locked add_flow
leases-add_flow p next key n absent =
    let flow : ℕ → Option TunFlowKey = λ q. find q (insert p key n.reverse) in
    let there : flow p ≡ some key = find-insert p p key n.reverse ∙ (rw (==_self p) refl) in
    ap (λ l. entries flow (l ++ (p ∷ []))) (remove_first_absent p n.lru absent)
    ∙ entries-append flow n.lru (p ∷ [])
    ∙ ap (λ xs. xs ++ ((p, flow p) ∷ []))
        (entries-agree flow (λ q. find q n.reverse) n.lru
          λ q m. find-insert p q key n.reverse ∙ (rw (mem-ne p q n.lru absent m) refl))
    ∙ ap (λ o. entries (λ q. find q n.reverse) n.lru ++ ((p, o) ∷ [])) there

-- Without a port, the others keep their flows.
pub entries-erase :
    (p : ℕ) (n : TunNat) (l : List ℕ)
    → mem p l ≡ false
    → entries (λ q. find q (erase_key p n.reverse)) l ≡ entries (λ q. find q n.reverse) l
entries-erase p n l absent =
    entries-agree (λ q. find q (erase_key p n.reverse)) (λ q. find q n.reverse) l
      λ q m. find-erase p q n.reverse ∙ (rw (mem-ne p q l absent m) refl)

pub length-leases : (n : TunNat) → IsCounted n → length (leases n) ≡ length n.reverse
unfolding leases
length-leases n c = length-entries (λ q. find q n.reverse) n.lru ∙ c.0

pub Room-HasPlace :
    (n m : TunNat) {o : Option ℕ}
    → IsValid n
    → IsCounted n
    → Room n m o
    → HasPlace n.max_sessions (leases n) (leases m)
unfolding leases
Room-HasPlace n m v c (spare room w) =
    inl ((λ nz. subst (λ k. k < n.max_sessions) (sym (length-leases n c)) (room nz)), ap leases w)
Room-HasPlace n m v c (evicted p rest key full ev w) = inr (
  full.0,
  subst (λ k. n.max_sessions ≤ k) (sym (length-leases n c)) full.1,
  (p, find p n.reverse),
  ap (entries (λ q. find q n.reverse)) ev.oldest
      ∙ ap (◌∷◌ (p, find p n.reverse))
          (sym (ap leases w ∙ entries-erase p n rest (subst Distinct ev.oldest v.distinct).0)),
)

pub take_out_absent :
    (flow : ℕ → Option TunFlowKey) (p : ℕ) (l : List ℕ)
    → mem p l ≡ false
    → take_out p (entries flow l) ≡ entries flow l
take_out_absent flow p l h =
    sym (entries-remove_first flow p l) ∙ ap (entries flow) (remove_first_absent p l h)

-- What the call gives, and the invariant.
abbrev pub IsServed : Call → TunNat → TunNat → Type 0
IsServed c n n' =
    Serves n.max_sessions c (leases n) (leases n')
    × IsCounted n'
    × (n'.max_sessions ≡ n.max_sessions)

pub find-leases :
    (n : TunNat) (p : ℕ)
    → find p (leases n) ≡ (if mem p n.lru then some (find p n.reverse) else none)
unfolding leases
find-leases n p = find-entries (λ q. find q n.reverse) n.lru p

pub Room-max_sessions : (n m : TunNat) {o : Option ℕ} → Room n m o → m.max_sessions ≡ n.max_sessions
Room-max_sessions n m (spare _ w) = ap (λ t. t.max_sessions) w
Room-max_sessions n m (evicted p rest key _ _ w) = ap (λ t. t.max_sessions) w

pub no_lease :
    (key : TunFlowKey) (n : TunNat)
    → IsValid n
    → find key n.forward ≡ none
    → (q : ℕ) → find q (leases n) ≢ some (some key)
no_lease key n v missing q e = elim (Bool-cases (mem q n.lru)) [
  | inl listed ↦
      let there : some (find q n.reverse) ≡ some (some key) =
        sym (find-leases n q ∙ (rw listed refl)) ∙ e in
      let w = sym missing ∙ v.forth key q (some_injective there) in cc
  | inr gone ↦ let w : none ≡ some (some key) = sym (find-leases n q ∙ (rw gone refl)) ∙ e in cc
]
