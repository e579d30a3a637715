-- ===== src/TunInbound/Buffers.antt =====
-- Buffers of bytes of a known length, and the stores of src/inbound/tun_inbound.cpp and
-- src/inbound/tun_checksum.cpp into them.
use cppbox.Prelude.{
  ℕ, zero, suc, ◌+◌, ◌/◌, ◌%◌, ◌<◌, ◌≤◌, ◌≡◌, refl, sym, ap, ◌∙◌, inl, inr, Bool-cases, none, some,
  List, [], ◌∷◌, All, arith, length, length-set, length-drop, ltb, get_elem?, set, take, drop,
  replicate, ok, ok_injective, ◌>>=◌, >>=-eq-ok, some_injective,
}
use cppbox.Prelude.Bits.{and_255}
use cppbox.Prelude.Slices.{get_elem?-drop, All-set}
use cppbox.Utils.{IsByte, byte, store, read_be16_at, write_be16_at, be16_hi, be16_lo}
use cppbox.Checksum.{
  span, ip_header_len, pseudo_packet, checksum, store_checksum, udp_value, recalc_ipv4_checksum,
  recalc_udp_checksum,
}
use cppbox.TunInbound.{load_u32, store_u32}
use cppbox.TunInbound.Fields.{
  Keeps, store-Keeps, store_u32-Keeps, write_be16_at-Keeps, store_checksum-Keeps,
}

abbrev pub IsBuffer : ℕ → List ℕ → Type 0
IsBuffer n p = (length p ≡ n) × All IsByte p

pub store-IsBuffer :
    (n : ℕ) (p q : List ℕ) (i v : ℕ) → store p i v ≡ ok q → v < 256 → IsBuffer n p → IsBuffer n q
store-IsBuffer n p q i v e small b = elim (Bool-cases (ltb i (length p))) [
  | inl there ↦
      let w : set p i v ≡ q = ok_injective (rw there at e) in
      rw (← w) (length-set p i v ∙ b.0, All-set IsByte p i v small b.1)
  | inr gone ↦ let e' = rw gone at e in cc
]

-- A store inside of the buffer returns.
pub store-ok :
    (n : ℕ) (p : List ℕ) (i v : ℕ)
    → IsBuffer n p
    → i < n
    → v < 256
    → (q : List ℕ) × (store p i v ≡ ok q)
      × IsBuffer n q
      × Keeps i (i + 1) p q
      × (get_elem? q i ≡ some v)
store-ok n p i v b h small =
    let e : store p i v ≡ ok (set p i v) = ground arith in
    let (k, g) = store-Keeps p (set p i v) i v e in
    (set p i v, e, store-IsBuffer n p (set p i v) i v e small b, k, g)

pub write_be16_at-ok :
    (n : ℕ) (p : List ℕ) (i v : ℕ)
    → IsBuffer n p
    → i + 2 ≤ n
    → v < 65536
    → (q : List ℕ) × (write_be16_at p i v ≡ ok q)
      × IsBuffer n q
      × Keeps i (i + 2) p q
      × (read_be16_at q i ≡ ok v)
unfolding write_be16_at
write_be16_at-ok n p i v b h small =
    let (p1, e1, b1, _, _) =
      store-ok n p i (be16_hi v) b (omega arith) (omega (arith, and_255 (v / 256))) in
    let (q, e2, b2, _, _) =
      store-ok n p1 (i + 1) (be16_lo v) b1 (omega arith) (omega (arith, and_255 v)) in
    let e : write_be16_at p i v ≡ ok q = rw (e1, ◌>>=◌) e2 in
    let (k, g) = write_be16_at-Keeps p q i v small e in (q, e, b2, k, g)

pub store_u32-ok :
    (n : ℕ) (p : List ℕ) (i v : ℕ)
    → IsBuffer n p
    → i + 4 ≤ n
    → v < 4294967296
    → (q : List ℕ) × (store_u32 p i v ≡ ok q)
      × IsBuffer n q
      × Keeps i (i + 4) p q
      × (load_u32 q i ≡ ok v)
unfolding store_u32
store_u32-ok n p i v b h small =
    let (p1, e1, b1, _, _) = store-ok n p i (v % 256) b (omega arith) (omega arith) in
    let (p2, e2, b2, _, _) = store-ok n p1 (i + 1) (v / 256 % 256) b1 (omega arith) (omega arith) in
    let (p3, e3, b3, _, _) =
      store-ok n p2 (i + 2) (v / 65536 % 256) b2 (omega arith) (omega arith) in
    let (q, e4, b4, _, _) =
      store-ok n p3 (i + 3) (v / 16777216 % 256) b3 (omega arith) (omega arith) in
    let e : store_u32 p i v ≡ ok q = rw (e1, ◌>>=◌, e2, e3) e4 in
    let (k, g) = store_u32-Keeps p q i v small e in (q, e, b4, k, g)

store_checksum-IsBuffer :
    (n hi lo v : ℕ) (p q : List ℕ) → store_checksum hi lo v p ≡ ok q → IsBuffer n p → IsBuffer n q
unfolding store_checksum
store_checksum-IsBuffer n hi lo v p q e b =
    let (p1, s0, s1) = >>=-eq-ok (store p hi (v / 256 % 256)) _ e in
    store-IsBuffer n p1 q lo (v % 256) s1 (omega arith)
      (store-IsBuffer n p p1 hi (v / 256 % 256) s0 (omega arith) b)

pub recalc_ipv4_checksum-IsBuffer :
    (n : ℕ) (p q : List ℕ) → recalc_ipv4_checksum p ≡ ok q → IsBuffer n p → IsBuffer n q
unfolding recalc_ipv4_checksum
recalc_ipv4_checksum-IsBuffer n p q e b =
    let (p1, s0, e1) = >>=-eq-ok (store p 10 0) _ e in
    let (p2, s1, e2) = >>=-eq-ok (store p1 11 0) _ e1 in
    let (first, _, e3) = >>=-eq-ok (byte p2 0) _ e2 in
    let (header, _, e4) = >>=-eq-ok (span 0 (ip_header_len first) p2) _ e3 in
    store_checksum-IsBuffer n 10 11 (checksum header) p2 q e4
      (store-IsBuffer n p1 p2 11 0 s1 (omega arith) (store-IsBuffer n p p1 10 0 s0 (omega arith) b))

-- What the UDP checksum changes.
pub recalc_udp_checksum-Keeps :
    (n udp udp_len : ℕ) (p q : List ℕ)
    → recalc_udp_checksum udp udp_len p ≡ ok q
    → IsBuffer n p
    → IsBuffer n q × Keeps (udp + 6) (udp + 8) p q
unfolding recalc_udp_checksum
recalc_udp_checksum-Keeps n udp udp_len p q e b =
    let (p1, s0, e1) = >>=-eq-ok (store p (udp + 6) 0) _ e in
    let (p2, s1, e2) = >>=-eq-ok (store p1 (udp + 7) 0) _ e1 in
    let (pseudo, _, e3) = >>=-eq-ok (pseudo_packet 17 udp udp_len p2) _ e2 in
    let (k0, _) = store-Keeps p p1 (udp + 6) 0 s0 in
    let (k1, _) = store-Keeps p1 p2 (udp + 7) 0 s1 in
    let k2 =
      store_checksum-Keeps (udp + 6) (udp + 7) (udp_value (checksum pseudo)) p2 q (omega arith)
        e3 in
    (
      store_checksum-IsBuffer n (udp + 6) (udp + 7) (udp_value (checksum pseudo)) p2 q e3 (
          store-IsBuffer n p1 p2 (udp + 7) 0 s1 (omega arith)
            (store-IsBuffer n p p1 (udp + 6) 0 s0 (omega arith) b)),
      (λ j out. k2 j (ground arith) ∙ k1 j (ground arith) ∙ k0 j (ground arith)),
    )

pub replicate-IsBuffer : (n : ℕ) → IsBuffer n (replicate n 0)
replicate-IsBuffer zero = (refl, tt)
replicate-IsBuffer (suc n) = let (l, b) = replicate-IsBuffer n in (ap suc l, (omega arith, b))

-- Behind its end a list has no elements.
pub get_elem?_end : (xs : List ℕ) (j : ℕ) → length xs ≤ j → get_elem? xs j ≡ none
get_elem?_end [] j h = refl
get_elem?_end (x ∷ xs) zero h = absurd (omega arith)
get_elem?_end (x ∷ xs) (suc j) h = get_elem?_end xs j (omega arith)

-- Lists with the same elements.
pub take-eq :
    (n : ℕ) (xs ys : List ℕ)
    → length xs ≡ length ys
    → ((j : ℕ) → j < n → get_elem? xs j ≡ get_elem? ys j)
    → take n xs ≡ take n ys
take-eq zero xs ys l h = refl
take-eq (suc n) [] [] l h = refl
take-eq (suc n) [] (y ∷ ys) l h = absurd (omega arith)
take-eq (suc n) (x ∷ xs) [] l h = absurd (omega arith)
take-eq (suc n) (x ∷ xs) (y ∷ ys) l h =
    let first : x ≡ y = some_injective (h 0 (omega arith)) in
    rw first (ap (◌∷◌ y) (take-eq n xs ys (omega arith) (λ j lt. h (suc j) (omega arith))))

take_all : (n : ℕ) (xs : List ℕ) → length xs ≡ n → take n xs ≡ xs
take_all zero [] l = refl
take_all zero (x ∷ xs) l = absurd (omega arith)
take_all (suc n) [] l = refl
take_all (suc n) (x ∷ xs) l = ap (◌∷◌ x) (take_all n xs (omega arith))

pub drop-eq :
    (n : ℕ) (xs ys : List ℕ)
    → length xs ≡ n + length ys
    → ((j : ℕ) → get_elem? xs (n + j) ≡ get_elem? ys j)
    → drop n xs ≡ ys
drop-eq n xs ys l h =
    let same : length (drop n xs) ≡ length ys = omega (arith, length-drop n xs, l) in
    sym (take_all (length ys) (drop n xs) same)
    ∙ take-eq (length ys) (drop n xs) ys same (λ j lt. get_elem?-drop n j (n + j) xs refl ∙ h j)
    ∙ take_all (length ys) ys refl
