-- ===== src/TunInbound/Fields.antt =====
-- The fields of a packet that `rewrite_tcp` of src/inbound/tun_inbound.cpp leaves: what each store and each
-- checksum writes, and that the rest stays.
use cppbox.Prelude.{
  ℕ, ◌+◌, ◌*◌, ◌/◌, ◌%◌, ◌<◌, ◌≤◌, ◌≡◌, refl, ap, ◌∙◌, ◌⊎◌, inl, inr, Bool-cases, some, List, arith,
  length, ltb, get_elem?, set, ok, ok_injective, ◌>>=◌, >>=-eq-ok,
}
use cppbox.Prelude.Bits.{and_255}
use cppbox.Prelude.Slices.{get_elem?-set_self, get_elem?-set_ne}
use cppbox.Utils.{byte, store, read_be16_at, write_be16_at, be16_hi, be16_lo}
use cppbox.Utils.Bytes.{read_be16_at_lem}
use cppbox.Checksum.{
  span, ip_header_len, pseudo_packet, checksum, store_checksum, recalc_ipv4_checksum,
  recalc_tcp_checksum,
}
use cppbox.TunInbound.{load_u32, store_u32, rewrite_tcp}

-- Outside of the offsets from `a` to below `b` nothing changes.
abbrev pub Keeps : ℕ → ℕ → List ℕ → List ℕ → Type 0
Keeps a b p q = (j : ℕ) → (j < a) ⊎ (b ≤ j) → get_elem? q j ≡ get_elem? p j

-- One change after another.
Keeps-trans :
    (a b c d : ℕ) (p q r : List ℕ)
    → Keeps a b p q
    → Keeps c d q r
    → (j : ℕ) → (j < a) ⊎ (b ≤ j)
    → (j < c) ⊎ (d ≤ j)
    → get_elem? r j ≡ get_elem? p j
Keeps-trans a b c d p q r k l j out out' = l j out' ∙ k j out

pub store-Keeps :
    (p q : List ℕ) (i v : ℕ) → store p i v ≡ ok q → Keeps i (i + 1) p q × (get_elem? q i ≡ some v)
store-Keeps p q i v e = elim (Bool-cases (ltb i (length p))) [
  | inl there ↦
      let w : set p i v ≡ q = ok_injective (rw there at e) in
      rw (← w) (
        (λ j out. get_elem?-set_ne p i j v (λ same. ground arith)),
        get_elem?-set_self p i v (ground arith),
      )
  | inr gone ↦ let e' = rw gone at e in cc
]

pub load_u32-Keeps :
    (a b i : ℕ) (p q : List ℕ) → Keeps a b p q → (i + 4 ≤ a) ⊎ (b ≤ i) → load_u32 q i ≡ load_u32 p i
unfolding load_u32
load_u32-Keeps a b i p q k out =
    let e0 = k i (ground arith) in
    let e1 = k (i + 1) (ground arith) in
    let e2 = k (i + 2) (ground arith) in
    let e3 = k (i + 3) (ground arith) in rw (load_u32, byte, ◌>>=◌, e0, e1, e2, e3) refl

pub read_be16_at-Keeps :
    (a b i : ℕ) (p q : List ℕ)
    → Keeps a b p q
    → (i + 2 ≤ a) ⊎ (b ≤ i)
    → read_be16_at q i ≡ read_be16_at p i
unfolding read_be16_at
read_be16_at-Keeps a b i p q k out =
    let e0 = k i (ground arith) in
    let e1 = k (i + 1) (ground arith) in rw (read_be16_at, byte, ◌>>=◌, e0, e1) refl

pub load_u32_lem :
    (p : List ℕ) (i b0 b1 b2 b3 : ℕ)
    → get_elem? p i ≡ some b0
    → get_elem? p (i + 1) ≡ some b1
    → get_elem? p (i + 2) ≡ some b2
    → get_elem? p (i + 3) ≡ some b3
    → load_u32 p i ≡ ok (b0 + b1 * 256 + b2 * 65536 + b3 * 16777216)
unfolding load_u32
load_u32_lem p i b0 b1 b2 b3 e0 e1 e2 e3 = rw (load_u32, byte, e0, ◌>>=◌, e1, e2, e3) refl

pub store_u32-Keeps :
    (p q : List ℕ) (i v : ℕ)
    → v < 4294967296
    → store_u32 p i v ≡ ok q
    → Keeps i (i + 4) p q × (load_u32 q i ≡ ok v)
unfolding store_u32 load_u32
store_u32-Keeps p q i v small e =
    let (p1, s0, e1) = >>=-eq-ok (store p i (v % 256)) _ e in
    let (p2, s1, e2) = >>=-eq-ok (store p1 (i + 1) (v / 256 % 256)) _ e1 in
    let (p3, s2, s3) = >>=-eq-ok (store p2 (i + 2) (v / 65536 % 256)) _ e2 in
    let (k0, g0) = store-Keeps p p1 i (v % 256) s0 in
    let (k1, g1) = store-Keeps p1 p2 (i + 1) (v / 256 % 256) s1 in
    let (k2, g2) = store-Keeps p2 p3 (i + 2) (v / 65536 % 256) s2 in
    let (k3, g3) = store-Keeps p3 q (i + 3) (v / 16777216 % 256) s3 in
    let b0 : get_elem? q i ≡ some (v % 256) =
      k3 i (ground arith) ∙ k2 i (ground arith) ∙ k1 i (ground arith) ∙ g0 in
    let b1 : get_elem? q (i + 1) ≡ some (v / 256 % 256) =
      k3 (i + 1) (ground arith) ∙ k2 (i + 1) (ground arith) ∙ g1 in
    let b2 : get_elem? q (i + 2) ≡ some (v / 65536 % 256) = k3 (i + 2) (ground arith) ∙ g2 in
    let sum : v % 256
          + v / 256 % 256 * 256
          + v / 65536 % 256 * 65536
          + v / 16777216 % 256 * 16777216
        ≡ v =
      omega arith in
    (
      (λ j out.
          k3 j (ground arith) ∙ k2 j (ground arith) ∙ k1 j (ground arith) ∙ k0 j (ground arith)),
      load_u32_lem q i (v % 256) (v / 256 % 256) (v / 65536 % 256) (v / 16777216 % 256) b0 b1 b2 g3
          ∙ ap ok sum,
    )

pub write_be16_at-Keeps :
    (p q : List ℕ) (i v : ℕ)
    → v < 65536
    → write_be16_at p i v ≡ ok q
    → Keeps i (i + 2) p q × (read_be16_at q i ≡ ok v)
unfolding write_be16_at
write_be16_at-Keeps p q i v small e =
    let (p1, s0, s1) = >>=-eq-ok (store p i (be16_hi v)) _ e in
    let (k0, g0) = store-Keeps p p1 i (be16_hi v) s0 in
    let (k1, g1) = store-Keeps p1 q (i + 1) (be16_lo v) s1 in
    (
      (λ j out. k1 j (ground arith) ∙ k0 j (ground arith)),
      read_be16_at_lem q i (be16_hi v) (be16_lo v) (k1 i (ground arith) ∙ g0) g1
            (omega (arith, and_255 (v / 256))) (omega (arith, and_255 v))
          ∙ ap ok (omega (arith, and_255 (v / 256), and_255 v)),
    )

pub store_checksum-Keeps :
    (a b v : ℕ) (p q : List ℕ) → b ≡ a + 1 → store_checksum a b v p ≡ ok q → Keeps a (a + 2) p q
unfolding store_checksum
store_checksum-Keeps a b v p q next e =
    let (p1, s0, s1) = >>=-eq-ok (store p a (v / 256 % 256)) _ e in
    let (k0, _) = store-Keeps p p1 a (v / 256 % 256) s0 in
    let (k1, _) = store-Keeps p1 q b (v % 256) s1 in
    λ j out. k1 j (ground arith) ∙ k0 j (ground arith)

pub recalc_ipv4_checksum-Keeps : (p q : List ℕ) → recalc_ipv4_checksum p ≡ ok q → Keeps 10 12 p q
unfolding recalc_ipv4_checksum
recalc_ipv4_checksum-Keeps p q e =
    let (p1, s0, e1) = >>=-eq-ok (store p 10 0) _ e in
    let (p2, s1, e2) = >>=-eq-ok (store p1 11 0) _ e1 in
    let (first, _, e3) = >>=-eq-ok (byte p2 0) _ e2 in
    let (header, _, e4) = >>=-eq-ok (span 0 (ip_header_len first) p2) _ e3 in
    let (k0, _) = store-Keeps p p1 10 0 s0 in
    let (k1, _) = store-Keeps p1 p2 11 0 s1 in
    let k2 = store_checksum-Keeps 10 11 (checksum header) p2 q (omega arith) e4 in
    λ j out. k2 j out ∙ k1 j (ground arith) ∙ k0 j (ground arith)

recalc_tcp_checksum-Keeps :
    (tcp tcp_len : ℕ) (p q : List ℕ)
    → recalc_tcp_checksum tcp tcp_len p ≡ ok q
    → Keeps (tcp + 16) (tcp + 18) p q
unfolding recalc_tcp_checksum
recalc_tcp_checksum-Keeps tcp tcp_len p q e =
    let (p1, s0, e1) = >>=-eq-ok (store p (tcp + 16) 0) _ e in
    let (p2, s1, e2) = >>=-eq-ok (store p1 (tcp + 17) 0) _ e1 in
    let (pseudo, _, e3) = >>=-eq-ok (pseudo_packet 6 tcp tcp_len p2) _ e2 in
    let (k0, _) = store-Keeps p p1 (tcp + 16) 0 s0 in
    let (k1, _) = store-Keeps p1 p2 (tcp + 17) 0 s1 in
    let k2 = store_checksum-Keeps (tcp + 16) (tcp + 17) (checksum pseudo) p2 q (omega arith) e3 in
    λ j out. k2 j (ground arith) ∙ k1 j (ground arith) ∙ k0 j (ground arith)

-- The addresses and the ports of a packet, the TCP header standing at `tcp`.
abbrev pub HasFields : List ℕ → ℕ → ℕ → ℕ → ℕ → ℕ → Type 0
HasFields p tcp src_ip dst_ip src_port dst_port =
    (load_u32 p 12 ≡ ok src_ip)
    × (load_u32 p 16 ≡ ok dst_ip)
    × (read_be16_at p tcp ≡ ok src_port)
    × (read_be16_at p (tcp + 2) ≡ ok dst_port)

-- `rewrite_tcp` leaves the fields that it was given; the checksums lie elsewhere.
pub rewrite_tcp-HasFields :
    (p q : List ℕ) (tcp tcp_len src_ip dst_ip src_port dst_port : ℕ)
    → 20 ≤ tcp
    → src_ip < 4294967296
    → dst_ip < 4294967296
    → src_port < 65536
    → dst_port < 65536
    → rewrite_tcp p tcp tcp_len src_ip dst_ip src_port dst_port ≡ ok q
    → HasFields q tcp src_ip dst_ip src_port dst_port
unfolding rewrite_tcp
rewrite_tcp-HasFields p q tcp tcp_len src_ip dst_ip src_port dst_port t a b c d e =
    let (p1, s1, e1) = >>=-eq-ok (store_u32 p 12 src_ip) _ e in
    let (p2, s2, e2) = >>=-eq-ok (store_u32 p1 16 dst_ip) _ e1 in
    let (p3, s3, e3) = >>=-eq-ok (write_be16_at p2 tcp src_port) _ e2 in
    let (p4, s4, e4) = >>=-eq-ok (write_be16_at p3 (tcp + 2) dst_port) _ e3 in
    let (p5, s5, s6) = >>=-eq-ok (recalc_ipv4_checksum p4) _ e4 in
    let (_, g1) = store_u32-Keeps p p1 12 src_ip a s1 in
    let (k2, g2) = store_u32-Keeps p1 p2 16 dst_ip b s2 in
    let (k3, g3) = write_be16_at-Keeps p2 p3 tcp src_port c s3 in
    let (k4, g4) = write_be16_at-Keeps p3 p4 (tcp + 2) dst_port d s4 in
    let k5 = recalc_ipv4_checksum-Keeps p4 p5 s5 in
    let k6 = recalc_tcp_checksum-Keeps tcp tcp_len p5 q s6 in
    let tail12 =
      load_u32-Keeps _ _ 12 p5 q k6 (inl (omega arith))
      ∙ load_u32-Keeps _ _ 12 p4 p5 k5 (inr (omega arith))
      ∙ load_u32-Keeps _ _ 12 p3 p4 k4 (inl (omega arith))
      ∙ load_u32-Keeps _ _ 12 p2 p3 k3 (inl (omega arith)) in
    let tail16 =
      load_u32-Keeps _ _ 16 p5 q k6 (inl (omega arith))
      ∙ load_u32-Keeps _ _ 16 p4 p5 k5 (inr (omega arith))
      ∙ load_u32-Keeps _ _ 16 p3 p4 k4 (inl (omega arith))
      ∙ load_u32-Keeps _ _ 16 p2 p3 k3 (inl (omega arith)) in
    (
      tail12 ∙ load_u32-Keeps _ _ 12 p1 p2 k2 (inl (omega arith)) ∙ g1,
      tail16 ∙ g2,
      read_be16_at-Keeps _ _ tcp p5 q k6 (inl (omega arith))
          ∙ read_be16_at-Keeps _ _ tcp p4 p5 k5 (inr (omega arith))
          ∙ read_be16_at-Keeps _ _ tcp p3 p4 k4 (inl (omega arith))
          ∙ g3,
      read_be16_at-Keeps _ _ (tcp + 2) p5 q k6 (inl (omega arith))
          ∙ read_be16_at-Keeps _ _ (tcp + 2) p4 p5 k5 (inr (omega arith))
          ∙ g4,
    )
