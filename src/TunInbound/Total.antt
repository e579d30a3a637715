-- ===== src/TunInbound/Total.antt =====
-- Every packet with a full IP header is handled: the handlers of src/inbound/tun_inbound.cpp read and
-- write inside of it, and return.
use cppbox.Prelude.{
  ℕ, zero, suc, ◌+◌, ◌/◌, ◌%◌, ◌<◌, ◌≤◌, ◌≡◌, ◌≢◌, refl, Bool, true, false, some, List, [], ◌∷◌,
  arith, length, get_elem?, length-set, Result, ok, err, stuck, ◌>>=◌,
}
use cppbox.Prelude.Slices.{get_elem?-set_ne}
use cppbox.Utils.{byte, store, write_be16_at, be16_hi}
use cppbox.Checksum.{
  span, ip_header_len, pseudo_packet, checksum, store_checksum, recalc_ipv4_checksum,
  recalc_tcp_checksum,
}
use cppbox.TunInbound.{TunInbound, Handled, store_u32, unless, rewrite_tcp}

-- The code returns, with a result of the given kind.
abbrev pub Ensures {ℓ} : {A : Type ℓ} → (A → Type 0) → Result A → Type 0
Ensures P (ok a) = P a
Ensures P (err e) = ⊥
Ensures P stuck = ⊥

pub bind-Ensures {ℓ κ} :
    {A : Type ℓ} {B : Type κ} (P : B → Type 0) (Q : A → Type 0) (m : Result A) (f : A → Result B)
    → Ensures Q m
    → ((a : A) → Q a → Ensures P (f a))
    → Ensures P (m >>= f)
bind-Ensures P Q (ok a) f q k = k a q
bind-Ensures P Q (err e) f q k = absurd q
bind-Ensures P Q stuck f q k = absurd q

pub unless-Ensures :
    (P : Handled → Type 0) (test : Bool) (s : TunInbound) (packet : List ℕ) (rest : Result Handled)
    → P (record { state = s; packet = packet; write_back = false })
    → (test ≡ false → Ensures P rest)
    → Ensures P (unless test s packet rest)
unless-Ensures P true s packet rest p k = p
unless-Ensures P false s packet rest p k = k refl

-- A buffer of `n` bytes with `first` in front.
abbrev pub Buffer : ℕ → ℕ → List ℕ → Type 0
Buffer n first p = (length p ≡ n) × (get_elem? p 0 ≡ some first)

module _ (n first : ℕ) where
  pub byte-Ensures :
      (p : List ℕ) (i : ℕ) → i < length p → Ensures (λ b. get_elem? p i ≡ some b) (byte p i)
  byte-Ensures [] i h = absurd (omega arith)
  byte-Ensures (x ∷ p) zero h = refl
  byte-Ensures (x ∷ p) (suc i) h = byte-Ensures p i (omega arith)

  store-Ensures :
      (p : List ℕ) (i v : ℕ)
      → Buffer n first p
      → i < n
      → i ≢ 0
      → Ensures (Buffer n first) (store p i v)
  store-Ensures p i v b h ne = ground (arith, length-set p i v, get_elem?-set_ne p i 0 v)

  u32-Ensures :
      (p : List ℕ) (i v : ℕ)
      → Buffer n first p
      → i + 4 ≤ n
      → i ≢ 0
      → Ensures (Buffer n first) (store_u32 p i v)
  unfolding store_u32
  u32-Ensures p i v b h ne =
      bind-Ensures _ _ (store p i (v % 256)) _ (store-Ensures p i _ b (omega arith) ne) λ p b.
        bind-Ensures _ _ (store p (i + 1) (v / 256 % 256)) _
          (store-Ensures p (i + 1) _ b (omega arith) (λ e. omega arith))
          λ p b.
            bind-Ensures _ _ (store p (i + 2) (v / 65536 % 256)) _
              (store-Ensures p (i + 2) _ b (omega arith) (λ e. omega arith))
              λ p b. store-Ensures p (i + 3) _ b (omega arith) (λ e. omega arith)

  be16-Ensures :
      (p : List ℕ) (i v : ℕ)
      → Buffer n first p
      → i + 2 ≤ n
      → i ≢ 0
      → Ensures (Buffer n first) (write_be16_at p i v)
  unfolding write_be16_at
  be16-Ensures p i v b h ne =
      bind-Ensures _ _ (store p i (be16_hi v)) _ (store-Ensures p i _ b (omega arith) ne)
        λ p b. store-Ensures p (i + 1) _ b (omega arith) (λ e. omega arith)

  checksum-Ensures :
      (hi lo v : ℕ) (p : List ℕ)
      → Buffer n first p
      → hi < n
      → lo < n
      → hi ≢ 0
      → lo ≢ 0
      → Ensures (Buffer n first) (store_checksum hi lo v p)
  unfolding store_checksum
  checksum-Ensures hi lo v p b h l nh nl =
      bind-Ensures _ _ (store p hi (v / 256 % 256)) _ (store-Ensures p hi _ b h nh)
        λ p b. store-Ensures p lo _ b l nl

  pub span-Ensures :
      (p : List ℕ) (at len : ℕ) → at + len ≤ length p → Ensures (λ _. Unit {0}) (span at len p)
  span-Ensures p at len h = ground arith

  ipv4-Ensures :
      (p : List ℕ)
      → Buffer n first p
      → 12 ≤ n
      → ip_header_len first ≤ n
      → Ensures (Buffer n first) (recalc_ipv4_checksum p)
  unfolding recalc_ipv4_checksum
  ipv4-Ensures p b h l =
      bind-Ensures _ _ (store p 10 0) _ (store-Ensures p 10 0 b (omega arith) (λ e. omega arith))
        λ p b.
          bind-Ensures _ _ (store p 11 0) _
            (store-Ensures p 11 0 b (omega arith) (λ e. omega arith))
            λ p b. bind-Ensures _ _ (byte p 0) _ (byte-Ensures p 0 (omega arith)) λ f e.
              bind-Ensures _ _ (span 0 (ip_header_len f) p) _
                (span-Ensures p 0 (ip_header_len f) (same p f e b))
                λ header _.
                  checksum-Ensures 10 11 (checksum header) p b (omega arith) (omega arith)
                    (λ e. omega arith) (λ e. omega arith)
    where
      same :
          (p : List ℕ) (f : ℕ)
          → get_elem? p 0 ≡ some f
          → Buffer n first p
          → 0 + ip_header_len f ≤ length p
      same p f e b = let w : f ≡ first = cc in ground arith

  tcp-Ensures :
      (tcp tcp_len : ℕ) (p : List ℕ)
      → Buffer n first p
      → 20 ≤ n
      → 18 ≤ tcp_len
      → tcp + tcp_len ≤ n
      → Ensures (Buffer n first) (recalc_tcp_checksum tcp tcp_len p)
  unfolding recalc_tcp_checksum pseudo_packet
  tcp-Ensures tcp tcp_len p b m h l =
      bind-Ensures _ _ (store p (tcp + 16) 0) _
        (store-Ensures p (tcp + 16) 0 b (omega arith) (λ e. omega arith))
        λ p b.
          bind-Ensures _ _ (store p (tcp + 17) 0) _
            (store-Ensures p (tcp + 17) 0 b (omega arith) (λ e. omega arith))
            λ p b. bind-Ensures _ _ (pseudo_packet 6 tcp tcp_len p) _ (pseudo p b) λ pseudo _.
              checksum-Ensures (tcp + 16) (tcp + 17) (checksum pseudo) p b (omega arith)
                (omega arith) (λ e. omega arith) (λ e. omega arith)
    where
      pseudo :
          (p : List ℕ) → Buffer n first p → Ensures (λ _. Unit {0}) (pseudo_packet 6 tcp tcp_len p)
      pseudo p b =
          bind-Ensures _ _ (span 12 8 p) _ (span-Ensures p 12 8 (omega arith)) λ addresses _.
            bind-Ensures _ _ (span tcp tcp_len p) _ (span-Ensures p tcp tcp_len (omega arith))
              λ segment _. tt

  pub rewrite-Ensures :
      (p : List ℕ) (tcp tcp_len src_ip dst_ip src_port dst_port : ℕ)
      → Buffer n first p
      → ip_header_len first ≤ n
      → 20 ≤ tcp
      → 20 ≤ tcp_len
      → tcp + tcp_len ≤ n
      → Ensures (Buffer n first) (rewrite_tcp p tcp tcp_len src_ip dst_ip src_port dst_port)
  unfolding rewrite_tcp
  rewrite-Ensures p tcp tcp_len src_ip dst_ip src_port dst_port b header t l room =
      bind-Ensures _ _ (store_u32 p 12 src_ip) _
        (u32-Ensures p 12 src_ip b (omega arith) (λ e. omega arith))
        λ p b.
          bind-Ensures _ _ (store_u32 p 16 dst_ip) _
            (u32-Ensures p 16 dst_ip b (omega arith) (λ e. omega arith))
            λ p b.
              bind-Ensures _ _ (write_be16_at p tcp src_port) _
                (be16-Ensures p tcp src_port b (omega arith) (λ e. omega arith))
                λ p b.
                  bind-Ensures _ _ (write_be16_at p (tcp + 2) dst_port) _
                    (be16-Ensures p (tcp + 2) dst_port b (omega arith) (λ e. omega arith))
                    λ p b.
                      bind-Ensures _ _ (recalc_ipv4_checksum p) _
                        (ipv4-Ensures p b (omega arith) header)
                        λ p b. tcp-Ensures tcp tcp_len p b (omega arith) (omega arith) room
