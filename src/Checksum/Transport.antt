-- ===== src/Checksum/Transport.antt =====
-- The TCP and UDP checksums of src/inbound/tun_checksum.cpp, over the pseudo header and the segment.
use cppbox.Prelude.{
  ◌⊎◌, inl, inr, ℕ, zero, suc, ◌+◌, ◌/◌, ◌%◌, ◌<◌, ◌≤◌, ◌≡◌, ◌≢◌, refl, sym, ◌∙◌, List, [], ◌∷◌,
  ◌++◌, length, set, get_elem?, take, drop, All, All-append, arith, some, length-set, length-take,
  length-drop, length-append, ok,
}
use cppbox.Prelude.Slices.{
  get_elem?-set_self, get_elem?-set_ne, All-take, All-drop, get_elem?-take, get_elem?-drop,
  get_elem?-append_right, take-set, drop-set, slice-set_above, set-append_right,
}
use cppbox.Utils.{IsByte}
use cppbox.Checksum.{
  checksum, store_checksum, pseudo_packet, recalc_tcp_checksum, recalc_udp_checksum, udp_value,
}
use cppbox.Checksum.Words.{twice, Verifies}
use cppbox.Checksum.Verify.{filled-Verifies, zeroed_hi, zeroed_lo, zeroed-IsByte}

-- What `pseudo_packet` gives where the packet is long enough.
abbrev pub pseudo_header : ℕ → ℕ → List ℕ → List ℕ
pseudo_header protocol len p =
    take 8 (drop 12 p) ++ (0 ∷ protocol ∷ (len / 256 % 256) ∷ (len % 256) ∷ [])

abbrev pub pseudo_list : ℕ → ℕ → ℕ → List ℕ → List ℕ
pseudo_list protocol t len p = pseudo_header protocol len p ++ take len (drop t p)

length-pseudo_header :
    (protocol len : ℕ) (p : List ℕ) → 20 ≤ length p → length (pseudo_header protocol len p) ≡ 12
length-pseudo_header protocol len p h = omega (
  arith,
  length-append (take 8 (drop 12 p)) (0 ∷ protocol ∷ (len / 256 % 256) ∷ (len % 256) ∷ []),
  length-take 8 (drop 12 p),
  length-drop 12 p,
)

pseudo_packet_lem :
    (protocol t len : ℕ) (p : List ℕ)
    → 20 ≤ length p
    → t + len ≤ length p
    → pseudo_packet protocol t len p ≡ ok (pseudo_list protocol t len p)
unfolding pseudo_packet
pseudo_packet_lem protocol t len p h k = ground arith

-- A store into the segment is a store into the summed bytes.
pseudo_list-set :
    (protocol t len : ℕ) (p : List ℕ) (i k m v : ℕ)
    → 20 ≤ k
    → k ≡ t + i
    → m ≡ 12 + i
    → 20 ≤ length p
    → pseudo_list protocol t len (set p k v) ≡ set (pseudo_list protocol t len p) m v
pseudo_list-set protocol t len p i k m v low e f n =
    rw (slice-set_above 12 8 k p v low, drop-set t i k p v e, take-set len i (drop t p) v)
      (sym (
        set-append_right (pseudo_header protocol len p) (take len (drop t p)) i m v
          (omega (arith, length-pseudo_header protocol len p))))

-- The field is word `j` of the segment, at the offsets `a` and `b` of the packet.
module _ (protocol j t len : ℕ) (packet : List ℕ) (a b : ℕ) (bytes : All IsByte packet)
    (small : protocol < 256) (a_eq : a ≡ t + twice j) (b_eq : b ≡ t + suc (twice j))
    (below : 20 ≤ a) (inside : suc (twice j) < len) (fits : t + len ≤ length packet)
    (short : len ≤ 65524) where
  abbrev zeroed : List ℕ
  zeroed = set (set packet a 0) b 0

  abbrev pseudo : List ℕ
  pseudo = pseudo_list protocol t len zeroed

  length-zeroed : length zeroed ≡ length packet
  length-zeroed = length-set (set packet a 0) b 0 ∙ length-set packet a 0

  pseudo_at :
      (i k m : ℕ)
      → i < len
      → k ≡ t + i
      → m ≡ 12 + i
      → get_elem? zeroed k ≡ some 0
      → get_elem? pseudo m ≡ some 0
  pseudo_at i k m lt e f z =
      get_elem?-append_right (pseudo_header protocol len zeroed) (take len (drop t zeroed)) i m
        (omega (arith, length-pseudo_header protocol len zeroed, length-zeroed))
      ∙ get_elem?-take len i (drop t zeroed) lt
      ∙ get_elem?-drop t i k zeroed e
      ∙ z

  pseudo-IsByte : All IsByte pseudo
  pseudo-IsByte =
      All-append IsByte (pseudo_header protocol len zeroed) (take len (drop t zeroed))
        (All-append IsByte (take 8 (drop 12 zeroed)) _
          (All-take IsByte 8 (drop 12 zeroed) (All-drop IsByte 12 zeroed whole)) (omega arith))
        (All-take IsByte len (drop t zeroed) (All-drop IsByte t zeroed whole))
    where
      whole : All IsByte zeroed
      whole = zeroed-IsByte packet a b bytes

  length-pseudo : length pseudo ≤ 65536
  length-pseudo = omega (
    arith,
    length-append (pseudo_header protocol len zeroed) (take len (drop t zeroed)),
    length-pseudo_header protocol len zeroed,
    length-zeroed,
    length-take len (drop t zeroed),
  )

  -- The field filled with the checksum.
  filled_field :
      (value : ℕ)
      → (value ≡ checksum pseudo) ⊎ ((checksum pseudo ≡ 0) × (value ≡ 65535))
      → Verifies
          (pseudo_list protocol t len (set (set zeroed a (value / 256 % 256)) b (value % 256)))
  filled_field value c =
      rw
        (
          pseudo_list-set protocol t len (set zeroed a (value / 256 % 256)) (suc (twice j)) b
              (suc (twice k)) (value % 256) (omega arith) b_eq (omega arith)
              (omega (arith, length-set zeroed a (value / 256 % 256), length-zeroed)),
          pseudo_list-set protocol t len zeroed (twice j) a (twice k) (value / 256 % 256) below a_eq
              (omega arith) (omega (arith, length-zeroed)),
        )
        (filled-Verifies k value pseudo pseudo-IsByte length-pseudo
          (pseudo_at (twice j) a (twice k) (omega arith) a_eq (omega arith)
            (zeroed_hi packet a b (omega arith) (omega arith)))
          (pseudo_at (suc (twice j)) b (suc (twice k)) inside b_eq (omega arith)
            (zeroed_lo packet a b (omega arith)))
          c)
    where
      k : ℕ
      k = suc (suc (suc (suc (suc (suc j)))))

length-stored :
    (p : List ℕ) (a b hi lo : ℕ) → length (set (set (set (set p a 0) b 0) a hi) b lo) ≡ length p
length-stored p a b hi lo =
    length-set (set (set (set p a 0) b 0) a hi) b lo
    ∙ length-set (set (set p a 0) b 0) a hi
    ∙ length-set (set p a 0) b 0
    ∙ length-set p a 0

-- The four stores leave the rest.
stored_other :
    (p : List ℕ) (a b hi lo i : ℕ)
    → a ≢ i
    → b ≢ i
    → get_elem? (set (set (set (set p a 0) b 0) a hi) b lo) i ≡ get_elem? p i
stored_other p a b hi lo i n m =
    get_elem?-set_ne (set (set (set p a 0) b 0) a hi) b i lo m
    ∙ get_elem?-set_ne (set (set p a 0) b 0) a i hi n
    ∙ get_elem?-set_ne (set p a 0) b i 0 m
    ∙ get_elem?-set_ne p a i 0 n

-- `recalc_tcp_checksum` returns a packet of the same length that differs in the two bytes of the
-- checksum only, and in which the pseudo header (both addresses, a zero, the protocol 6 and the length
-- of the segment) and the segment verify: their 16 bit words add up to 0xffff in one's complement. This
-- is where the segment lies in the packet behind its IP header and is at most 65524 bytes long.
pub recalc_tcp_checksum-Verifies :
    (tcp tcp_len : ℕ) (packet : List ℕ)
    → All IsByte packet
    → 4 ≤ tcp
    → 18 ≤ tcp_len
    → tcp_len ≤ 65524
    → tcp + tcp_len ≤ length packet
    → (p : List ℕ) × (recalc_tcp_checksum tcp tcp_len packet ≡ ok p)
      × Verifies (pseudo_list 6 tcp tcp_len p)
      × (length p ≡ length packet)
      × ((i : ℕ) → tcp + 16 ≢ i → tcp + 17 ≢ i → get_elem? p i ≡ get_elem? packet i)
unfolding recalc_tcp_checksum store_checksum
recalc_tcp_checksum-Verifies tcp tcp_len packet h below low short fits = (
  stored,
  ground (
    arith,
    length-set packet (tcp + 16) 0,
    length-set (set packet (tcp + 16) 0) (tcp + 17) 0,
    length-set zero_field (tcp + 16) (value / 256 % 256),
    pseudo_packet_lem 6 tcp tcp_len zero_field,
  ),
  filled_field 6 8 tcp tcp_len packet (tcp + 16) (tcp + 17) h (omega arith) refl refl (omega arith)
      (omega arith) fits short value (inl refl),
  same_length,
  stored_other packet (tcp + 16) (tcp + 17) (value / 256 % 256) (value % 256),
)
  where
    zero_field : List ℕ
    zero_field = set (set packet (tcp + 16) 0) (tcp + 17) 0

    value : ℕ
    value = checksum (pseudo_list 6 tcp tcp_len zero_field)

    stored : List ℕ
    stored = set (set zero_field (tcp + 16) (value / 256 % 256)) (tcp + 17) (value % 256)

    same_length : length stored ≡ length packet
    same_length = length-stored packet (tcp + 16) (tcp + 17) (value / 256 % 256) (value % 256)

udp_value-cases : (v : ℕ) → (udp_value v ≡ v) ⊎ ((v ≡ 0) × (udp_value v ≡ 65535))
udp_value-cases zero = inr (refl, refl)
udp_value-cases (suc v) = inl (ground arith)

checksum-lt : (xs : List ℕ) → checksum xs < 65536
unfolding checksum
checksum-lt xs = omega arith

udp_value-pos : (v : ℕ) → v < 65536 → 0 < udp_value v / 256 % 256 + udp_value v % 256
udp_value-pos zero h = omega arith
udp_value-pos (suc v) h = ground arith

-- `recalc_udp_checksum` returns, the segment with its pseudo header then verifies, and the
-- field is not 0, which would mean that there is no checksum.
pub recalc_udp_checksum-Verifies :
    (udp udp_len : ℕ) (packet : List ℕ)
    → All IsByte packet
    → 14 ≤ udp
    → 8 ≤ udp_len
    → udp_len ≤ 65524
    → udp + udp_len ≤ length packet
    → (p : List ℕ) × (value : ℕ) × (recalc_udp_checksum udp udp_len packet ≡ ok p)
      × Verifies (pseudo_list 17 udp udp_len p)
      × (get_elem? p (udp + 6) ≡ some (value / 256 % 256))
      × (get_elem? p (udp + 7) ≡ some (value % 256))
      × (0 < value / 256 % 256 + value % 256)
unfolding recalc_udp_checksum store_checksum
recalc_udp_checksum-Verifies udp udp_len packet h below low short fits = (
  stored,
  value,
  ground (
    arith,
    length-set packet (udp + 6) 0,
    length-set (set packet (udp + 6) 0) (udp + 7) 0,
    length-set zero_field (udp + 6) (value / 256 % 256),
    pseudo_packet_lem 17 udp udp_len zero_field,
  ),
  filled_field 17 3 udp udp_len packet (udp + 6) (udp + 7) h (omega arith) refl refl (omega arith)
      (omega arith) fits short value (udp_value-cases _),
  get_elem?-set_ne (set zero_field (udp + 6) (value / 256 % 256)) (udp + 7) (udp + 6) (value % 256)
        (omega arith)
      ∙ get_elem?-set_self zero_field (udp + 6) (value / 256 % 256) (omega (arith, zero_length)),
  get_elem?-set_self (set zero_field (udp + 6) (value / 256 % 256)) (udp + 7) (value % 256)
      (omega (arith, zero_length, length-set zero_field (udp + 6) (value / 256 % 256))),
  udp_value-pos (checksum pseudo_zeroed) (checksum-lt pseudo_zeroed),
)
  where
    zero_field : List ℕ
    zero_field = set (set packet (udp + 6) 0) (udp + 7) 0

    pseudo_zeroed : List ℕ
    pseudo_zeroed = pseudo_list 17 udp udp_len zero_field

    zero_length : length zero_field ≡ length packet
    zero_length = length-set (set packet (udp + 6) 0) (udp + 7) 0 ∙ length-set packet (udp + 6) 0

    value : ℕ
    value = udp_value (checksum (pseudo_list 17 udp udp_len zero_field))

    stored : List ℕ
    stored = set (set zero_field (udp + 6) (value / 256 % 256)) (udp + 7) (value % 256)
