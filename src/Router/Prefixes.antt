-- ===== src/Router/Prefixes.antt =====
-- Networks: `match_ipv4_cidr` and `match_ipv6_cidr` of src/route/router.cpp against the bits of the
-- addresses.
use cppbox.Prelude.{
  ℕ, zero, suc, ◌+◌, ◌-◌, ◌*◌, ◌/◌, ◌%◌, ◌<◌, ◌≤◌, ◌≡◌, refl, sym, ap, ◌∙◌, bit_and, Bool,
  Bool-cases, true, false, not, inl, inr, Option, if◌then◌else◌, some, List, [], ◌∷◌, ◌++◌, arith,
  length, take, text_eq, All, ltb, ◌==◌, ◌&&◌, ok, ◌>>=◌,
}
use cppbox.Prelude.Bits.{pow2, agree_below, agree_below→eq}
use cppbox.Prelude.BitLists.{
  bits, halves, halves-lt, take-append, take-append_long, take-bits, text_eq-append, text_eq-bits,
  bits-append, halves-eq,
}
use cppbox.Prelude.Texts.{split_at, has_char, stoi}
use cppbox.Utils.{IsByte}
use cppbox.Address.{AddressText, IsFaithful, Host, ipv4_address, ipv6_address, host_text}
use cppbox.Router.{same_prefix4, same_bits, match_ipv4_cidr, match_ipv6_cidr, match_cidr}
use cppbox.Router.Cidr.{IsIpv4, ipv4_value, ipv4_to_u32-value, same_prefix4-top, ==-cancel}

-- The bits of the bytes, one byte after another.
abbrev pub address_bits : List ℕ → List ℕ
address_bits [] = []
address_bits (b ∷ bytes) = bits 8 b ++ address_bits bytes

mask : ℕ → ℕ → ℕ
mask p b = bit_and b ((255 * pow2 (8 - p)) % 256)

kept : ℕ → ℕ → ℕ
kept p b = halves (8 - p) b * pow2 (8 - p)

mask-kept : (p b : ℕ) → p < 8 → b < 256 → mask p b ≡ kept p b
unfolding agree_below mask kept
mask-kept p b hp hb =
    let low : (p * 256 + b) % 256 ≡ b = omega arith in
    let high : (p * 256 + b) / 256 ≡ p = omega arith in
    rw (low, high) at
      (agree_below→eq (λ x. mask (x / 256) (x % 256)) (λ x. kept (x / 256) (x % 256)) 2048
        (p * 256 + b) refl (omega arith))

-- Within a byte.
mask-bits :
    (p b i : ℕ)
    → p < 8
    → b < 256
    → i < 256
    → (mask p b == mask p i) ≡ text_eq (take p (bits 8 b)) (take p (bits 8 i))
unfolding kept
mask-bits p b i hp hb hi =
    rw
      (
        mask-kept p b hp hb,
        mask-kept p i hp hi,
        take-bits (8 - p) p 8 b (omega arith),
        take-bits (8 - p) p 8 i (omega arith),
      )
      (==-cancel (8 - p) (halves (8 - p) b) (halves (8 - p) i)
        ∙ sym (
            text_eq-bits p (halves (8 - p) b) (halves (8 - p) i)
              (halves-lt (8 - p) p 8 b (omega arith) hb)
              (halves-lt (8 - p) p 8 i (omega arith) hi)))

same_bits-address_bits :
    (p : ℕ) (base ip : List ℕ)
    → length base ≡ length ip
    → All IsByte base
    → All IsByte ip
    → same_bits p base ip ≡ text_eq (take p (address_bits base)) (take p (address_bits ip))
unfolding same_bits mask
same_bits-address_bits zero [] [] l hb hi = refl
same_bits-address_bits (suc p) [] [] l hb hi = refl
same_bits-address_bits p [] (i ∷ ip) l hb hi = absurd (omega arith)
same_bits-address_bits p (b ∷ base) [] l hb hi = absurd (omega arith)
same_bits-address_bits zero (b ∷ base) (i ∷ ip) l hb hi = refl
same_bits-address_bits (suc p) (b ∷ base) (i ∷ ip) l (hb, bytes) (hi, bytes') =
    elim (Bool-cases (ltb (suc p) 8)) [
      | inl short ↦
          let small : suc p < 8 = ground arith in
          let some_bits : (suc p == 0) ≡ false = ground arith in
          let left = take-append (suc p) (bits 8 b) (address_bits base) (omega arith) in
          let right = take-append (suc p) (bits 8 i) (address_bits ip) (omega arith) in
          rw (same_bits, short, some_bits)
            (mask-bits (suc p) b i small hb hi ∙ sym (λ k. text_eq (left k) (right k)))
      | inr long ↦
          let large : 8 ≤ suc p = ground arith in
          let left = take-append_long (suc p) (bits 8 b) (address_bits base) large in
          let right = take-append_long (suc p) (bits 8 i) (address_bits ip) large in
          rw (same_bits, long)
            (ap (λ t. (b == i) && t)
                (same_bits-address_bits (suc p - 8) base ip (omega arith) bytes bytes')
              ∙ sym (
                  (λ k. text_eq (left k) (right k))
                  ∙ text_eq-append (bits 8 b) (bits 8 i) (take (suc p - 8) (address_bits base))
                      (take (suc p - 8) (address_bits ip)) refl
                  ∙ ap
                      (λ t.
                        t
                        && text_eq (take (suc p - 8) (address_bits base))
                            (take (suc p - 8) (address_bits ip)))
                      (text_eq-bits 8 b i hb hi)))
    ]

ipv4-bits :
    (bytes : List ℕ)
    → IsIpv4 bytes
    → (ipv4_value bytes < pow2 32) × (address_bits bytes ≡ bits 32 (ipv4_value bytes))
ipv4-bits [] h = absurd (omega (arith, h.0))
ipv4-bits (a ∷ []) h = absurd (omega (arith, h.0))
ipv4-bits (a ∷ b ∷ []) h = absurd (omega (arith, h.0))
ipv4-bits (a ∷ b ∷ c ∷ []) h = absurd (omega (arith, h.0))
ipv4-bits (a ∷ b ∷ c ∷ d ∷ []) (n, (ha, (hb, (hc, (hd, _))))) = (
  omega arith,
  sym (
      bits-append 24 8 32 ((a * 256 + b) * 256 + c) d refl hd
      ∙ ap (λ xs. xs ++ bits 8 d)
          (bits-append 16 8 24 (a * 256 + b) c refl hc
            ∙ ap (λ xs. xs ++ bits 8 c) (bits-append 8 8 16 a b refl hb))),
)
ipv4-bits (a ∷ b ∷ c ∷ d ∷ x ∷ rest) h = absurd (omega (arith, h.0))

take-ipv4 :
    (p : ℕ) (bytes : List ℕ)
    → p ≤ 32
    → IsIpv4 bytes
    → take p (address_bits bytes) ≡ bits p (halves (32 - p) (ipv4_value bytes))
take-ipv4 p bytes hp h =
    ap (take p) (ipv4-bits bytes h).1 ∙ take-bits (32 - p) p 32 (ipv4_value bytes) (omega arith)

same_prefix4-bits :
    (p : ℕ) (base ip : List ℕ)
    → p ≤ 32
    → IsIpv4 base
    → IsIpv4 ip
    → same_prefix4 base ip (some p)
      ≡ text_eq (take p (address_bits base)) (take p (address_bits ip))
same_prefix4-bits p base ip hp hb hi =
    let k : ℕ = 32 - p in
    let (r, e, lr) = halves-eq k (ipv4_value base) in
    let (u, e', lu) = halves-eq k (ipv4_value ip) in
    let fits : k + p ≡ 32 = omega arith in
    let q = halves-lt k p 32 (ipv4_value base) (sym fits) (ipv4-bits base hb).0 in
    let s = halves-lt k p 32 (ipv4_value ip) (sym fits) (ipv4-bits ip hi).0 in
    same_prefix4-top p (halves k (ipv4_value base)) r (halves k (ipv4_value ip)) u base ip hp q s lr
      lu (ipv4_to_u32-value base hb ∙ e) (ipv4_to_u32-value ip hi ∙ e')
    ∙ ==-cancel k (halves k (ipv4_value base)) (halves k (ipv4_value ip))
    ∙ sym (text_eq-bits p (halves k (ipv4_value base)) (halves k (ipv4_value ip)) q s)
    ∙ sym (λ j. text_eq (take-ipv4 p base hp hb j) (take-ipv4 p ip hp hi j))

-- How long an address of that kind is, in bytes, how its text is read, and the host that it makes.
abbrev pub size_of : Bool → ℕ
size_of six = if six then 16 else 4

abbrev pub read_address : AddressText → Bool → List ℕ → Option (List ℕ)
read_address t six text = if six then t.make_address_v6 text else t.make_address_v4 text

abbrev pub host_of : Bool → List ℕ → Host
host_of six a = if six then ipv6_address a else ipv4_address a

-- For an item `base/p` of `ip_cidr`, with p at most the number of bits of an address, `match_cidr` tells
-- of a host of the same kind, IPv6 where the item has a colon and else IPv4, whether the first p bits of
-- the two addresses are the same, and of a host of the other kind it returns false.
pub match_cidr-address_bits :
    (t : AddressText) (six : Bool) (cidr base_text prefix_text base ip other : List ℕ) (p : ℕ)
    → IsFaithful t
    → has_char b':' cidr ≡ six
    → split_at b'/' cidr ≡ some (base_text, prefix_text)
    → read_address t six base_text ≡ some base
    → stoi prefix_text ≡ ok (some p)
    → p ≤ size_of six * 8
    → (length base ≡ size_of six) × All (λ b. b < 256) base
    → (length ip ≡ size_of six) × All (λ b. b < 256) ip
    → (match_cidr t (host_of six ip) cidr
        ≡ ok (text_eq (take p (address_bits base)) (take p (address_bits ip))))
      × (match_cidr t (host_of (not six) other) cidr ≡ ok false)
unfolding match_cidr match_ipv4_cidr match_ipv6_cidr host_text
match_cidr-address_bits t true cidr base_text prefix_text base ip other p faithful colon split eb ep
      hp (lb, hb) (li, hi) =
    let back = faithful.v6_print ip li in
    let small : ltb 128 p ≡ false = ground arith in
    (
      rw (colon, match_ipv6_cidr, split, eb, back, ep, ◌>>=◌, small)
          (ap ok (same_bits-address_bits p base ip (lb ∙ sym li) hb hi)),
      rw colon refl,
    )
match_cidr-address_bits t false cidr base_text prefix_text base ip other p faithful colon split eb
      ep hp b i =
    let back = faithful.v4_print ip i.0 in
    (
      rw (colon, match_ipv4_cidr, split, eb, back, ep, ◌>>=◌)
          (ap ok (same_prefix4-bits p base ip hp b i)),
      rw colon refl,
    )
