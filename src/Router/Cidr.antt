-- ===== src/Router/Cidr.antt =====
-- IPv4 networks: `ipv4_to_u32` and `match_ipv4_cidr` of src/route/router.cpp against the numbers that
-- the addresses stand for.
use cppbox.Prelude.{
  ℕ, zero, suc, ◌+◌, ◌-◌, ◌*◌, ◌<◌, ◌≤◌, ◌≡◌, refl, ap, ◌∙◌, bit_or, false, some, List, [], ◌∷◌,
  arith, length, All, ltb, ◌==◌, ok, ◌>>=◌,
}
use cppbox.Prelude.Bits.{pow2, or_fields, and_high, agree_below, agree_below→eq}
use cppbox.Prelude.Texts.{split_at, stoi}
use cppbox.Address.{AddressText}
use cppbox.Router.{ipv4_to_u32, mask32, same_prefix4, match_ipv4_cidr}

-- The number of an address.
abbrev pub ipv4_number : ℕ → ℕ → ℕ → ℕ → ℕ
ipv4_number a b c d = ((a * 256 + b) * 256 + c) * 256 + d

ipv4_to_u32-number :
    (a b c d : ℕ)
    → b < 256
    → c < 256
    → d < 256
    → ipv4_to_u32 (a ∷ b ∷ c ∷ d ∷ []) ≡ ipv4_number a b c d
unfolding ipv4_to_u32
ipv4_to_u32-number a b c d hb hc hd =
    rw
      (
        or_fields 24 a (b * 65536) (omega arith),
        ap (λ x. bit_or x (c * 256)) e,
        or_fields 16 (a * 256 + b) (c * 256) (omega arith),
        ap (λ x. bit_or x d) f,
        or_fields 8 ((a * 256 + b) * 256 + c) d (omega arith),
      )
      (omega arith)
  where
    e : a * pow2 24 + b * 65536 ≡ (a * 256 + b) * pow2 16
    e = omega arith

    f : (a * 256 + b) * pow2 16 + c * 256 ≡ ((a * 256 + b) * 256 + c) * pow2 8
    f = omega arith

mask32-ones : (p : ℕ) → p < 33 → mask32 p ≡ (pow2 p - 1) * pow2 (32 - p)
unfolding agree_below
mask32-ones p h = agree_below→eq mask32 (λ p. (pow2 p - 1) * pow2 (32 - p)) 33 p refl h

pub same_prefix4-top :
    (p q r s u : ℕ) (base ip : List ℕ)
    → p ≤ 32
    → q < pow2 p
    → s < pow2 p
    → r < pow2 (32 - p)
    → u < pow2 (32 - p)
    → ipv4_to_u32 base ≡ q * pow2 (32 - p) + r
    → ipv4_to_u32 ip ≡ s * pow2 (32 - p) + u
    → same_prefix4 base ip (some p) ≡ (q * pow2 (32 - p) == s * pow2 (32 - p))
same_prefix4-top p q r s u base ip hp hq hs hr hu eb ei =
    rw
      (
        not_above,
        eb,
        ei,
        mask32-ones p (omega arith),
        and_high (32 - p) p q r hq hr,
        and_high (32 - p) p s u hs hu,
      )
      refl
  where
    not_above : ltb 32 p ≡ false
    not_above = ground arith

pub ==-cancel : (k a b : ℕ) → (a * pow2 k == b * pow2 k) ≡ (a == b)
==-cancel zero a b = ground arith
==-cancel (suc k) a b = ground (arith, ==-cancel k a b)

abbrev pub IsIpv4 : List ℕ → Type 0
IsIpv4 bytes = (length bytes ≡ 4) × All (λ b. b < 256) bytes

abbrev pub ipv4_value : List ℕ → ℕ
ipv4_value (a ∷ b ∷ c ∷ d ∷ rest) = ipv4_number a b c d
ipv4_value bytes = 0

pub ipv4_to_u32-value : (bytes : List ℕ) → IsIpv4 bytes → ipv4_to_u32 bytes ≡ ipv4_value bytes
ipv4_to_u32-value [] h = absurd (omega (arith, h.0))
ipv4_to_u32-value (a ∷ []) h = absurd (omega (arith, h.0))
ipv4_to_u32-value (a ∷ b ∷ []) h = absurd (omega (arith, h.0))
ipv4_to_u32-value (a ∷ b ∷ c ∷ []) h = absurd (omega (arith, h.0))
ipv4_to_u32-value (a ∷ b ∷ c ∷ d ∷ []) (n, h) = ipv4_to_u32-number a b c d h.1.0 h.1.1.0 h.1.1.1.0
ipv4_to_u32-value (a ∷ b ∷ c ∷ d ∷ x ∷ rest) h = absurd (omega (arith, h.0))

-- For a CIDR of the form `base/p` with p at most 32, `match_ipv4_cidr` compares the top p bits: with
-- the two addresses the numbers q * 2^(32-p) + r and s * 2^(32-p) + u, it returns whether q is s.
pub match_ipv4_cidr-top :
    (t : AddressText) (ip_text cidr base_text prefix_text base ip : List ℕ) (p q r s u : ℕ)
    → split_at b'/' cidr ≡ some (base_text, prefix_text)
    → t.make_address_v4 base_text ≡ some base
    → t.make_address_v4 ip_text ≡ some ip
    → stoi prefix_text ≡ ok (some p)
    → IsIpv4 base
    → IsIpv4 ip
    → p ≤ 32
    → (q < pow2 p) × (s < pow2 p)
    → (r < pow2 (32 - p)) × (u < pow2 (32 - p))
    → ipv4_value base ≡ q * pow2 (32 - p) + r
    → ipv4_value ip ≡ s * pow2 (32 - p) + u
    → match_ipv4_cidr t ip_text cidr ≡ ok (q == s)
unfolding match_ipv4_cidr
match_ipv4_cidr-top t ip_text cidr base_text prefix_text base ip p q r s u split eb ei ep hb hi hp
      hq hr vb vi =
    rw (split, eb, ei, ep, ◌>>=◌, match_ipv4_cidr)
      (ap ok (
        same_prefix4-top p q r s u base ip hp hq.0 hq.1 hr.0 hr.1 (ipv4_to_u32-value base hb ∙ vb)
          (ipv4_to_u32-value ip hi ∙ vi)
        ∙ ==-cancel (32 - p) q s))
