-- ===== src/Prelude/Bits.antt =====
-- `|` of disjoint fields and `&` with a mask of low bits, as arithmetic.
use Prim.Native.Nat.{
  ℕ, zero, suc, ◌+◌, ◌-◌, ◌*◌, ◌/◌, ◌%◌, ◌≤◌, ◌<◌, min, max, bit_and, bit_or, digits,
  bit_and-bitwise, bit_or-bitwise,
}
use mathlib.Core.Path.{◌≡◌, refl}
use mathlib.Core.Bool.{Bool, true, ◌&&◌}
use cppbox.Prelude.Tests.{◌==◌}
use native.Mathlib.Omega.{arith}

abbrev and_upto : ℕ → ℕ → ℕ → ℕ
and_upto n a b = digits (λ b. zero) min n a b

abbrev or_upto : ℕ → ℕ → ℕ → ℕ
or_upto n a b = digits (λ b. b) max n a b

and_upto_enough : (n m a b : ℕ) → a ≤ n → a ≤ m → and_upto n a b ≡ and_upto m a b
and_upto_enough n m zero b p q = go n m
  where
    go : (n m : ℕ) → and_upto n 0 b ≡ and_upto m 0 b
    go zero zero = refl
    go zero (suc m) = refl
    go (suc n) zero = refl
    go (suc n) (suc m) = refl
and_upto_enough zero m (suc a) b p q = absurd (omega arith)
and_upto_enough (suc n) zero (suc a) b p q = absurd (omega arith)
and_upto_enough (suc n) (suc m) (suc a) b p q =
    omega (arith, and_upto_enough n m (suc a / 2) (b / 2) (omega arith) (omega arith))

or_upto_enough : (n m a b : ℕ) → a ≤ n → a ≤ m → or_upto n a b ≡ or_upto m a b
or_upto_enough n m zero b p q = go n m
  where
    go : (n m : ℕ) → or_upto n 0 b ≡ or_upto m 0 b
    go zero zero = refl
    go zero (suc m) = refl
    go (suc n) zero = refl
    go (suc n) (suc m) = refl
or_upto_enough zero m (suc a) b p q = absurd (omega arith)
or_upto_enough (suc n) zero (suc a) b p q = absurd (omega arith)
or_upto_enough (suc n) (suc m) (suc a) b p q =
    omega (arith, or_upto_enough n m (suc a / 2) (b / 2) (omega arith) (omega arith))

zero-and : (b : ℕ) → bit_and 0 b ≡ 0
zero-and b = bit_and-bitwise 0 b

zero-or : (b : ℕ) → bit_or 0 b ≡ b
zero-or b = bit_or-bitwise 0 b

-- The lowest digit.
pub and_digit : (a b : ℕ) → bit_and a b ≡ min (a % 2) (b % 2) + 2 * bit_and (a / 2) (b / 2)
and_digit zero b = omega (arith, zero-and b, zero-and (b / 2))
and_digit (suc a) b = omega (
  arith,
  and_upto_enough a (suc a / 2) (suc a / 2) (b / 2) (omega arith) (omega arith),
  bit_and-bitwise (suc a / 2) (b / 2),
  bit_and-bitwise (suc a) b,
)

pub or_digit : (a b : ℕ) → bit_or a b ≡ max (a % 2) (b % 2) + 2 * bit_or (a / 2) (b / 2)
or_digit zero b = omega (arith, zero-or b, zero-or (b / 2))
or_digit (suc a) b = omega (
  arith,
  or_upto_enough a (suc a / 2) (suc a / 2) (b / 2) (omega arith) (omega arith),
  bit_or-bitwise (suc a / 2) (b / 2),
  bit_or-bitwise (suc a) b,
)

and-zero_upto : (n a : ℕ) → a ≤ n → bit_and a 0 ≡ 0
and-zero_upto n zero h = refl
and-zero_upto zero (suc a) h = absurd (omega arith)
and-zero_upto (suc n) (suc a) h =
    omega (arith, and_digit (suc a) 0, and-zero_upto n (suc a / 2) (omega arith))

or-zero_upto : (n a : ℕ) → a ≤ n → bit_or a 0 ≡ a
or-zero_upto n zero h = refl
or-zero_upto zero (suc a) h = absurd (omega arith)
or-zero_upto (suc n) (suc a) h =
    omega (arith, or_digit (suc a) 0, or-zero_upto n (suc a / 2) (omega arith))

-- 2^k, by doubling.
abbrev pub pow2 : ℕ → ℕ
pow2 zero = 1
pow2 (suc k) = 2 * pow2 k

pow2-pos : (k : ℕ) → 0 < pow2 k
pow2-pos zero = omega arith
pow2-pos (suc k) = omega (arith, pow2-pos k)

-- `(q << k) | r` is `q * 2^k + r` for a field `r` of `k` bits.
pub or_fields : (k q r : ℕ) → r < pow2 k → bit_or (q * pow2 k) r ≡ q * pow2 k + r
or_fields zero q r h = ground (arith, or-zero_upto q q)
or_fields (suc k) q r h =
    ground (arith, or_digit (q * pow2 (suc k)) r, or_fields k q (r / 2) (omega arith))

-- `x & (2^k - 1)` keeps the field of the lowest `k` bits.
and_fields : (k q r : ℕ) → r < pow2 k → bit_and (q * pow2 k + r) (pow2 k - 1) ≡ r
and_fields zero q r h = ground (arith, and-zero_upto q q)
and_fields (suc k) q r h = ground (
  arith,
  pow2-pos k,
  and_digit (q * pow2 (suc k) + r) (pow2 (suc k) - 1),
  and_fields k q (r / 2) (omega arith),
)

-- `x & mask` for a mask of `m` ones above `k` zeros keeps the field above the lowest `k` bits.
pub and_high :
    (k m q r : ℕ)
    → q < pow2 m
    → r < pow2 k
    → bit_and (q * pow2 k + r) ((pow2 m - 1) * pow2 k) ≡ q * pow2 k
and_high zero m q r h l = ground (arith, and_fields m 0 q)
and_high (suc k) m q r h l = ground (
  arith,
  and_digit (q * pow2 (suc k) + r) ((pow2 m - 1) * pow2 (suc k)),
  and_high k m q (r / 2) h (omega arith),
)

pub and_15 : (x : ℕ) → bit_and x 15 ≡ x % 16
and_15 x = ground (arith, and_fields 4 (x / 16) (x % 16))

pub and_63 : (x : ℕ) → bit_and x 63 ≡ x % 64
and_63 x = ground (arith, and_fields 6 (x / 64) (x % 64))

pub and_255 : (x : ℕ) → bit_and x 255 ≡ x % 256
and_255 x = ground (arith, and_fields 8 (x / 256) (x % 256))

pub and_65535 : (x : ℕ) → bit_and x 65535 ≡ x % 65536
and_65535 x = ground (arith, and_fields 16 (x / 65536) (x % 65536))

pub or_byte : (q r : ℕ) → r < 256 → bit_or (q * 256) r ≡ q * 256 + r
or_byte q r h = or_fields 8 q r h

-- Over a small range, every value is checked by evaluation.
unfoldable pub agree_below : (ℕ → ℕ) → (ℕ → ℕ) → ℕ → Bool
agree_below f g zero = true
agree_below f g (suc n) = (f n == g n) && agree_below f g n

pub agree_below→eq : (f g : ℕ → ℕ) (n x : ℕ) → agree_below f g n ≡ true → x < n → f x ≡ g x
unfolding agree_below
agree_below→eq f g zero x h lt = absurd (omega arith)
agree_below→eq f g (suc n) x h lt = ground (arith, agree_below→eq f g n x)

-- `x & 0xc0` for a label length.
pub and_192_low : (x : ℕ) → x < 64 → bit_and x 192 ≡ 0
unfolding agree_below
and_192_low x h = agree_below→eq (λ y. bit_and y 192) (λ y. 0) 64 x refl h
