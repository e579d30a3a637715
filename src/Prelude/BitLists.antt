-- ===== src/Prelude/BitLists.antt =====
-- Numbers as lists of bits, and the first bits of such lists.
use Prim.Native.Nat.{ℕ, zero, suc, ◌+◌, ◌-◌, ◌*◌, ◌/◌, ◌%◌, ◌<◌, ◌≤◌}
use mathlib.Core.Path.{◌≡◌, refl, sym, ap, ◌∙◌}
use mathlib.Core.Bool.{◌&&◌}
use mathlib.Core.List.{List, [], ◌∷◌, ◌++◌, append-nil, append_assoc}
use native.Mathlib.Omega.{arith}
use cppbox.Prelude.Tests.{◌==◌}
use cppbox.Prelude.Lists.{length, length-append, take, take-append_left, text_eq}
use cppbox.Prelude.Bits.{pow2}

-- The last `n` bits of a number, the highest first.
abbrev pub bits : ℕ → ℕ → List ℕ
bits zero b = []
bits (suc n) b = bits n (b / 2) ++ (b % 2 ∷ [])

abbrev pub halves : ℕ → ℕ → ℕ
halves zero b = b
halves (suc k) b = halves k (b / 2)

pub length-bits : (n b : ℕ) → length (bits n b) ≡ n
length-bits zero b = refl
length-bits (suc n) b =
    omega (arith, length-append (bits n (b / 2)) (b % 2 ∷ []), length-bits n (b / 2))

pub halves-lt : (k p n b : ℕ) → n ≡ k + p → b < pow2 n → halves k b < pow2 p
halves-lt zero p n b e h = let e' : n ≡ p = omega arith in rw e' at h
halves-lt (suc k) p zero b e h = absurd (omega arith)
halves-lt (suc k) p (suc n) b e h = halves-lt k p n (b / 2) (omega arith) (omega arith)

-- The start of a list.
pub take-append : (p : ℕ) (xs ys : List ℕ) → p ≤ length xs → take p (xs ++ ys) ≡ take p xs
take-append zero xs ys h = refl
take-append (suc p) [] ys h = absurd (omega arith)
take-append (suc p) (x ∷ xs) ys h = ap (◌∷◌ x) (take-append p xs ys (omega arith))

pub take-append_long :
    (p : ℕ) (xs ys : List ℕ) → length xs ≤ p → take p (xs ++ ys) ≡ xs ++ take (p - length xs) ys
take-append_long p [] ys h = ap (λ n. take n ys) (omega arith)
take-append_long zero (x ∷ xs) ys h = absurd (omega arith)
take-append_long (suc p) (x ∷ xs) ys h =
    ap (◌∷◌ x) (take-append_long p xs ys (omega arith) ∙ ap (λ n. xs ++ take n ys) (omega arith))

pub take-bits : (k p n b : ℕ) → n ≡ k + p → take p (bits n b) ≡ bits p (halves k b)
take-bits zero p n b e =
    let e' : n ≡ p = omega arith in
    let len = length-bits p b in
    rw e' (
      sym (take-append p (bits p b) [] (omega (arith, len)))
      ∙ take-append_left (bits p b) [] p (sym len))
take-bits (suc k) p zero b e = absurd (omega arith)
take-bits (suc k) p (suc n) b e =
    take-append p (bits n (b / 2)) (b % 2 ∷ []) (omega (arith, length-bits n (b / 2)))
    ∙ take-bits k p n (b / 2) (omega arith)

pub text_eq-append :
    (xs xs' ys ys' : List ℕ)
    → length xs ≡ length xs'
    → text_eq (xs ++ ys) (xs' ++ ys') ≡ text_eq xs xs' && text_eq ys ys'
text_eq-append [] [] ys ys' h = refl
text_eq-append [] (x' ∷ xs') ys ys' h = absurd (omega arith)
text_eq-append (x ∷ xs) [] ys ys' h = absurd (omega arith)
text_eq-append (x ∷ xs) (x' ∷ xs') ys ys' h =
    ground (arith, text_eq-append xs xs' ys ys' (omega arith))

pub text_eq-bits : (n x y : ℕ) → x < pow2 n → y < pow2 n → text_eq (bits n x) (bits n y) ≡ (x == y)
text_eq-bits zero x y hx hy = ground arith
text_eq-bits (suc n) x y hx hy =
    text_eq-append (bits n (x / 2)) (bits n (y / 2)) (x % 2 ∷ []) (y % 2 ∷ [])
      (omega (arith, length-bits n (x / 2), length-bits n (y / 2)))
    ∙ ground (arith, text_eq-bits n (x / 2) (y / 2) (omega arith) (omega arith))

pub bits-append :
    (m n t h l : ℕ) → t ≡ m + n → l < pow2 n → bits t (h * pow2 n + l) ≡ bits m h ++ bits n l
bits-append m zero t h l e small =
    let e' : t ≡ m = omega arith in
    let v : h * 1 + l ≡ h = omega arith in rw (e', v) (sym (append-nil (bits m h)))
bits-append m (suc n) zero h l e small = absurd (omega arith)
bits-append m (suc n) (suc t) h l e small =
    let half : (h * (2 * pow2 n) + l) / 2 ≡ h * pow2 n + l / 2 = grind arith in
    let rest : (h * (2 * pow2 n) + l) % 2 ≡ l % 2 = grind arith in
    rw (half, rest, bits-append m n t h (l / 2) (omega arith) (omega arith))
      (append_assoc (bits m h) (bits n (l / 2)) (l % 2 ∷ []))

-- What halving a number drops.
pub halves-eq : (k x : ℕ) → (r : ℕ) × (x ≡ halves k x * pow2 k + r) × (r < pow2 k)
halves-eq zero x = (0, omega arith, omega arith)
halves-eq (suc k) x =
    let (r, e, h) = halves-eq k (x / 2) in (2 * r + x % 2, omega (arith, e, h), omega (arith, h))
