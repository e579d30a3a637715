-- ===== src/Checksum/Fold.antt =====
-- `while (sum >> 16)` of `checksum` in src/inbound/tun_checksum.cpp keeps the sum modulo 65535.
use cppbox.Prelude.{ℕ, suc, ◌+◌, ◌*◌, ◌/◌, ◌<◌, ◌≡◌, arith}
use cppbox.Prelude.Recursion.{Acc}
use cppbox.Prelude.Bits.{and_65535}
use cppbox.Checksum.{fold_once, fold_once-lt, fold_loop, fold, complement16}
use mathlib.Core.Logic.{dif_pos, dif_neg}
use native.Mathlib.Decide.{dec_lt}
use native.Mathlib.Bridge.{le_prop}

-- The sum without its carries: 16 bits that agree with it modulo 65535, and are 0 only for 0.
pub record IsFolded (sum f : ℕ) : Type 0 where
  pub carries : ℕ
  pub agrees : sum ≡ f + carries * 65535
  pub low : f < 65536
  pub pos : 0 < sum → 0 < f

fold_step :
    (sum f : ℕ) → sum < 4294967296 → 0 < sum / 65536 → IsFolded (fold_once sum) f → IsFolded sum f
fold_step sum f h c i = record {
  carries = i.carries + sum / 65536;
  agrees = omega (arith, i.agrees, and_65535 sum);
  low = i.low;
  pos = λ p. i.pos (omega (arith, and_65535 sum));
}

fold_loop-IsFolded : (sum : ℕ) (w : Acc ◌<◌ sum) → sum < 4294967296 → IsFolded sum (fold_loop sum w)
unfolding fold_loop
fold_loop-IsFolded sum (Acc.intro _ smaller) h = elim (dec_lt 0 (sum / 65536)) [
  | yes c ↦ rw (dif_pos _ le_prop c) (
      fold_step sum _ h c (
        fold_loop-IsFolded (fold_once sum) (smaller (fold_once sum) (fold_once-lt sum c))
          (omega arith)))
  | no c ↦
      rw (dif_neg _ c)
        (record { carries = 0; agrees = omega arith; low = omega arith; pos = λ p. p })
]

pub fold-IsFolded : (sum : ℕ) → sum < 4294967296 → IsFolded sum (fold sum)
unfolding fold
fold-IsFolded sum h = fold_loop-IsFolded sum _ h

-- A sum whose complement is 0 is a multiple of 65535 other than 0.
pub fold-multiple :
    (sum : ℕ) → sum < 4294967296 → complement16 (fold sum) ≡ 0 → (k : ℕ) × (sum ≡ suc k * 65535)
fold-multiple sum h z =
    let i = fold-IsFolded sum h in
    let full : fold sum ≡ 65535 = omega (arith, z, i.low) in
    (i.carries, omega (arith, i.agrees, full))

-- Adding the complement of a folded sum gives a sum that folds to 0xffff.
pub fold-verify :
    (sum : ℕ) → sum + 65535 < 4294967296 → complement16 (fold (sum + complement16 (fold sum))) ≡ 0
fold-verify sum h =
    let i = fold-IsFolded sum (omega arith) in
    let j = fold-IsFolded (sum + complement16 (fold sum)) (omega arith) in
    omega (arith, i.agrees, i.low, i.pos, j.agrees, j.low, j.pos)

-- So does adding 0xffff where the complement is 0.
pub fold-verify_zero :
    (sum : ℕ)
    → sum + 65535 < 4294967296
    → complement16 (fold sum) ≡ 0
    → complement16 (fold (sum + 65535)) ≡ 0
fold-verify_zero sum h z =
    let i = fold-IsFolded sum (omega arith) in
    let j = fold-IsFolded (sum + 65535) (omega arith) in
    omega (arith, i.agrees, i.low, i.pos, j.agrees, j.low, j.pos)
