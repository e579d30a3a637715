-- ===== src/Checksum/Words.antt =====
-- The word sum of `checksum` (src/inbound/tun_checksum.cpp) without overflow, and what a store into
-- one word adds to it.
use cppbox.Prelude.{
  ℕ, Bool, true, false, refl, zero, suc, ◌+◌, ◌*◌, ◌<◌, ◌≤◌, ◌≡◌, List, [], ◌∷◌, length, set,
  get_elem?, All, arith, some,
}
use cppbox.Prelude.Bits.{or_byte}
use cppbox.Utils.{IsByte}
use cppbox.Checksum.{sum_words}

-- The sum of the big-endian words, an odd byte at the end being the high half of one.
pub word_sum : List ℕ → ℕ
word_sum [] = 0
word_sum (b ∷ []) = b * 256
word_sum (hi ∷ lo ∷ rest) = hi * 256 + lo + word_sum rest

-- The same by the place of each byte: one at an even place is the high half of a word, one at an odd
-- place the low half.
abbrev pub weighted_sum : Bool → List ℕ → ℕ
weighted_sum even [] = 0
weighted_sum true (b ∷ bytes) = b * 256 + weighted_sum false bytes
weighted_sum false (b ∷ bytes) = b + weighted_sum true bytes

abbrev pub internet_sum : List ℕ → ℕ
internet_sum bytes = weighted_sum true bytes

-- The bytes verify, as a receiver tests them: the sum of their 16 bit words in one's complement is 0xffff,
-- that is, the words are not all 0 and their sum is a multiple of 65535.
abbrev pub Verifies : List ℕ → Type 0
Verifies bytes = (k : ℕ) × (internet_sum bytes ≡ suc k * 65535)

pub internet_sum-word_sum : (xs : List ℕ) → internet_sum xs ≡ word_sum xs
unfolding word_sum
internet_sum-word_sum [] = refl
internet_sum-word_sum (b ∷ []) = omega arith
internet_sum-word_sum (hi ∷ lo ∷ rest) = omega (arith, internet_sum-word_sum rest)

pub sum_words-eq-word_sum :
    (xs : List ℕ) (acc : ℕ)
    → All IsByte xs
    → acc + word_sum xs < 4294967296
    → sum_words xs acc ≡ acc + word_sum xs
unfolding sum_words word_sum
sum_words-eq-word_sum [] acc h lt = omega arith
sum_words-eq-word_sum (b ∷ []) acc h lt = omega arith
sum_words-eq-word_sum (hi ∷ lo ∷ rest) acc h lt =
    ground (arith, or_byte hi lo, sum_words-eq-word_sum rest (acc + hi * 256 + lo) h.1.1)

pub word_sum-lt : (xs : List ℕ) → All IsByte xs → word_sum xs ≤ 65535 * length xs
unfolding word_sum
word_sum-lt [] h = omega arith
word_sum-lt (b ∷ []) h = omega arith
word_sum-lt (hi ∷ lo ∷ rest) h = omega (arith, word_sum-lt rest h.1.1)

abbrev pub twice : ℕ → ℕ
twice zero = zero
twice (suc k) = suc (suc (twice k))

-- A word whose bytes are 0, filled by two stores.
pub word_sum-set :
    (k : ℕ) (xs : List ℕ) (hi lo : ℕ)
    → get_elem? xs (twice k) ≡ some 0
    → get_elem? xs (suc (twice k)) ≡ some 0
    → word_sum (set (set xs (twice k) hi) (suc (twice k)) lo) ≡ word_sum xs + (hi * 256 + lo)
unfolding word_sum
word_sum-set zero [] hi lo e f = cc
word_sum-set zero (x ∷ []) hi lo e f = cc
word_sum-set zero (x ∷ y ∷ xs) hi lo e f = ground arith
word_sum-set (suc k) [] hi lo e f = cc
word_sum-set (suc k) (x ∷ []) hi lo e f = cc
word_sum-set (suc k) (x ∷ y ∷ xs) hi lo e f = omega (arith, word_sum-set k xs hi lo e f)
