-- ===== src/Checksum/Verify.antt =====
-- Each `recalc_` function of src/inbound/tun_checksum.cpp leaves a packet whose checksum verifies.
use cppbox.Prelude.{
  ◌⊎◌, inl, inr, ℕ, suc, ◌+◌, ◌*◌, ◌/◌, ◌%◌, ◌<◌, ◌≤◌, ◌≡◌, ◌≢◌, refl, sym, ap, ◌∙◌, List, length,
  set, get_elem?, take, All, arith, some, length-set, length-take, ok,
}
use cppbox.Prelude.Slices.{
  All-set, All-take, get_elem?-set_self, get_elem?-set_ne, get_elem?-take, take-set,
}
use cppbox.Utils.{IsByte}
use cppbox.Checksum.{
  checksum, complement16, fold, store_checksum, ip_header_len, recalc_ipv4_checksum,
}
use cppbox.Checksum.Fold.{fold-multiple, fold-verify, fold-verify_zero}
use cppbox.Checksum.Words.{
  word_sum, Verifies, internet_sum-word_sum, sum_words-eq-word_sum, word_sum-lt, twice,
  word_sum-set,
}

checksum-word_sum :
    (xs : List ℕ)
    → All IsByte xs
    → word_sum xs < 4294967296
    → checksum xs ≡ complement16 (fold (word_sum xs))
unfolding checksum
checksum-word_sum xs h lt =
    ap (λ s. complement16 (fold s)) (sum_words-eq-word_sum xs 0 h (omega arith) ∙ omega arith)

-- Bytes with checksum 0 verify.
checksum-Verifies :
    (xs : List ℕ) → All IsByte xs → word_sum xs < 4294967296 → checksum xs ≡ 0 → Verifies xs
checksum-Verifies xs h lt z =
    let (k, e) = fold-multiple (word_sum xs) lt (sym (checksum-word_sum xs h lt) ∙ z) in
    (k, internet_sum-word_sum xs ∙ e)

-- The field in word `k` of the bytes `xs` holds 0; filled with the checksum of `xs`, the whole
-- verifies.
pub filled-Verifies :
    (k value : ℕ) (xs : List ℕ)
    → All IsByte xs
    → length xs ≤ 65536
    → get_elem? xs (twice k) ≡ some 0
    → get_elem? xs (suc (twice k)) ≡ some 0
    → (value ≡ checksum xs) ⊎ ((checksum xs ≡ 0) × (value ≡ 65535))
    → Verifies (set (set xs (twice k) (value / 256 % 256)) (suc (twice k)) (value % 256))
filled-Verifies k value xs h n e f c =
    checksum-Verifies filled bytes below
      (checksum-word_sum filled bytes below ∙ ap (λ s. complement16 (fold s)) sum ∙ go c)
  where
    filled : List ℕ
    filled = set (set xs (twice k) (value / 256 % 256)) (suc (twice k)) (value % 256)

    bytes : All IsByte filled
    bytes =
        All-set IsByte _ (suc (twice k)) (value % 256) (omega arith)
          (All-set IsByte xs (twice k) (value / 256 % 256) (omega arith) h)

    small : word_sum xs ≤ 65535 * 65536
    small = omega (arith, word_sum-lt xs h)

    old : checksum xs ≡ complement16 (fold (word_sum xs))
    old = checksum-word_sum xs h (omega (arith, small))

    value-lt : value < 65536
    value-lt = ground (arith, old)

    sum : word_sum filled ≡ word_sum xs + value
    sum = omega (arith, value-lt, word_sum-set k xs (value / 256 % 256) (value % 256) e f)

    below : word_sum filled < 4294967296
    below = omega (arith, small, sum, value-lt)

    go :
        (value ≡ checksum xs) ⊎ ((checksum xs ≡ 0) × (value ≡ 65535))
        → complement16 (fold (word_sum xs + value)) ≡ 0
    go (inl p) = rw (p, old) (fold-verify (word_sum xs) (omega (arith, small)))
    go (inr (z, p)) =
        rw p (fold-verify_zero (word_sum xs) (omega (arith, small)) (omega (arith, z, old)))

-- The two bytes of a field set to 0.
pub zeroed_hi :
    (p : List ℕ) (a b : ℕ) → a < length p → a ≢ b → get_elem? (set (set p a 0) b 0) a ≡ some 0
zeroed_hi p a b h ne =
    get_elem?-set_ne (set p a 0) b a 0 (λ e. ne (sym e)) ∙ get_elem?-set_self p a 0 h

pub zeroed_lo : (p : List ℕ) (a b : ℕ) → b < length p → get_elem? (set (set p a 0) b 0) b ≡ some 0
zeroed_lo p a b h = get_elem?-set_self (set p a 0) b 0 (omega (arith, length-set p a 0))

pub zeroed-IsByte : (p : List ℕ) (a b : ℕ) → All IsByte p → All IsByte (set (set p a 0) b 0)
zeroed-IsByte p a b h =
    All-set IsByte (set p a 0) b 0 (omega arith) (All-set IsByte p a 0 (omega arith) h)

-- `recalc_ipv4_checksum` of src/inbound/tun_checksum.cpp returns, and the header that it leaves
-- verifies, where the header holds the field and lies in the packet.
pub recalc_ipv4_checksum-Verifies :
    (ip : List ℕ) (first : ℕ)
    → All IsByte ip
    → get_elem? ip 0 ≡ some first
    → 12 ≤ ip_header_len first
    → ip_header_len first ≤ length ip
    → (p : List ℕ) × (recalc_ipv4_checksum ip ≡ ok p) × Verifies (take (ip_header_len first) p)
unfolding recalc_ipv4_checksum store_checksum
recalc_ipv4_checksum-Verifies ip first h e low fits = (
  set (set zeroed 10 (value / 256 % 256)) 11 (value % 256),
  ground (
    arith,
    length-set ip 10 0,
    length-set (set ip 10 0) 11 0,
    first_kept,
    length-set zeroed 10 (value / 256 % 256),
  ),
  rw
      (
        take-set len 11 (set zeroed 10 (value / 256 % 256)) (value % 256),
        take-set len 10 zeroed (value / 256 % 256),
      )
      (filled-Verifies 5 value header (All-take IsByte len zeroed (zeroed-IsByte ip 10 11 h))
        (unfold ip_header_len in omega (arith, length-take len zeroed))
        (get_elem?-take len 10 zeroed (omega arith)
          ∙ zeroed_hi ip 10 11 (omega arith) (omega arith))
        (get_elem?-take len 11 zeroed (omega arith) ∙ zeroed_lo ip 10 11 (omega arith)) (inl refl)),
)
  where
    len : ℕ
    len = ip_header_len first

    zeroed : List ℕ
    zeroed = set (set ip 10 0) 11 0

    header : List ℕ
    header = take len zeroed

    value : ℕ
    value = checksum header

    first_kept : get_elem? zeroed 0 ≡ some first
    first_kept =
        get_elem?-set_ne (set ip 10 0) 11 0 0 (omega arith)
        ∙ get_elem?-set_ne ip 10 0 0 (omega arith)
        ∙ e
