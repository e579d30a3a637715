-- ===== src/Utils/Bytes.antt =====
-- Big-endian reads and writes of src/core/utils.cpp as arithmetic.
use cppbox.Prelude.{
  ℕ, zero, suc, ◌+◌, ◌*◌, ◌/◌, ◌%◌, ◌<◌, ◌≤◌, ◌≡◌, refl, ap, some, List, [], ◌∷◌, ◌++◌, arith,
  length, get_elem?, All, ok, length-append, append_assoc,
}
use cppbox.Prelude.Bits.{and_255, or_byte}
use cppbox.Utils.{IsByte, read_be16_at, read_be16, write_be16}

-- An index in range names a byte.
pub get_elem-IsByte :
    (xs : List ℕ) (i : ℕ)
    → All IsByte xs
    → i < length xs
    → (b : ℕ) × (get_elem? xs i ≡ some b) × (b < 256)
get_elem-IsByte [] i h lt = absurd (omega arith)
get_elem-IsByte (x ∷ xs) zero h lt = (x, refl, h.0)
get_elem-IsByte (x ∷ xs) (suc i) h lt = get_elem-IsByte xs i h.1 (omega arith)

pub get_elem-append_right :
    (xs ys : List ℕ) (i j : ℕ) → j ≡ length xs + i → get_elem? (xs ++ ys) j ≡ get_elem? ys i
get_elem-append_right [] ys i j h = ap (get_elem? ys) (omega arith)
get_elem-append_right (x ∷ xs) ys i zero h = absurd (omega arith)
get_elem-append_right (x ∷ xs) ys i (suc j) h = get_elem-append_right xs ys i j (omega arith)

-- Where the two bytes are there, `read_be16` reads the number that they spell.
pub read_be16_lem :
    (xs : List ℕ) (i : ℕ)
    → All IsByte xs
    → i + 2 ≤ length xs
    → (hi lo : ℕ) × (get_elem? xs i ≡ some hi)
      × (get_elem? xs (i + 1) ≡ some lo)
      × (hi < 256)
      × (lo < 256)
      × (read_be16 xs i ≡ ok (hi * 256 + lo))
unfolding read_be16
read_be16_lem xs i h lt =
    let (hi, e, p) = get_elem-IsByte xs i h (omega arith) in
    let (lo, f, q) = get_elem-IsByte xs (i + 1) h (omega arith) in
    (hi, lo, e, f, p, q, ground (arith, e, f, or_byte hi lo q))

pub read_be16_at_lem :
    (xs : List ℕ) (i hi lo : ℕ)
    → get_elem? xs i ≡ some hi
    → get_elem? xs (i + 1) ≡ some lo
    → hi < 256
    → lo < 256
    → read_be16_at xs i ≡ ok (hi * 256 + lo)
unfolding read_be16_at
read_be16_at_lem xs i hi lo e f p q = ground (arith, or_byte hi lo q)

pub write_be16_lem :
    (out : List ℕ) (v : ℕ) → v < 65536 → write_be16 out v ≡ out ++ (v / 256 ∷ v % 256 ∷ [])
unfolding write_be16
write_be16_lem out v h = rw (and_255 (v / 256), and_255 v, append_assoc) (ground arith)

-- What `write_be16` appends, `read_be16` reads back.
pub read_be16-write_be16 :
    (out rest : List ℕ) (v : ℕ)
    → v < 65536
    → read_be16 (write_be16 out v ++ rest) (length out) ≡ ok v
unfolding read_be16
read_be16-write_be16 out rest v h =
    rw (write_be16_lem out v h, append_assoc)
      (ground (
        arith,
        get_elem-append_right out (v / 256 ∷ v % 256 ∷ rest) 0 (length out),
        get_elem-append_right out (v / 256 ∷ v % 256 ∷ rest) 1 (length out + 1),
        length-append out (v / 256 ∷ v % 256 ∷ rest),
        or_byte (v / 256) (v % 256),
      ))
