-- ===== src/Utils/Cursor.antt =====
-- A position in a buffer, with the bytes that stand from there on.
use cppbox.Prelude.{
  ℕ, zero, suc, ◌+◌, ◌*◌, ◌<◌, ◌≡◌, refl, sym, ap, ◌∙◌, List, [], ◌∷◌, ◌++◌, length, get_elem?,
  take, drop, arith, length-append, append_assoc, drop-append_left, take-append_left, ok,
}
use cppbox.Prelude.Bits.{or_byte}
use cppbox.Utils.{read_be16}

-- The bytes `rest` stand at the position `pos`.
pub record At (data_ : List ℕ) (pos : ℕ) (rest : List ℕ) : Type 0 where
  pub before : List ℕ
  pub splits : data_ ≡ before ++ rest
  pub place : pos ≡ length before

pub start : (data_ : List ℕ) → At data_ 0 data_
start data_ = record { before = []; splits = refl; place = refl }

-- The bytes behind a block.
pub skip :
    (data_ : List ℕ) (pos pos' : ℕ) (block rest : List ℕ)
    → At data_ pos (block ++ rest)
    → pos' ≡ pos + length block
    → At data_ pos' rest
skip data_ pos pos' block rest a e = record {
  before = a.before ++ block;
  splits = a.splits ∙ sym (append_assoc a.before block rest);
  place = omega (arith, a.place, length-append a.before block);
}

pub At-length :
    (data_ : List ℕ) (pos : ℕ) (rest : List ℕ)
    → At data_ pos rest
    → length data_ ≡ pos + length rest
At-length data_ pos rest a = omega (arith, ap length a.splits, length-append a.before rest, a.place)

pub At-drop : (data_ : List ℕ) (pos : ℕ) (rest : List ℕ) → At data_ pos rest → drop pos data_ ≡ rest
At-drop data_ pos rest a = rw a.splits (drop-append_left a.before rest pos a.place)

pub At-take :
    (data_ : List ℕ) (pos n : ℕ) (block rest : List ℕ)
    → At data_ pos (block ++ rest)
    → n ≡ length block
    → take n (drop pos data_) ≡ block
At-take data_ pos n block rest a e =
    rw (At-drop data_ pos (block ++ rest) a) (take-append_left block rest n e)

get_elem-append :
    (xs ys : List ℕ) (i j : ℕ) → j ≡ length xs + i → get_elem? (xs ++ ys) j ≡ get_elem? ys i
get_elem-append [] ys i j h = ap (get_elem? ys) (omega arith)
get_elem-append (x ∷ xs) ys i zero h = absurd (omega arith)
get_elem-append (x ∷ xs) ys i (suc j) h = get_elem-append xs ys i j (omega arith)

pub At-get :
    (data_ : List ℕ) (pos i k : ℕ) (rest : List ℕ)
    → At data_ pos rest
    → k ≡ pos + i
    → get_elem? data_ k ≡ get_elem? rest i
At-get data_ pos i k rest a e =
    rw a.splits (get_elem-append a.before rest i k (omega (arith, a.place)))

-- Two bytes at the position are read as their number.
pub At-be16 :
    (data_ : List ℕ) (pos hi lo : ℕ) (rest : List ℕ)
    → At data_ pos (hi ∷ lo ∷ rest)
    → lo < 256
    → hi < 256
    → read_be16 data_ pos ≡ ok (hi * 256 + lo)
unfolding read_be16
At-be16 data_ pos hi lo rest a p q = ground (
  arith,
  At-length data_ pos (hi ∷ lo ∷ rest) a,
  At-get data_ pos 0 pos (hi ∷ lo ∷ rest) a,
  At-get data_ pos 1 (pos + 1) (hi ∷ lo ∷ rest) a,
  or_byte hi lo p,
)
