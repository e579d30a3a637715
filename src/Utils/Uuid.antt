-- ===== src/Utils/Uuid.antt =====
-- `parse_uuid` of src/core/utils.cpp against the way a UUID is printed.
use cppbox.Prelude.{
  ℕ, zero, suc, ◌+◌, ◌-◌, ◌*◌, ◌/◌, ◌%◌, ◌<◌, ◌≡◌, refl, ap, none, some, List, [], ◌∷◌, arith,
  length, All, Result, ok, err, stuck, leb, if◌then◌else◌,
}
use cppbox.Prelude.Bits.{or_fields}
use cppbox.Utils.{IsByte, hex_value, uuid_digits, uuid_bytes, parse_uuid}

-- The lower-case digit for a value below 16.
abbrev pub hex_char : ℕ → ℕ
hex_char v = if leb v 9 then b'0' + v else b'a' + v - 10

-- Two digits for each byte.
unfoldable pub hex_text : List ℕ → List ℕ
hex_text [] = []
hex_text (b ∷ bs) = hex_char (b / 16) ∷ hex_char (b % 16) ∷ hex_text bs

-- The second text is the first with dashes put in anywhere.
pub data Dashed : List ℕ → List ℕ → Type 0 where
  end : Dashed [] []
  dash : {hex u : List ℕ} → Dashed hex u → Dashed hex (b'-' ∷ u)
  digit : {hex u : List ℕ} (c : ℕ) → Dashed hex u → Dashed (c ∷ hex) (c ∷ u)

hex_value-hex_char : (v : ℕ) → v < 16 → hex_value (hex_char v) ≡ some v
unfolding hex_value
hex_value-hex_char v h = ground arith

-- Every character is a digit.
abbrev IsHex : List ℕ → Type 0
IsHex [] = Unit {0}
IsHex (c ∷ cs) = ((v : ℕ) × (hex_value c ≡ some v)) × IsHex cs

hex_text-IsHex : (bs : List ℕ) → All IsByte bs → IsHex (hex_text bs)
unfolding hex_text
hex_text-IsHex [] h = tt
hex_text-IsHex (b ∷ bs) h = (
  (b / 16, hex_value-hex_char (b / 16) (omega arith)),
  ((b % 16, hex_value-hex_char (b % 16) (omega arith)), hex_text-IsHex bs h.1),
)

dash_value : hex_value b'-' ≡ none
unfolding hex_value
dash_value = refl

uuid_digits-Dashed : {hex u : List ℕ} → Dashed hex u → IsHex hex → uuid_digits u ≡ ok hex
unfolding uuid_digits
uuid_digits-Dashed end h = refl
uuid_digits-Dashed (dash d) h = ground (arith, uuid_digits-Dashed d h)
uuid_digits-Dashed (digit c d) ((v, e), h) =
    ground (arith, e, dash_value, ap hex_value, uuid_digits-Dashed d h)

uuid_bytes-hex_text : (bs : List ℕ) → All IsByte bs → uuid_bytes (hex_text bs) ≡ bs
unfolding uuid_bytes hex_text
uuid_bytes-hex_text [] h = refl
uuid_bytes-hex_text (b ∷ bs) h = ground (
  arith,
  hex_value-hex_char (b / 16),
  hex_value-hex_char (b % 16),
  or_fields 4 (b / 16) (b % 16),
  uuid_bytes-hex_text bs h.1,
)

length-hex_text : (bs : List ℕ) → length (hex_text bs) ≡ 2 * length bs
unfolding hex_text
length-hex_text [] = refl
length-hex_text (b ∷ bs) = omega (arith, length-hex_text bs)

-- `parse_uuid` reads 16 bytes back from their hexadecimal digits, wherever dashes stand between.
pub parse_uuid-hex_text :
    (bs u : List ℕ) → All IsByte bs → length bs ≡ 16 → Dashed (hex_text bs) u → parse_uuid u ≡ ok bs
unfolding parse_uuid
parse_uuid-hex_text bs u h n d = ground (
  arith,
  uuid_digits-Dashed d (hex_text-IsHex bs h),
  uuid_bytes-hex_text bs h,
  length-hex_text bs,
)

length-uuid_bytes : (n : ℕ) (hex : List ℕ) → length hex ≡ 2 * n → length (uuid_bytes hex) ≡ n
unfolding uuid_bytes
length-uuid_bytes zero [] e = refl
length-uuid_bytes (suc n) [] e = absurd (omega arith)
length-uuid_bytes zero (c ∷ cs) e = absurd (omega arith)
length-uuid_bytes (suc n) (c ∷ []) e = absurd (omega arith)
length-uuid_bytes (suc n) (c ∷ d ∷ cs) e = omega (arith, length-uuid_bytes n cs (omega arith))

uuid_bytes-IsByte : (hex : List ℕ) → All IsByte (uuid_bytes hex)
unfolding uuid_bytes
uuid_bytes-IsByte [] = tt
uuid_bytes-IsByte (c ∷ []) = tt
uuid_bytes-IsByte (c ∷ d ∷ cs) = (omega arith, uuid_bytes-IsByte cs)

-- Every UUID that `parse_uuid` accepts is 16 bytes.
pub parse_uuid-length : (u bs : List ℕ) → parse_uuid u ≡ ok bs → (length bs ≡ 16) × All IsByte bs
unfolding parse_uuid
parse_uuid-length u bs e = go (uuid_digits u) refl
  where
    go : (r : Result (List ℕ)) → uuid_digits u ≡ r → (length bs ≡ 16) × All IsByte bs
    go (ok hex) f =
        let w : uuid_bytes hex ≡ bs = ground (arith, f) in
        rw (← w) (length-uuid_bytes 16 hex (ground (arith, f)), uuid_bytes-IsByte hex)
    go (err x) f = absurd (ground (arith, f))
    go stuck f = absurd (ground (arith, f))
