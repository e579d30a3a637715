-- ===== src/Utils/Tests.antt =====
-- The helpers of src/core/utils.cpp at concrete inputs.
use cppbox.Prelude.{ℕ, ◌≡◌, refl, List, codes, replicate, arith, ok}
use cppbox.Utils.{parse_uuid, uuid_digits, uuid_bytes, hex_value}
use cppbox.Utils.Uuid.{Dashed, end, dash, digit, hex_text, parse_uuid-hex_text}

abbrev ones : List ℕ
ones = replicate 16 0x11

abbrev text : List ℕ
text = codes "11111111-1111-1111-1111-111111111111"

text_parses : parse_uuid text ≡ ok ones
unfolding parse_uuid uuid_digits uuid_bytes hex_value
text_parses = refl

text-Dashed : Dashed (hex_text ones) text
unfolding hex_text
text-Dashed = search (end, dash, digit) depth 40

parse_uuid-hex_text_example : parse_uuid text ≡ ok ones
parse_uuid-hex_text_example = parse_uuid-hex_text ones text (omega arith) refl text-Dashed
