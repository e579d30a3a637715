-- ===== src/Prelude/Texts.antt =====
-- Texts as lists of bytes: the searches of std::string, and `std::stoi`.
use cppbox.Prelude.Tests.{◌==◌, ltb, leb, if◌then◌else◌}
use cppbox.Prelude.Lists.{length, drop, text_eq, starts_with}
use cppbox.Prelude.Results.{Result, ok, err, invalid_argument, out_of_range}
use Prim.Native.Nat.{ℕ, ◌+◌, ◌-◌, ◌*◌}
use mathlib.Core.Bool.{Bool, true, false, ◌&&◌, ◌||◌}
use mathlib.Core.List.{List, [], ◌∷◌}
use mathlib.Core.Option.{Option, none, some}

-- The text in front of the first `c`, and the text behind it.
unfoldable pub split_at : ℕ → List ℕ → Option (List ℕ × List ℕ)
split_at c [] = none
split_at c (x ∷ xs) =
    let later = split_at c xs in
    if x == c then some ([], xs) else (elim later [ none ↦ none | some (a, b) ↦ some (x ∷ a, b) ])

unfoldable pub has_char : ℕ → List ℕ → Bool
has_char c [] = false
has_char c (x ∷ xs) = (x == c) || has_char c xs

-- `text.find(word) != npos`.
unfoldable pub has_text : List ℕ → List ℕ → Bool
has_text [] word = starts_with [] word
has_text (x ∷ xs) word = starts_with (x ∷ xs) word || has_text xs word

-- `text.ends_with(suffix)`.
unfoldable pub ends_with : List ℕ → List ℕ → Bool
ends_with text suffix =
    leb (length suffix) (length text) && text_eq (drop (length text - length suffix) text) suffix

abbrev pub is_space : ℕ → Bool
is_space c = (c == 32) || (leb 9 c && leb c 13)

abbrev pub is_digit : ℕ → Bool
is_digit c = leb b'0' c && leb c b'9'

-- The value of the digits in front.
unfoldable pub digits_value : List ℕ → ℕ → ℕ
digits_value [] acc = acc
digits_value (c ∷ cs) acc =
    let more = digits_value cs (acc * 10 + (c - b'0')) in if is_digit c then more else acc

-- Behind the sign. `none` is a negative number.
abbrev pub stoi_unsigned : Bool → List ℕ → Result (Option ℕ)
stoi_unsigned minus [] = err invalid_argument
stoi_unsigned minus (c ∷ cs) =
    if is_digit c
    then (if ltb (if minus then 2147483648 else 2147483647) (digits_value (c ∷ cs) 0)
        then err out_of_range
        else if minus && ltb 0 (digits_value (c ∷ cs) 0)
        then ok none
        else ok (some (digits_value (c ∷ cs) 0)))
    else err invalid_argument

abbrev pub stoi_signed : List ℕ → Result (Option ℕ)
stoi_signed [] = err invalid_argument
stoi_signed (c ∷ cs) =
    if c == b'-'
    then stoi_unsigned true cs
    else if c == b'+'
    then stoi_unsigned false cs
    else stoi_unsigned false (c ∷ cs)

-- `std::stoi`: white space, a sign, digits; what follows the digits is ignored. A negative number,
-- of which the callers only ask whether it is negative, is `none`.
unfoldable pub stoi : List ℕ → Result (Option ℕ)
stoi [] = err invalid_argument
stoi (c ∷ cs) = let later = stoi cs in if is_space c then later else stoi_signed (c ∷ cs)
