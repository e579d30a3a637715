-- ===== src/Address/Tests.antt =====
-- Concrete runs of Address.
use cppbox.Prelude.{ℕ, ◌==◌, refl, arith, Option, none, some, List, [], ◌∷◌, length, if◌then◌else◌}
use cppbox.Address.{AddressText, IsFaithful}

-- An address printed as its bytes behind a byte that tells the kind.
abbrev pub read_tagged : ℕ → ℕ → List ℕ → Option (List ℕ)
read_tagged tag size [] = none
read_tagged tag size (c ∷ cs) =
    if c == tag then (if length cs == size then some cs else none) else none

abbrev pub tagged : AddressText
tagged = record {
  make_address_v4 = read_tagged 4 4;
  make_address_v6 = read_tagged 6 16;
  print_v4 = ◌∷◌ 4;
  print_v6 = ◌∷◌ 6;
}

pub tagged-IsFaithful : IsFaithful tagged
tagged-IsFaithful = record {
  v4_print = λ a n. ground arith;
  v6_print = λ a n. ground arith;
  v6_only = λ a n. refl;
}
