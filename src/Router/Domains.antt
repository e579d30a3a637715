-- ===== src/Router/Domains.antt =====
-- Which domains a rule takes: `match_domain`, `ends_with` and `contains` of src/route/router.cpp.
use cppbox.Prelude.{
  ℕ, ◌-◌, ◌≡◌, refl, sym, ap, ◌∙◌, ◌↔◌, ◌⊎◌, ◌≢◌, inl, inr, Bool, true, false, ◌||◌, List, [], ◌∷◌,
  ◌++◌, arith, length, drop, take, ◌==◌, text_eq, starts_with, text_eq→eq, text_eq_self, Bool-cases,
  le→leb, length-append, take-append-drop, drop-append_left,
}
use cppbox.Prelude.Map.{text_eq_iff}
use cppbox.Prelude.Texts.{ends_with, has_text}
use cppbox.Address.{domain_name}
use cppbox.Router.{RouteRuleConfig, any_of, match_suffix, match_domain_host}

-- One of the items.
abbrev pub Any {ℓ} : {A : Type ℓ} → (A → Type 0) → List A → Type 0
Any P [] = ⊥
Any P (x ∷ xs) = P x ⊎ Any P xs

module _ {ℓ} {A : Type ℓ} {P : A → Type 0} (test : A → Bool)
    (iff : (x : A) → (test x ≡ true) ↔ P x) where
  any_of-Any : (xs : List A) → any_of test xs ≡ true → Any P xs
  any_of-Any [] h = cc
  any_of-Any (x ∷ xs) h = elim (Bool-cases (test x)) [
    | inl e ↦ inl ((iff x).0 e)
    | inr e ↦ inr (any_of-Any xs (rest e h))
  ]
    where
      rest : test x ≡ false → (test x || any_of test xs) ≡ true → any_of test xs ≡ true
      rest e h = ground (arith)

  Any-any_of : (xs : List A) → Any P xs → any_of test xs ≡ true
  Any-any_of [] p = absurd p
  Any-any_of (x ∷ xs) (inl p) = ground (arith, (iff x).1 p)
  Any-any_of (x ∷ xs) (inr p) = ground (arith, Any-any_of xs p)

abbrev pub IsSuffix : List ℕ → List ℕ → Type 0
IsSuffix text suffix = (front : List ℕ) × (text ≡ front ++ suffix)

ends_with→IsSuffix : (text suffix : List ℕ) → ends_with text suffix ≡ true → IsSuffix text suffix
unfolding ends_with
ends_with→IsSuffix text suffix h =
    (take n text, sym (take-append-drop n text) ∙ ap (◌++◌ (take n text)) same)
  where
    n : ℕ
    n = length text - length suffix

    same : drop (length text - length suffix) text ≡ suffix
    same = text_eq→eq _ _ (ground arith)

IsSuffix→ends_with : (front suffix : List ℕ) → ends_with (front ++ suffix) suffix ≡ true
unfolding ends_with
IsSuffix→ends_with front suffix =
    rw
      (
        drop-append_left front suffix (length (front ++ suffix) - length suffix)
            (omega (arith, length-append front suffix)),
        text_eq_self suffix,
        le→leb (length suffix) (length (front ++ suffix))
            (omega (arith, length-append front suffix)),
      )
      refl

pub ends_with_iff : (text suffix : List ℕ) → (ends_with text suffix ≡ true) ↔ IsSuffix text suffix
ends_with_iff text suffix =
    (ends_with→IsSuffix text suffix, λ (front, e). rw e (IsSuffix→ends_with front suffix))

==→eq : (x y : ℕ) → (x == y) ≡ true → x ≡ y
==→eq x y h = ground arith

-- The word stands somewhere in the text.
abbrev pub IsPart : List ℕ → List ℕ → Type 0
IsPart text word = (front : List ℕ) × (back : List ℕ) × (text ≡ front ++ (word ++ back))

starts_with→eq :
    (text word : List ℕ) → starts_with text word ≡ true → (back : List ℕ) × (text ≡ word ++ back)
starts_with→eq text [] h = (text, refl)
starts_with→eq [] (y ∷ ys) h = cc
starts_with→eq (x ∷ xs) (y ∷ ys) h =
    let (back, e) = starts_with→eq xs ys (ground arith) in
    (back, cong2 back (==→eq x y (ground arith)) e)
  where
    cong2 : (back : List ℕ) → x ≡ y → xs ≡ ys ++ back → x ∷ xs ≡ y ∷ (ys ++ back)
    cong2 back d e = rw (d, e) refl

starts_with-append : (word back : List ℕ) → starts_with (word ++ back) word ≡ true
starts_with-append [] [] = refl
starts_with-append [] (x ∷ xs) = refl
starts_with-append (y ∷ ys) back = ground (arith, starts_with-append ys back)

has_text→IsPart : (text word : List ℕ) → has_text text word ≡ true → IsPart text word
unfolding has_text
has_text→IsPart [] word h = let (back, e) = starts_with→eq [] word h in ([], back, e)
has_text→IsPart (x ∷ xs) word h = elim (Bool-cases (starts_with (x ∷ xs) word)) [
  | inl e ↦ let (back, k) = starts_with→eq (x ∷ xs) word e in ([], back, k)
  | inr e ↦
      let (front, back, k) = has_text→IsPart xs word (ground arith) in
      (x ∷ front, back, ap (◌∷◌ x) k)
]

has_text-append : (front word back : List ℕ) → has_text (front ++ (word ++ back)) word ≡ true
unfolding has_text
has_text-append [] [] [] = refl
has_text-append [] [] (x ∷ xs) = refl
has_text-append [] (y ∷ ys) back = ground (arith, starts_with-append ys back)
has_text-append (x ∷ front) word back = ground (arith, has_text-append front word back)

pub has_text_iff : (text word : List ℕ) → (has_text text word ≡ true) ↔ IsPart text word
has_text_iff text word =
    (has_text→IsPart text word, λ (front, back, e). rw e (has_text-append front word back))

-- A suffix item that begins with a dot takes the domains that end in it; another takes itself and
-- its subdomains; the empty one takes none.
abbrev pub TakesSuffix : List ℕ → List ℕ → Type 0
TakesSuffix domain [] = ⊥
TakesSuffix domain (c ∷ cs) =
    ((c ≡ b'.') × IsSuffix domain (c ∷ cs))
    ⊎ ((c ≢ b'.') × ((domain ≡ c ∷ cs) ⊎ IsSuffix domain (b'.' ∷ c ∷ cs)))

match_suffix_iff :
    (domain item : List ℕ) → (match_suffix domain item ≡ true) ↔ TakesSuffix domain item
unfolding match_suffix
match_suffix_iff domain [] = (λ h. cc, λ p. absurd p)
match_suffix_iff domain (c ∷ cs) = (there, back)
  where
    there : match_suffix domain (c ∷ cs) ≡ true → TakesSuffix domain (c ∷ cs)
    there h = elim (Bool-cases (c == b'.')) [
      | inl e ↦ inl (==→eq c b'.' e, ends_with→IsSuffix domain (c ∷ cs) (ground arith))
      | inr e ↦ inr (
        (λ k. ground arith),
        elim (Bool-cases (text_eq domain (c ∷ cs))) [
          | inl k ↦ inl (text_eq→eq domain (c ∷ cs) k)
          | inr k ↦ inr (ends_with→IsSuffix domain (b'.' ∷ c ∷ cs) (ground arith))
        ],
      )
    ]

    back : TakesSuffix domain (c ∷ cs) → match_suffix domain (c ∷ cs) ≡ true
    back (inl p) = ground (arith, p.0, (ends_with_iff domain (c ∷ cs)).1 p.1)
    back (inr (n, inl e)) = ground (arith, n, e, text_eq_iff domain (c ∷ cs))
    back (inr (n, inr e)) = ground (arith, n, (ends_with_iff domain (b'.' ∷ c ∷ cs)).1 e)

-- What `match_domain` is for: the domain is listed, or falls under a suffix item, or has a keyword in
-- it.
abbrev pub TakesDomain : RouteRuleConfig → List ℕ → Type 0
TakesDomain rule domain =
    Any (λ item. domain ≡ item) rule.domain
    ⊎ (Any (TakesSuffix domain) rule.domain_suffix ⊎ Any (IsPart domain) rule.domain_keyword)

-- A rule takes a domain exactly when it lists it, when one of its suffix items is the domain or a
-- parent of it (an item that begins with a dot takes only the domains that end in it, an empty one
-- none), or when one of its keywords stands in it.
pub match_domain_host_iff :
    (rule : RouteRuleConfig) (domain : List ℕ)
    → (match_domain_host rule (domain_name domain) ≡ true) ↔ TakesDomain rule domain
unfolding match_domain_host
match_domain_host_iff rule domain = (there, back)
  where
    exact : Bool
    exact = any_of (text_eq domain) rule.domain

    suffix : Bool
    suffix = any_of (match_suffix domain) rule.domain_suffix

    keyword : Bool
    keyword = any_of (has_text domain) rule.domain_keyword

    there : match_domain_host rule (domain_name domain) ≡ true → TakesDomain rule domain
    there h = elim (Bool-cases exact) [
      | inl e ↦ inl (any_of-Any (text_eq domain) (text_eq_iff domain) rule.domain e)
      | inr e ↦ inr (elim (Bool-cases suffix) [
        | inl k ↦
            inl (any_of-Any (match_suffix domain) (match_suffix_iff domain) rule.domain_suffix k)
        | inr k ↦
            inr (
              any_of-Any (has_text domain) (has_text_iff domain) rule.domain_keyword (ground arith))
      ])
    ]

    back : TakesDomain rule domain → match_domain_host rule (domain_name domain) ≡ true
    back (inl p) = ground (arith, Any-any_of (text_eq domain) (text_eq_iff domain) rule.domain p)
    back (inr (inl p)) =
        ground
          (arith, Any-any_of (match_suffix domain) (match_suffix_iff domain) rule.domain_suffix p)
    back (inr (inr p)) =
        ground (arith, Any-any_of (has_text domain) (has_text_iff domain) rule.domain_keyword p)
