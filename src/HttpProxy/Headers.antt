-- ===== src/HttpProxy/Headers.antt =====
-- The lines and the path that `build_initial_payload` of src/protocol/http_proxy.cpp sends on, described
-- without its searches.
use cppbox.Prelude.{
  ℕ, ◌≡◌, ◌≢◌, refl, sym, ap, ◌∙◌, ◌⊎◌, inl, inr, true, false, Bool-cases, List, [], ◌∷◌, ◌++◌,
  append_assoc, map, codes, All, arith, ◌==◌, some, none, starts_with,
}
use cppbox.Prelude.Texts.{split_at}
use cppbox.Utils.{tolower}
use cppbox.HttpProxy.{kept_line, request_path}

-- A header meant for the proxy: its name, in any case, and what stands behind the colon.
abbrev pub IsProxyHeader : List ℕ → Type 0
IsProxyHeader line =
    ((value : List ℕ) × (map tolower line ≡ codes "proxy-connection:" ++ value))
    ⊎ ((value : List ℕ) × (map tolower line ≡ codes "proxy-authorization:" ++ value))

-- `text` is made of the lines in their order, each with its line end, but for those meant for the proxy.
abbrev pub Forwards : List (List ℕ) → List ℕ → Type 0
Forwards [] text = text ≡ []
Forwards (line ∷ lines) text =
    (IsProxyHeader line × Forwards lines text)
    ⊎ ((IsProxyHeader line → ⊥)
        × (rest : List ℕ) × (text ≡ line ++ (13 ∷ 10 ∷ rest))
        × Forwards lines rest)

-- `text` is what a target has behind "http://": an authority without a slash, and the path, for which
-- "/" stands where there is none.
abbrev pub IsPath : List ℕ → List ℕ → Type 0
IsPath text path =
    (authority : List ℕ) × All (λ c. c ≢ b'/') authority
    × (((text ≡ authority) × (path ≡ codes "/"))
        ⊎ ((rest : List ℕ) × (text ≡ authority ++ (b'/' ∷ rest)) × (path ≡ b'/' ∷ rest)))

starts_with→append :
    (xs ys : List ℕ) → starts_with xs ys ≡ true → (rest : List ℕ) × (xs ≡ ys ++ rest)
starts_with→append xs [] h = (xs, refl)
starts_with→append [] (y ∷ ys) h = cc
starts_with→append (x ∷ xs) (y ∷ ys) h =
    let both : (x ≡ y) × (starts_with xs ys ≡ true) = (ground arith, ground arith) in
    let (rest, e) = starts_with→append xs ys both.1 in
    (rest, ap (◌∷◌ x) e ∙ ap (λ z. z ∷ (ys ++ rest)) both.0)

starts_with-append : (ys rest : List ℕ) → starts_with (ys ++ rest) ys ≡ true
starts_with-append [] rest = refl
starts_with-append (y ∷ ys) rest = ground (arith, starts_with-append ys rest)

kept_line-cases :
    (line : List ℕ)
    → (IsProxyHeader line × (kept_line line ≡ []))
      ⊎ ((IsProxyHeader line → ⊥) × (kept_line line ≡ line ++ (13 ∷ 10 ∷ [])))
unfolding kept_line
kept_line-cases line =
    let low = map tolower line in
    elim (Bool-cases (starts_with low (codes "proxy-connection:"))) [
      | inl first ↦ inl (
        inl (starts_with→append low (codes "proxy-connection:") first),
        rw (kept_line, first) refl,
      )
      | inr not_first ↦ elim (Bool-cases (starts_with low (codes "proxy-authorization:"))) [
        | inl second ↦ inl (
          inr (starts_with→append low (codes "proxy-authorization:") second),
          rw (kept_line, not_first, second) refl,
        )
        | inr not_second ↦
            inr (other line not_first not_second, rw (kept_line, not_first, not_second) refl)
      ]
    ]
  where
    other :
        (line : List ℕ)
        → starts_with (map tolower line) (codes "proxy-connection:") ≡ false
        → starts_with (map tolower line) (codes "proxy-authorization:") ≡ false
        → IsProxyHeader line
        → ⊥
    other line a b (inl (value, e)) =
        let w : false ≡ true =
          sym a
          ∙ ap (λ xs. starts_with xs (codes "proxy-connection:")) e
          ∙ starts_with-append (codes "proxy-connection:") value in
        cc
    other line a b (inr (value, e)) =
        let w : false ≡ true =
          sym b
          ∙ ap (λ xs. starts_with xs (codes "proxy-authorization:")) e
          ∙ starts_with-append (codes "proxy-authorization:") value in
        cc

abbrev pub kept_lines : List (List ℕ) → List ℕ
kept_lines [] = []
kept_lines (line ∷ lines) = kept_line line ++ kept_lines lines

pub kept_lines-Forwards : (lines : List (List ℕ)) → Forwards lines (kept_lines lines)
kept_lines-Forwards [] = refl
kept_lines-Forwards (line ∷ lines) = elim (kept_line-cases line) [
  | inl (proxy, e) ↦ inl (proxy, rw e (kept_lines-Forwards lines))
  | inr (other, e) ↦ inr (
    other,
    kept_lines lines,
    ap (λ xs. xs ++ kept_lines lines) e ∙ append_assoc line (13 ∷ 10 ∷ []) (kept_lines lines),
    kept_lines-Forwards lines,
  )
]

split_at-cases :
    (c : ℕ) (text : List ℕ)
    → ((split_at c text ≡ none) × All (λ x. x ≢ c) text)
      ⊎ ((a : List ℕ) × (rest : List ℕ) × (split_at c text ≡ some (a, rest))
          × (text ≡ a ++ (c ∷ rest))
          × All (λ x. x ≢ c) a)
unfolding split_at
split_at-cases c [] = inl (refl, tt)
split_at-cases c (x ∷ text) = elim (Bool-cases (x == c)) [
  | inl here ↦
      let same : x ≡ c = ground arith in
      inr ([], text, rw (split_at, here) refl, ap (λ y. y ∷ text) same, tt)
  | inr there ↦
      let other : x ≢ c = λ e. absurd (ground arith) in
      elim (split_at-cases c text) [
        | inl (e, all) ↦ inl (rw (split_at, there, e) refl, (other, all))
        | inr (a, rest, e, split, all) ↦
            inr (x ∷ a, rest, rw (split_at, there, e) refl, ap (◌∷◌ x) split, (other, all))
      ]
]

pub request_path-IsPath : (text : List ℕ) → IsPath text (request_path (codes "http://" ++ text))
unfolding request_path
request_path-IsPath text = elim (split_at-cases b'/' text) [
  | inl (e, all) ↦ (text, all, inl (refl, rw (request_path, e) refl))
  | inr (a, rest, e, split, all) ↦ (a, all, inr (rest, split, rw (request_path, e) refl))
]
