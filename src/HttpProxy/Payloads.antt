-- ===== src/HttpProxy/Payloads.antt =====
-- What `build_initial_payload` of src/protocol/http_proxy.cpp sends on.
use cppbox.Prelude.{
  ℕ, zero, suc, ◌+◌, ◌-◌, ◌<◌, ◌≤◌, ◌≡◌, refl, sym, ap, ◌∙◌, false, some, List, [], ◌∷◌, ◌++◌,
  append_assoc, arith, length, drop, All, codes, length-append, drop-append_left, ◌==◌, ok, ◌>>=◌,
}
use cppbox.Prelude.Texts.{has_char}
use cppbox.HttpProxy.{split_crlf, crlf, header_lines, request_path, build_initial_payload}
use cppbox.HttpProxy.Headers.{
  Forwards, IsPath, kept_lines, kept_lines-Forwards, request_path-IsPath,
}

-- A line with no line end in it.
abbrev pub IsLine : List ℕ → Type 0
IsLine line = (0 < length line) × (has_char 13 line ≡ false)

abbrev pub join_lines : List (List ℕ) → List ℕ
join_lines [] = []
join_lines (line ∷ lines) = line ++ (13 ∷ 10 ∷ join_lines lines)

split_crlf-append :
    (line rest : List ℕ)
    → has_char 13 line ≡ false
    → split_crlf (line ++ (13 ∷ 10 ∷ rest)) ≡ some (line, rest)
unfolding split_crlf has_char
split_crlf-append [] rest h = refl
split_crlf-append (c ∷ line) rest h = ground (arith, split_crlf-append line rest)

header_lines-join_lines :
    (fuel left : ℕ) (lines : List (List ℕ)) (body : List ℕ)
    → All IsLine lines
    → length lines < fuel
    → left ≡ length (join_lines lines) + 2
    → header_lines fuel left (join_lines lines ++ (13 ∷ 10 ∷ body)) ≡ ok (kept_lines lines)
unfolding header_lines has_char
header_lines-join_lines zero left lines body h f l = absurd (omega arith)
header_lines-join_lines (suc fuel) left [] body h f l =
    rw (header_lines, not_zero, split_crlf-append [] body none_there) refl
  where
    not_zero : (left == 0) ≡ false
    not_zero = ground arith

    none_there : has_char 13 [] ≡ false
    none_there = refl
header_lines-join_lines (suc fuel) left ([] ∷ lines) body h f l = absurd (omega (arith, h.0.0))
header_lines-join_lines (suc fuel) left ((c ∷ line) ∷ lines) body h f l =
    rw
      (
        header_lines,
        not_zero,
        append_assoc (c ∷ line) (13 ∷ 10 ∷ join_lines lines) (13 ∷ 10 ∷ body),
        split_crlf-append (c ∷ line) (join_lines lines ++ (13 ∷ 10 ∷ body)) h.0.1,
        header_lines-join_lines fuel (left - (suc (length line) + 2)) lines body h.1 (omega arith)
            (omega (arith, length-append (c ∷ line) (13 ∷ 10 ∷ join_lines lines))),
        ◌>>=◌,
      )
      refl
  where
    not_zero : (left == 0) ≡ false
    not_zero = ground (arith, length-append (c ∷ line) (13 ∷ 10 ∷ join_lines lines))

lines_fit : (lines : List (List ℕ)) → length lines ≤ length (join_lines lines)
lines_fit [] = omega arith
lines_fit (line ∷ lines) =
    omega (arith, lines_fit lines, length-append line (13 ∷ 10 ∷ join_lines lines))

-- The request line, the header lines, the empty line and what came behind it.
abbrev pub request_text : List ℕ → List (List ℕ) → List ℕ → List ℕ
request_text request_line lines body =
    (request_line ++ crlf) ++ (join_lines lines ++ (13 ∷ 10 ∷ body))

build_initial_payload-kept_lines :
    (request_line : List ℕ) (lines : List (List ℕ)) (body method target version : List ℕ)
    → All IsLine lines
    → build_initial_payload
        (request_text request_line lines body)
        (length request_line)
        (length request_line + 2 + length (join_lines lines) + 2)
        method
        target
        version
      ≡ ok (
          (method ++ (32 ∷ request_path target) ++ (32 ∷ version) ++ crlf)
          ++ kept_lines lines
          ++ crlf
          ++ body)
unfolding build_initial_payload
build_initial_payload-kept_lines request_line lines body method target version h =
    rw
      (
        drop-append_left (request_line ++ crlf) (join_lines lines ++ (13 ∷ 10 ∷ body))
            (length request_line + 2) (sym line_length),
        header_lines-join_lines (suc (length (request_text request_line lines body)))
            (length request_line + 2 + length (join_lines lines) + 2 - (length request_line + 2))
            lines body h
            (omega (
              arith,
              lines_fit lines,
              length-append (request_line ++ crlf) (join_lines lines ++ (13 ∷ 10 ∷ body)),
              length-append (join_lines lines) (13 ∷ 10 ∷ body),
            ))
            (omega arith),
        ◌>>=◌,
        body_behind,
      )
      refl
  where
    line_length : length (request_line ++ crlf) ≡ length request_line + 2
    line_length = length-append request_line crlf

    body_behind :
        drop
          (length request_line + 2 + length (join_lines lines) + 2)
          (request_text request_line lines body)
        ≡ body
    body_behind =
        ap (drop (length request_line + 2 + length (join_lines lines) + 2)) (
          ap (◌++◌ (request_line ++ crlf)) (sym (append_assoc (join_lines lines) crlf body))
          ∙ sym (append_assoc (request_line ++ crlf) (join_lines lines ++ crlf) body))
        ∙ drop-append_left ((request_line ++ crlf) ++ (join_lines lines ++ crlf)) body _ (
            omega (
              arith,
              length-append (request_line ++ crlf) (join_lines lines ++ crlf),
              line_length,
              length-append (join_lines lines) crlf,
            ))

-- `build_initial_payload` returns, and sends on the method, the path of the target and the version, then
-- every header line but those whose name is Proxy-Connection or Proxy-Authorization in any case, in
-- their order, the empty line, and what the client sent behind it: for a target that starts with
-- "http://", where no line is empty and none has a carriage return in it. The path is what the target
-- has from its first slash behind "http://" on, or "/".
pub build_initial_payload-request_text :
    (request_line : List ℕ) (lines : List (List ℕ)) (body method text version : List ℕ)
    → All IsLine lines
    → (path : List ℕ) × (forwarded : List ℕ) × IsPath text path
      × Forwards lines forwarded
      × (build_initial_payload
            (request_text request_line lines body)
            (length request_line)
            (length request_line + 2 + length (join_lines lines) + 2)
            method
            (codes "http://" ++ text)
            version
          ≡ ok (
              (method ++ (32 ∷ path) ++ (32 ∷ version) ++ (13 ∷ 10 ∷ []))
              ++ forwarded
              ++ (13 ∷ 10 ∷ [])
              ++ body))
build_initial_payload-request_text request_line lines body method text version h = (
  request_path (codes "http://" ++ text),
  kept_lines lines,
  request_path-IsPath text,
  kept_lines-Forwards lines,
  build_initial_payload-kept_lines request_line lines body method (codes "http://" ++ text) version
      h,
)
