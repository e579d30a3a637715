-- ===== src/HttpProxy/Tests.antt =====
-- Concrete runs of HttpProxy.
use cppbox.Prelude.{ℕ, ◌+◌, ◌≡◌, ◌++◌, refl, arith, All, List, [], ◌∷◌, codes, length, ok}
use cppbox.Prelude.Texts.{has_char}
use cppbox.HttpProxy.{build_initial_payload}
use cppbox.HttpProxy.Headers.{IsPath, Forwards}
use cppbox.HttpProxy.Payloads.{IsLine, join_lines, request_text, build_initial_payload-request_text}

abbrev two_lines : List (List ℕ)
two_lines = codes "Host: a" ∷ codes "Proxy-Connection: b" ∷ []

two_lines-IsLine : All IsLine two_lines
unfolding has_char
two_lines-IsLine = ((omega arith, refl), ((omega arith, refl), tt))

build_initial_payload-request_text_example :
    (path : List ℕ) × (forwarded : List ℕ) × IsPath (codes "a/") path
    × Forwards two_lines forwarded
    × (build_initial_payload
          (request_text (codes "GET http://a/ HTTP/1.1") two_lines (codes "x"))
          (length (codes "GET http://a/ HTTP/1.1"))
          (length (codes "GET http://a/ HTTP/1.1") + 2 + length (join_lines two_lines) + 2)
          (codes "GET")
          (codes "http://" ++ codes "a/")
          (codes "HTTP/1.1")
        ≡ ok (
            (codes "GET" ++ (32 ∷ path) ++ (32 ∷ codes "HTTP/1.1") ++ (13 ∷ 10 ∷ []))
            ++ forwarded
            ++ (13 ∷ 10 ∷ [])
            ++ codes "x"))
build_initial_payload-request_text_example =
    build_initial_payload-request_text (codes "GET http://a/ HTTP/1.1") two_lines (codes "x")
      (codes "GET") (codes "a/") (codes "HTTP/1.1") two_lines-IsLine
