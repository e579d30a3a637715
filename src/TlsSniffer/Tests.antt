-- ===== src/TlsSniffer/Tests.antt =====
-- The sniffer at a concrete client hello.
use cppbox.Prelude.{ℕ, ◌≡◌, refl, Option, some, List, [], ◌∷◌, ◌++◌, codes, replicate, arith, ok}
use cppbox.Utils.{read_be16}
use cppbox.TlsSniffer.{
  sniff_tls_sni, read_headers, skip_field8, skip_field16, extension_loop, extension_body,
  server_names, name_loop,
}
use cppbox.TlsSniffer.Safety.{sniff_tls_sni-total}

-- A record with a hello for the name "a.bc".
abbrev hello : List ℕ
hello =
    (0x16 ∷ 3 ∷ 1 ∷ 0 ∷ 60 ∷ 1 ∷ 0 ∷ 0 ∷ 56 ∷ [])
    ++ (replicate 34 3
        ++ (0 ∷ 0 ∷ 2 ∷ 0x13 ∷ 1 ∷ 1 ∷ 0 ∷ 0 ∷ 13 ∷ 0 ∷ 0 ∷ 0 ∷ 9 ∷ 0 ∷ 7 ∷ 0 ∷ 0 ∷ 4 ∷ b'a' ∷ b'.'
            ∷ b'b' ∷ b'c' ∷ []))

hello_sniffed : sniff_tls_sni hello ≡ ok (some (codes "a.bc"))
unfolding sniff_tls_sni read_headers skip_field8 skip_field16 extension_loop extension_body
    server_names name_loop read_be16
hello_sniffed = refl

sniff_tls_sni-total_example : (o : Option (List ℕ)) × (sniff_tls_sni hello ≡ ok o)
sniff_tls_sni-total_example = sniff_tls_sni-total hello (omega arith)
