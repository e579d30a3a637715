-- ===== src/DnsMessage/Tests.antt =====
-- DNS messages at concrete packets.
use cppbox.Prelude.{ℕ, ◌≡◌, refl, List, [], ◌∷◌, codes, arith, ok, err, runtime_error, ◌>>=◌}
use cppbox.Utils.{read_be16, read_be32}
use cppbox.DnsMessage.{
  label_loop, read_name_at, read_name, parse_question, build_query, skip_question, skip_questions,
  ipv4_text, answer_records, parse_answer, parse_answers, parse_response, DnsRecord,
}
use cppbox.DnsMessage.RoundTrip.{join, parse_question-build_query}

abbrev names : List (List ℕ)
names = codes "dns" ∷ codes "google" ∷ []

join-names : join names ≡ codes "dns.google"
unfolding join
join-names = refl

parse_question-build_query_example :
    (build_query (join names) 28 >>= parse_question) ≡ ok (record { name = join names; type = 28 })
parse_question-build_query_example =
    parse_question-build_query names 28
      (
        record { nonempty = omega arith; short = omega arith; plain = omega arith },
        (record { nonempty = omega arith; short = omega arith; plain = omega arith }, tt),
      )
      (omega arith)

-- A response with one question and one A record whose name is a compression pointer.
abbrev response : List ℕ
response =
    0x12 ∷ 0x34 ∷ 0x81 ∷ 0x80 ∷ 0 ∷ 1 ∷ 0 ∷ 1 ∷ 0 ∷ 0 ∷ 0 ∷ 0 ∷ 1 ∷ b'a' ∷ 2 ∷ b'b' ∷ b'c' ∷ 0 ∷ 0
    ∷ 1 ∷ 0 ∷ 1 ∷ 0xc0 ∷ 12 ∷ 0 ∷ 1 ∷ 0 ∷ 1 ∷ 0 ∷ 0 ∷ 1 ∷ 44 ∷ 0 ∷ 4 ∷ 192 ∷ 0 ∷ 2 ∷ 1 ∷ []

abbrev answer : DnsRecord
answer = record { name = codes "a.bc"; type = 1; value = codes "192.0.2.1"; ttl = 300 }

response_parses : parse_response response ≡ ok (answer ∷ [])
unfolding parse_response read_be16 read_be32 skip_questions skip_question read_name read_name_at
    label_loop parse_answers parse_answer answer_records ipv4_text
response_parses = refl

-- A name that points to itself.
pointer_loop : read_name (0xc0 ∷ 0 ∷ []) 0 ≡ err (runtime_error "dns name compression loop")
unfolding read_name read_name_at label_loop
pointer_loop = refl
