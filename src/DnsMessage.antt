-- ===== src/DnsMessage.antt =====
-- DNS messages: src/dns/dns_message.hpp and src/dns/dns_message.cpp. An offset that a function
-- advances through a reference is returned beside its result. A query type is its uint16_t value.
pub mod Safety
pub mod RoundTrip
pub mod Tests
use cppbox.Prelude.{
  ℕ, zero, suc, ◌+◌, ◌-◌, ◌*◌, ◌/◌, ◌%◌, Bool, true, false, ◌&&◌, ◌||◌, not, bit_and, bit_or,
  Option, none, some, List, [], ◌∷◌, ◌++◌, codes, length, take, drop, is_empty, leb, ltb, ◌==◌,
  if◌then◌else◌, text_eq, Result, Error, ok, err, stuck, runtime_error, out_of_bounds, require,
  ◌>>=◌, ◌>>◌,
}
use cppbox.Utils.{byte, read_be16, read_be32, write_be16}

-- A name and the offset behind it.
abbrev pub Name : Type 0
Name = List ℕ × ℕ

abbrev pub throw_if : Bool → Error → Result (Unit {0})
throw_if true e = err e
throw_if false e = ok tt

-- `len` bytes from `offset` on, which must lie in the packet: `append(data + offset, len)`, `subspan`.
abbrev pub subspan : List ℕ → ℕ → ℕ → Result (List ℕ)
subspan data_ offset len =
    if leb (offset + len) (length data_)
    then ok (take len (drop offset data_))
    else err out_of_bounds

-- `if (!name.empty() && !suffix.empty()) name += '.'; name += suffix;`
abbrev pub append_suffix : List ℕ → List ℕ → List ℕ
append_suffix name suffix =
    if not (is_empty name) && not (is_empty suffix) then name ++ (b'.' ∷ suffix) else name ++ suffix

-- `if (!name.empty()) name += '.'; name.append(label);`
abbrev pub append_label : List ℕ → List ℕ → List ℕ
append_label name label = if is_empty name then label else name ++ (b'.' ∷ label)

-- The `while (true)` loop of `read_name`. `follow` is the recursive call, for a compression pointer.
unfoldable pub label_loop : (ℕ → Result Name) → ℕ → List ℕ → ℕ → List ℕ → Result Name
label_loop follow zero data_ offset name = stuck
label_loop follow (suc fuel) data_ offset name = do
  throw_if (leb (length data_) offset) (runtime_error "truncated dns packet")
  len ← byte data_ offset
  elim (len == 0) [
    | true ↦ ok (name, offset + 1)
    | false ↦ elim (bit_and len 0xc0 == 0xc0) [
      | true ↦ do
        throw_if (leb (length data_) (offset + 1))
            (runtime_error "truncated dns compression pointer")
        low ← byte data_ (offset + 1)
        (suffix, end) ← follow (bit_or (bit_and len 0x3f * 256) low)
        ok (append_suffix name suffix, offset + 2)
      | false ↦ do
        throw_if (not (bit_and len 0xc0 == 0)) (runtime_error "unsupported dns label type")
        throw_if (ltb (length data_) (offset + 1 + len)) (runtime_error "truncated dns label")
        label ← subspan data_ (offset + 1) len
        label_loop follow fuel data_ (offset + 1 + len) (append_label name label)
    ]
  ]

-- `read_name` at depth `17 - levels`: at a depth above 16 it throws.
unfoldable pub read_name_at : ℕ → List ℕ → ℕ → Result Name
read_name_at zero data_ offset = err (runtime_error "dns name compression loop")
read_name_at (suc levels) data_ offset =
    label_loop (read_name_at levels data_) (suc (length data_)) data_ offset []

unfoldable pub read_name : List ℕ → ℕ → Result Name
read_name data_ offset = read_name_at 17 data_ offset

unfoldable pub skip_question : List ℕ → ℕ → Result ℕ
skip_question data_ offset = do
  (name, end) ← read_name data_ offset
  throw_if (ltb (length data_) (end + 4)) (runtime_error "truncated dns question")
  ok (end + 4)

-- `std::format("{}")` of a byte, and `std::format("{:x}")` of a uint16_t.
abbrev pub digit : ℕ → ℕ
digit d = b'0' + d

abbrev pub decimal : ℕ → List ℕ
decimal n =
    if ltb n 10
    then digit n ∷ []
    else if ltb n 100
    then digit (n / 10) ∷ digit (n % 10) ∷ []
    else digit (n / 100) ∷ digit (n / 10 % 10) ∷ digit (n % 10) ∷ []

abbrev pub hex_char : ℕ → ℕ
hex_char v = if ltb v 10 then b'0' + v else b'a' + (v - 10)

abbrev pub hexadecimal : ℕ → List ℕ
hexadecimal n =
    if ltb n 16
    then hex_char n ∷ []
    else if ltb n 256
    then hex_char (n / 16) ∷ hex_char (n % 16) ∷ []
    else if ltb n 4096
    then hex_char (n / 256) ∷ hex_char (n / 16 % 16) ∷ hex_char (n % 16) ∷ []
    else hex_char (n / 4096)
      ∷ hex_char (n / 256 % 16)
      ∷ hex_char (n / 16 % 16)
      ∷ hex_char (n % 16)
      ∷ []

unfoldable pub ipv4_text : List ℕ → Result (List ℕ)
ipv4_text (a ∷ b ∷ c ∷ d ∷ []) =
    ok (decimal a ++ (b'.' ∷ (decimal b ++ (b'.' ∷ (decimal c ++ (b'.' ∷ decimal d))))))
ipv4_text _ = err (runtime_error "invalid A record length")

-- The loop over the pairs of bytes; the first part has no colon.
unfoldable pub ipv6_parts : Bool → List ℕ → List ℕ
ipv6_parts first (hi ∷ lo ∷ rest) =
    (if first then [] else b':' ∷ [])
    ++ (hexadecimal (bit_or (hi * 256) lo % 65536) ++ ipv6_parts false rest)
ipv6_parts first _ = []

unfoldable pub ipv6_text : List ℕ → Result (List ℕ)
ipv6_text rdata = do
  throw_if (not (length rdata == 16)) (runtime_error "invalid AAAA record length")
  ok (ipv6_parts true rdata)

-- `enum class QueryType`.
abbrev pub type_a : ℕ
type_a = 1

abbrev pub type_cname : ℕ
type_cname = 5

abbrev pub type_aaaa : ℕ
type_aaaa = 28

unfoldable pub parse_query_type : List ℕ → Result ℕ
parse_query_type text =
    if text_eq text (codes "a") || text_eq text (codes "A")
    then ok type_a
    else if text_eq text (codes "aaaa") || text_eq text (codes "AAAA")
    then ok type_aaaa
    else if text_eq text (codes "cname") || text_eq text (codes "CNAME")
    then ok type_cname
    else err (runtime_error "query type must be A, AAAA, or CNAME")

pub record DnsQuestion : Type 0 where
  pub name : List ℕ
  pub type : ℕ

pub record DnsRecord : Type 0 where
  pub name : List ℕ
  pub type : ℕ
  pub value : List ℕ
  pub ttl : ℕ

unfoldable pub parse_question : List ℕ → Result DnsQuestion
parse_question packet = do
  throw_if (ltb (length packet) 12) (runtime_error "dns request too short")
  qdcount ← read_be16 packet 4
  throw_if (qdcount == 0) (runtime_error "dns request has no question")
  (name, offset) ← read_name packet 12
  throw_if (ltb (length packet) (offset + 4)) (runtime_error "truncated dns question")
  type_raw ← read_be16 packet offset
  ok (record { name = name; type = type_raw })

-- `domain.find('.', start)`: the label in front of the first dot, and what follows the dot.
unfoldable pub split_dot : List ℕ → List ℕ × Option (List ℕ)
split_dot [] = ([], none)
split_dot (c ∷ rest) =
    let tail = split_dot rest in if c == b'.' then ([], some rest) else (c ∷ tail.0, tail.1)

-- The loop of `build_query`, over the domain from `start` on.
unfoldable pub build_labels : ℕ → List ℕ → List ℕ → Result (List ℕ)
build_labels fuel packet [] = ok packet
build_labels zero packet (c ∷ rest) = stuck
build_labels (suc fuel) packet (c ∷ rest) = do
  let label = (split_dot (c ∷ rest)).0
  throw_if ((length label == 0) || ltb 63 (length label)) (runtime_error "invalid domain label")
  let longer = (packet ++ (length label ∷ [])) ++ label
  elim (split_dot (c ∷ rest)).1 [ none ↦ ok longer | some after ↦ build_labels fuel longer after ]

abbrev pub query_header : List ℕ
query_header =
    write_be16
      (write_be16 (write_be16 (write_be16 (write_be16 (write_be16 [] 0x1234) 0x0100) 1) 0) 0) 0

-- Each round takes a byte of the domain at least.
unfoldable pub build_query : List ℕ → ℕ → Result (List ℕ)
build_query domain type = do
  packet ← build_labels (length domain) query_header domain
  ok (write_be16 (write_be16 (packet ++ (0 ∷ [])) type) 1)

unfoldable pub skip_questions : ℕ → List ℕ → ℕ → Result ℕ
skip_questions zero packet offset = ok offset
skip_questions (suc n) packet offset = do
  end ← skip_question packet offset
  skip_questions n packet end

-- The records that one answer adds: one, or none for a class or type that is passed over.
abbrev pub one_record : List ℕ → ℕ → ℕ → List ℕ → Result (List DnsRecord)
one_record name ttl type value =
    let r : DnsRecord = record { name = name; type = type; value = value; ttl = ttl } in ok (r ∷ [])

unfoldable pub answer_records : List ℕ → List ℕ → ℕ → ℕ → ℕ → ℕ → ℕ → Result (List DnsRecord)
answer_records packet name type_raw klass ttl rdlength offset =
    subspan packet offset rdlength >>= λ rdata.
    if (klass == 1) && (type_raw == type_a)
    then ipv4_text rdata >>= one_record name ttl type_a
    else if (klass == 1) && (type_raw == type_aaaa)
    then ipv6_text rdata >>= one_record name ttl type_aaaa
    else if (klass == 1) && (type_raw == type_cname)
    then read_name packet offset >>= (λ n. one_record name ttl type_cname n.0)
    else ok []

unfoldable pub parse_answer : List ℕ → ℕ → Result (List DnsRecord × ℕ)
parse_answer packet start = do
  (name, offset) ← read_name packet start
  type_raw ← read_be16 packet offset
  klass ← read_be16 packet (offset + 2)
  ttl ← read_be32 packet (offset + 4)
  rdlength ← read_be16 packet (offset + 8)
  throw_if (ltb (length packet) (offset + 10 + rdlength)) (runtime_error "truncated dns rdata")
  added ← answer_records packet name type_raw klass ttl rdlength (offset + 10)
  ok (added, offset + 10 + rdlength)

unfoldable pub parse_answers : ℕ → List ℕ → ℕ → List DnsRecord → Result (List DnsRecord)
parse_answers zero packet offset records = ok records
parse_answers (suc n) packet offset records = do
  (added, end) ← parse_answer packet offset
  parse_answers n packet end (records ++ added)

unfoldable pub parse_response : List ℕ → Result (List DnsRecord)
parse_response packet = do
  throw_if (ltb (length packet) 12) (runtime_error "dns response too short")
  qdcount ← read_be16 packet 4
  ancount ← read_be16 packet 6
  offset ← skip_questions qdcount packet 12
  parse_answers ancount packet offset []
