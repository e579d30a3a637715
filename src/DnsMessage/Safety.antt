-- ===== src/DnsMessage/Safety.antt =====
-- The DNS parsers of src/dns/dns_message.cpp return or throw on every packet: they never read
-- outside of the packet, and their loops and the recursion of `read_name` end.
use cppbox.Prelude.{
  ℕ, zero, suc, ◌+◌, ◌-◌, ◌*◌, ◌<◌, ◌≡◌, refl, Bool, true, false, ◌&&◌, not, some, List, [], ◌∷◌,
  length, arith, leb, ltb, ◌==◌, bit_and, bit_or, Result, ok, err, stuck, runtime_error,
  runtime_error_about, system_error, invalid_argument, out_of_range, out_of_bounds, get_elem?, take,
  drop, le→leb, ◌≤◌, ◌>>=◌, ◌>>◌, require, String, ◌++◌, if◌then◌else◌,
}
use cppbox.Utils.{byte, read_be16, read_be32}
use cppbox.DnsMessage.{
  Name, throw_if, label_loop, read_name_at, read_name, skip_question, ipv4_text, ipv6_text,
  parse_question, subspan, skip_questions, answer_records, parse_answer, parse_answers,
  parse_response, DnsRecord, append_label, type_a, type_aaaa, type_cname,
}

-- The code returns, or throws a `std::runtime_error`.
abbrev pub IsSafe {ℓ} : {A : Type ℓ} → Result A → Type 0
IsSafe (ok a) = Unit {0}
IsSafe (err (runtime_error m)) = Unit {0}
IsSafe (err (runtime_error_about m t)) = Unit {0}
IsSafe (err system_error) = ⊥
IsSafe (err invalid_argument) = ⊥
IsSafe (err out_of_range) = ⊥
IsSafe (err out_of_bounds) = ⊥
IsSafe stuck = ⊥

module _ {A B : Type 0} where
  bind-IsSafe :
      (m : Result A) (f : A → Result B) → IsSafe m → ((a : A) → IsSafe (f a)) → IsSafe (m >>= f)
  bind-IsSafe (ok a) f h k = k a
  bind-IsSafe (err (runtime_error m)) f h k = tt
  bind-IsSafe (err (runtime_error_about m t)) f h k = tt
  bind-IsSafe (err system_error) f h k = absurd h
  bind-IsSafe (err invalid_argument) f h k = absurd h
  bind-IsSafe (err out_of_range) f h k = absurd h
  bind-IsSafe (err out_of_bounds) f h k = absurd h
  bind-IsSafe stuck f h k = absurd h

get_elem-some : (xs : List ℕ) (i : ℕ) → i < length xs → (b : ℕ) × (get_elem? xs i ≡ some b)
get_elem-some [] i h = absurd (omega arith)
get_elem-some (x ∷ xs) zero h = (x, refl)
get_elem-some (x ∷ xs) (suc i) h = get_elem-some xs i (omega arith)

module _ {B : Type 0} where
  throw-IsSafe :
      (b : Bool) (m : String) (k : Result B)
      → (b ≡ false → IsSafe k)
      → IsSafe (throw_if b (runtime_error m) >> k)
  throw-IsSafe true m k h = tt
  throw-IsSafe false m k h = h refl

  require-IsSafe :
      (b : Bool) (m : String) (k : Result B) → (b ≡ true → IsSafe k) → IsSafe (require b m >> k)
  require-IsSafe true m k h = h refl
  require-IsSafe false m k h = tt

  split-IsSafe :
      (b : Bool) (x y : Result B)
      → (b ≡ true → IsSafe x)
      → (b ≡ false → IsSafe y)
      → IsSafe (elim b as (λ _. Result B) [ true ↦ x | false ↦ y ])
  split-IsSafe true x y h k = h refl
  split-IsSafe false x y h k = k refl

  byte-IsSafe :
      (data_ : List ℕ) (i : ℕ) (k : ℕ → Result B)
      → i < length data_
      → ((b : ℕ) → IsSafe (k b))
      → IsSafe (byte data_ i >>= k)
  byte-IsSafe data_ i k h f = let (b, e) = get_elem-some data_ i h in rw (e, ◌>>=◌) (f b)

  subspan-IsSafe :
      (data_ : List ℕ) (offset len : ℕ) (k : List ℕ → Result B)
      → offset + len ≤ length data_
      → ((part : List ℕ) → IsSafe (k part))
      → IsSafe (subspan data_ offset len >>= k)
  subspan-IsSafe data_ offset len k h f =
      rw (le→leb (offset + len) (length data_) h, ◌>>=◌) (f (take len (drop offset data_)))

pub read_be16-IsSafe : (data_ : List ℕ) (i : ℕ) → IsSafe (read_be16 data_ i)
unfolding read_be16
read_be16-IsSafe data_ i =
    require-IsSafe (leb i (length data_) && leb 2 (length data_ - i)) "truncated packet" _ λ room.
      byte-IsSafe data_ i _ (ground arith) λ hi. byte-IsSafe data_ (i + 1) _ (ground arith) λ lo. tt

pub read_be32-IsSafe : (data_ : List ℕ) (i : ℕ) → IsSafe (read_be32 data_ i)
unfolding read_be32
read_be32-IsSafe data_ i =
    require-IsSafe (leb i (length data_) && leb 4 (length data_ - i)) "truncated packet" _ λ room.
      byte-IsSafe data_ i _ (ground arith) λ b0. byte-IsSafe data_ (i + 1) _ (ground arith) λ b1.
        byte-IsSafe data_ (i + 2) _ (ground arith)
          λ b2. byte-IsSafe data_ (i + 3) _ (ground arith) λ b3. tt

-- A round of the loop that goes on moves the offset.
label_loop-IsSafe :
    (follow : ℕ → Result Name) (fuel : ℕ) (data_ : List ℕ) (offset : ℕ) (name : List ℕ)
    → ((p : ℕ) → IsSafe (follow p))
    → 0 < fuel
    → length data_ < offset + fuel
    → IsSafe (label_loop follow fuel data_ offset name)
unfolding label_loop
label_loop-IsSafe follow zero data_ offset name safe pos h = absurd (omega arith)
label_loop-IsSafe follow (suc fuel) data_ offset name safe pos h =
    throw-IsSafe (leb (length data_) offset) "truncated dns packet" _ λ inside.
      byte-IsSafe data_ offset _ (ground arith) λ len.
        split-IsSafe (len == 0) _ _ (λ _. tt)
          λ nonzero.
            split-IsSafe (bit_and len 0xc0 == 0xc0) _ _
              (λ _.
                throw-IsSafe (leb (length data_) (offset + 1)) "truncated dns compression pointer" _
                  λ inside'. byte-IsSafe data_ (offset + 1) _ (ground arith) λ low.
                    bind-IsSafe (follow (bit_or (bit_and len 0x3f * 256) low)) _ (safe _) λ _. tt)
              (λ _. throw-IsSafe (not (bit_and len 0xc0 == 0)) "unsupported dns label type" _ λ _.
                throw-IsSafe (ltb (length data_) (offset + 1 + len)) "truncated dns label" _ λ fits.
                  subspan-IsSafe data_ (offset + 1) len _ (ground arith) λ label.
                    label_loop-IsSafe follow fuel data_ (offset + 1 + len) (append_label name label)
                      safe (ground arith) (omega arith))

read_name_at-IsSafe :
    (levels : ℕ) (data_ : List ℕ) (offset : ℕ) → IsSafe (read_name_at levels data_ offset)
unfolding read_name_at
read_name_at-IsSafe zero data_ offset = tt
read_name_at-IsSafe (suc levels) data_ offset =
    label_loop-IsSafe (read_name_at levels data_) (suc (length data_)) data_ offset []
      (read_name_at-IsSafe levels data_) (omega arith) (omega arith)

-- `read_name` returns or throws a `std::runtime_error` at every offset into every packet, however
-- its compression pointers lead.
pub read_name-IsSafe : (data_ : List ℕ) (offset : ℕ) → IsSafe (read_name data_ offset)
unfolding read_name
read_name-IsSafe data_ offset = read_name_at-IsSafe 17 data_ offset

skip_question-IsSafe : (data_ : List ℕ) (offset : ℕ) → IsSafe (skip_question data_ offset)
unfolding skip_question
skip_question-IsSafe data_ offset =
    bind-IsSafe (read_name data_ offset) _ (read_name-IsSafe data_ offset)
      λ n. throw-IsSafe (ltb (length data_) (n.1 + 4)) "truncated dns question" _ λ _. tt

skip_questions-IsSafe :
    (n : ℕ) (packet : List ℕ) (offset : ℕ) → IsSafe (skip_questions n packet offset)
unfolding skip_questions
skip_questions-IsSafe zero packet offset = tt
skip_questions-IsSafe (suc n) packet offset =
    bind-IsSafe (skip_question packet offset) _ (skip_question-IsSafe packet offset)
      λ end. skip_questions-IsSafe n packet end

ipv4_text-IsSafe : (rdata : List ℕ) → IsSafe (ipv4_text rdata)
unfolding ipv4_text
ipv4_text-IsSafe [] = tt
ipv4_text-IsSafe (a ∷ []) = tt
ipv4_text-IsSafe (a ∷ b ∷ []) = tt
ipv4_text-IsSafe (a ∷ b ∷ c ∷ []) = tt
ipv4_text-IsSafe (a ∷ b ∷ c ∷ d ∷ []) = tt
ipv4_text-IsSafe (a ∷ b ∷ c ∷ d ∷ e ∷ rest) = tt

ipv6_text-IsSafe : (rdata : List ℕ) → IsSafe (ipv6_text rdata)
unfolding ipv6_text
ipv6_text-IsSafe rdata =
    throw-IsSafe (not (length rdata == 16)) "invalid AAAA record length" _ λ _. tt

if-IsSafe :
    {A : Type 0} (b : Bool) (x y : Result A) → IsSafe x → IsSafe y → IsSafe (if b then x else y)
if-IsSafe true x y h k = h
if-IsSafe false x y h k = k

answer_records-IsSafe :
    (packet name : List ℕ) (type_raw klass ttl rdlength offset : ℕ)
    → offset + rdlength ≤ length packet
    → IsSafe (answer_records packet name type_raw klass ttl rdlength offset)
unfolding answer_records
answer_records-IsSafe packet name type_raw klass ttl rdlength offset h =
    subspan-IsSafe packet offset rdlength _ h λ rdata.
      if-IsSafe ((klass == 1) && (type_raw == type_a)) _ _
        (bind-IsSafe (ipv4_text rdata) _ (ipv4_text-IsSafe rdata) λ _. tt)
        (if-IsSafe ((klass == 1) && (type_raw == type_aaaa)) _ _
          (bind-IsSafe (ipv6_text rdata) _ (ipv6_text-IsSafe rdata) λ _. tt)
          (if-IsSafe ((klass == 1) && (type_raw == type_cname)) _ _
            (bind-IsSafe (read_name packet offset) _ (read_name-IsSafe packet offset) λ _. tt) tt))

parse_answer-IsSafe : (packet : List ℕ) (start : ℕ) → IsSafe (parse_answer packet start)
unfolding parse_answer
parse_answer-IsSafe packet start =
    bind-IsSafe (read_name packet start) _ (read_name-IsSafe packet start) λ n.
      let offset = n.1 in
      bind-IsSafe (read_be16 packet offset) _ (read_be16-IsSafe packet offset) λ type_raw.
        bind-IsSafe (read_be16 packet (offset + 2)) _ (read_be16-IsSafe packet (offset + 2))
          λ klass.
            bind-IsSafe (read_be32 packet (offset + 4)) _ (read_be32-IsSafe packet (offset + 4))
              λ ttl.
                bind-IsSafe (read_be16 packet (offset + 8)) _ (read_be16-IsSafe packet (offset + 8))
                  λ len.
                    throw-IsSafe (ltb (length packet) (offset + 10 + len)) "truncated dns rdata" _
                      λ fits.
                        bind-IsSafe (answer_records packet n.0 type_raw klass ttl len (offset + 10))
                          _
                          (answer_records-IsSafe packet n.0 type_raw klass ttl len (offset + 10)
                            (ground arith))
                          λ _. tt

parse_answers-IsSafe :
    (n : ℕ) (packet : List ℕ) (offset : ℕ) (records : List DnsRecord)
    → IsSafe (parse_answers n packet offset records)
unfolding parse_answers
parse_answers-IsSafe zero packet offset records = tt
parse_answers-IsSafe (suc n) packet offset records =
    bind-IsSafe (parse_answer packet offset) _ (parse_answer-IsSafe packet offset)
      λ r. parse_answers-IsSafe n packet r.1 (records ++ r.0)

pub parse_response-IsSafe : (packet : List ℕ) → IsSafe (parse_response packet)
unfolding parse_response
parse_response-IsSafe packet = throw-IsSafe (ltb (length packet) 12) "dns response too short" _ λ _.
    bind-IsSafe (read_be16 packet 4) _ (read_be16-IsSafe packet 4) λ qdcount.
      bind-IsSafe (read_be16 packet 6) _ (read_be16-IsSafe packet 6) λ ancount.
        bind-IsSafe (skip_questions qdcount packet 12) _ (skip_questions-IsSafe qdcount packet 12)
          λ offset. parse_answers-IsSafe ancount packet offset []

-- And so does `parse_question`.
pub parse_question-IsSafe : (packet : List ℕ) → IsSafe (parse_question packet)
unfolding parse_question
parse_question-IsSafe packet = throw-IsSafe (ltb (length packet) 12) "dns request too short" _ λ _.
    bind-IsSafe (read_be16 packet 4) _ (read_be16-IsSafe packet 4) λ qdcount.
      throw-IsSafe (qdcount == 0) "dns request has no question" _ λ _.
        bind-IsSafe (read_name packet 12) _ (read_name-IsSafe packet 12) λ n.
          throw-IsSafe (ltb (length packet) (n.1 + 4)) "truncated dns question" _
            λ _. bind-IsSafe (read_be16 packet n.1) _ (read_be16-IsSafe packet n.1) λ _. tt
