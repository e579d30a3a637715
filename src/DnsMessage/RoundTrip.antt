-- ===== src/DnsMessage/RoundTrip.antt =====
-- `parse_question` of src/dns/dns_message.cpp reads back what `build_query` wrote.
use cppbox.Prelude.{
  ℕ, zero, suc, ◌+◌, ◌/◌, ◌%◌, ◌<◌, ◌≤◌, ◌≡◌, ◌≢◌, refl, ap, ◌∙◌, none, some, List, [], ◌∷◌, ◌++◌,
  length, All, arith, Result, ok, ◌>>=◌, append_assoc, append-nil, length-append,
}
use cppbox.Prelude.Bits.{and_192_low}
use cppbox.Utils.{read_be16, write_be16}
use cppbox.Utils.Bytes.{write_be16_lem}
use cppbox.Utils.Cursor.{At, skip, At-length, At-take, At-get, At-be16}
use cppbox.DnsMessage.{
  Name, label_loop, read_name_at, read_name, parse_question, append_label, split_dot, build_labels,
  query_header, build_query,
}

-- A label of 1 to 63 bytes with no dot in it.
abbrev pub NoDot : List ℕ → Type 0
NoDot = All (λ c. c ≢ b'.')

pub record IsLabel (l : List ℕ) : Type 0 where
  pub nonempty : 0 < length l
  pub short : length l ≤ 63
  pub plain : NoDot l

-- The labels with dots between them.
unfoldable pub join : List (List ℕ) → List ℕ
join [] = []
join (l ∷ []) = l
join (l ∷ m ∷ ls) = l ++ (b'.' ∷ join (m ∷ ls))

-- The labels on the wire, each behind its length.
unfoldable pub wire : List (List ℕ) → List ℕ
wire [] = []
wire (l ∷ ls) = (length l ∷ l) ++ wire ls

split_dot-label : (l rest : List ℕ) → NoDot l → split_dot (l ++ (b'.' ∷ rest)) ≡ (l, some rest)
unfolding split_dot
split_dot-label [] rest h = refl
split_dot-label (c ∷ l) rest h = ground (arith, split_dot-label l rest h.1)

split_dot-last : (l : List ℕ) → NoDot l → split_dot l ≡ (l, none)
unfolding split_dot
split_dot-last [] h = refl
split_dot-last (c ∷ l) h = ground (arith, split_dot-last l h.1)

build_labels-last :
    (l : List ℕ) (fuel : ℕ) (packet : List ℕ)
    → IsLabel l
    → length l ≤ fuel
    → build_labels fuel packet l ≡ ok ((packet ++ (length l ∷ [])) ++ l)
unfolding build_labels
build_labels-last [] fuel packet h f = absurd (omega (arith, h.nonempty))
build_labels-last (c ∷ l) zero packet h f = absurd (omega arith)
build_labels-last (c ∷ l) (suc fuel) packet h f =
    ground (arith, split_dot-last (c ∷ l) h.plain, h.short)

build_labels-more :
    (l rest : List ℕ) (fuel : ℕ) (packet : List ℕ)
    → IsLabel l
    → build_labels (suc fuel) packet (l ++ (b'.' ∷ rest))
      ≡ build_labels fuel ((packet ++ (length l ∷ [])) ++ l) rest
unfolding build_labels
build_labels-more [] rest fuel packet h = absurd (omega (arith, h.nonempty))
build_labels-more (c ∷ l) rest fuel packet h =
    ground (arith, split_dot-label (c ∷ l) rest h.plain, h.short)

build_labels-join :
    (ls : List (List ℕ)) (fuel : ℕ) (packet : List ℕ)
    → All IsLabel ls
    → length (join ls) ≤ fuel
    → build_labels fuel packet (join ls) ≡ ok (packet ++ wire ls)
unfolding join wire
build_labels-join [] fuel packet h f = unfold build_labels in rw append-nil
build_labels-join (l ∷ []) fuel packet h f =
    build_labels-last l fuel packet h.0 f ∙ simp (append_assoc, append-nil)
build_labels-join (l ∷ m ∷ ls) zero packet h f =
    absurd (omega (arith, length-append l (b'.' ∷ join (m ∷ ls))))
build_labels-join (l ∷ m ∷ ls) (suc fuel) packet h f =
    build_labels-more l (join (m ∷ ls)) fuel packet h.0
    ∙ build_labels-join (m ∷ ls) fuel ((packet ++ (length l ∷ [])) ++ l) h.1
        (omega (arith, length-append l (b'.' ∷ join (m ∷ ls))))
    ∙ simp append_assoc

-- What `read_name` makes of the labels, one after the other.
abbrev append_labels : List ℕ → List (List ℕ) → List ℕ
append_labels name [] = name
append_labels name (l ∷ ls) = append_labels (append_label name l) ls

append_labels-longer :
    (name : List ℕ) (l : List ℕ) (ls : List (List ℕ))
    → 0 < length name
    → append_labels name (l ∷ ls) ≡ name ++ (b'.' ∷ join (l ∷ ls))
unfolding join
append_labels-longer [] l ls h = absurd (omega arith)
append_labels-longer (c ∷ name) l [] h = refl
append_labels-longer (c ∷ name) l (m ∷ ls) h =
    append_labels-longer ((c ∷ name) ++ (b'.' ∷ l)) m ls (omega arith) ∙ simp append_assoc

append_labels-join : (ls : List (List ℕ)) → All IsLabel ls → append_labels [] ls ≡ join ls
unfolding join
append_labels-join [] h = refl
append_labels-join (l ∷ []) h = refl
append_labels-join (l ∷ m ∷ ls) h = append_labels-longer l m ls h.0.nonempty

module _ (data_ : List ℕ) (follow : ℕ → Result Name) where
  label_loop-label :
      (l rest : List ℕ) (fuel pos : ℕ) (name : List ℕ)
      → IsLabel l
      → At data_ pos (length l ∷ (l ++ rest))
      → label_loop follow (suc fuel) data_ pos name
        ≡ label_loop follow fuel data_ (pos + 1 + length l) (append_label name l)
  unfolding label_loop
  label_loop-label l rest fuel pos name h a = ground (
    arith,
    At-get data_ pos 0 pos (length l ∷ (l ++ rest)) a,
    At-length data_ pos (length l ∷ (l ++ rest)) a,
    length-append l rest,
    and_192_low (length l),
    h.short,
    h.nonempty,
    At-take data_ (pos + 1) (length l) l rest
        (skip data_ pos (pos + 1) (length l ∷ []) (l ++ rest) a refl) refl,
  )

  label_loop-end :
      (rest : List ℕ) (fuel pos : ℕ) (name : List ℕ)
      → At data_ pos (0 ∷ rest)
      → label_loop follow (suc fuel) data_ pos name ≡ ok (name, pos + 1)
  unfolding label_loop
  label_loop-end rest fuel pos name a =
      ground (arith, At-get data_ pos 0 pos (0 ∷ rest) a, At-length data_ pos (0 ∷ rest) a)

  label_loop-wire :
      (ls : List (List ℕ)) (rest : List ℕ) (fuel pos : ℕ) (name : List ℕ)
      → All IsLabel ls
      → At data_ pos (wire ls ++ (0 ∷ rest))
      → length (wire ls) < fuel
      → label_loop follow fuel data_ pos name
        ≡ ok (append_labels name ls, pos + length (wire ls) + 1)
  unfolding wire
  label_loop-wire ls rest zero pos name h a f = absurd (omega arith)
  label_loop-wire [] rest (suc fuel) pos name h a f =
      label_loop-end rest fuel pos name a ∙ ap (λ e. ok (name, e)) (omega arith)
  label_loop-wire (l ∷ ls) rest (suc fuel) pos name h a f =
      let a' : At data_ pos (length l ∷ (l ++ (wire ls ++ (0 ∷ rest)))) =
        rw (append_assoc l (wire ls) (0 ∷ rest)) at a in
      label_loop-label l (wire ls ++ (0 ∷ rest)) fuel pos name h.0 a'
      ∙ label_loop-wire ls rest fuel (pos + 1 + length l) (append_label name l) h.1
          (skip data_ pos (pos + 1 + length l) (length l ∷ l) (wire ls ++ (0 ∷ rest)) a'
            (omega arith))
          (omega (arith, length-append l (wire ls)))
      ∙ ap (λ e. ok (append_labels (append_label name l) ls, e))
          (omega (arith, length-append l (wire ls)))

read_name-wire :
    (data_ : List ℕ) (ls : List (List ℕ)) (rest : List ℕ) (pos : ℕ)
    → All IsLabel ls
    → At data_ pos (wire ls ++ (0 ∷ rest))
    → read_name data_ pos ≡ ok (join ls, pos + length (wire ls) + 1)
unfolding read_name read_name_at
read_name-wire data_ ls rest pos h a =
    label_loop-wire data_ (read_name_at 16 data_) ls rest (suc (length data_)) pos [] h a (
      omega
        (arith, At-length data_ pos (wire ls ++ (0 ∷ rest)) a, length-append (wire ls) (0 ∷ rest)))
    ∙ ap (λ n. ok (n, pos + length (wire ls) + 1)) (append_labels-join ls h)

-- The packet that `build_query` makes.
query_packet : List (List ℕ) → ℕ → List ℕ
query_packet ls type = query_header ++ (wire ls ++ (0 ∷ (type / 256) ∷ (type % 256) ∷ 0 ∷ 1 ∷ []))

-- `build_query` accepts every domain of labels of 1 to 63 bytes.
build_query-join :
    (ls : List (List ℕ)) (type : ℕ)
    → All IsLabel ls
    → type < 65536
    → build_query (join ls) type ≡ ok (query_packet ls type)
unfolding build_query query_packet
build_query-join ls type h t =
    rw (build_labels-join ls (length (join ls)) query_header h (omega arith), ◌>>=◌)
      (rw (write_be16_lem ((query_header ++ wire ls) ++ (0 ∷ [])) type t) (
        rw
          (write_be16_lem
            (((query_header ++ wire ls) ++ (0 ∷ [])) ++ (type / 256 ∷ type % 256 ∷ [])) 1
            (omega arith))
          (simp append_assoc)))

module _ (ls : List (List ℕ)) (type : ℕ) (h : All IsLabel ls) (t : type < 65536) where
  abbrev question_end : List ℕ
  question_end = (type / 256) ∷ (type % 256) ∷ 0 ∷ 1 ∷ []

  name_at : At (query_packet ls type) 12 (wire ls ++ (0 ∷ question_end))
  unfolding query_packet write_be16
  name_at = record { before = query_header; splits = refl; place = refl }

  end_at : At (query_packet ls type) (12 + length (wire ls) + 1) question_end
  end_at =
      skip (query_packet ls type) (12 + length (wire ls)) (12 + length (wire ls) + 1) (0 ∷ [])
        question_end
        (skip (query_packet ls type) 12 (12 + length (wire ls)) (wire ls) (0 ∷ question_end) name_at
          refl)
        refl

  question_count : read_be16 (query_packet ls type) 4 ≡ ok 1
  unfolding query_packet write_be16 read_be16
  question_count = ground arith

  -- `parse_question` gives back the domain and the type that `build_query` was given, for every
  -- domain of labels of 1 to 63 bytes with no dot in them and every 16-bit type.
  pub parse_question-build_query :
      (build_query (join ls) type >>= parse_question) ≡ ok (record { name = join ls; type = type })
  unfolding parse_question
  parse_question-build_query =
      rw (build_query-join ls type h t, ◌>>=◌)
        (ground (
          arith,
          question_count,
          read_name-wire (query_packet ls type) ls question_end 12 h name_at,
          At-length (query_packet ls type) (12 + length (wire ls) + 1) question_end end_at,
          At-be16 (query_packet ls type) (12 + length (wire ls) + 1) (type / 256) (type % 256)
              (0 ∷ 1 ∷ []) end_at,
        ))
