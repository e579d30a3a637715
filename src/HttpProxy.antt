-- ===== src/HttpProxy.antt =====
-- HTTP proxy requests: src/protocol/http_proxy.cpp. The request is given as the text that has been read
-- up to the empty line, with what came behind it, and the place where the empty line ends.
pub mod Headers
pub mod Payloads
mod Tests
use cppbox.Prelude.{
  ℕ, zero, suc, ◌+◌, ◌-◌, Bool, true, false, ◌&&◌, ◌||◌, not, Option, none, some, List, [], ◌∷◌,
  ◌++◌, map, codes, length, drop, leb, ltb, ◌==◌, is_empty, starts_with, text_eq, if◌then◌else◌,
  Result, Error, ok, err, stuck, runtime_error, require, ◌>>=◌, ◌>>◌,
}
use cppbox.Prelude.Texts.{split_at, has_char, is_digit, digits_value, is_space}
use cppbox.Utils.{tolower}
use cppbox.Address.{AddressText, Host, Destination, Session, parse_v6, parse_host}

abbrev pub all_digits : List ℕ → Bool
all_digits [] = true
all_digits (c ∷ cs) = is_digit c && all_digits cs

-- `std::from_chars` must take the whole text; a value that is out of range for it is also above 65535.
unfoldable pub parse_port : List ℕ → Result ℕ
parse_port text = do
  require (not (is_empty text)) "missing port"
  require (all_digits text && (ltb 0 (digits_value text 0) && leb (digits_value text 0) 65535))
      "invalid port"
  ok (digits_value text 0)

-- `rfind`: the text in front of the last `c`, and the text behind it.
unfoldable pub split_last : ℕ → List ℕ → Option (List ℕ × List ℕ)
split_last c [] = none
split_last c (x ∷ xs) = elim (split_last c xs) [
  | none ↦ if x == c then some ([], xs) else none
  | some (a, b) ↦ some (x ∷ a, b)
]

-- The port behind a closing bracket.
abbrev pub bracket_port : List ℕ → ℕ → Bool → Result ℕ
bracket_port [] default_port explicit =
    require (not explicit) "missing IPv6 port" >> ok default_port
bracket_port (c ∷ text) default_port explicit =
    require (c == b':') "invalid IPv6 authority" >> parse_port text

module _ (t : AddressText) where
  -- An authority behind its opening bracket.
  unfoldable pub parse_bracketed : List ℕ → ℕ → Bool → Result Destination
  parse_bracketed text default_port explicit = elim (split_at b']' text) [
    | none ↦ err (runtime_error "invalid IPv6 authority")
    | some (host, suffix) ↦ do
      port ← bracket_port suffix default_port explicit
      parsed ← parse_v6 t host
      ok (record { host = parsed; port = port })
  ]

  abbrev pub named_host : List ℕ → ℕ → Result Destination
  named_host host port = do
    require (not (is_empty host)) "empty host"
    parsed ← parse_host t host
    ok (record { host = parsed; port = port })

  unfoldable pub parse_plain : List ℕ → ℕ → Bool → Result Destination
  parse_plain authority default_port explicit = elim (split_last b':' authority) [
    | none ↦ require (not explicit) "missing port" >> named_host authority default_port
    | some (host, text) ↦ do
      port ← parse_port text
      require (not (has_char b':' host)) "IPv6 address must use brackets"
      named_host host port
  ]

  unfoldable pub parse_authority : List ℕ → ℕ → Bool → Result Destination
  parse_authority [] default_port explicit = err (runtime_error "empty authority")
  parse_authority (c ∷ cs) default_port explicit =
      if c == b'['
      then parse_bracketed cs default_port explicit
      else parse_plain (c ∷ cs) default_port explicit

  unfoldable pub parse_connect_target : List ℕ → Result Destination
  parse_connect_target target = parse_authority target 0 true

  -- Up to the first slash.
  abbrev pub authority_part : List ℕ → List ℕ
  authority_part text = elim (split_at b'/' text) [ none ↦ text | some (a, b) ↦ a ]

  unfoldable pub parse_http_absolute_target : List ℕ → Result Destination
  parse_http_absolute_target target = do
    require (starts_with target (codes "http://")) "only absolute-form HTTP requests are supported"
    parse_authority (authority_part (drop 7 target)) 80 false

-- `find("\r\n")`: the text in front, and the text behind.
unfoldable pub split_crlf : List ℕ → Option (List ℕ × List ℕ)
split_crlf [] = none
split_crlf (c ∷ cs) =
    if starts_with (c ∷ cs) (13 ∷ 10 ∷ [])
    then some ([], drop 1 cs)
    else (elim (split_crlf cs) [ none ↦ none | some (a, b) ↦ some (c ∷ a, b) ])

abbrev pub crlf : List ℕ
crlf = 13 ∷ 10 ∷ []

-- A line of the header as it is sent on: nothing for the headers meant for the proxy.
unfoldable pub kept_line : List ℕ → List ℕ
kept_line line =
    if not (starts_with (map tolower line) (codes "proxy-connection:"))
      && not (starts_with (map tolower line) (codes "proxy-authorization:"))
    then line ++ crlf
    else []

-- The loop over the lines, on fuel. `left` is `header_size - pos`, and `text` the header from `pos` on.
unfoldable pub header_lines : ℕ → ℕ → List ℕ → Result (List ℕ)
header_lines zero left text = stuck
header_lines (suc fuel) left text = elim (left == 0) [
  | true ↦ ok []
  | false ↦ elim (split_crlf text) [
    | none ↦ ok []
    | some ([], rest) ↦ ok []
    | some (c ∷ line, rest) ↦
        (header_lines fuel (left - (suc (length line) + 2)) rest >>= λ lines.
        ok (kept_line (c ∷ line) ++ lines))
  ]
]

-- The path of an absolute target, from the first slash on.
unfoldable pub request_path : List ℕ → List ℕ
request_path target = elim (split_at b'/' (drop 7 target)) [
  | none ↦ codes "/"
  | some (a, path) ↦ b'/' ∷ path
]

-- `header` is the text read, `line_size` the size of its first line without the line end.
unfoldable pub build_initial_payload : List ℕ → ℕ → ℕ → List ℕ → List ℕ → List ℕ → Result (List ℕ)
build_initial_payload header line_size header_size method target version = do
  lines ←
      header_lines (suc (length header)) (header_size - (line_size + 2))
        (drop (line_size + 2) header)
  ok (
      (method ++ (32 ∷ request_path target) ++ (32 ∷ version) ++ crlf)
      ++ lines
      ++ crlf
      ++ drop header_size header)

-- `stream >> word`: the word, and the text behind it.
unfoldable pub take_word : List ℕ → List ℕ × List ℕ
take_word [] = ([], [])
take_word (c ∷ cs) =
    let (word, rest) = take_word cs in if is_space c then ([], c ∷ cs) else (c ∷ word, rest)

unfoldable pub skip_spaces : List ℕ → List ℕ
skip_spaces [] = []
skip_spaces (c ∷ cs) = let rest = skip_spaces cs in if is_space c then rest else c ∷ cs

abbrev pub next_word : List ℕ → List ℕ × List ℕ
next_word text = take_word (skip_spaces text)

abbrev pub success_reply : List ℕ
success_reply =
    codes "HTTP/1.1 200 Connection Established"
    ++ crlf
    ++ codes "Proxy-Agent: cppbox-cpp/0.1"
    ++ crlf
    ++ crlf

-- `read_session` behind the request line: the session, and what is written to the client.
unfoldable pub session_of :
    AddressText → List ℕ → ℕ → ℕ → List ℕ → List ℕ → List ℕ → Result (Session × List ℕ)
session_of t header line_size header_size method target version = do
  require (not (is_empty method)) "empty HTTP method"
  require (not (is_empty target)) "empty HTTP target"
  require (starts_with version (codes "HTTP/")) "invalid HTTP version"
  elim (text_eq method (codes "CONNECT")) [
    | true ↦
        (parse_connect_target t target >>= λ dst.
        ok (record { destination = dst; initial_payload = [] }, success_reply))
    | false ↦
        (parse_http_absolute_target t target >>= λ dst.
        build_initial_payload header line_size header_size method target version >>= λ payload.
        ok (record { destination = dst; initial_payload = payload }, []))
  ]

unfoldable pub read_session : AddressText → List ℕ → ℕ → Result (Session × List ℕ)
read_session t header header_size = elim (split_crlf header) [
  | none ↦ err (runtime_error "invalid HTTP proxy request")
  | some (request_line, rest) ↦
      let (method, after_method) = next_word request_line in
      let (target, after_target) = next_word after_method in
      let (version, after_version) = next_word after_target in
      session_of t header (length request_line) header_size method target version
]
