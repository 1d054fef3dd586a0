-- ===== src/Http/Assemble.antt =====
-- mitmproxy/net/http/http1/assemble.py, and `_read_response_line` of
-- mitmproxy/net/http/http1/read.py, which reads the first line of a response back.
pub mod Response
mod Tests
use middle_man.Base.{
  ℕ, zero, suc, ◌+◌, ◌*◌, ◌-◌, ◌/◌, ◌%◌, Bool, true, false, not, ◌&&◌, ◌||◌, Option, none, some,
  List, [], ◌∷◌, ◌++◌, map, leb, ltb, ◌==◌, if◌then◌else◌, length,
}
use middle_man.Http.Text.{Bytes, codes, bytes_eq, upper, lower_byte, is_digit, to_int}
use middle_man.Http.Headers.{Fields, get}
use middle_man.Http.Read.{is_space_byte, to_bytes}

-- a digit of `%d` and `%x`
unfoldable pub digit : ℕ → ℕ
digit d = if ltb d 10 then b'0' + d else (b'a' - 10) + d

-- the digits of a number in front of others; the number is fuel enough, as each round divides it
unfoldable pub digits_from : ℕ → ℕ → ℕ → Bytes → Bytes
unfolding digit
digits_from base zero n rest = digit n ∷ rest
digits_from base (suc fuel) n rest =
    let more = digits_from base fuel (n / base) (digit (n % base) ∷ rest) in
    if ltb n base then digit n ∷ rest else more

-- `%d`
unfoldable pub decimal : ℕ → Bytes
unfolding digits_from
decimal n = digits_from 10 n n []

-- `%x`
unfoldable pub hex : ℕ → Bytes
unfolding digits_from
hex n = digits_from 16 n n []

abbrev pub crlf : Bytes
crlf = codes "\r\n"

-- the attributes of `RequestData` and `ResponseData` that are written
pub record RequestData : Type 0 where
  pub method : Bytes
  pub scheme : Bytes
  pub authority : Bytes
  pub path : Bytes
  pub http_version : Bytes

pub record ResponseData : Type 0 where
  pub http_version : Bytes
  pub status_code : ℕ
  pub reason : Bytes

-- `request_data.authority`, which is empty or not
unfoldable pub request_target : RequestData → Bytes
request_target request = elim (request.authority) [
  | [] ↦ request.path
  | c ∷ s ↦ request.scheme ++ (codes "://" ++ (c ∷ s ++ request.path))
]

unfoldable pub _assemble_request_line : RequestData → Bytes
unfolding upper request_target
_assemble_request_line request =
    let target =
      if bytes_eq (upper (request.method)) (codes "CONNECT")
      then request.authority
      else request_target request in
    request.method ++ (b' ' ∷ target) ++ (b' ' ∷ request.http_version)

unfoldable pub _assemble_response_line : ResponseData → Bytes
unfolding decimal
_assemble_response_line response =
    response.http_version ++ b' ' ∷ (decimal (response.status_code) ++ b' ' ∷ response.reason)

unfoldable pub assemble_request_head : RequestData → Fields → Bytes
unfolding _assemble_request_line to_bytes
assemble_request_head request headers =
    _assemble_request_line request ++ (crlf ++ (to_bytes headers ++ crlf))

unfoldable pub assemble_response_head : ResponseData → Fields → Bytes
unfolding _assemble_response_line to_bytes
assemble_response_head response headers =
    _assemble_response_line response ++ (crlf ++ (to_bytes headers ++ crlf))

-- `str.lower`, as far as its result has letters of ASCII: the Kelvin sign becomes a k
unfoldable pub lower_char : ℕ → ℕ
unfolding lower_byte
lower_char c = if c == 8490 then b'k' else lower_byte c

abbrev pub starts_with : Bytes → Bytes → Bool
starts_with [] s = true
starts_with (c ∷ word) [] = false
starts_with (c ∷ word) (d ∷ s) = c == d && starts_with word s

-- `word in text`
unfoldable pub is_in : Bytes → Bytes → Bool
is_in word [] = starts_with word []
is_in word (c ∷ s) = starts_with word (c ∷ s) || is_in word s

-- the chunks that are not empty, each with its length
unfoldable pub chunks : List Bytes → Bytes
unfolding hex
chunks [] = []
chunks ([] ∷ body) = chunks body
chunks ((c ∷ s) ∷ body) = hex (length (c ∷ s)) ++ (crlf ++ (c ∷ s ++ (crlf ++ chunks body)))

-- the end of a chunked body; trailers are absent or empty, or there
unfoldable pub last_chunk : Option Fields → Bytes
unfolding to_bytes
last_chunk none = codes "0\r\n\r\n"
last_chunk (some []) = codes "0\r\n\r\n"
last_chunk (some (field ∷ fields)) = codes "0\r\n" ++ (to_bytes (field ∷ fields) ++ crlf)

abbrev pub concat : List Bytes → Bytes
concat [] = []
concat (chunk ∷ body) = chunk ++ concat body

module _ (native : Bytes → List ℕ) where
  -- `"chunked" in headers.get("transfer-encoding", "").lower()`
  unfoldable pub is_chunked : Fields → Bool
  unfolding get is_in lower_char
  is_chunked headers = elim (get native (codes "transfer-encoding") headers) [
    | none ↦ is_in (codes "chunked") []
    | some te ↦ is_in (codes "chunked") (map lower_char te)
  ]

  -- `assemble_body`, joined, with `none` for the ValueError
  unfoldable pub assemble_body : Fields → List Bytes → Option Fields → Option Bytes
  unfolding is_chunked chunks last_chunk
  assemble_body headers body (some (field ∷ fields)) =
      if is_chunked headers then some (chunks body ++ last_chunk (some (field ∷ fields))) else none
  assemble_body headers body trailers =
      if is_chunked headers then some (chunks body ++ last_chunk trailers) else some (concat body)

  -- `assemble_request` and `assemble_response` behind their heads; the content may be None
  unfoldable pub assemble_with : Bytes → Fields → Option Bytes → Option Fields → Option Bytes
  unfolding assemble_body
  assemble_with head headers none trailers = none
  assemble_with head headers (some content) trailers =
      elim (assemble_body headers (content ∷ []) trailers) [
        | none ↦ none
        | some body ↦ some (head ++ body)
      ]

  unfoldable pub assemble_request :
      RequestData → Fields → Option Bytes → Option Fields → Option Bytes
  unfolding assemble_with assemble_request_head
  assemble_request request headers content trailers =
      assemble_with (assemble_request_head request headers) headers content trailers

  unfoldable pub assemble_response :
      ResponseData → Fields → Option Bytes → Option Fields → Option Bytes
  unfolding assemble_with assemble_response_head
  assemble_response response headers content trailers =
      assemble_with (assemble_response_head response headers) headers content trailers

-- the text up to the next blank, and what follows it, `line.split(None, ...)`
unfoldable pub take_word : Bytes → Bytes × Bytes
unfolding is_space_byte
take_word [] = ([], [])
take_word (c ∷ s) =
    let rest = take_word s in if is_space_byte c then ([], c ∷ s) else (c ∷ rest.0, rest.1)

unfoldable pub skip_blanks : Bytes → Bytes
unfolding is_space_byte
skip_blanks [] = []
skip_blanks (c ∷ s) = let rest = skip_blanks s in if is_space_byte c then rest else c ∷ s

-- `re.match(rb"^HTTP/\d\.\d$", http_version)`; the version has no blanks, so no line feed either
unfoldable pub is_version : Bytes → Bool
is_version (h ∷ t ∷ t' ∷ p ∷ slash ∷ major ∷ dot ∷ minor ∷ []) =
    bytes_eq (h ∷ t ∷ t' ∷ p ∷ slash ∷ []) (codes "HTTP/")
    && is_digit major
    && dot == b'.'
    && is_digit minor
is_version _ = false

-- digits with single underscores between them, from behind a digit on
unfoldable pub digits_value : ℕ → Bytes → Option ℕ
digits_value n [] = some n
digits_value n (c ∷ []) = if is_digit c then some (n * 10 + (c - b'0')) else none
digits_value n (c ∷ d ∷ s) =
    let next = digits_value (n * 10 + (c - b'0')) (d ∷ s) in
    let behind = digits_value (n * 10 + (d - b'0')) s in
    if is_digit c then next else if c == b'_' && is_digit d then behind else none

-- `int` of a word without its sign
unfoldable pub int_value : Bytes → Option ℕ
unfolding digits_value
int_value [] = none
int_value (c ∷ s) = if is_digit c then digits_value (c - b'0') s else none

-- `int` of a word: whether it is negative, and its size
unfoldable pub int_of : Bytes → Option (Bool × ℕ)
unfolding int_value
int_of [] = none
int_of (c ∷ s) =
    if c == b'-'
    then elim (int_value s) [ none ↦ none | some n ↦ some (true, n) ]
    else if c == b'+'
    then elim (int_value s) [ none ↦ none | some n ↦ some (false, n) ]
    else elim (int_value (c ∷ s)) [ none ↦ none | some n ↦ some (false, n) ]

-- the three parts, with `none` for the ValueError
unfoldable pub response_line : Bytes → Bytes → Bytes → Option (Bytes × ((Bool × ℕ) × Bytes))
unfolding is_version int_of
response_line http_version status_code reason = elim (int_of status_code) [
  | none ↦ none
  | some code ↦ if is_version http_version then some (http_version, (code, reason)) else none
]

-- the version, the status code and the reason; a missing reason is empty
unfoldable pub _read_response_line : Bytes → Option (Bytes × ((Bool × ℕ) × Bytes))
unfolding take_word skip_blanks response_line
_read_response_line line =
    let first = take_word (skip_blanks line) in
    let second = take_word (skip_blanks (first.1)) in
    response_line (first.0) (second.0) (skip_blanks (second.1))
