-- ===== src/Http/Tests.antt =====
-- Requests and responses of http with the framing that their headers give.
use middle_man.Base.{false, ℕ, ◌≡◌, refl, true, none, some, List, [], ◌∷◌}
use middle_man.Http.Text.{Bytes, codes, is_ascii, lower, strip}
use middle_man.Http.Headers
use middle_man.Http.Headers.{Fields}
use middle_man.Http.Validate.{
  request, response, validate_headers, parse_transfer_encoding, parse_content_length, gzip_chunked,
}
use middle_man.Http.Body.{unknown, exact, expected_http_body_size, connection_close, is_space}
use middle_man.Http.Read.{_read_headers, to_bytes, is_space_byte}
use middle_man.Http.Framing.{IsFramed, status_of, expected_http_body_size-IsFramed}

abbrev as_is : Bytes → List ℕ
as_is s = s

abbrev sized : Fields
sized = (codes "Host", codes "a.b") ∷ (codes "Content-Length", codes "120") ∷ []

abbrev zipped : Fields
zipped =
    (codes "transfer-Encoding", codes "GZIP ,\tchunked")
    ∷ (codes "connection", codes "x,  close ")
    ∷ []

test_sized : expected_http_body_size as_is (codes "POST") none sized ≡ exact 120
unfolding expected_http_body_size
test_sized = refl

test_zipped : expected_http_body_size as_is (codes "GET") (some 200) zipped ≡ unknown
unfolding expected_http_body_size is_ascii
test_zipped = refl

test_head : expected_http_body_size as_is (codes "head") (some 200) zipped ≡ exact 0
unfolding expected_http_body_size
test_head = refl

test_close : connection_close as_is (codes "HTTP/1.1") zipped ≡ true
unfolding connection_close
test_close = refl

test_strip : strip is_space (codes " \ta b \t") ≡ codes "a b"
unfolding strip is_space
test_strip = refl

test_encoding : parse_transfer_encoding (codes "GZIP ,\tchunked") ≡ some gzip_chunked
unfolding parse_transfer_encoding is_ascii lower
test_encoding = refl

-- the line feed at the end
test_length : parse_content_length (codes "12\n") ≡ some 12
unfolding parse_content_length
test_length = refl

sized_valid : validate_headers request true sized ≡ true
unfolding validate_headers lower parse_content_length
sized_valid = refl

zipped_valid : validate_headers (response 200) true zipped ≡ true
unfolding validate_headers lower parse_transfer_encoding is_ascii
zipped_valid = refl

expected_http_body_size-IsFramed_example :
    IsFramed request (expected_http_body_size as_is (codes "POST") (status_of request) sized)
expected_http_body_size-IsFramed_example =
    expected_http_body_size-IsFramed as_is (λ s ascii. refl) request true (codes "POST") sized
      sized_valid

abbrev folded : List Bytes
folded = codes "Host: a.b" ∷ codes "X-Long:\tone" ∷ codes "  two " ∷ []

test_folded :
    _read_headers folded
    ≡ some ((codes "Host", codes "a.b") ∷ (codes "X-Long", codes "one\r\n two") ∷ [])
unfolding _read_headers
test_folded = refl

test_bytes : to_bytes sized ≡ codes "Host: a.b\r\nContent-Length: 120\r\n"
unfolding to_bytes
test_bytes = refl

sized_clean : strip is_space_byte (codes "a.b") ≡ codes "a.b"
unfolding strip is_space_byte
sized_clean = refl

sized_clean_length : strip is_space_byte (codes "120") ≡ codes "120"
unfolding strip is_space_byte
sized_clean_length = refl

same_name : lower (codes "HOST") ≡ lower (codes "host")
unfolding lower
same_name = refl

-- a keyword argument replaces the values of its name, under the spelling that is there
test_new :
    Headers.new_headers some sized
      ((codes "host", codes "c.d") ∷ (codes "content_type", codes "x/y") ∷ [])
    ≡ some (
        (codes "Host", codes "c.d")
        ∷ (codes "Content-Length", codes "120")
        ∷ (codes "content-type", codes "x/y")
        ∷ [])
unfolding Headers.new_headers lower
test_new = refl

test_items :
    Headers.items some as_is false ((codes "A", codes "1") ∷ (codes "a", codes "2") ∷ [])
    ≡ some ((codes "A", codes "1, 2") ∷ [])
unfolding Headers.items lower
test_items = refl
