-- ===== src/Http/Assemble/Tests.antt =====
-- Messages of http that are written.
use middle_man.Base.{ℕ, ◌≡◌, refl, true, false, none, some, List, [], ◌∷◌}
use middle_man.Http.Text.{Bytes, codes}
use middle_man.Http.Headers.{Fields}
use middle_man.Http.Assemble.{
  RequestData, ResponseData, hex, is_version, skip_blanks, assemble_request, assemble_body,
  _assemble_response_line, _read_response_line,
}
use middle_man.Http.Assemble.Response.{_read_response_line-_assemble_response_line}

abbrev as_is : Bytes → List ℕ
as_is s = s

abbrev get_request : RequestData
get_request = record {
  method = codes "GET";
  scheme = codes "http";
  authority = [];
  path = codes "/a";
  http_version = codes "HTTP/1.1";
}

abbrev not_found : ResponseData
not_found = record {
  http_version = codes "HTTP/1.0";
  status_code = 404;
  reason = codes "Not Found";
}

abbrev chunked_headers : Fields
chunked_headers = (codes "Transfer-Encoding", codes "Chunked") ∷ []

test_hex : hex 1711 ≡ codes "6af"
unfolding hex
test_hex = refl

test_request :
    assemble_request as_is get_request ((codes "a", codes "b") ∷ []) (some (codes "xy")) none
    ≡ some (codes "GET /a HTTP/1.1\r\na: b\r\n\r\nxy")
unfolding assemble_request
test_request = refl

test_chunked :
    assemble_body as_is chunked_headers (codes "hello" ∷ [] ∷ codes "!" ∷ []) none
    ≡ some (codes "5\r\nhello\r\n1\r\n!\r\n0\r\n\r\n")
unfolding assemble_body
test_chunked = refl

test_trailers : assemble_body as_is [] [] (some chunked_headers) ≡ none
unfolding assemble_body
test_trailers = refl

test_line : _assemble_response_line not_found ≡ codes "HTTP/1.0 404 Not Found"
unfolding _assemble_response_line
test_line = refl

test_signed :
    _read_response_line (codes "HTTP/1.1  -1_0") ≡ some (codes "HTTP/1.1", ((true, 10), []))
unfolding _read_response_line
test_signed = refl

version_ok : is_version (codes "HTTP/1.0") ≡ true
unfolding is_version
version_ok = refl

reason_ok : skip_blanks (codes "Not Found") ≡ codes "Not Found"
unfolding skip_blanks
reason_ok = refl

_read_response_line-_assemble_response_line_example :
    _read_response_line (_assemble_response_line not_found)
    ≡ some (codes "HTTP/1.0", ((false, 404), codes "Not Found"))
_read_response_line-_assemble_response_line_example =
    _read_response_line-_assemble_response_line not_found version_ok reason_ok
