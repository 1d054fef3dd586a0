-- ===== src/Http/RequestLine/Tests.antt =====
-- Request lines at concrete inputs.
use middle_man.Base.{◌≡◌, refl, none, some, false}
use middle_man.Http.Text.{codes}
use middle_man.Http.Assemble.{RequestData}
use middle_man.Net.Check.{Codec}
use middle_man.Net.Authority.{digit_value}
use middle_man.Http.Target.Url.{Urllib}
use middle_man.Http.RequestLine.{_read_request_line}

abbrev codec : Codec
codec = record {
  idna_encode = λ text. some text;
  idna_decode = λ text. some text;
  utf8_decode = λ text. some text;
  utf8_encode = λ text. some text;
  surrogateescape = λ text. text;
  is_address = λ text. false;
  wide_digit = λ c. none;
}

-- a library that finds the one URL in every text
abbrev urllib : Urllib
urllib = record {
  urlparse = λ text. some (record {
    hostname = some (codes "a.b");
    encoded = some (record { scheme = codes "http"; port = some none; full_path = codes "/c" });
  });
  quote_query = some;
}

abbrev get_url : RequestData
get_url = record {
  method = codes "GET";
  scheme = codes "http";
  authority = codes "a.b";
  path = codes "/c";
  http_version = codes "HTTP/1.1";
}

no_port : _read_request_line codec urllib (codes "CONNECT a.b HTTP/1.1") ≡ none
unfolding _read_request_line
no_port = refl

zero_port : _read_request_line codec urllib (codes "CONNECT a.b:0 HTTP/1.1") ≡ none
unfolding _read_request_line digit_value
zero_port = refl

four_words : _read_request_line codec urllib (codes "GET / HTTP/1.1 x") ≡ none
unfolding _read_request_line
four_words = refl
