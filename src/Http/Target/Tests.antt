-- ===== src/Http/Target/Tests.antt =====
-- Targets of requests, with a codec that takes every text as it is and two URLs.
use middle_man.Base.{◌≡◌, refl, false, none, some, [], ◌∷◌, arith, if◌then◌else◌}
use middle_man.Multidict
use middle_man.Http.Text.{Bytes, codes, bytes_eq, upper}
use middle_man.Net.Check.{Codec, is_valid_host}
use middle_man.Proxy.Messages.{default_port}
use middle_man.Http.Target.{Target}
use middle_man.Http.Target.Url.{Urllib, set_url, url, pretty_host}
use middle_man.Http.Target.Consistent.{IsConsistent}
use middle_man.Http.Target.Setters.{to_host, to_url, assign, assign-IsConsistent}
use middle_man.Http.Target.Pretty.{pretty_host-assign}

abbrev codec : Codec
codec = record {
  idna_encode = λ text. some text;
  idna_decode = λ text. some text;
  utf8_decode = λ text. some text;
  utf8_encode = λ text. some text;
  surrogateescape = λ text. text;
  is_address = λ text. false;
  wide_digit = λ c. none;
}

abbrev address : Bytes
address = codes "https://c.d:8443/x"

abbrev urllib : Urllib
urllib = record {
  urlparse = λ text.
      if bytes_eq text address
      then some (record {
        hostname = some (codes "c.d");
        encoded =
            some
              (record { scheme = codes "https"; port = some (some 8443); full_path = codes "/x" });
      })
      else none;
  quote_query = some;
}

abbrev target : Target
target = record {
  host = codes "a.b";
  port = 80;
  method = codes "GET";
  scheme = codes "http";
  authority = [];
  path = codes "/";
  http_version = codes "HTTP/1.1";
  headers = (codes "Accept", codes "*/*") ∷ (codes "host", codes "a.b") ∷ [];
}

test_host :
    (assign codec some urllib (to_host (codes "e.f")) target).target.headers
    ≡ (codes "Accept", codes "*/*") ∷ (codes "host", codes "e.f") ∷ []
unfolding assign default_port Multidict.get_all
test_host = refl

assign-IsConsistent_example :
    IsConsistent codec some ((assign codec some urllib (to_url address) target).target)
unfolding assign default_port Multidict.get_all
assign-IsConsistent_example = assign-IsConsistent codec some urllib (to_url address) target refl

pretty_host-assign_example :
    pretty_host codec some ((assign codec some urllib (to_host (codes "e.f")) target).target)
    ≡ codes "e.f"
unfolding assign default_port is_valid_host Multidict.get_all
pretty_host-assign_example =
    pretty_host-assign codec some urllib (to_host (codes "e.f")) target (λ s b e. ground (arith, e))
      refl refl (refl, (refl, (refl, (refl, omega arith))))

test_url : url codec some ((set_url codec some urllib address target).target) ≡ address
unfolding set_url url default_port is_valid_host upper Multidict.get_all
test_url = refl
