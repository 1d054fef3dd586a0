-- ===== src/Net/Tests.antt =====
-- The theorems on authorities and server specifications at concrete inputs, with a codec that takes
-- every text as it is.
use middle_man.Base.{true, false, ◌≡◌, refl, none, some, [], ◌∷◌, ◌++◌, arith}
use middle_man.Http.Text.{codes}
use middle_man.Proxy.Messages.{hostport, default_port}
use middle_man.Net.Check.{Codec, is_valid_host, is_valid_name, without_dot}
use middle_man.Net.Authority.{parse_authority, _authority_re, checked}
use middle_man.Net.Hostport.{parse_authority-hostport}
use middle_man.Net.Hostport.Brackets.{hostport-is_refused}
use middle_man.Net.ServerSpec.{parse, server_spec_re, is_word}

abbrev codec : Codec
codec = record {
  idna_encode = λ text. some text;
  idna_decode = λ text. some text;
  utf8_decode = λ text. some text;
  utf8_encode = λ text. some text;
  surrogateescape = λ text. text;
  is_address = λ text. true;
  wide_digit = λ c. none;
}

abbrev strict : Codec
strict = record codec { is_address = λ text. false }

parse_authority-hostport_example :
    parse_authority codec (hostport (codes "http") (codes "a.b") 8080)
    ≡ some (codes "a.b", some 8080)
unfolding is_valid_host default_port
parse_authority-hostport_example =
    parse_authority-hostport codec (codes "http") (codes "a.b") 8080 refl refl refl refl
      (omega arith)

hostport-is_refused_example :
    parse_authority codec (hostport (codes "http") ([] ++ b':' ∷ ([] ++ b':' ∷ codes "1")) 8080)
    ≡ none
hostport-is_refused_example =
    hostport-is_refused codec (codes "http") [] [] (codes "1") 8080 refl refl

strict_host : is_valid_host strict (codes "a-1.b_c.") ≡ true
unfolding is_valid_host is_valid_name without_dot
strict_host = refl

empty_label : is_valid_host strict (codes "a..b") ≡ false
unfolding is_valid_host is_valid_name without_dot
empty_label = refl

brackets_and_port : parse_authority codec (codes "[a]:b]:12") ≡ some (codes "a]:b", some 12)
unfolding parse_authority _authority_re checked
brackets_and_port = refl

slash_behind : parse codec (codes "a.b:1/\n") (codes "tcp") ≡ some (codes "tcp", (codes "a.b", 1))
unfolding parse server_spec_re is_word
slash_behind = refl

no_port : parse codec (codes "tcp://a.b") (codes "http") ≡ none
unfolding parse server_spec_re is_word
no_port = refl
