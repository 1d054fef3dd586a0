-- ===== src/Proxy/Modes/Tests.antt =====
-- The theorems on mode specifications at concrete inputs.
use middle_man.Base.{ℕ, Bool, true, false, ◌≡◌, refl, Option, none, some, ℤ, signed}
use middle_man.Http.Text.{codes}
use middle_man.Http.Assemble.{int_of}
use middle_man.Net.Authority.{digit_value}
use middle_man.Proxy.Modes.{regular, System, parse, is_utun}

abbrev of_parts : Option (Bool × ℕ) → Option ℤ
of_parts none = none
of_parts (some (negative, n)) = some (signed negative n)

abbrev system : System
system = record {
  codec = record {
    idna_encode = λ text. some text;
    idna_decode = λ text. some text;
    utf8_decode = λ text. some text;
    utf8_encode = λ text. some text;
    surrogateescape = λ text. text;
    is_address = λ text. false;
    wide_digit = λ c. none;
  };
  int_of_str = λ text. of_parts (int_of text);
  describes = λ text. true;
  is_darwin = true;
}

wrong_class : parse system (some regular) (codes "socks5") ≡ none
unfolding parse
wrong_class = refl

bad_port : parse system none (codes "Regular@65536") ≡ none
unfolding parse int_of
bad_port = refl

no_arguments : parse system none (codes "regular:a") ≡ none
unfolding parse
no_arguments = refl

tun_name : is_utun system (codes "utun12") ≡ true
unfolding is_utun digit_value
tun_name = refl
