-- ===== src/Http/ContentType/Charset.antt =====
-- `infer_content_encoding` of mitmproxy/net/http/headers.py. The two patterns are parameters: what the
-- library finds of a charset in bytes.
use middle_man.Base.{ℕ, Bool, true, ◌||◌, Option, none, some, [], ◌∷◌, ltb, if◌then◌else◌}
use middle_man.Http.Text.{Bytes, codes, bytes_eq}
use middle_man.Http.Assemble.{is_in}
use middle_man.Http.ContentType.{Parameters, parse_content_type}
use middle_man.Http.Encoding.{Content, bytes, str, Outcome, ok, value_error, type_error}

-- `parameters.get(key)`, where None is like an empty text
unfoldable pub parameter : Bytes → Parameters → Bytes
parameter key [] = []
parameter key ((k, v) ∷ parameters) =
    let rest = parameter key parameters in if bytes_eq k key then v else rest

-- `decode("ascii", "ignore")`
unfoldable pub decode_ascii : Bytes → Bytes
decode_ascii [] = []
decode_ascii (c ∷ b) = let rest = decode_ascii b in if ltb c 128 then c ∷ rest else rest

-- the first group of `re.search` and `re.match` for the patterns of HTML and of CSS
pub record Patterns : Type 0 where
  pub meta_charset : Bytes → Option Bytes
  pub css_charset : Bytes → Option Bytes

-- `enc` after one more attempt, which is made only while there is none
abbrev pub attempt : Bool → Outcome Bytes → Outcome Bytes → Outcome Bytes
attempt applies found (ok []) = if applies then found else ok []
attempt applies found (ok (c ∷ enc)) = ok (c ∷ enc)
attempt applies found value_error = value_error
attempt applies found type_error = type_error

-- a pattern on bytes does not take a str
abbrev pub matched : (Bytes → Option Bytes) → Content → Outcome Bytes
matched pattern (bytes b) = elim (pattern b) [ none ↦ ok [] | some group ↦ ok (decode_ascii group) ]
matched pattern (str s) = type_error

-- the charset of the header
abbrev pub charset_of : Option (Bytes × (Bytes × Parameters)) → Bytes
charset_of none = []
charset_of (some parsed) = parameter (codes "charset") (parsed.1.1)

module _ (lower_str : Bytes → Bytes) (is_blank : ℕ → Bool) (patterns : Patterns) where
  -- GB 18030 for its subsets
  abbrev pub widened : Outcome Bytes → Outcome Bytes
  widened (ok enc) =
      if bytes_eq (lower_str enc) (codes "gb2312") || bytes_eq (lower_str enc) (codes "gbk")
      then ok (codes "gb18030")
      else ok enc
  widened value_error = value_error
  widened type_error = type_error

  unfoldable pub infer_content_encoding : Bytes → Content → Outcome Bytes
  unfolding parse_content_type parameter is_in decode_ascii
  infer_content_encoding content_type content =
      let header = ok (charset_of (parse_content_type lower_str is_blank content_type)) in
      let json = attempt (is_in (codes "json") content_type) (ok (codes "utf8")) header in
      let html =
        attempt (is_in (codes "html") content_type) (matched (patterns.meta_charset) content)
          json in
      let css =
        attempt (is_in (codes "text/css") content_type) (matched (patterns.css_charset) content)
          html in
      widened (attempt true (ok (codes "latin-1")) css)
