-- ===== src/Http/Target/Pretty.antt =====
-- The host and the URL that `Request` of mitmproxy/http.py shows after its setters.
use middle_man.Base.{
  ℕ, ◌≡◌, ◌≤◌, refl, ◌∙◌, ap, true, false, Option, none, some, List, [], ◌∷◌, arith, ◌==◌, inl, inr,
  Bool-cases, Option-cases,
}
use middle_man.Multidict
use middle_man.Http.Text.{Bytes, codes, join}
use middle_man.Http.Headers.{Fields, raw_all, in_headers, get_all, get}
use middle_man.Http.Assemble.Response.{is_filled}
use middle_man.Net.Check.{Codec, is_valid_host}
use middle_man.Net.Authority.{parse_authority_unchecked, strip_brackets}
use middle_man.Net.Hostport.{all_of, not_colon, parse_authority-hostport}
use middle_man.Proxy.Messages.{is_multiplexed, hostport, default_port}
use middle_man.Http.Content.Lookups.{get-none}
use middle_man.Http.Target.{Target, target_text, host_header}
use middle_man.Http.Target.Url.{Urllib, Url, parse, unparse, url, is_connect, set_url, pretty_host}
use middle_man.Http.Target.Consistent.{IsConsistent}
use middle_man.Http.Target.Setters.{Setter, assign, assign-IsConsistent, set_url-UrlAssigned}

raw_all-absent :
    (name : Bytes) (headers : Fields) → in_headers name headers ≡ false → raw_all name headers ≡ []
unfolding in_headers raw_all
raw_all-absent name headers h = by_values (raw_all name headers) refl
  where
    by_values : (l : List Bytes) → raw_all name headers ≡ l → l ≡ []
    by_values [] e = refl
    by_values (v ∷ vs) e = absurd (ground (arith, rw (e, Multidict.contains) at h))

filled-hostport :
    (scheme host : Bytes) (port : ℕ)
    → is_filled host ≡ true
    → is_filled (hostport scheme host port) ≡ true
unfolding hostport
filled-hostport scheme [] port h = ground (arith, h)
filled-hostport scheme (c ∷ s) port h = elim (Option-cases (default_port scheme)) [
  | inl e ↦ rw (hostport, e) refl
  | inr (standard, e) ↦ elim (Bool-cases (standard == port)) [
    | inl f ↦ rw (hostport, e, f) refl
    | inr f ↦ rw (hostport, e, f) refl
  ]
]

module _ (codec : Codec) (always_bytes : Bytes → Option Bytes) where
  -- decoding with surrogate escapes is the way back from encoding with them
  abbrev pub Escapes : Type 0
  Escapes = (s b : Bytes) → always_bytes s ≡ some b → codec.surrogateescape b ≡ s

  get-single :
      (name b : Bytes) (headers : Fields)
      → raw_all name headers ≡ b ∷ []
      → get (codec.surrogateescape) name headers ≡ some (codec.surrogateescape b)
  unfolding get get_all join
  get-single name b headers e = rw (get, get_all, e) refl

  pretty_host-some :
      (text : Bytes) (target : Target)
      → is_filled text ≡ true
      → host_header codec always_bytes target ≡ some text
      → pretty_host codec always_bytes target ≡ (parse_authority_unchecked codec text).0
  unfolding pretty_host
  pretty_host-some [] target h e = ground (arith, h)
  pretty_host-some (c ∷ s) target h e = rw (pretty_host, e) refl

  pretty_host-none :
      (target : Target)
      → host_header codec always_bytes target ≡ none
      → pretty_host codec always_bytes target ≡ target.host
  unfolding pretty_host
  pretty_host-none target e = rw (pretty_host, e) refl

  -- a host that `hostport` and `parse_authority` keep
  abbrev pub IsPlain : Target → Type 0
  IsPlain target =
      (is_filled (target.host) ≡ true)
      × ((all_of not_colon (target.host) ≡ true)
          × ((strip_brackets (target.host) ≡ target.host)
              × ((is_valid_host codec (target.host) ≡ true) × (target.port ≤ 65535))))

  shown-host :
      (scheme : Bytes) (target : Target)
      → IsPlain target
      → (parse_authority_unchecked codec (hostport scheme (target.host) (target.port))).0
        ≡ target.host
  unfolding parse_authority_unchecked
  shown-host scheme target (filled, (plain, (bare, (valid, bound)))) =
      rw
        (
          parse_authority_unchecked,
          parse_authority-hostport codec scheme (target.host) (target.port) filled plain bare valid
              bound,
        )
        refl

  pretty_host-IsConsistent :
      (target : Target)
      → Escapes
      → is_multiplexed (target.http_version) ≡ false
      → IsPlain target
      → IsConsistent codec always_bytes target
      → pretty_host codec always_bytes target ≡ target.host
  unfolding host_header
  pretty_host-IsConsistent target escapes single plain consistent =
      elim (Bool-cases (in_headers (codes "Host") (target.headers))) [
        | inl e ↦
            let val = target_text codec always_bytes target in
            let found = consistent.0 e in
            let header : host_header codec always_bytes target ≡ some val =
              rw (host_header, single)
                (get-single (codes "Host") (found.0) (target.headers) (found.1.1)
                  ∙ ap some (escapes val (found.0) (found.1.0))) in
            pretty_host-some val target (filled-hostport _ (target.host) (target.port) plain.0)
              header
            ∙ shown-host _ target plain
        | inr e ↦ pretty_host-none target (
            rw (host_header, single)
              (get-none (codec.surrogateescape) (codes "Host") (target.headers)
                (raw_all-absent (codes "Host") (target.headers) e)))
      ]

module _ (codec : Codec) (always_bytes : Bytes → Option Bytes) (urllib : Urllib) where
  -- `pretty_host`, which prefers the host header over the host, gives the host after any setter of host,
  -- port or url that does not raise, on a request that is not HTTP/2 or HTTP/3, for a valid host without
  -- colons and brackets and a port up to 65535.
  pub pretty_host-assign :
      (setter : Setter) (target : Target)
      → Escapes codec always_bytes
      → (assign codec always_bytes urllib setter target).raised ≡ false
      → is_multiplexed ((assign codec always_bytes urllib setter target).target.http_version)
        ≡ false
      → IsPlain codec always_bytes ((assign codec always_bytes urllib setter target).target)
      → pretty_host codec always_bytes ((assign codec always_bytes urllib setter target).target)
        ≡ (assign codec always_bytes urllib setter target).target.host
  pretty_host-assign setter target escapes h single plain =
      pretty_host-IsConsistent codec always_bytes
        ((assign codec always_bytes urllib setter target).target) escapes single plain
        (assign-IsConsistent codec always_bytes urllib setter target h)

  -- the URL of parts
  abbrev pub shown : Url → Bytes → Bytes
  shown parts host =
      unparse (codec.surrogateescape (parts.scheme)) host (parts.port)
        (codec.surrogateescape (parts.path))

  url-shown :
      (parts : Url) (target : Target)
      → is_connect codec always_bytes target ≡ false
      → target.port ≡ parts.port
      → target.scheme ≡ parts.scheme
      → target.path ≡ parts.path
      → url codec always_bytes target ≡ shown parts (target.host)
  unfolding url
  url-shown parts target plain port scheme path =
      rw (url, plain)
        (ap
            (λ s.
              unparse (codec.surrogateescape s) (target.host) (target.port)
                (codec.surrogateescape (target.path)))
            scheme
          ∙ (ap
                (λ n.
                  unparse (codec.surrogateescape (parts.scheme)) (target.host) n
                    (codec.surrogateescape (target.path)))
                port
              ∙ ap
                  (λ p.
                    unparse (codec.surrogateescape (parts.scheme)) (target.host) (parts.port)
                      (codec.surrogateescape p))
                  path))

  -- the parts that `parse` finds in an assigned URL, and the URL that is shown for them
  pub url-parts :
      (val : Bytes) (target : Target)
      → is_connect codec always_bytes target ≡ false
      → (set_url codec always_bytes urllib val target).raised ≡ false
      → (parts : Url) × ((host : Bytes) × ((parse codec urllib val ≡ some parts)
            × ((codec.idna_decode (parts.host) ≡ some host)
                × (url codec always_bytes ((set_url codec always_bytes urllib val target).target)
                    ≡ shown parts host))))
  url-parts val target plain h =
      let after = set_url codec always_bytes urllib val target in
      let found = set_url-UrlAssigned codec always_bytes urllib val target h in
      let assigned = found.1.1 in
      (
        found.0,
        (
          after.target.host,
          (
            found.1.0,
            (
              assigned.0,
              url-shown found.0 (after.target) (rw assigned.1.1.1.0 plain) assigned.1.0
                  assigned.1.1.0 assigned.1.1.1.1.0,
            ),
          ),
        ),
      )
