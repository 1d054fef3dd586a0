-- ===== src/Http/Target.antt =====
-- The target of a request in mitmproxy/http.py: the properties host, port, authority and host_header of
-- `Request`, their setters for texts, and what the setters keep in step. `always_bytes` stands for
-- encoding as UTF-8 with surrogate escapes, with `none` for its UnicodeEncodeError.
pub mod Url
pub mod Consistent
pub mod Setters
pub mod Pretty
pub mod ReadBack
mod Tests
use middle_man.Base.{
  ℕ, Bool, true, false, not, ◌||◌, Option, none, some, List, [], ◌∷◌, if◌then◌else◌,
}
use middle_man.Http.Text.{Bytes, codes}
use middle_man.Http.Headers.{Fields, in_headers, get, set_all}
use middle_man.Http.Content.{pop}
use middle_man.Net.Check.{Codec}
use middle_man.Proxy.Messages.{is_multiplexed, hostport}

-- the parts of `RequestData` that name the target; host is a text, the others are bytes
pub record Target : Type 0 where
  pub host : Bytes
  pub port : ℕ
  pub method : Bytes
  pub scheme : Bytes
  pub authority : Bytes
  pub path : Bytes
  pub http_version : Bytes
  pub headers : Fields

-- a setter may raise a ValueError on its way; what it has set by then stays
pub record Set : Type 0 where
  pub raised : Bool
  pub target : Target

abbrev pub set : Target → Set
set target = record { raised = false; target = target }

abbrev pub fail : Target → Set
fail target = record { raised = true; target = target }

abbrev pub and_then : Set → (Target → Set) → Set
and_then r f = if r.raised then r else f (r.target)

module _ (codec : Codec) (always_bytes : Bytes → Option Bytes) where
  -- the getters of `scheme` and of `authority`
  abbrev pub scheme_text : Target → Bytes
  scheme_text target = codec.surrogateescape (target.scheme)

  unfoldable pub authority_text : Target → Bytes
  authority_text target = elim (codec.idna_decode (target.authority)) [
    | none ↦ codec.surrogateescape (target.authority)
    | some authority ↦ authority
  ]

  -- how the setter of `authority` encodes a text
  unfoldable pub to_authority : Bytes → Option Bytes
  to_authority val = elim (codec.idna_encode val) [ none ↦ always_bytes val | some b ↦ some b ]

  unfoldable pub set_authority : Bytes → Target → Set
  unfolding to_authority
  set_authority val target = elim (to_authority val) [
    | none ↦ fail target
    | some authority ↦ set (record target { authority = authority })
  ]

  -- `headers["Host"] = val`
  unfoldable pub set_host_field : Bytes → Target → Set
  unfolding set_all
  set_host_field val target = elim (always_bytes val) [
    | none ↦ fail target
    | some b ↦ set (record target { headers = set_all (codes "Host") (b ∷ []) (target.headers) })
  ]

  -- what `hostport` makes of the target
  abbrev pub target_text : Target → Bytes
  target_text target = hostport (scheme_text target) (target.host) (target.port)

  abbrev pub update_host : Bytes → Target → Set
  update_host val target =
      if in_headers (codes "Host") (target.headers) then set_host_field val target else set target

  abbrev pub update_authority : Bytes → Bytes → Target → Set
  update_authority [] val target = set target
  update_authority (c ∷ s) val target = set_authority val target

  -- `_update_host_and_authority`
  unfoldable pub _update_host_and_authority : Target → Set
  unfolding hostport in_headers set_host_field set_authority
  _update_host_and_authority target =
      let val = target_text target in
      and_then (update_host val target) (λ t. update_authority (t.authority) val t)

  unfoldable pub set_host : Bytes → Target → Set
  unfolding _update_host_and_authority
  set_host val target = _update_host_and_authority (record target { host = val })

  -- the setter of `host` for bytes
  unfoldable pub set_host_bytes : Bytes → Target → Set
  unfolding set_host
  set_host_bytes val target = elim (codec.idna_decode val) [
    | none ↦ fail target
    | some host ↦ set_host host target
  ]

  unfoldable pub set_port : ℕ → Target → Set
  unfolding _update_host_and_authority
  set_port port target = _update_host_and_authority (record target { port = port })

  -- the getter of `host_header`
  abbrev pub or_header : Bytes → Option Bytes → Option Bytes
  or_header [] header = header
  or_header (c ∷ s) header = some (c ∷ s)

  unfoldable pub host_header : Target → Option Bytes
  unfolding authority_text get
  host_header target =
      let header = get (codec.surrogateescape) (codes "Host") (target.headers) in
      if is_multiplexed (target.http_version)
      then or_header (authority_text target) header
      else header

  -- the setter of `host_header` for None and for a text
  unfoldable pub set_host_header : Option Bytes → Target → Set
  unfolding pop set_authority set_host_field in_headers
  set_host_header none target = set (record target {
    authority = if is_multiplexed (target.http_version) then [] else target.authority;
    headers = pop (codes "Host") (target.headers);
  })
  set_host_header (some val) target =
      and_then
        (if is_multiplexed (target.http_version) then set_authority val target else set target)
        (λ t.
          if not (is_multiplexed (t.http_version)) || in_headers (codes "Host") (t.headers)
          then set_host_field val t
          else set t)
