-- ===== src/Http/Target/Setters.antt =====
-- The setters of `Request` in mitmproxy/http.py that name its target, together.
use middle_man.Base.{ℕ, ◌≡◌, false, Option, some, arith, inl, inr, Option-cases}
use middle_man.Http.Text.{Bytes}
use middle_man.Net.Check.{Codec}
use middle_man.Http.Target.{Target, Set, set_host, set_host_bytes, set_port}
use middle_man.Http.Target.Url.{Urllib, Url, parse, set_url}
use middle_man.Http.Target.Consistent.{
  IsConsistent, UrlAssigned, update-IsConsistent, set_host_bytes-IsConsistent,
  assign_url-UrlAssigned,
}

-- the setters of `Request` that name its target
pub data Setter : Type 0 where
  to_host to_host_bytes to_url : Bytes → Setter
  to_port : ℕ → Setter

module _ (codec : Codec) (always_bytes : Bytes → Option Bytes) (urllib : Urllib) where
  unfoldable pub assign : Setter → Target → Set
  unfolding set_host set_host_bytes set_port set_url
  assign (to_host val) target = set_host codec always_bytes val target
  assign (to_host_bytes val) target = set_host_bytes codec always_bytes val target
  assign (to_port port) target = set_port codec always_bytes port target
  assign (to_url val) target = set_url codec always_bytes urllib val target

  pub set_url-UrlAssigned :
      (val : Bytes) (target : Target)
      → (set_url codec always_bytes urllib val target).raised ≡ false
      → (parts : Url) × ((parse codec urllib val ≡ some parts)
          × UrlAssigned codec always_bytes parts target
              ((set_url codec always_bytes urllib val target).target))
  unfolding set_url
  set_url-UrlAssigned val target h = elim (Option-cases (parse codec urllib val)) [
    | inl e ↦ absurd (ground (arith, rw (set_url, e) at h))
    | inr (parts, e) ↦ (
      parts,
      (
        e,
        rw (set_url, e)
            (assign_url-UrlAssigned codec always_bytes parts target (rw (set_url, e) at h)),
      ),
    )
  ]

  -- After the setters of host (for a text or bytes), port and url, where they do not raise, the target of
  -- the request is named in one way: a host header, if there is any, is the only one, and it and an
  -- authority, if any, are the encoding of the host with the port that is not the default of the scheme.
  pub assign-IsConsistent :
      (setter : Setter) (target : Target)
      → (assign setter target).raised ≡ false
      → IsConsistent codec always_bytes ((assign setter target).target)
  unfolding assign set_host set_port
  assign-IsConsistent (to_host val) target h =
      update-IsConsistent codec always_bytes (record target { host = val }) h
  assign-IsConsistent (to_host_bytes val) target h =
      set_host_bytes-IsConsistent codec always_bytes val target h
  assign-IsConsistent (to_port port) target h =
      update-IsConsistent codec always_bytes (record target { port = port }) h
  assign-IsConsistent (to_url val) target h = (set_url-UrlAssigned val target h).1.1.1.1.1.1.1
