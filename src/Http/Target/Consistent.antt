-- ===== src/Http/Target/Consistent.antt =====
-- The host header and the authority after the setters of `Request` in mitmproxy/http.py.
use middle_man.Base.{
  ◌≡◌, refl, ◌∙◌, ap, sym, true, false, Option, some, [], ◌∷◌, arith, inl, inr, Bool-cases,
  Option-cases,
}
use middle_man.Multidict.Laws.{set_all_lem}
use middle_man.Http.Text.{Bytes, codes, bytes_eq, bytes_eq_iff, lower}
use middle_man.Http.Headers.{Fields, raw_all, in_headers, set_all}
use middle_man.Http.Assemble.Response.{is_filled}
use middle_man.Net.Check.{Codec}
use middle_man.Http.Target.{
  Target, Set, set, and_then, to_authority, set_authority, set_host_field, target_text, update_host,
  update_authority, _update_host_and_authority, set_host, set_host_bytes, set_port,
}
use middle_man.Http.Target.Url.{Url, assign_url}

-- when two steps end without an exception, the first does, and the second from its target on
and_then-first : (r : Set) (f : Target → Set) → (and_then r f).raised ≡ false → r.raised ≡ false
and_then-first r f h = ground (arith, h)

and_then-second :
    (r : Set) (f : Target → Set) → (and_then r f).raised ≡ false → and_then r f ≡ f (r.target)
and_then-second r f h = rw (and_then-first r f h) refl

module _ (codec : Codec) (always_bytes : Bytes → Option Bytes) where
  -- a host header, if any, is alone and has the text
  abbrev pub HostIs : Bytes → Fields → Type 0
  HostIs val headers =
      in_headers (codes "Host") headers ≡ true
      → (b : Bytes) × ((always_bytes val ≡ some b) × (raw_all (codes "Host") headers ≡ b ∷ []))

  -- an authority, if any, is the text, encoded
  abbrev pub AuthorityIs : Bytes → Bytes → Type 0
  AuthorityIs val authority =
      is_filled authority ≡ true → to_authority codec always_bytes val ≡ some authority

  -- both are those of the scheme, the host and the port
  abbrev pub IsConsistent : Target → Type 0
  IsConsistent target =
      HostIs (target_text codec always_bytes target) (target.headers)
      × AuthorityIs (target_text codec always_bytes target) (target.authority)

  update_host-HostIs :
      (val : Bytes) (target : Target)
      → (update_host codec always_bytes val target).raised ≡ false
      → (headers : Fields) × ((update_host codec always_bytes val target
            ≡ set (record target { headers = headers }))
          × HostIs val headers)
  unfolding set_host_field raw_all set_all
  update_host-HostIs val target h = elim (Bool-cases (in_headers (codes "Host") (target.headers))) [
    | inl e ↦ elim (Option-cases (always_bytes val)) [
      | inl f ↦ absurd (ground (arith, rw (e, set_host_field, f) at h))
      | inr (b, f) ↦ (
        set_all (codes "Host") (b ∷ []) (target.headers),
        (
          rw (e, set_host_field, f) refl,
          λ hosted. (
            b,
            (
              f,
              (set_all_lem bytes_eq lower bytes_eq_iff (codes "Host") (b ∷ []) (target.headers)).0,
            ),
          ),
        ),
      )
    ]
    | inr e ↦ (target.headers, (rw e refl, λ hosted. absurd (ground (arith, e, hosted))))
  ]

  update_authority-AuthorityIs :
      (authority val : Bytes) (target : Target)
      → target.authority ≡ authority
      → (update_authority codec always_bytes authority val target).raised ≡ false
      → (authority' : Bytes) × ((update_authority codec always_bytes authority val target
            ≡ set (record target { authority = authority' }))
          × AuthorityIs val authority')
  unfolding set_authority
  update_authority-AuthorityIs [] val target e h =
      (target.authority, (refl, λ filled. absurd (ground (arith, filled, rw e at filled))))
  update_authority-AuthorityIs (c ∷ s) val target e h =
      elim (Option-cases (to_authority codec always_bytes val)) [
        | inl f ↦ absurd (ground (arith, rw (set_authority, f) at h))
        | inr (b, f) ↦ (b, (rw (set_authority, f) refl, λ filled. f))
      ]

  -- what a setter leaves after an assignment, when it does not raise
  updated :
      (target : Target)
      → (_update_host_and_authority codec always_bytes target).raised ≡ false
      → (headers : Fields) × ((authority : Bytes) × ((_update_host_and_authority codec always_bytes
                target
              ≡ set (record target { headers = headers; authority = authority }))
            × (HostIs (target_text codec always_bytes target) headers
                × AuthorityIs (target_text codec always_bytes target) authority)))
  unfolding _update_host_and_authority
  updated target h =
      let val = target_text codec always_bytes target in
      let first = update_host codec always_bytes val target in
      let rest : Target → Set = λ t. update_authority codec always_bytes (t.authority) val t in
      let hosted = update_host-HostIs val target (and_then-first first rest h) in
      let between : Target = record target { headers = hosted.0 } in
      let e : _update_host_and_authority codec always_bytes target ≡ rest between =
        and_then-second first rest h ∙ ap (λ r. rest (r.target)) hosted.1.0 in
      let named =
        update_authority-AuthorityIs (target.authority) val between refl
          (sym (ap (λ r. r.raised) e) ∙ h) in
      (hosted.0, (named.0, (e ∙ named.1.0, (hosted.1.1, named.1.1))))

  pub update-IsConsistent :
      (target : Target)
      → (_update_host_and_authority codec always_bytes target).raised ≡ false
      → IsConsistent ((_update_host_and_authority codec always_bytes target).target)
  update-IsConsistent target h = let after = updated target h in rw after.1.1.0 after.1.1.1

  pub set_host_bytes-IsConsistent :
      (val : Bytes) (target : Target)
      → (set_host_bytes codec always_bytes val target).raised ≡ false
      → IsConsistent ((set_host_bytes codec always_bytes val target).target)
  unfolding set_host_bytes set_host
  set_host_bytes-IsConsistent val target h = elim (Option-cases (codec.idna_decode val)) [
    | inl e ↦ absurd (ground (arith, rw (set_host_bytes, e) at h))
    | inr (host, e) ↦
        rw (set_host_bytes, e)
          (update-IsConsistent (record target { host = host }) (rw (set_host_bytes, e) at h))
  ]

  -- what the setters do not touch
  abbrev pub SameRest : Target → Target → Type 0
  SameRest before after =
      (after.host ≡ before.host)
      × ((after.port ≡ before.port)
          × ((after.scheme ≡ before.scheme) × (after.method ≡ before.method)))

  pub update-SameRest :
      (target : Target)
      → (_update_host_and_authority codec always_bytes target).raised ≡ false
      → SameRest target ((_update_host_and_authority codec always_bytes target).target)
  update-SameRest target h = rw (updated target h).1.1.0 (refl, (refl, (refl, refl)))

  abbrev pub UrlAssigned : Url → Target → Target → Type 0
  UrlAssigned parts before after =
      (codec.idna_decode (parts.host) ≡ some (after.host))
      × ((after.port ≡ parts.port)
          × ((after.scheme ≡ parts.scheme)
              × ((after.method ≡ before.method)
                  × ((after.path ≡ parts.path) × IsConsistent after))))

  pub assign_url-UrlAssigned :
      (parts : Url) (target : Target)
      → (assign_url codec always_bytes parts target).raised ≡ false
      → UrlAssigned parts target ((assign_url codec always_bytes parts target).target)
  unfolding set_host_bytes set_host set_port
  assign_url-UrlAssigned parts target h = elim (Option-cases (codec.idna_decode (parts.host))) [
    | inl e ↦ absurd (ground (arith, rw (set_host_bytes, e) at h))
    | inr (host, e) ↦
        let named : Target = record target { scheme = parts.scheme; host = host } in
        let first = _update_host_and_authority codec always_bytes named in
        let last : Target → Set = λ u. set (record u { path = parts.path }) in
        let second : Target → Set = λ t.
          and_then (_update_host_and_authority codec always_bytes (record t { port = parts.port }))
            last in
        let start : assign_url codec always_bytes parts target ≡ and_then first second =
          rw (set_host_bytes, e) refl in
        let h1 = sym (ap (λ r. r.raised) start) ∙ h in
        let named_rest = update-SameRest named (and_then-first first second h1) in
        let ported : Target = record first.target { port = parts.port } in
        let third = _update_host_and_authority codec always_bytes ported in
        let middle : and_then first second ≡ and_then third last =
          and_then-second first second h1 in
        let h2 = sym (ap (λ r. r.raised) middle) ∙ h1 in
        let calm = and_then-first third last h2 in
        let ported_rest = update-SameRest ported calm in
        rw (start ∙ (middle ∙ and_then-second third last h2)) (
          e ∙ ap some (sym (ported_rest.0 ∙ named_rest.0)),
          (
            ported_rest.1.0,
            (
              ported_rest.1.1.0 ∙ named_rest.1.1.0,
              (ported_rest.1.1.1 ∙ named_rest.1.1.1, (refl, update-IsConsistent ported calm)),
            ),
          ),
        )
  ]
