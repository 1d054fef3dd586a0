-- ===== src/Proxy/Modes/Read.antt =====
-- A mode specification is read as its parts.
use middle_man.Proxy.Modes.Split.{
  not_at, rpartition-none, rpartition-append, digits-not, name-IsPlain,
}
use middle_man.Base.{
  ℕ, ◌≤◌, ◌≡◌, refl, ◌∙◌, ap, true, Option, none, some, [], ◌∷◌, ◌++◌, append-nil, any, arith, pos,
}
use middle_man.Http.Text.{Bytes, codes, bytes_eq}
use middle_man.Http.Assemble.{decimal}
use middle_man.Http.Assemble.Response.{is_filled, filled-append}
use middle_man.Net.Authority.{span}
use middle_man.Net.Hostport.{all_of-append, all_of, not_colon, span-append, span-all}
use middle_man.Net.Authority.{strip_brackets}
use middle_man.Net.Check.{is_valid_host}
use middle_man.Net.ServerSpec.{schemes, separator, in_host, parse-read_as}
use middle_man.Io.Tnetstring.Parse.Netstring.{digits_of}
use middle_man.Proxy.Modes.{
  ModeClass, reverse, type_name, System, rpartition, partition, behind_first, head_of, is_subclass,
  construct, post_init, in_range, with_port, listen_of, build, parse,
}

-- a specification: `mode[:configuration][@[host:]port]`
abbrev pub Listen : Type 0
Listen = Option (Option Bytes × ℕ)

abbrev pub content_text : Bytes → Bytes
content_text [] = []
content_text (c ∷ s) = b':' ∷ c ∷ s

unfoldable pub head_text : ModeClass → Bytes → Bytes
unfolding type_name
head_text c content = type_name c ++ content_text content

unfoldable pub address_text : Option Bytes → ℕ → Bytes
unfolding decimal
address_text none port = decimal port
address_text (some host) port = host ++ b':' ∷ decimal port

unfoldable pub spec_text : ModeClass → Bytes → Listen → Bytes
unfolding head_text address_text
spec_text c content none = head_text c content
spec_text c content (some (host, port)) = head_text c content ++ b'@' ∷ address_text host port

-- what the parts must be: an at sign may stand in front of another one only
abbrev pub AtLast : Option Bytes → Type 0
AtLast none = Unit
AtLast (some host) = all_of not_at host ≡ true

abbrev pub IsReadable : Bytes → Listen → Type 0
IsReadable content none = all_of not_at content ≡ true
IsReadable content (some (host, port)) = AtLast host × (port ≤ 65535)

abbrev pub host_of : Listen → Option Bytes
host_of none = none
host_of (some (host, port)) = host

abbrev pub port_of : Listen → Option ℕ
port_of none = none
port_of (some (host, port)) = some port

partition-head_text :
    (c : ModeClass) (content : Bytes) → partition (head_text c content) ≡ (type_name c, content)
unfolding partition head_text
partition-head_text c [] =
    ap (λ s. partition_run (span not_colon s)) (append-nil (type_name c))
    ∙ ap partition_run (span-all not_colon (type_name c) (name-IsPlain c).0.1)
  where
    partition_run : Bytes × Bytes → Bytes × Bytes
    partition_run run = (run.0, behind_first run.1)
partition-head_text c (d ∷ s) =
    ap (λ run. (run.0, behind_first run.1))
      (span-append not_colon (type_name c) b':' (d ∷ s) (name-IsPlain c).0.1 refl)

head_of-filled :
    (spec head listen_at : Bytes)
    → is_filled head ≡ true
    → head_of spec (some (head, listen_at)) ≡ (head, listen_at)
head_of-filled spec [] listen_at h = ground (arith, h)
head_of-filled spec (c ∷ head) listen_at h = refl

head_text-filled : (c : ModeClass) (content : Bytes) → is_filled (head_text c content) ≡ true
unfolding head_text
head_text-filled c content = filled-append (type_name c) (content_text content) (name-IsPlain c).0.0

head_text-not_at :
    (c : ModeClass) (content : Bytes)
    → all_of not_at content ≡ true
    → all_of not_at (head_text c content) ≡ true
unfolding head_text
head_text-not_at c [] h = all_of-append not_at (type_name c) [] (name-IsPlain c).1.0 refl
head_text-not_at c (d ∷ s) h =
    all_of-append not_at (type_name c) (b':' ∷ d ∷ s) (name-IsPlain c).1.0 h

address-not_at :
    (host : Option Bytes) (port : ℕ) → AtLast host → all_of not_at (address_text host port) ≡ true
unfolding address_text
address-not_at none port h = digits-not b'@' (decimal port) refl (digits_of port).0
address-not_at (some host) port h =
    all_of-append not_at host (b':' ∷ decimal port) h
      (digits-not b'@' (decimal port) refl (digits_of port).0)

module _ (system : System) (ints : (n : ℕ) → system.int_of_str (decimal n) ≡ some (pos n)) where
  listen_of-plain :
      (s : Bytes)
      → is_filled s ≡ true
      → rpartition b':' s ≡ none
      → listen_of system s ≡ with_port none (in_range (system.int_of_str s))
  unfolding listen_of
  listen_of-plain [] h e = ground (arith, h)
  listen_of-plain (c ∷ s) h e = rw (listen_of, e) refl

  listen_of-host :
      (s host port : Bytes)
      → rpartition b':' s ≡ some (host, port)
      → listen_of system s ≡ with_port (some host) (in_range (system.int_of_str port))
  unfolding listen_of rpartition
  listen_of-host [] host port e = ground (arith, e)
  listen_of-host (c ∷ s) host port e = rw (listen_of, e) refl

  in_range-port :
      (port : ℕ) → port ≤ 65535 → in_range (system.int_of_str (decimal port)) ≡ some port
  in_range-port port h = rw (ints port) (ground (arith, h))

  listen_of-address :
      (host : Option Bytes) (port : ℕ)
      → port ≤ 65535
      → listen_of system (address_text host port) ≡ some (host, some port)
  unfolding address_text
  listen_of-address none port h =
      let digits = digits_of port in
      listen_of-plain (decimal port) digits.1
        (rpartition-none b':' (decimal port) (digits-not b':' (decimal port) refl digits.0))
      ∙ ap (with_port none) (in_range-port port h)
  listen_of-address (some host) port h =
      listen_of-host (host ++ b':' ∷ decimal port) host (decimal port) (
        rpartition-append b':' host (decimal port)
          (digits-not b':' (decimal port) refl (digits_of port).0))
      ∙ ap (with_port (some host)) (in_range-port port h)

  split_spec :
      (c : ModeClass) (content : Bytes) (listen : Listen)
      → IsReadable content listen
      → (s : Bytes) × ((head_of
              (spec_text c content listen)
              (rpartition b'@' (spec_text c content listen))
            ≡ (head_text c content, s))
          × (listen_of system s ≡ some (host_of listen, port_of listen)))
  unfolding spec_text listen_of
  split_spec c content none h = (
    [],
    (
      ap (head_of (head_text c content))
          (rpartition-none b'@' (head_text c content) (head_text-not_at c content h)),
      refl,
    ),
  )
  split_spec c content (some (host, port)) h =
      let spec = head_text c content ++ b'@' ∷ address_text host port in
      (
        address_text host port,
        (
          ap (head_of spec) (
                rpartition-append b'@' (head_text c content) (address_text host port)
                  (address-not_at host port h.0))
              ∙ head_of-filled spec (head_text c content) (address_text host port)
                  (head_text-filled c content),
          listen_of-address host port h.1,
        ),
      )

  pub parse-spec_text :
      (c : ModeClass) (content : Bytes) (listen : Listen)
      → IsReadable content listen
      → parse system none (spec_text c content listen)
        ≡ construct system c (spec_text c content listen) content (host_of listen) (port_of listen)
  unfolding parse build is_subclass
  parse-spec_text c content listen h =
      let spec = spec_text c content listen in
      let split = split_spec c content listen h in
      ap {A = Bytes × Bytes}
        (λ parts. build system none spec (partition parts.0) (listen_of system parts.1)) split.1.0
      ∙ ap (λ parts. build system none spec parts (listen_of system split.0))
          (partition-head_text c content)
      ∙ ap (build system none spec (type_name c, content)) split.1.1
      ∙ rw (build, (name-IsPlain c).1.1) refl

  -- A specification of a reverse proxy with a known scheme, a valid host and a port is read with that
  -- target and the listen address that follows.
  pub parse-reverse :
      (scheme host : Bytes) (port : ℕ) (listen : Listen)
      → IsReadable (scheme ++ (separator ++ (host ++ b':' ∷ decimal port))) listen
      → any (bytes_eq scheme) schemes ≡ true
      → is_filled host ≡ true
      → all_of in_host host ≡ true
      → strip_brackets host ≡ host
      → is_valid_host (system.codec) host ≡ true
      → port ≤ 65535
      → parse system none
          (spec_text reverse (scheme ++ (separator ++ (host ++ b':' ∷ decimal port))) listen)
        ≡ some (record {
          mode_class = reverse;
          full_spec =
              spec_text reverse (scheme ++ (separator ++ (host ++ b':' ∷ decimal port))) listen;
          content = scheme ++ (separator ++ (host ++ b':' ∷ decimal port));
          custom_listen_host = host_of listen;
          custom_listen_port = port_of listen;
          target = some (scheme, (host, port));
        })
  unfolding construct post_init
  parse-reverse scheme host port listen h known filled plain bare valid bound =
      let content = scheme ++ (separator ++ (host ++ b':' ∷ decimal port)) in
      let server =
        (parse-read_as (system.codec) scheme host (codes "https") port known filled plain bare valid
          bound).0 in
      parse-spec_text reverse content listen h ∙ rw (construct, post_init, server) refl
