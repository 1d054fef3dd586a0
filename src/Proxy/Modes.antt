-- ===== src/Proxy/Modes.antt =====
-- mitmproxy/proxy/mode_specs.py
pub mod Split
pub mod Read
mod Tests
use middle_man.Base.{
  ℕ, ◌+◌, Bool, true, false, not, ◌&&◌, ◌||◌, Option, none, some, List, [], ◌∷◌, ◌++◌, map, leb,
  ◌==◌, if◌then◌else◌, ℤ, pos, negsuc,
}
use middle_man.Http.Text.{Bytes, codes, bytes_eq}
use middle_man.Http.Assemble.{lower_char}
use middle_man.Net.Check.{Codec, at_end}
use middle_man.Net.Authority.{span, is_decimal}
use middle_man.Net.ServerSpec

-- the subclasses of `ProxyMode`
pub data ModeClass : Type 0 where
  regular transparent upstream reverse socks5 dns wireguard local tun osproxy : ModeClass

-- `type_name`
unfoldable pub type_name : ModeClass → Bytes
type_name regular = codes "regular"
type_name transparent = codes "transparent"
type_name upstream = codes "upstream"
type_name reverse = codes "reverse"
type_name socks5 = codes "socks5"
type_name dns = codes "dns"
type_name wireguard = codes "wireguard"
type_name local = codes "local"
type_name tun = codes "tun"
type_name osproxy = codes "osproxy"

abbrev pub classes : List ModeClass
classes =
    regular ∷ transparent ∷ upstream ∷ reverse ∷ socks5 ∷ dns ∷ wireguard ∷ local ∷ tun ∷ osproxy
    ∷ []

-- the scheme and the address of the modes that have a target
abbrev pub Target : Type 0
Target = Bytes × (Bytes × ℕ)

pub record ProxyMode : Type 0 where
  pub mode_class : ModeClass
  pub full_spec : Bytes
  pub content : Bytes
  pub custom_listen_host : Option Bytes
  pub custom_listen_port : Option ℕ
  pub target : Option Target

-- what the code takes from elsewhere: the codecs of hosts, `int` of a text, the check of
-- `mitmproxy_rs.local`, and whether the system is Darwin
pub record System : Type 0 where
  pub codec : Codec
  pub int_of_str : Bytes → Option ℤ
  pub describes : Bytes → Bool
  pub is_darwin : Bool

-- `rpartition`, with `none` where there is no separator
unfoldable pub rpartition : ℕ → Bytes → Option (Bytes × Bytes)
rpartition sep [] = none
rpartition sep (c ∷ s) = elim (rpartition sep s) [
  | none ↦ if c == sep then some ([], s) else none
  | some parts ↦ some (c ∷ parts.0, parts.1)
]

abbrev pub behind_first : Bytes → Bytes
behind_first [] = []
behind_first (c ∷ s) = s

-- `partition(":")`
unfoldable pub partition : Bytes → Bytes × Bytes
unfolding span
partition s = let run = span (λ c. not (c == b':')) s in (run.0, behind_first (run.1))

-- `head` and `listen_at`
abbrev pub head_of : Bytes → Option (Bytes × Bytes) → Bytes × Bytes
head_of spec none = (spec, [])
head_of spec (some ([], listen_at)) = (listen_at, [])
head_of spec (some (c ∷ head, listen_at)) = (c ∷ head, listen_at)

abbrev pub find_class : Bytes → List ModeClass → Option ModeClass
find_class name [] = none
find_class name (c ∷ rest) = if bytes_eq name (type_name c) then some c else find_class name rest

-- `issubclass(mode_cls, cls)`, `cls` being `ProxyMode` or one of the modes
unfoldable pub is_subclass : ModeClass → Option ModeClass → Bool
unfolding type_name
is_subclass c none = true
is_subclass c (some cls) = bytes_eq (type_name c) (type_name cls)

abbrev pub when : Bool → Option (Option Target)
when b = if b then some none else none

abbrev pub is_empty : Bytes → Bool
is_empty [] = true
is_empty (c ∷ s) = false

abbrev pub in_range : Option ℤ → Option ℕ
in_range none = none
in_range (some (negsuc n)) = none
in_range (some (pos port)) = if leb port 65535 then some port else none

abbrev pub with_port : Option Bytes → Option ℕ → Option (Option Bytes × Option ℕ)
with_port host none = none
with_port host (some port) = some (host, some port)

module _ (system : System) where
  -- `^utun\d+$`
  unfoldable pub is_utun : Bytes → Bool
  unfolding span
  is_utun (u ∷ t ∷ u' ∷ n ∷ d ∷ s) =
      bytes_eq (u ∷ t ∷ u' ∷ n ∷ []) (codes "utun")
      && (is_decimal (system.codec) d && at_end ((span (is_decimal (system.codec)) s).1))
  is_utun _ = false

  -- `__post_init__`: the target that it sets, with `none` for the ValueError
  unfoldable pub post_init : ModeClass → Bytes → Option (Option Target)
  unfolding is_utun ServerSpec.parse
  post_init regular content = when (is_empty content)
  post_init transparent content = when (is_empty content)
  post_init upstream content = elim (ServerSpec.parse (system.codec) content (codes "http")) [
    | none ↦ none
    | some target ↦
        if bytes_eq (target.0) (codes "http") || bytes_eq (target.0) (codes "https")
        then some (some target)
        else none
  ]
  post_init reverse content = elim (ServerSpec.parse (system.codec) content (codes "https")) [
    | none ↦ none
    | some target ↦ some (some target)
  ]
  post_init socks5 content = when (is_empty content)
  post_init dns content = when (is_empty content)
  post_init wireguard content = some none
  post_init local content = when (system.describes content)
  post_init tun content = when (is_empty content || (not (system.is_darwin) || is_utun content))
  post_init osproxy content = none

  -- the construction of a mode
  unfoldable pub construct : ModeClass → Bytes → Bytes → Option Bytes → Option ℕ → Option ProxyMode
  unfolding post_init
  construct mode_class spec content host port = elim (post_init mode_class content) [
    | none ↦ none
    | some target ↦ some (record {
      mode_class = mode_class;
      full_spec = spec;
      content = content;
      custom_listen_host = host;
      custom_listen_port = port;
      target = target;
    })
  ]

  -- the host and the port of `listen_at`, with `none` for the ValueError
  unfoldable pub listen_of : Bytes → Option (Option Bytes × Option ℕ)
  unfolding rpartition
  listen_of [] = some (none, none)
  listen_of (c ∷ listen_at) = elim (rpartition b':' (c ∷ listen_at)) [
    | none ↦ with_port none (in_range (system.int_of_str (c ∷ listen_at)))
    | some parts ↦ with_port (some (parts.0)) (in_range (system.int_of_str (parts.1)))
  ]

  -- what follows the parsing of the listen address
  unfoldable pub build :
      Option ModeClass → Bytes → Bytes × Bytes → Option (Option Bytes × Option ℕ) → Option ProxyMode
  unfolding is_subclass construct lower_char
  build cls spec parts none = none
  build cls spec parts (some (host, port)) = elim (find_class (map lower_char (parts.0)) classes) [
    | none ↦ none
    | some mode_class ↦
        if is_subclass mode_class cls then construct mode_class spec (parts.1) host port else none
  ]

  -- `parse`, with `none` for the ValueErrors
  unfoldable pub parse : Option ModeClass → Bytes → Option ProxyMode
  unfolding rpartition partition listen_of build
  parse cls spec =
      let split = head_of spec (rpartition b'@' spec) in
      build cls spec (partition (split.0)) (listen_of (split.1))

-- `listen_host`
unfoldable pub listen_host : ProxyMode → Option Bytes → Bytes
listen_host mode default = elim (mode.custom_listen_host) [
  | none ↦ elim default [ none ↦ [] | some host ↦ host ]
  | some host ↦ host
]

-- `default_port`
unfoldable pub default_port : ProxyMode → Option ℕ
default_port mode = elim (mode.mode_class) [
  | regular ↦ some 8080
  | transparent ↦ some 8080
  | upstream ↦ some 8080
  | reverse ↦ elim (mode.target) [
    | none ↦ some 8080
    | some target ↦ if bytes_eq (target.0) (codes "dns") then some 53 else some 8080
  ]
  | socks5 ↦ some 1080
  | dns ↦ some 53
  | wireguard ↦ some 51820
  | local ↦ none
  | tun ↦ none
  | osproxy ↦ none
]

-- `listen_port`
unfoldable pub listen_port : ProxyMode → Option ℕ → Option ℕ
unfolding default_port
listen_port mode default = elim (mode.custom_listen_port) [
  | none ↦ elim default [ none ↦ default_port mode | some port ↦ some port ]
  | some port ↦ some port
]

pub data Transport : Type 0 where
  tcp udp both : Transport

abbrev reverse_protocol : Bytes → Transport
reverse_protocol scheme =
    if bytes_eq scheme (codes "http3")
      || bytes_eq scheme (codes "dtls")
      || bytes_eq scheme (codes "udp")
      || bytes_eq scheme (codes "quic")
    then udp
    else if bytes_eq scheme (codes "dns") || bytes_eq scheme (codes "https")
    then both
    else tcp

-- `transport_protocol`
unfoldable pub transport_protocol : ProxyMode → Transport
transport_protocol mode = elim (mode.mode_class) [
  | regular ↦ tcp
  | transparent ↦ tcp
  | upstream ↦ tcp
  | reverse ↦ elim (mode.target) [ none ↦ tcp | some target ↦ reverse_protocol (target.0) ]
  | socks5 ↦ tcp
  | dns ↦ both
  | wireguard ↦ udp
  | local ↦ both
  | tun ↦ both
  | osproxy ↦ both
]

-- `get_state`, `from_state` and `set_state`, which raises for another state
unfoldable pub get_state : ProxyMode → Bytes
get_state mode = mode.full_spec

unfoldable pub from_state : System → Bytes → Option ProxyMode
unfolding parse
from_state system state = parse system none state

unfoldable pub set_state : Bytes → ProxyMode → Option ProxyMode
set_state state mode = if bytes_eq state (mode.full_spec) then some mode else none
