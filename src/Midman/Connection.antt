-- ===== src/Midman/Connection.antt =====
-- `Address` and `Connection` of midman/reporter.py. An alias is appended only by
-- `Reporter.session_handle`, with a connection made there, which never gets aliases of its own; so
-- an alias is kept as its two addresses.
pub mod Equality
use middle_man.Base.{ℕ, String, Bool, ◌&&◌, ◌||◌, Option, none, List, [], ◌==◌, any}
use text.Mathlib.Text.{◌==◌ as str_eq}

pub record Address : Type 0 where
  pub ip : String
  pub port : ℕ

-- `Address.__eq__` on two addresses
unfoldable pub address_eq : Address → Address → Bool
address_eq a b = str_eq a.ip b.ip && a.port == b.port

-- the pair of a connection's addresses, by which it is known
pub record Ends : Type 0 where
  pub peername : Address
  pub sockname : Address

unfoldable pub ends_eq : Ends → Ends → Bool
unfolding address_eq
ends_eq a b = address_eq a.peername b.peername && address_eq a.sockname b.sockname

-- a TLS record as the proxy reports it
pub record CipherRecord : Type 0 where
  pub ts : ℕ
  pub payload : List ℕ

pub record PlainData : Type 0 where
  pub ts : ℕ
  pub bytes : List ℕ

pub record Connection : Type 0 where
  pub ends : Ends
  pub cipher_recv_tss : List ℕ
  pub cipher_send_tss : List ℕ
  pub plain_data : List PlainData
  pub cipher_records : List CipherRecord
  pub cipher_suite : Option String
  pub protocol_version : Option String
  pub alpn : Option String
  pub alias : List Ends

-- `Connection.from_tuple`
unfoldable pub from_tuple : Address → Address → Connection
from_tuple peername sockname = record {
  ends = record { peername = peername; sockname = sockname };
  cipher_recv_tss = [];
  cipher_send_tss = [];
  plain_data = [];
  cipher_records = [];
  cipher_suite = none;
  protocol_version = none;
  alpn = none;
  alias = [];
}

-- `alias == value`, where `alias` has no aliases: its addresses are those of `value` or of one of
-- the aliases of `value`
unfoldable pub alias_eq : Ends → Connection → Bool
unfolding ends_eq
alias_eq a value = ends_eq a value.ends || any (λ b. ends_eq b a) value.alias

-- `Connection.__eq__`
unfoldable pub conn_eq : Connection → Connection → Bool
unfolding ends_eq alias_eq
conn_eq self value =
    ends_eq self.ends value.ends
    || any (λ a. alias_eq a value) self.alias
    || any (λ a. alias_eq a self) value.alias
