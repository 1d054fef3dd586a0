-- ===== src/Midman/Reporter.antt =====
-- The handlers of `Reporter` of midman/reporter.py. A message of the pipe has the fields that
-- mitmproxy/proxy/server.py, mitmproxy/addons/record.py and mitmproxy/proxy/layers/tls.py write.
pub mod Validity
use middle_man.Base.{
  ℕ, ◌+◌, String, Bool, true, false, Option, none, some, List, [], ◌∷◌, ◌++◌, if◌then◌else◌,
}
use middle_man.Midman.Fault.{Outcome, done, raised, value_error, attribute_error, decode_error}
use middle_man.Midman.Connection.{Address, CipherRecord, Connection, from_tuple, conn_eq}
use middle_man.Midman.Session.{Session, check_packet, set_conn_cipher}
use middle_man.Midman.Store.{
  Answers, Store, write, find_session, remove, report_all, report_cert, report_session_end,
}

pub data Direction : Type 0 where
  recv send : Direction

pub data Message : Type 0 where
  -- "session", by its status
  start : Address → Address → ℕ → Message
  connected : Address → Address → Address → Address → String → Message
  ended : Address → Address → Option ℕ → Message
  bad_status : Message
  ciphertext : Address → Address → Direction → CipherRecord → Message
  plaintext : Address → Address → Direction → CipherRecord → Message
  request : Address → Address → Option String → Option String → Option String → Message
  response : Address → Address → Option String → Option String → Option String → Message
  cert : String → Message
  debug : Message
  -- a name with no handler
  unknown : Message

-- `Session(self.report_packet)` with its first two assignments
new_session : Connection → ℕ → Session
new_session internal ts_start = record {
  internal = internal;
  external = none;
  external_sni = none;
  ts_start = ts_start;
  ts_end = none;
  sessionid = none;
}

-- `session_handle`, status "start"
unfoldable pub session_start : Address → Address → ℕ → Store → Outcome × Store
unfolding new_session
session_start peer sock ts st = (
  done,
  record st {
    objs = (write st st.next (new_session (from_tuple peer sock) ts)).objs;
    next = st.next + 1;
    sessions = st.sessions ++ st.next ∷ [];
  },
)

-- the other side of a session is set once; what follows becomes an alias of it
unfoldable pub connect : Session → Connection → String → Session
connect s external sni = elim s.external [
  | none ↦ record s { external = some external; external_sni = some sni }
  | some ex ↦ record s { external = some (record ex { alias = ex.alias ++ external.ends ∷ [] }) }
]

-- `session_handle`, status "connected"
unfoldable pub session_connected : Connection → Connection → String → Store → Outcome × Store
unfolding connect
session_connected internal external sni st = elim (find_session st internal) [
  | none ↦ (raised attribute_error, st)
  | some r ↦ (done, write st r (connect (st.objs r) external sni))
]

-- `session_handle`, status "end"
unfoldable pub session_ended : Answers → Connection → Option ℕ → Store → Outcome × Store
session_ended answers internal ts_end st = elim (find_session st internal) [
  | none ↦ (raised attribute_error, st)
  | some r ↦
      let st' = write st r (record (st.objs r) { ts_end = ts_end }) in
      let reported : Store = elim (st.objs r).sessionid [
        | none ↦ st'
        | some id ↦ report_session_end answers id ts_end st'
      ] in
      (done, record reported { sessions = remove reported.objs r reported.sessions })
]

-- The session and its side that a message is about: `find_session`, then
-- `session.internal if session.internal == conn else session.external`.
pub data Side : Type 0 where
  internal external : Side

unfoldable pub side_of : Session → Connection → Side
side_of s conn = if conn_eq s.internal conn then internal else external

unfoldable pub get_side : Session → Side → Option Connection
get_side s internal = some s.internal
get_side s external = s.external

unfoldable pub put_side : Session → Side → Connection → Session
put_side s internal c = record s { internal = c }
put_side s external c = record s { external = some c }

-- `Connection.ciphertext_handle`; `b64decode` and `app_data` stand for base64.b64decode and for
-- `TLS(binary).haslayer(TLSApplicationData)` of scapy, with `none` for an exception
module _ (b64decode : List ℕ → Option (List ℕ)) (app_data : List ℕ → Option Bool) where
  unfoldable pub add_time : Direction → ℕ → Connection → Connection
  add_time recv ts c = record c { cipher_recv_tss = c.cipher_recv_tss ++ ts ∷ [] }
  add_time send ts c = record c { cipher_send_tss = c.cipher_send_tss ++ ts ∷ [] }

  unfoldable pub add_record : CipherRecord → Connection → Connection
  add_record rec c = record c { cipher_records = c.cipher_records ++ rec ∷ [] }

  unfoldable pub conn_ciphertext : Direction → CipherRecord → Connection → Option Connection
  unfolding add_time add_record
  conn_ciphertext direction rec c = elim (b64decode rec.payload) [
    | none ↦ none
    | some binary ↦ elim (app_data binary) [
      | none ↦ none
      | some true ↦ some (add_record rec (add_time direction rec.ts c))
      | some false ↦ some (add_record rec c)
    ]
  ]

  -- `Connection.plaintext_handle`
  unfoldable pub conn_plaintext : Direction → CipherRecord → Connection → Option Connection
  conn_plaintext direction rec c = elim (b64decode rec.payload) [
    | none ↦ none
    | some binary ↦ elim direction [
      | recv ↦
          some
            (record c { plain_data = c.plain_data ++ record { ts = rec.ts; bytes = binary } ∷ [] })
      | send ↦ some c
    ]
  ]

  module _ (isqrt : ℕ → ℕ) where
    -- the end of `ciphertext_handle`, with the connection `c` of side `side` updated
    unfoldable pub check_and_report : Store → ℕ → Session → Connection → Outcome × Store
    check_and_report st r s c =
        let (o, s', pkts) = check_packet isqrt s c in (o, report_all (write st r s') r pkts)

    unfoldable pub ciphertext_at : Direction → CipherRecord → Store → ℕ → Side → Outcome × Store
    ciphertext_at direction rec st r side = elim (get_side (st.objs r) side) [
      | none ↦ (raised value_error, st)
      | some c ↦ elim (conn_ciphertext direction rec c) [
        | none ↦ (raised decode_error, st)
        | some c' ↦ check_and_report st r (put_side (st.objs r) side c') c'
      ]
    ]

    unfoldable pub ciphertext_handle :
        Connection → Direction → CipherRecord → Store → Outcome × Store
    ciphertext_handle conn direction rec st = elim (find_session st conn) [
      | none ↦ (raised attribute_error, st)
      | some r ↦ ciphertext_at direction rec st r (side_of (st.objs r) conn)
    ]

    unfoldable pub plaintext_at : Direction → CipherRecord → Store → ℕ → Side → Outcome × Store
    plaintext_at direction rec st r side = elim (get_side (st.objs r) side) [
      | none ↦ (raised value_error, st)
      | some c ↦ elim (conn_plaintext direction rec c) [
        | none ↦ (raised decode_error, st)
        | some c' ↦ (done, write st r (put_side (st.objs r) side c'))
      ]
    ]

    unfoldable pub plaintext_handle :
        Connection → Direction → CipherRecord → Store → Outcome × Store
    plaintext_handle conn direction rec st = elim (find_session st conn) [
      | none ↦ (raised value_error, st)
      | some r ↦ plaintext_at direction rec st r (side_of (st.objs r) conn)
    ]

    -- `request_handle` and `response_handle`, which have one body
    unfoldable pub cipher_handle :
        Connection → Option String → Option String → Option String → Store → Outcome × Store
    cipher_handle conn suite version alpn st = elim (find_session st conn) [
      | none ↦ (raised value_error, st)
      | some r ↦
          let (o, s) = set_conn_cipher (st.objs r) conn suite version alpn in (o, write st r s)
    ]

    -- the handler that `__listen_worker` calls for a message
    unfoldable pub handle : Answers → Message → Store → Outcome × Store
    handle answers (start peer sock ts) st = session_start peer sock ts st
    handle answers (connected ip isock ep esock sni) st =
        session_connected (from_tuple ip isock) (from_tuple ep esock) sni st
    handle answers (ended peer sock ts) st = session_ended answers (from_tuple peer sock) ts st
    handle answers bad_status st = (raised value_error, st)
    handle answers (ciphertext peer sock direction rec) st =
        ciphertext_handle (from_tuple peer sock) direction rec st
    handle answers (plaintext peer sock direction rec) st =
        plaintext_handle (from_tuple peer sock) direction rec st
    handle answers (request peer sock suite version alpn) st =
        cipher_handle (from_tuple peer sock) suite version alpn st
    handle answers (response peer sock suite version alpn) st =
        cipher_handle (from_tuple peer sock) suite version alpn st
    handle answers (cert text) st = (done, report_cert answers text st)
    handle answers debug st = (done, st)
    handle answers unknown st = (raised value_error, st)
