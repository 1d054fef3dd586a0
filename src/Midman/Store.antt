-- ===== src/Midman/Store.antt =====
-- The state of `Reporter` of midman/reporter.py: the session objects by reference, the list of live
-- sessions, the bounded queue to the database thread, and the rows that the database has taken.
pub mod Validity
use middle_man.Base.{
  ℕ, String, Bool, true, false, ◌&&◌, ◌||◌, Option, none, some, List, [], ◌∷◌, ◌++◌, ltb, ◌==◌,
  if◌then◌else◌, length,
}
use middle_man.Midman.Connection.{Address, Connection, conn_eq}
use middle_man.Midman.Session.{Session, Packet, contains}

-- what `insert_packet_session` of midman/database.py is given beside the id of the session
pub record PacketRow : Type 0 where
  pub source : Address
  pub destination : Address
  pub cipher_suite : Option String
  pub payload : List ℕ
  pub protocol_version : Option String
  pub packet_size : ℕ
  pub delay : ℕ
  pub alpn : Option String
  pub cipher_data : Option (List ℕ)

-- A statement that the database has executed and committed, of midman/database.py. A row of `session`
-- names the object that it was made for.
pub data Row : Type 0 where
  session_row : ℕ → ℕ → Address → Address → ℕ → Option String → Row
  packet_row : ℕ → PacketRow → Row
  certificate_row : String → Row
  end_row : ℕ → Option ℕ → Row

-- the rows of `session`, as pairs of the object and the row's id, and the ids that the rows of
-- `packetsession` refer to
unfoldable pub made : List Row → List (ℕ × ℕ)
made [] = []
made (session_row r id i e ts sni ∷ rows) = (r, id) ∷ made rows
made (packet_row id pkt ∷ rows) = made rows
made (certificate_row c ∷ rows) = made rows
made (end_row id ts ∷ rows) = made rows

unfoldable pub referred : List Row → List ℕ
referred [] = []
referred (session_row r id i e ts sni ∷ rows) = referred rows
referred (packet_row id pkt ∷ rows) = id ∷ referred rows
referred (certificate_row c ∷ rows) = referred rows
referred (end_row id ts ∷ rows) = referred rows

-- How a call of the database ends: with a value (`lastrowid` of an insertion), with a
-- pymysql.Error, or with another exception. A statement and its commit are one step: of a call that
-- raises, in either of them, the database is taken to keep no row.
pub data Answer : Type 0 where
  fine : ℕ → Answer
  mysql_error : Answer
  other_error : Answer

-- the answers to a call, to `reconnect`, and to the call made once more
pub record Answers : Type 0 where
  pub call : Answer
  pub reconnect : Answer
  pub again : Answer

pub record Store : Type 0 where
  -- the object behind a reference; below `next` it has been made
  pub objs : ℕ → Session
  pub next : ℕ
  pub sessions : List ℕ
  pub db_queue : List (ℕ × Packet)
  pub rows : List Row

abbrev pub queue_size : ℕ
queue_size = 8000

-- an assignment to the object behind `r`
abbrev pub update : (ℕ → Session) → ℕ → Session → ℕ → Session
update objs r s q = if q == r then s else objs q

abbrev pub write : Store → ℕ → Session → Store
write st r s = record st { objs = update st.objs r s }

-- `find_session` for a connection
unfoldable pub find_in : (ℕ → Session) → Connection → List ℕ → Option ℕ
find_in objs item [] = none
find_in objs item (r ∷ rs) = if contains (objs r) item then some r else find_in objs item rs

unfoldable pub find_session : Store → Connection → Option ℕ
find_session st item = find_in st.objs item st.sessions

-- `self.external == value.external`, where either may be None
unfoldable pub option_conn_eq : Option Connection → Option Connection → Bool
option_conn_eq none none = true
option_conn_eq (some a) (some b) = conn_eq a b
option_conn_eq _ _ = false

-- `Session.__eq__`
unfoldable pub session_eq : Session → Session → Bool
session_eq s t = conn_eq s.internal t.internal && option_conn_eq s.external t.external

-- `self.sessions.remove(session)`: the first entry that is the object or equal to it
unfoldable pub remove : (ℕ → Session) → ℕ → List ℕ → List ℕ
remove objs r [] = []
remove objs r (q ∷ rs) = if q == r || session_eq (objs q) (objs r) then rs else q ∷ remove objs r rs

-- `report_packet`: a full queue drops the packet
unfoldable pub report_packet : Store → ℕ → Packet → Store
report_packet st r pkt =
    if ltb (length st.db_queue) queue_size
    then record st { db_queue = st.db_queue ++ (r, pkt) ∷ [] }
    else st

-- the calls of `report_cb` of one `check_packet`
unfoldable pub report_all : Store → ℕ → List Packet → Store
report_all st r [] = st
report_all st r (pkt ∷ pkts) = report_all (report_packet st r pkt) r pkts

abbrev pub executed : Store → Row → Store
executed st row = record st { rows = st.rows ++ row ∷ [] }

-- whether the call is executed, at once or after a pymysql.Error and a `reconnect`
unfoldable pub succeeds : Answer → Answer → Answer → Bool
succeeds (fine id) reconnect again = true
succeeds mysql_error (fine a) (fine b) = true
succeeds _ _ _ = false

-- The body shared by `report_cert` and `report_session_end`: after a pymysql.Error the connection is
-- made anew and the call is made once more; every exception is swallowed.
unfoldable pub with_retry : Answers → Row → Store → Store
unfolding succeeds
with_retry answers row st =
    if succeeds answers.call answers.reconnect answers.again then executed st row else st

unfoldable pub report_cert : Answers → String → Store → Store
unfolding with_retry
report_cert answers cert st = with_retry answers (certificate_row cert) st

-- `report_session_end`, which is called with a session that has an id
unfoldable pub report_session_end : Answers → ℕ → Option ℕ → Store → Store
unfolding with_retry
report_session_end answers sessionid ts_end st = with_retry answers (end_row sessionid ts_end) st
