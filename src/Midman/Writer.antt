-- ===== src/Midman/Writer.antt =====
-- `_db_writer_worker` of midman/reporter.py: one round takes one packet from the queue, makes the row
-- of its session if there is none, and stores the packet. All exceptions are swallowed.
pub mod Stored
pub mod Rows
use middle_man.Base.{ℕ, Option, none, some, List, [], ◌∷◌, ◌++◌, ◌==◌, if◌then◌else◌}
use middle_man.Midman.Connection.{Connection}
use middle_man.Midman.Session.{Session, Packet}
use middle_man.Midman.Store.{
  Row, PacketRow, session_row, packet_row, Answer, fine, mysql_error, other_error, Store, write,
  executed,
}

-- the values that `insert_packet_session` is given
unfoldable pub as_stored : Packet → PacketRow
as_stored pkt =
    let replaced = pkt.destination.port == 8443 in
    record {
      source = pkt.source;
      destination = pkt.destination;
      cipher_suite = if replaced then some "SSL_RSA_WITH_RC4_128_MD5" else pkt.cipher_suite;
      payload = pkt.payload;
      protocol_version = if replaced then some "SSL3.0" else pkt.protocol_version;
      packet_size = pkt.packet_size;
      delay = pkt.delay;
      alpn = pkt.alpn;
      cipher_data = pkt.cipher_data;
    }

-- `insert_packet_session`, with its answer
pub store_packet : Answer → ℕ → Packet → Store → Store
store_packet (fine row) id pkt st = executed st (packet_row id (as_stored pkt))
store_packet _ id pkt st = st

-- the row of a session that has an external side
pub row_for : ℕ → ℕ → Session → Connection → Row
row_for r id s ex =
    session_row r id s.internal.ends.peername ex.ends.peername s.ts_start s.external_sni

-- `insert_session`, with its answer: the id is kept in the session
pub register : Answer → ℕ → Session → Connection → Store → Store
register (fine id) r s ex st =
    executed (write st r (record s { sessionid = some id })) (row_for r id s ex)
register _ r s ex st = st

-- What follows the test on `session.sessionid`, for a packet of the object `r`. With no external side
-- the arguments of `insert_session` raise.
pub record_packet :
    Answer → Answer → ℕ → Session → Packet → Option ℕ → Option Connection → Store → Store
record_packet session_answer packet_answer r s pkt (some id) external st =
    store_packet packet_answer id pkt st
record_packet (fine id) packet_answer r s pkt none (some ex) st =
    store_packet packet_answer id pkt (register (fine id) r s ex st)
record_packet _ packet_answer r s pkt none external st = st

-- One round of the loop, with the answers to `insert_session` and `insert_packet_session`. On an
-- empty queue the thread waits.
pub write_one : Answer → Answer → Store → Store
write_one session_answer packet_answer st = elim st.db_queue [
  | [] ↦ st
  | q ∷ rest ↦
      let s = st.objs q.0 in
      record_packet session_answer packet_answer q.0 s q.1 s.sessionid s.external
        (record st { db_queue = rest })
]
