-- ===== src/Midman/Session.antt =====
-- `Session` of midman/reporter.py. Times are whole microseconds; `isqrt n` stands for `math.sqrt`
-- rounded to one.
pub mod Search
pub mod Sweep
pub mod Balance
pub mod Reports
pub mod Sides
use middle_man.Base.{
  ℕ, ◌-◌, ◌*◌, String, Bool, true, false, not, ◌&&◌, ◌||◌, Option, none, some, List, [], ◌∷◌, ◌++◌,
  ltb, leb, ◌==◌, if◌then◌else◌, length,
}
use middle_man.Midman.Fault.{Fault, value_error, unbound_local, Outcome, done, raised}
use middle_man.Midman.Connection.{Address, CipherRecord, PlainData, Connection, conn_eq}

-- `PacketType` of midman/prototype.py
pub record Packet : Type 0 where
  pub source : Address
  pub destination : Address
  pub cipher_suite : Option String
  pub payload : List ℕ
  pub protocol_version : Option String
  pub packet_size : ℕ
  pub delay : ℕ
  pub timestamp : ℕ
  pub alpn : Option String
  pub cipher_data : Option (List ℕ)

pub record Session : Type 0 where
  pub internal : Connection
  pub external : Option Connection
  pub external_sni : Option String
  pub ts_start : ℕ
  pub ts_end : Option ℕ
  -- `none` is the source's -1
  pub sessionid : Option ℕ

-- `for ts in conn.cipher_recv_tss: if ts < plain_ts: ts_start = ts else: break`
unfoldable pub last_before : ℕ → List ℕ → Option ℕ → Option ℕ
last_before plain_ts [] ts_start = ts_start
last_before plain_ts (ts ∷ tss) ts_start =
    if ltb ts plain_ts then last_before plain_ts tss (some ts) else ts_start

-- `for ts in to_conn.cipher_send_tss: if ts > plain_ts: ts_end = ts; break`
unfoldable pub first_after : ℕ → List ℕ → Option ℕ
first_after plain_ts [] = none
first_after plain_ts (ts ∷ tss) = if ltb plain_ts ts then some ts else first_after plain_ts tss

-- `to_conn.cipher_send_tss[-1]`
unfoldable pub last : List ℕ → Option ℕ
last [] = none
last (t ∷ []) = some t
last (t ∷ u ∷ ts) = last (u ∷ ts)

-- `ts_start and ts_end`: both are set, and neither is 0
unfoldable pub both : Option ℕ → Option ℕ → Bool
both (some a) (some b) = not (a == 0) && not (b == 0)
both _ _ = false

-- `ts_start and ts_end and ts_start <= rec['ts'] <= ts_end`
unfoldable pub within : Option ℕ → Option ℕ → CipherRecord → Bool
unfolding both
within (some a) (some b) rec = both (some a) (some b) && leb a rec.ts && leb rec.ts b
within _ _ rec = false

-- the search of `conn.cipher_records`: the payload of the first match, and the records before it
unfoldable pub take_record :
    Option ℕ
    → Option ℕ
    → List CipherRecord
    → List CipherRecord
    → Option (List ℕ) × List CipherRecord
take_record a b [] cipher_left = (none, cipher_left)
take_record a b (rec ∷ records) cipher_left =
    if within a b rec
    then (some rec.payload, cipher_left)
    else take_record a b records (cipher_left ++ rec ∷ [])

-- What one round does with one item of plaintext: raise, keep it before or after the records are
-- searched, or report it.
pub data Verdict : Type 0 where
  fail : Fault → Verdict
  wait : Verdict
  searched : List CipherRecord → Option Packet → Verdict

-- What the whole loop leaves: an exception with the items not yet taken, or the new `plain_left`
-- and `cipher_left` (`none` if it was never assigned); and the packets that were reported.
pub data Swept : Type 0 where
  broken : Fault → List PlainData → List Packet → Swept
  swept : List PlainData → Option (List CipherRecord) → List Packet → Swept

-- `conn.cipher_recv_tss[0]`
unfoldable pub first : List ℕ → Option ℕ
first [] = none
first (t ∷ ts) = some t

-- the two tests on what has been received, before the rest of the round
unfoldable pub after_recv : PlainData → Option ℕ → Verdict → Verdict
after_recv plain none rest = fail value_error
after_recv plain (some oldest) rest = if ltb plain.ts oldest then fail value_error else rest

module _ (isqrt : ℕ → ℕ) where
  -- `sqrt((ts_end - ts_start) * 1000) * 10` where the difference passes 100 ms, in microseconds
  unfoldable pub delay : ℕ → ℕ → ℕ
  delay ts_start ts_end =
      if ltb 100_000 (ts_end - ts_start)
      then isqrt (100_000 * (ts_end - ts_start))
      else ts_end - ts_start

  unfoldable pub packet_for :
      Connection → Connection → PlainData → Option ℕ → Option ℕ → Option (List ℕ) → Option Packet
  packet_for conn to_conn plain (some a) (some b) blob =
      if both (some a) (some b)
      then some (record {
        source = conn.ends.peername;
        destination = to_conn.ends.peername;
        cipher_suite = conn.cipher_suite;
        payload = plain.bytes;
        protocol_version = conn.protocol_version;
        packet_size = length plain.bytes;
        delay = delay a b;
        timestamp = plain.ts;
        alpn = conn.alpn;
        cipher_data = blob;
      })
      else none
  packet_for conn to_conn plain _ _ blob = none

  -- the rest of a round, with both timestamps looked up
  unfoldable pub search : Connection → Connection → PlainData → Option ℕ → Option ℕ → Verdict
  search conn to_conn plain ts_start ts_end =
      let (blob, cipher_left) = take_record ts_start ts_end conn.cipher_records [] in
      searched cipher_left (packet_for conn to_conn plain ts_start ts_end blob)

  -- the two tests on what the other side has sent
  unfoldable pub after_send : Connection → Connection → PlainData → Option ℕ → Option ℕ → Verdict
  after_send conn to_conn plain ts_start none = wait
  after_send conn to_conn plain ts_start (some newest) =
      if ltb newest plain.ts
      then wait
      else search conn to_conn plain ts_start (first_after plain.ts to_conn.cipher_send_tss)

  -- one round of the loop of `check_packet`
  unfoldable pub examine : Connection → Connection → PlainData → Verdict
  examine conn to_conn plain = after_recv plain (first conn.cipher_recv_tss) (
      after_send conn to_conn plain (last_before plain.ts conn.cipher_recv_tss none)
        (last to_conn.cipher_send_tss))

  -- `while len(conn.plain_data) > 0`
  unfoldable pub sweep :
      Connection
      → Connection
      → List PlainData
      → List PlainData
      → Option (List CipherRecord)
      → List Packet
      → Swept
  sweep conn to_conn [] plain_left cipher_left out = swept plain_left cipher_left out
  sweep conn to_conn (plain ∷ rest) plain_left cipher_left out = elim (examine conn to_conn plain) [
    | fail f ↦ broken f rest out
    | wait ↦ sweep conn to_conn rest (plain_left ++ plain ∷ []) cipher_left out
    | searched c none ↦ sweep conn to_conn rest (plain_left ++ plain ∷ []) (some c) out
    | searched c (some pkt) ↦ sweep conn to_conn rest plain_left (some c) (out ++ pkt ∷ [])
  ]

  -- the assignments behind the loop; `put` stores the connection back into its session
  unfoldable pub store :
      (Connection → Session) → Connection → Swept → Outcome × Session × List Packet
  store put conn (broken f rest out) = (raised f, put (record conn { plain_data = rest }), out)
  store put conn (swept left none out) =
      (raised unbound_local, put (record conn { plain_data = left }), out)
  store put conn (swept left (some c) out) =
      (done, put (record conn { plain_data = left; cipher_records = c }), out)

  -- `check_packet` with the value of `self.external`
  unfoldable pub check_sides :
      Session → Connection → Option Connection → Outcome × Session × List Packet
  check_sides s to_conn none = (done, s, [])
  check_sides s to_conn (some ex) =
      if conn_eq to_conn s.internal
      then store (λ c. record s { external = some c }) ex
          (sweep ex s.internal ex.plain_data [] none [])
      else if conn_eq to_conn ex
      then store (λ c. record s { internal = c }) s.internal
          (sweep s.internal ex s.internal.plain_data [] none [])
      else (raised unbound_local, s, [])

  -- `Session.check_packet`; the packets are those passed to `report_cb`, in order
  unfoldable pub check_packet : Session → Connection → Outcome × Session × List Packet
  unfolding check_sides
  check_packet s to_conn = check_sides s to_conn s.external

-- `Session.set_conn_cipher`
unfoldable pub set_conn_cipher :
    Session → Connection → Option String → Option String → Option String → Outcome × Session
set_conn_cipher s conn cipher_suite protocol_version alpn =
    if conn_eq conn s.internal
    then (
      done,
      record s {
        internal = record s.internal {
          cipher_suite = cipher_suite;
          protocol_version = protocol_version;
          alpn = alpn;
        };
      },
    )
    else elim s.external [
      | none ↦ (raised value_error, s)
      | some ex ↦
          if conn_eq conn ex
          then (
            done,
            record s {
              external = some (record ex {
                cipher_suite = cipher_suite;
                protocol_version = protocol_version;
                alpn = alpn;
              });
            },
          )
          else (raised value_error, s)
    ]

-- `Session.__contains__` of a connection
unfoldable pub contains : Session → Connection → Bool
contains s item =
    conn_eq s.internal item || elim s.external [ none ↦ false | some ex ↦ conn_eq ex item ]
