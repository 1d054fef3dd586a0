-- ===== src/Midman/Tests.antt =====
-- Runs of the reporter's model, and its theorems at concrete inputs.
use middle_man.Base.{
  ℕ, zero, suc, ◌-◌, ◌*◌, ◌≤◌, ◌<◌, ◌≡◌, ◌↔◌, refl, Bool, true, Option, none, some, List, [], ◌∷◌,
  ◌++◌, arith, ltb, leb, if◌then◌else◌, replicate, Bool-cases, inl, inr,
}
use middle_man.Midman.Connection.{Address, CipherRecord, Connection, from_tuple, conn_eq}
use middle_man.Midman.Connection.Equality.{Shared, conn_eq_iff}
use middle_man.Midman.Session.{
  Session, Packet, take_record, delay, check_packet, check_sides, sweep, store, examine, after_recv,
  after_send, search, packet_for, both, within, first, last, first_after, last_before, contains,
}
use middle_man.Midman.Session.Search.{Taken, take_record-Taken}
use middle_man.Midman.Session.Sweep.{AllMeasured}
use middle_man.Midman.Session.Balance.{Accounted, check_packet-Accounted}
use middle_man.Midman.Session.Reports.{check_packet-Measured, IsRoot, delay_lem}
use middle_man.Midman.Store.{
  Answers, fine, mysql_error, Store, find_session, find_in, made, referred,
}
use middle_man.Midman.Store.Validity.{IsValid}
use middle_man.Midman.Reporter.{Message, recv, ciphertext, start, connected, handle}
use middle_man.Midman.Writer.{write_one}
use middle_man.Midman.Writer.Stored.{Delivered}
use middle_man.Midman.Writer.Rows.{write_one-Delivered}
use middle_man.Midman.Listener.{listening, read_line}
use middle_man.Midman.Listener.Retries.{Settled, read_line-Settled}
use middle_man.Midman.Listener.Duplicates.{IsIdle, read_line-replicate}
use middle_man.Midman.System.{init, listens, Reach, begins, then_steps, Reach-IsValid}

-- the greatest number whose square is at most `n`, among those up to `k`
root_below : ℕ → ℕ → ℕ
root_below zero n = 0
root_below (suc k) n = let rest = root_below k n in if leb (suc k * suc k) n then suc k else rest

abbrev isqrt : ℕ → ℕ
isqrt n = root_below n n

root_below-IsRoot : (k n : ℕ) → root_below k n * root_below k n ≤ n
unfolding root_below
root_below-IsRoot zero n = omega arith
root_below-IsRoot (suc k) n = elim (Bool-cases (leb (suc k * suc k) n)) [
  | inl e ↦ rw e (ground arith)
  | inr e ↦ rw e (root_below-IsRoot k n)
]

isqrt-IsRoot : IsRoot isqrt
isqrt-IsRoot n = root_below-IsRoot n n

abbrev address : ℕ → Address
address n = record { ip = "10.0.0.1"; port = n }

-- the client's side has received ciphertext at 100 and 150, and the proxy has sent it on at 300
abbrev client_side : Connection
client_side = record (from_tuple (address 1) (address 2)) {
  cipher_recv_tss = 100 ∷ 150 ∷ [];
  plain_data = record { ts = 200; bytes = 71 ∷ 69 ∷ [] } ∷ [];
  cipher_records =
      record { ts = 150; payload = 1 ∷ [] } ∷ record { ts = 160; payload = 2 ∷ [] } ∷ [];
}

abbrev server_side : Connection
server_side = record (from_tuple (address 3) (address 4)) { cipher_send_tss = 190 ∷ 300 ∷ 400 ∷ [] }

abbrev session : Session
session = record {
  internal = client_side;
  external = some server_side;
  external_sni = some "example.org";
  ts_start = 90;
  ts_end = none;
  sessionid = none;
}

-- the packet is reported with a delay of 150, and the record behind the matching one is dropped
check_packet_run : (check_packet isqrt session server_side).1.internal.cipher_records ≡ []
unfolding check_packet sweep store examine after_recv after_send search packet_for both within first
    last first_after last_before take_record conn_eq from_tuple check_sides delay
check_packet_run = refl

conn_eq_iff_example : (conn_eq client_side server_side ≡ true) ↔ Shared client_side server_side
conn_eq_iff_example = conn_eq_iff client_side server_side

take_record-Taken_example :
    Taken
      (some 155)
      (some 300)
      client_side.cipher_records
      (take_record (some 155) (some 300) client_side.cipher_records []).0
      (take_record (some 155) (some 300) client_side.cipher_records []).1
take_record-Taken_example = take_record-Taken (some 155) (some 300) client_side.cipher_records

check_packet-Accounted_example : Accounted session (check_packet isqrt session server_side)
check_packet-Accounted_example = check_packet-Accounted isqrt session server_side

check_packet-Measured_example :
    if conn_eq server_side client_side
    then AllMeasured isqrt server_side client_side [] (check_packet isqrt session server_side).2
    else AllMeasured isqrt client_side server_side client_side.plain_data
        (check_packet isqrt session server_side).2
unfolding from_tuple
check_packet-Measured_example =
    check_packet-Measured isqrt session server_side server_side refl (omega arith) (omega arith)

delay_lem_example :
    if ltb 100_000 (400_000 - 0)
    then delay isqrt 0 400_000 < 400_000 - 0
    else delay isqrt 0 400_000 ≡ 400_000 - 0
delay_lem_example = delay_lem isqrt 0 400_000 isqrt-IsRoot

-- base64 and scapy as a test needs them: the payload is the data, which is application data
abbrev plain_codec : List ℕ → Option (List ℕ)
plain_codec payload = some payload

abbrev all_app : List ℕ → Option Bool
all_app binary = some true

abbrev answers : Answers
answers = record { call = fine 7; reconnect = fine 0; again = mysql_error }

abbrev opened : Message
opened = start (address 1) (address 2) 90

abbrev objects : ℕ → Session
objects r = session

abbrev one_session : Store
one_session = (handle plain_codec all_app isqrt answers opened (init objects)).1

reached : Reach plain_codec all_app isqrt objects one_session
reached = then_steps begins (listens answers opened)

Reach-IsValid_example : IsValid one_session
Reach-IsValid_example = Reach-IsValid plain_codec all_app isqrt objects one_session reached

read_line-Settled_example : Settled (
    read_line plain_codec all_app isqrt 21
      (connected (address 1) (address 2) (address 3) (address 4) "a")
      answers
      one_session)
read_line-Settled_example =
    read_line-Settled plain_codec all_app isqrt
      (connected (address 1) (address 2) (address 3) (address 4) "a") answers one_session
      Reach-IsValid_example

-- a session with a packet in the queue
abbrev packet : Packet
packet = record {
  source = address 1;
  destination = address 8443;
  cipher_suite = none;
  payload = [];
  protocol_version = none;
  packet_size = 0;
  delay = 5;
  timestamp = 200;
  alpn = none;
  cipher_data = none;
}

abbrev queued : Store
queued = record {
  objs = objects;
  next = 1;
  sessions = 0 ∷ [];
  db_queue = (0, packet) ∷ [];
  rows = [];
}

queued-IsValid : IsValid queued
unfolding made referred
queued-IsValid = record {
  live = (omega arith, tt);
  room = omega arith;
  queued = ((omega arith, refl), tt);
  numbered = tt;
  known = λ r id lt e. cc;
  once = tt;
  owned = tt;
}

write_one-Delivered_example : Delivered queued (write_one (fine 7) (fine 8) queued) 7 0 packet []
write_one-Delivered_example = write_one-Delivered queued 7 8 0 packet [] queued-IsValid refl

-- the session with no plaintext on the external side
abbrev record_7 : CipherRecord
record_7 = record { ts = 500; payload = 7 ∷ [] }

queued-IsIdle : IsIdle queued (from_tuple (address 1) (address 2)) 0 server_side
unfolding find_session find_in contains conn_eq from_tuple
queued-IsIdle = record { found = refl; own = refl; joined = refl; nothing = refl }

read_line-replicate_example :
    (st' : Store) × (read_line plain_codec all_app isqrt 21
        (ciphertext (address 1) (address 2) recv record_7)
        answers
        queued
      ≡ listening [] st')
    × ((st'.objs 0).internal.cipher_records ≡ client_side.cipher_records ++ replicate 21 record_7)
read_line-replicate_example =
    read_line-replicate plain_codec all_app isqrt recv record_7 (7 ∷ []) true refl refl answers
      (address 1) (address 2) queued 0 server_side queued-IsIdle
