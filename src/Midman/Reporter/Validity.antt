-- ===== src/Midman/Reporter/Validity.antt =====
-- Every handler of the reporter keeps the store valid, whether it returns or raises.
use middle_man.Base.{
  ℕ, ◌+◌, ◌<◌, ◌≡◌, refl, inl, inr, ◌⊎◌, Bool, true, Option, none, some, is_some, List, [], ◌∷◌,
  arith, All-append, All-imp, In, ◌==◌, ==_iff, String, Bool-cases, false, ◌∙◌,
}
use middle_man.Midman.Connection.{Address, CipherRecord, Connection, from_tuple}
use middle_man.Midman.Session.{Session, check_packet}
use middle_man.Midman.Session.Sides.{
  check_packet_sides, check_packet-Grows, check_packet-sessionid, set_conn_cipher-Grows,
  set_conn_cipher-sessionid,
}
use middle_man.Midman.Store.{
  Answers, Store, made, update, write, remove, find_session, report_session_end, report_cert,
}
use middle_man.Midman.Store.Validity.{
  IsJoined, IsValid, Grows, find_session-lt, write-IsValid, report_all-IsValid, remove-All,
  with_retry-IsValid, certificate-IsPlain, end-IsPlain,
}
use middle_man.Midman.Reporter.{
  Direction, Message, new_session, connect, session_start, session_connected, session_ended, Side,
  get_side, put_side, side_of, check_and_report, conn_ciphertext, conn_plaintext, ciphertext_at,
  ciphertext_handle, plaintext_at, plaintext_handle, cipher_handle, handle,
}

session_start-IsValid :
    (peer sock : Address) (ts : ℕ) (st : Store)
    → IsValid st
    → IsValid (session_start peer sock ts st).1
unfolding session_start
session_start-IsValid peer sock ts st v = record {
  live =
      All-append (λ r. r < st.next + 1) st.sessions (st.next ∷ [])
        (All-imp st.sessions (λ r h. omega arith) v.live) (omega arith, tt);
  room = v.room;
  queued = All-imp st.db_queue (λ q h. ground (arith, ==_iff q.0 st.next)) v.queued;
  numbered = All-imp (made st.rows) (λ p h. ground (arith, ==_iff p.0 st.next)) v.numbered;
  known = λ r id lt e. old r id lt e (Bool-cases (r == st.next));
  once = v.once;
  owned = v.owned;
}
  where
    old :
        (r id : ℕ)
        → r < st.next + 1
        → (update st.objs st.next (new_session (from_tuple peer sock) ts) r).sessionid ≡ some id
        → ((r == st.next) ≡ true) ⊎ ((r == st.next) ≡ false)
        → In (r, id) (made st.rows)
    old r id lt e (inl new) = cc (rw new at e)
    old r id lt e (inr older) = v.known r id (ground arith) (rw older at e)

connect-Grows : (s : Session) (ex : Connection) (sni : String) → Grows s (connect s ex sni)
unfolding connect
connect-Grows s ex sni = record { joined = λ h. ground arith; same_id = ground arith }

session_connected-IsValid :
    (i e : Connection) (sni : String) (st : Store)
    → IsValid st
    → IsValid (session_connected i e sni st).1
unfolding session_connected
session_connected-IsValid i e sni st v = by_found (find_session st i) refl
  where
    by_found : (o : Option ℕ) → find_session st i ≡ o → IsValid (session_connected i e sni st).1
    by_found none h = rw (h, session_connected) v
    by_found (some r) h =
        rw (h, session_connected) (write-IsValid r _ v (connect-Grows (st.objs r) e sni))

put_side-Grows : (s : Session) (side : Side) (c : Connection) → Grows s (put_side s side c)
unfolding put_side
put_side-Grows s Side.internal c = record { joined = λ h. h; same_id = refl }
put_side-Grows s Side.external c = record { joined = λ h. refl; same_id = refl }

session_ended-IsValid :
    (a : Answers) (i : Connection) (ts : Option ℕ) (st : Store)
    → IsValid st
    → IsValid (session_ended a i ts st).1
unfolding session_ended report_session_end
session_ended-IsValid a i ts st v = by_found (find_session st i) refl
  where
    closed :
        (st' : Store) (r : ℕ)
        → IsValid st'
        → IsValid (record st' { sessions = remove st'.objs r st'.sessions })
    closed st' r v' = record {
      live = remove-All (λ q. q < st'.next) st'.objs r st'.sessions v'.live;
      room = v'.room;
      queued = v'.queued;
      numbered = v'.numbered;
      known = v'.known;
      once = v'.once;
      owned = v'.owned;
    }

    stamped : (r : ℕ) → IsValid (write st r (record (st.objs r) { ts_end = ts }))
    stamped r =
        write-IsValid r (record (st.objs r) { ts_end = ts }) v
          (record { joined = λ h. h; same_id = refl })

    by_id :
        (r : ℕ) (id : Option ℕ)
        → find_session st i ≡ some r
        → (st.objs r).sessionid ≡ id
        → IsValid (session_ended a i ts st).1
    by_id r none h e =
        rw (h, session_ended, e)
          (closed (write st r (record (st.objs r) { ts_end = ts })) r (stamped r))
    by_id r (some id) h e =
        rw (h, session_ended, e)
          (closed (report_session_end a id ts (write st r (record (st.objs r) { ts_end = ts }))) r
            (with_retry-IsValid a _ (end-IsPlain id ts) (stamped r)))

    by_found : (o : Option ℕ) → find_session st i ≡ o → IsValid (session_ended a i ts st).1
    by_found none h = rw (h, session_ended) v
    by_found (some r) h = by_id r (st.objs r).sessionid h refl

module _ (b64decode : List ℕ → Option (List ℕ)) (app_data : List ℕ → Option Bool)
    (isqrt : ℕ → ℕ) where
  check_and_report-IsValid :
      (st : Store) (r : ℕ) (s : Session) (c : Connection)
      → IsValid st
      → r < st.next
      → Grows (st.objs r) s
      → IsValid (check_and_report b64decode app_data isqrt st r s c).1
  unfolding check_and_report
  check_and_report-IsValid st r s c v lt g =
      report_all-IsValid (write st r (check_packet isqrt s c).1) r (check_packet isqrt s c).2
        (write-IsValid r _ v grown) (joined (check_packet_sides isqrt s c))
    where
      grown : Grows (st.objs r) (check_packet isqrt s c).1
      grown = record {
        joined = λ h. check_packet-Grows isqrt s c (g.joined h);
        same_id = check_packet-sessionid isqrt s c ∙ g.same_id;
      }

      joined :
          ((check_packet isqrt s c).2 ≡ []) ⊎ (is_some (check_packet isqrt s c).1.external ≡ true)
          → ((check_packet isqrt s c).2 ≡ []) ⊎ IsJoined (write st r (check_packet isqrt s c).1) r
      joined (inl e) = inl e
      joined (inr e) = inr (lt, ground (arith, ==_iff r r))

  ciphertext_at-IsValid :
      (d : Direction) (rec : CipherRecord) (st : Store) (r : ℕ) (side : Side)
      → IsValid st
      → r < st.next
      → IsValid (ciphertext_at b64decode app_data isqrt d rec st r side).1
  unfolding ciphertext_at
  ciphertext_at-IsValid d rec st r side v lt = by_side (get_side (st.objs r) side) refl
    where
      by_conn :
          (c : Connection) (o : Option Connection)
          → get_side (st.objs r) side ≡ some c
          → conn_ciphertext b64decode app_data d rec c ≡ o
          → IsValid (ciphertext_at b64decode app_data isqrt d rec st r side).1
      by_conn c none e f = rw (e, ciphertext_at, f) v
      by_conn c (some c') e f =
          rw (e, ciphertext_at, f)
            (check_and_report-IsValid st r _ c' v lt (put_side-Grows (st.objs r) side c'))

      by_side :
          (o : Option Connection)
          → get_side (st.objs r) side ≡ o
          → IsValid (ciphertext_at b64decode app_data isqrt d rec st r side).1
      by_side none e = rw (e, ciphertext_at) v
      by_side (some c) e = by_conn c (conn_ciphertext b64decode app_data d rec c) e refl

  ciphertext_handle-IsValid :
      (c : Connection) (d : Direction) (rec : CipherRecord) (st : Store)
      → IsValid st
      → IsValid (ciphertext_handle b64decode app_data isqrt c d rec st).1
  unfolding ciphertext_handle
  ciphertext_handle-IsValid c d rec st v = by_found (find_session st c) refl
    where
      by_found :
          (o : Option ℕ)
          → find_session st c ≡ o
          → IsValid (ciphertext_handle b64decode app_data isqrt c d rec st).1
      by_found none h = rw (h, ciphertext_handle) v
      by_found (some r) h =
          rw (h, ciphertext_handle)
            (ciphertext_at-IsValid d rec st r (side_of (st.objs r) c) v (find_session-lt c r v h))

  plaintext_at-IsValid :
      (d : Direction) (rec : CipherRecord) (st : Store) (r : ℕ) (side : Side)
      → IsValid st
      → IsValid (plaintext_at b64decode app_data isqrt d rec st r side).1
  unfolding plaintext_at
  plaintext_at-IsValid d rec st r side v = by_side (get_side (st.objs r) side) refl
    where
      by_conn :
          (c : Connection) (o : Option Connection)
          → get_side (st.objs r) side ≡ some c
          → conn_plaintext b64decode app_data d rec c ≡ o
          → IsValid (plaintext_at b64decode app_data isqrt d rec st r side).1
      by_conn c none e f = rw (e, plaintext_at, f) v
      by_conn c (some c') e f =
          rw (e, plaintext_at, f) (write-IsValid r _ v (put_side-Grows (st.objs r) side c'))

      by_side :
          (o : Option Connection)
          → get_side (st.objs r) side ≡ o
          → IsValid (plaintext_at b64decode app_data isqrt d rec st r side).1
      by_side none e = rw (e, plaintext_at) v
      by_side (some c) e = by_conn c (conn_plaintext b64decode app_data d rec c) e refl

  plaintext_handle-IsValid :
      (c : Connection) (d : Direction) (rec : CipherRecord) (st : Store)
      → IsValid st
      → IsValid (plaintext_handle b64decode app_data isqrt c d rec st).1
  unfolding plaintext_handle
  plaintext_handle-IsValid c d rec st v = by_found (find_session st c) refl
    where
      by_found :
          (o : Option ℕ)
          → find_session st c ≡ o
          → IsValid (plaintext_handle b64decode app_data isqrt c d rec st).1
      by_found none h = rw (h, plaintext_handle) v
      by_found (some r) h =
          rw (h, plaintext_handle) (plaintext_at-IsValid d rec st r (side_of (st.objs r) c) v)

  cipher_handle-IsValid :
      (c : Connection) (suite version alpn : Option String) (st : Store)
      → IsValid st
      → IsValid (cipher_handle b64decode app_data isqrt c suite version alpn st).1
  unfolding cipher_handle
  cipher_handle-IsValid c suite version alpn st v = by_found (find_session st c) refl
    where
      by_found :
          (o : Option ℕ)
          → find_session st c ≡ o
          → IsValid (cipher_handle b64decode app_data isqrt c suite version alpn st).1
      by_found none h = rw (h, cipher_handle) v
      by_found (some r) h =
          rw (h, cipher_handle)
            (write-IsValid r _ v (record {
              joined = set_conn_cipher-Grows (st.objs r) c suite version alpn;
              same_id = set_conn_cipher-sessionid (st.objs r) c suite version alpn;
            }))

  -- A handler keeps the store valid, for every message and all answers of the database, whether it
  -- returns or raises. In a valid store live and queued references are to objects that exist, the
  -- queue holds at most 8000 packets, every session with a queued packet has its external side, each
  -- object has at most one row in the table of sessions, which is there exactly if the object has an
  -- id and bears that id, and each row of a packet refers to the row of a session.
  pub handle-IsValid :
      (a : Answers) (m : Message) (st : Store)
      → IsValid st
      → IsValid (handle b64decode app_data isqrt a m st).1
  unfolding handle report_cert
  handle-IsValid a (Message.start peer sock ts) st v = session_start-IsValid peer sock ts st v
  handle-IsValid a (Message.connected ip isock ep esock sni) st v =
      session_connected-IsValid _ _ sni st v
  handle-IsValid a (Message.ended peer sock ts) st v = session_ended-IsValid a _ ts st v
  handle-IsValid a Message.bad_status st v = v
  handle-IsValid a (Message.ciphertext peer sock d rec) st v =
      ciphertext_handle-IsValid _ d rec st v
  handle-IsValid a (Message.plaintext peer sock d rec) st v = plaintext_handle-IsValid _ d rec st v
  handle-IsValid a (Message.request peer sock x y z) st v = cipher_handle-IsValid _ x y z st v
  handle-IsValid a (Message.response peer sock x y z) st v = cipher_handle-IsValid _ x y z st v
  handle-IsValid a (Message.cert text) st v = with_retry-IsValid a _ (certificate-IsPlain text) v
  handle-IsValid a Message.debug st v = v
  handle-IsValid a Message.unknown st v = v
