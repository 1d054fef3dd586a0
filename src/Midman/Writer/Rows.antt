-- ===== src/Midman/Writer/Rows.antt =====
-- A round of the database thread keeps the store valid, and stores the packet under its own session.
use mathlib.Core.Path.{subst}
use middle_man.Base.{
  ℕ, ◌≤◌, ◌<◌, ◌≡◌, ◌≢◌, refl, ◌∙◌, ◌⊎◌, inl, inr, true, false, Option, none, some, is_some, List,
  [], ◌∷◌, ◌++◌, append_assoc, append-nil, arith, sym, Bool-cases, length, All, All-append, All-imp,
  In, In-append_left, In-append_right, ◌==◌, ==_iff,
}
use middle_man.Midman.Connection.{Connection}
use middle_man.Midman.Session.{Packet}
use middle_man.Midman.Store.{
  packet_row, Answer, fine, mysql_error, other_error, made, referred, Store, update,
}
use middle_man.Midman.Store.Validity.{IsJoined, IsValid, Distinct, made-append, referred-append}
use middle_man.Midman.Writer.{as_stored, store_packet, row_for, register, record_packet, write_one}
use middle_man.Midman.Writer.Stored.{as_stored-StoredAs, Delivered}

Distinct-append :
    (ps : List (ℕ × ℕ)) (p : ℕ × ℕ)
    → Distinct ps
    → All (λ q. q.0 ≢ p.0) ps
    → Distinct (ps ++ p ∷ [])
Distinct-append [] p d n = (tt, tt)
Distinct-append (q ∷ ps) p d n =
    (All-append _ ps (p ∷ []) d.0 (n.0, tt), Distinct-append ps p d.1 n.1)

-- popping the queue
popped :
    {st : Store} (q : ℕ × Packet) (rest : List (ℕ × Packet))
    → st.db_queue ≡ q ∷ rest
    → IsValid st
    → IsValid (record st { db_queue = rest }) × IsJoined st q.0
popped {st} q rest e v =
    let room : length (q ∷ rest) ≤ 8000 = subst (λ l. length l ≤ 8000) e v.room in
    let queued : All (λ q. IsJoined st q.0) (q ∷ rest) =
      subst (All (λ q. IsJoined st q.0)) e v.queued in
    (
      record {
        live = v.live;
        room = omega arith;
        queued = queued.1;
        numbered = v.numbered;
        known = v.known;
        once = v.once;
        owned = v.owned;
      },
      queued.0,
    )

store_packet-IsValid :
    {st : Store} (a : Answer) (r id : ℕ) (pkt : Packet)
    → In (r, id) (made st.rows)
    → IsValid st
    → IsValid (store_packet a id pkt st)
unfolding store_packet made referred
store_packet-IsValid {st} (fine row) r id pkt i v =
    let m : made (st.rows ++ packet_row id (as_stored pkt) ∷ []) ≡ made st.rows =
      rw (made-append, made) (append-nil (made st.rows)) in
    record {
      live = v.live;
      room = v.room;
      queued = v.queued;
      numbered = rw m v.numbered;
      known = λ r id lt e. rw m (v.known r id lt e);
      once = rw m v.once;
      owned =
          rw (m, referred-append, referred)
            (All-append (λ id. (r : ℕ) × In (r, id) (made st.rows)) (referred st.rows) (id ∷ [])
              v.owned ((r, i), tt));
    }
store_packet-IsValid mysql_error r id pkt i v = v
store_packet-IsValid other_error r id pkt i v = v

register-IsValid :
    {st : Store} (id r : ℕ) (ex : Connection)
    → r < st.next
    → (st.objs r).sessionid ≡ none
    → (st.objs r).external ≡ some ex
    → IsValid st
    → IsValid (register (fine id) r (st.objs r) ex st)
unfolding register row_for made referred
register-IsValid {st} id r ex lt no_id joined v =
    let m : made (st.rows ++ row_for r id (st.objs r) ex ∷ []) ≡ made st.rows ++ (r, id) ∷ [] =
      rw made-append in
    let p : referred (st.rows ++ row_for r id (st.objs r) ex ∷ []) ≡ referred st.rows =
      rw referred-append (append-nil (referred st.rows)) in
    record {
      live = v.live;
      room = v.room;
      queued = All-imp st.db_queue (λ q h. ground (arith, ==_iff q.0 r)) v.queued;
      numbered = rw m (
          All-append _ (made st.rows) ((r, id) ∷ [])
            (All-imp (made st.rows) (λ p h. ground (arith, ==_iff p.0 r)) v.numbered)
            ((lt, ground (arith, ==_iff r r)), tt));
      known = λ q id' lt' e. rw m (found q id' lt' e (Bool-cases (q == r)));
      once = rw m (
          Distinct-append (made st.rows) (r, id) v.once
            (All-imp (made st.rows) (λ p h same. cc (rw same at h.1)) v.numbered));
      owned =
          rw (p, m)
            (All-imp (referred st.rows)
              (λ i (q, h). (q, In-append_left (q, i) (made st.rows) ((r, id) ∷ []) h)) v.owned);
    }
  where
    found :
        (q id' : ℕ)
        → q < st.next
        → (update st.objs r (record (st.objs r) { sessionid = some id }) q).sessionid ≡ some id'
        → ((q == r) ≡ true) ⊎ ((q == r) ≡ false)
        → In (q, id') (made st.rows ++ (r, id) ∷ [])
    found q id' lt' e (inl same) =
        In-append_right (q, id') (made st.rows) ((r, id) ∷ []) (inl (ground (arith, ==_iff q r)))
    found q id' lt' e (inr other) =
        In-append_left (q, id') (made st.rows) ((r, id) ∷ []) (v.known q id' lt' (rw other at e))

made-register :
    (st : Store) (id r : ℕ) (ex : Connection)
    → In (r, id) (made (register (fine id) r (st.objs r) ex st).rows)
unfolding register row_for made
made-register st id r ex =
    rw made-append (In-append_right (r, id) (made st.rows) ((r, id) ∷ []) (inl refl))

record_packet-IsValid :
    (st : Store) (a b : Answer) (r : ℕ) (pkt : Packet) (id : Option ℕ) (ex : Option Connection)
    → IsValid st
    → r < st.next
    → (st.objs r).sessionid ≡ id
    → (st.objs r).external ≡ ex
    → IsValid (record_packet a b r (st.objs r) pkt id ex st)
unfolding record_packet
record_packet-IsValid st a b r pkt (some id) ex v lt e f =
    store_packet-IsValid b r id pkt (v.known r id lt e) v
record_packet-IsValid st (fine id) b r pkt none (some ex) v lt e f =
    store_packet-IsValid b r id pkt (made-register st id r ex) (register-IsValid id r ex lt e f v)
record_packet-IsValid st (fine id) b r pkt none none v lt e f = v
record_packet-IsValid st mysql_error b r pkt none ex v lt e f = v
record_packet-IsValid st other_error b r pkt none ex v lt e f = v

-- A round of the database thread keeps the store valid, for all answers of the database.
pub write_one-IsValid : (a b : Answer) (st : Store) → IsValid st → IsValid (write_one a b st)
unfolding write_one
write_one-IsValid a b st v = by_queue st.db_queue refl
  where
    by_queue : (l : List (ℕ × Packet)) → st.db_queue ≡ l → IsValid (write_one a b st)
    by_queue [] e = rw (e, write_one) v
    by_queue (q ∷ rest) e =
        let (v', j) = popped q rest e v in
        rw (e, write_one)
          (record_packet-IsValid (record st { db_queue = rest }) a b q.0 q.1 _ _ v' j.0 refl refl)

update_self :
    (st : Store) (r i : ℕ) (ex : Connection)
    → ((register (fine i) r (st.objs r) ex st).objs r).sessionid ≡ some i
unfolding register
update_self st r i ex = ground (arith, ==_iff r r)

register-queue :
    (st : Store) (r i : ℕ) (ex : Connection)
    → (register (fine i) r (st.objs r) ex st).db_queue ≡ st.db_queue
unfolding register
register-queue st r i ex = refl

register-rows :
    (st : Store) (r i : ℕ) (ex : Connection) (pkt : Packet)
    → st.rows ++ (row_for r i (st.objs r) ex ∷ [] ++ packet_row i (as_stored pkt) ∷ [])
      ≡ (register (fine i) r (st.objs r) ex st).rows ++ packet_row i (as_stored pkt) ∷ []
unfolding register
register-rows st r i ex pkt =
    sym
      (append_assoc (st.rows) (row_for r i (st.objs r) ex ∷ []) (packet_row i (as_stored pkt) ∷ []))

record_packet-Delivered :
    (st : Store) (i j r : ℕ) (pkt : Packet) (rest : List (ℕ × Packet)) (id : Option ℕ)
    (ex : Option Connection)
    → IsValid st
    → r < st.next
    → is_some ex ≡ true
    → (st.objs r).sessionid ≡ id
    → (st.objs r).external ≡ ex
    → st.db_queue ≡ rest
    → Delivered st (record_packet (fine i) (fine j) r (st.objs r) pkt id ex st) i r pkt rest
unfolding record_packet store_packet row_for
record_packet-Delivered st i j r pkt rest (some id) ex v lt joined e f g = record {
  id = id;
  new = [];
  row = as_stored pkt;
  appended = refl;
  added = rw e (refl, refl);
  stored = as_stored-StoredAs pkt;
  owner = e;
  in_table = rw made-append (In-append_left (r, id) (made st.rows) _ (v.known r id lt e));
  left = g;
}
record_packet-Delivered st i j r pkt rest none (some ex) v lt joined e f g = record {
  id = i;
  new = row_for r i (st.objs r) ex ∷ [];
  row = as_stored pkt;
  appended = sym (register-rows st r i ex pkt);
  added = rw e (refl, (ex, (f, refl)));
  stored = as_stored-StoredAs pkt;
  owner = update_self st r i ex;
  in_table = rw made-append (
      In-append_left (r, i) (made (register (fine i) r (st.objs r) ex st).rows) _
        (made-register st i r ex));
  left = register-queue st r i ex ∙ g;
}
record_packet-Delivered st i j r pkt rest none none v lt joined e f g = cc

-- From a valid store with a packet in the queue, a round in which the database executes what it is
-- asked adds one row of a packet, the last one, and in front of it the row of the packet's session if that
-- has none, and no other row. The packet is the one at the head, complete as it was reported but for its
-- timestamp, except that for the destination port 8443 the protocol and the cipher suite are those of SSL
-- 3.0; it is under the id of its own session, which has a row with that id. The rest of the queue stays.
pub write_one-Delivered :
    (st : Store) (i j r : ℕ) (pkt : Packet) (rest : List (ℕ × Packet))
    → IsValid st
    → st.db_queue ≡ (r, pkt) ∷ rest
    → Delivered st (write_one (fine i) (fine j) st) i r pkt rest
unfolding write_one
write_one-Delivered st i j r pkt rest v e =
    let (v', joined) = popped (r, pkt) rest e v in
    let round =
      record_packet-Delivered (record st { db_queue = rest }) i j r pkt rest _ _ v' joined.0
        joined.1 refl refl refl in
    rw (e, write_one)
      (record {
        id = round.id;
        new = round.new;
        row = round.row;
        appended = round.appended;
        added = round.added;
        stored = round.stored;
        owner = round.owner;
        in_table = round.in_table;
        left = round.left;
      })
