-- ===== src/Midman/Store/Validity.antt =====
-- The invariant of the store: references are to objects that exist, the queue is within its size, and
-- a session with a queued packet has both of its sides. What each operation of the store keeps.
use middle_man.Base.{
  ℕ, ◌≤◌, ◌<◌, ◌≡◌, ◌≢◌, refl, ◌⊎◌, inl, inr, String, true, Option, some, is_some, List, [], ◌∷◌,
  ◌++◌, append-nil, arith, Bool-cases, length, length-append, All, All-append, All-imp, All-In, In,
  ltb, ==_iff,
}
use middle_man.Midman.Connection.{Connection}
use middle_man.Midman.Session.{Session, Packet, contains}
use middle_man.Midman.Store.{
  Row, session_row, packet_row, certificate_row, end_row, made, referred, Answers, Store,
  queue_size, update, write, find_in, find_session, remove, report_packet, report_all, executed,
  succeeds, with_retry,
}

-- the object behind `r` exists and has its external side
abbrev pub IsJoined : Store → ℕ → Type 0
IsJoined st r = (r < st.next) × (is_some (st.objs r).external ≡ true)

-- no object has two rows
abbrev pub Distinct : List (ℕ × ℕ) → Type 0
Distinct [] = Unit
Distinct (p ∷ ps) = All (λ q. p.0 ≢ q.0) ps × Distinct ps

pub record IsValid (st : Store) : Type 0 where
  pub live : All (λ r. r < st.next) st.sessions
  pub room : length st.db_queue ≤ queue_size
  pub queued : All (λ q. IsJoined st q.0) st.db_queue
  -- an object has the id of its row, and a row if it has an id
  pub numbered : All (λ p. (p.0 < st.next) × ((st.objs p.0).sessionid ≡ some p.1)) (made st.rows)
  pub known : (r id : ℕ) → r < st.next → (st.objs r).sessionid ≡ some id → In (r, id) (made st.rows)
  pub once : Distinct (made st.rows)
  -- a row of a packet refers to the row of a session
  pub owned : All (λ id. (r : ℕ) × In (r, id) (made st.rows)) (referred st.rows)

-- a session never loses its external side, and keeps its id
pub record Grows (s t : Session) : Type 0 where
  pub joined : is_some s.external ≡ true → is_some t.external ≡ true
  pub same_id : t.sessionid ≡ s.sessionid

pub made-append : (xs ys : List Row) → made (xs ++ ys) ≡ made xs ++ made ys
unfolding made
made-append [] ys = refl
made-append (session_row r id i e ts sni ∷ xs) ys = rw (made-append xs ys)
made-append (packet_row id pkt ∷ xs) ys = made-append xs ys
made-append (certificate_row c ∷ xs) ys = made-append xs ys
made-append (end_row id ts ∷ xs) ys = made-append xs ys

pub referred-append : (xs ys : List Row) → referred (xs ++ ys) ≡ referred xs ++ referred ys
unfolding referred
referred-append [] ys = refl
referred-append (session_row r id i e ts sni ∷ xs) ys = referred-append xs ys
referred-append (packet_row id pkt ∷ xs) ys = rw (referred-append xs ys)
referred-append (certificate_row c ∷ xs) ys = referred-append xs ys
referred-append (end_row id ts ∷ xs) ys = referred-append xs ys

pub find_in-In :
    (objs : ℕ → Session) (item : Connection) (rs : List ℕ) (r : ℕ)
    → find_in objs item rs ≡ some r
    → In r rs × (contains (objs r) item ≡ true)
unfolding find_in
find_in-In objs item [] r h = cc
find_in-In objs item (q ∷ rs) r h = elim (Bool-cases (contains (objs q) item)) [
  | inl e ↦ let k : q ≡ r = ground arith in (inl (ground arith), ground arith)
  | inr e ↦ let (i, c) = find_in-In objs item rs r (rw e at h) in (inr i, c)
]

pub find_session-lt :
    {st : Store} (c : Connection) (r : ℕ) → IsValid st → find_session st c ≡ some r → r < st.next
unfolding find_session
find_session-lt {st} c r v h =
    All-In (λ r. r < st.next) r st.sessions v.live (find_in-In st.objs c st.sessions r h).0

pub write-IsValid :
    {st : Store} (r : ℕ) (s : Session) → IsValid st → Grows (st.objs r) s → IsValid (write st r s)
write-IsValid {st} r s v g = record {
  live = v.live;
  room = v.room;
  queued = All-imp st.db_queue (λ q h. ground (arith, ==_iff q.0 r, g.joined)) v.queued;
  numbered = All-imp (made st.rows) (λ p h. ground (arith, ==_iff p.0 r, g.same_id)) v.numbered;
  known = λ q id lt e. v.known q id lt (same q id e);
  once = v.once;
  owned = v.owned;
}
  where
    same : (q id : ℕ) → (update st.objs r s q).sessionid ≡ some id → (st.objs q).sessionid ≡ some id
    same q id e = ground (arith, ==_iff q r, g.same_id)

report_packet-IsValid :
    {st : Store} (r : ℕ) (pkt : Packet)
    → IsValid st
    → IsJoined st r
    → IsValid (report_packet st r pkt)
unfolding report_packet
report_packet-IsValid {st} r pkt v j = elim (Bool-cases (ltb (length st.db_queue) queue_size)) [
  | inl e ↦ rw e (record {
    live = v.live;
    room = ground (arith, length-append st.db_queue ((r, pkt) ∷ []));
    queued = All-append _ st.db_queue ((r, pkt) ∷ []) v.queued (j, tt);
    numbered = v.numbered;
    known = v.known;
    once = v.once;
    owned = v.owned;
  })
  | inr e ↦ rw e v
]

report_packet-IsJoined :
    (st : Store) (r : ℕ) (pkt : Packet) → IsJoined st r → IsJoined (report_packet st r pkt) r
unfolding report_packet
report_packet-IsJoined st r pkt j = ground arith

pub report_all-IsValid :
    (st : Store) (r : ℕ) (pkts : List Packet)
    → IsValid st
    → (pkts ≡ []) ⊎ IsJoined st r
    → IsValid (report_all st r pkts)
unfolding report_all
report_all-IsValid st r [] v j = v
report_all-IsValid st r (pkt ∷ pkts) v (inl e) = cc
report_all-IsValid st r (pkt ∷ pkts) v (inr j) =
    report_all-IsValid (report_packet st r pkt) r pkts (report_packet-IsValid r pkt v j)
      (inr (report_packet-IsJoined st r pkt j))

pub remove-All :
    (P : ℕ → Type 0) (objs : ℕ → Session) (r : ℕ) (rs : List ℕ)
    → All P rs
    → All P (remove objs r rs)
unfolding remove
remove-All P objs r [] h = tt
remove-All P objs r (q ∷ rs) h = ground (arith, remove-All P objs r rs h.1)

-- a row that is neither a session nor a packet
abbrev pub IsPlain : Row → Type 0
IsPlain row = (made (row ∷ []) ≡ []) × (referred (row ∷ []) ≡ [])

executed-IsValid : {st : Store} (row : Row) → IsPlain row → IsValid st → IsValid (executed st row)
executed-IsValid {st} row (no_session, no_packet) v =
    let m : made (st.rows ++ row ∷ []) ≡ made st.rows =
      rw (made-append, no_session) (append-nil (made st.rows)) in
    let p : referred (st.rows ++ row ∷ []) ≡ referred st.rows =
      rw (referred-append, no_packet) (append-nil (referred st.rows)) in
    record {
      live = v.live;
      room = v.room;
      queued = v.queued;
      numbered = rw m v.numbered;
      known = λ r id lt e. rw m (v.known r id lt e);
      once = rw m v.once;
      owned = rw (p, m) v.owned;
    }

-- a call of the database adds at most its row
pub with_retry-IsValid :
    {st : Store} (a : Answers) (row : Row)
    → IsPlain row
    → IsValid st
    → IsValid (with_retry a row st)
unfolding with_retry
with_retry-IsValid {st} a row plain v = elim (Bool-cases (succeeds a.call a.reconnect a.again)) [
  | inl e ↦ rw e (executed-IsValid row plain v)
  | inr e ↦ rw e v
]

pub certificate-IsPlain : (c : String) → IsPlain (certificate_row c)
unfolding made referred
certificate-IsPlain c = (refl, refl)

pub end-IsPlain : (id : ℕ) (ts : Option ℕ) → IsPlain (end_row id ts)
unfolding made referred
end-IsPlain id ts = (refl, refl)
