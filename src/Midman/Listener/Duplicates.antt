-- ===== src/Midman/Listener/Duplicates.antt =====
-- A ciphertext that arrives with no plaintext to pair it with is stored again by every retry.
use middle_man.Base.{
  ℕ, zero, suc, ◌+◌, ◌≡◌, refl, ap, ◌∙◌, sym, Bool, true, false, Option, some, List, [], ◌∷◌, ◌++◌,
  append_assoc, arith, ==_iff, replicate, ◌==◌, ltb, Bool-cases, inl, inr, append-nil,
}
use middle_man.Midman.Fault.{raised, unbound_local}
use middle_man.Midman.Connection.{Address, CipherRecord, Connection, from_tuple, conn_eq}
use middle_man.Midman.Connection.Equality.{conn_eq_refl}
use middle_man.Midman.Session.{Session, contains}
use middle_man.Midman.Session.Reports.{check_packet_idle}
use middle_man.Midman.Store.{Answers, Store, update, write, find_in, find_session, report_all}
use middle_man.Midman.Reporter.{
  Direction, recv, send, ciphertext, Side, side_of, get_side, put_side, add_time, add_record,
  conn_ciphertext, check_and_report, ciphertext_at, ciphertext_handle, handle,
}
use middle_man.Midman.Listener.{retry, listening, drain, read_line}

-- The message is about the internal side of the session `r`, whose external side has no plaintext.
pub record IsIdle (st : Store) (conn : Connection) (r : ℕ) (ex : Connection) : Type 0 where
  pub found : find_session st conn ≡ some r
  pub own : conn_eq (st.objs r).internal conn ≡ true
  pub joined : (st.objs r).external ≡ some ex
  pub nothing : ex.plain_data ≡ []

==_refl : (r : ℕ) → (r == r) ≡ true
==_refl r = (==_iff r r).1 refl

find_in-cong :
    (objs objs' : ℕ → Session) (item : Connection) (rs : List ℕ)
    → ((q : ℕ) → contains (objs' q) item ≡ contains (objs q) item)
    → find_in objs' item rs ≡ find_in objs item rs
unfolding find_in
find_in-cong objs objs' item [] h = refl
find_in-cong objs objs' item (q ∷ rs) h = ground (arith, h q, find_in-cong objs objs' item rs h)

module _ (b64decode : List ℕ → Option (List ℕ)) (app_data : List ℕ → Option Bool)
    (isqrt : ℕ → ℕ) where
  module _ (d : Direction) (rec : CipherRecord) where
    -- the connection with the record stored once more
    touched : Bool → Connection → Connection
    touched true c = add_record b64decode app_data rec (add_time b64decode app_data d rec.ts c)
    touched false c = add_record b64decode app_data rec c

    conn_eq-touched : (b : Bool) (c x : Connection) → conn_eq (touched b c) x ≡ conn_eq c x
    unfolding touched add_record add_time conn_eq
    conn_eq-touched true c x = by_direction d
      where
        by_direction :
            (e : Direction)
            → conn_eq (add_record b64decode app_data rec (add_time b64decode app_data e rec.ts c)) x
              ≡ conn_eq c x
        by_direction recv = refl
        by_direction send = refl
    conn_eq-touched false c x = refl

    records-touched :
        (b : Bool) (c : Connection) → (touched b c).cipher_records ≡ c.cipher_records ++ rec ∷ []
    unfolding touched add_record add_time
    records-touched true c = by_direction d
      where
        by_direction :
            (e : Direction)
            → (add_record b64decode app_data rec
                (add_time b64decode app_data e rec.ts c)).cipher_records
              ≡ c.cipher_records ++ rec ∷ []
        by_direction recv = refl
        by_direction send = refl
    records-touched false c = refl

    -- what one more attempt leaves
    again : Bool → ℕ → Store → Store
    again b r st = write st r (record (st.objs r) { internal = touched b (st.objs r).internal })

    again-IsIdle :
        (b : Bool) (st : Store) (conn : Connection) (r : ℕ) (ex : Connection)
        → IsIdle st conn r ex
        → IsIdle (again b r st) conn r ex
    unfolding again find_session contains
    again-IsIdle b st conn r ex i = record {
      found = find_in-cong st.objs objs' conn st.sessions same ∙ i.found;
      own = rw (==_refl r) (conn_eq-touched b (st.objs r).internal conn ∙ i.own);
      joined = rw (==_refl r) i.joined;
      nothing = i.nothing;
    }
      where
        touched_session : Session
        touched_session = record (st.objs r) { internal = touched b (st.objs r).internal }

        objs' : ℕ → Session
        objs' = update st.objs r touched_session

        kept : contains touched_session conn ≡ contains (st.objs r) conn
        kept = rw (conn_eq-touched b (st.objs r).internal conn)

        same : (q : ℕ) → contains (objs' q) conn ≡ contains (st.objs q) conn
        same q = elim (Bool-cases (q == r)) [ inl e ↦ rw (e, (==_iff q r).0 e) kept | inr e ↦ rw e ]

    module _ (binary : List ℕ) (b : Bool) (decoded : b64decode rec.payload ≡ some binary)
        (layer : app_data binary ≡ some b) where
      conn_ciphertext-touched :
          (c : Connection) → conn_ciphertext b64decode app_data d rec c ≡ some (touched b c)
      unfolding conn_ciphertext touched
      conn_ciphertext-touched c = ground (arith, decoded, layer)

      attempt_internal :
          (st : Store) (conn : Connection) (r : ℕ) (ex : Connection)
          → IsIdle st conn r ex
          → ciphertext_at b64decode app_data isqrt d rec st r Side.internal
            ≡ (raised unbound_local, again b r st)
      unfolding ciphertext_at check_and_report report_all get_side put_side again
      attempt_internal st conn r ex i =
          let c = touched b (st.objs r).internal in
          let s : Session = record (st.objs r) { internal = c } in
          rw (
            conn_ciphertext-touched (st.objs r).internal,
            ciphertext_at,
            check_packet_idle isqrt s c ex i.joined (conn_eq_refl c) i.nothing,
          )

      -- one attempt: the record is stored, and then `check_packet` raises
      attempt :
          (st : Store) (conn : Connection) (r : ℕ) (ex : Connection)
          → IsIdle st conn r ex
          → ciphertext_handle b64decode app_data isqrt conn d rec st
            ≡ (raised unbound_local, again b r st)
      unfolding ciphertext_handle side_of
      attempt st conn r ex i =
          rw (i.found, ciphertext_handle, i.own, side_of) (attempt_internal st conn r ex i)

      iterate : ℕ → ℕ → Store → Store
      iterate zero r st = st
      iterate (suc n) r st = iterate n r (again b r st)

      -- the attempts from the one that is retry `k` on
      drain-iterate :
          (f k : ℕ) (a : Answers) (peer sock : Address) (st : Store) (r : ℕ) (ex : Connection)
          → k + f ≡ 20
          → IsIdle st (from_tuple peer sock) r ex
          → drain b64decode app_data isqrt
              (suc f)
              (record { message = ciphertext peer sock d rec; answers = a; retry_times = k } ∷ [])
              st
            ≡ listening [] (iterate (suc f) r st)
      unfolding drain retry handle iterate
      drain-iterate zero k a peer sock st r ex last i =
          rw (attempt st (from_tuple peer sock) r ex i) (ground arith)
      drain-iterate (suc f) k a peer sock st r ex more i =
          let low : ltb k 20 ≡ true = ground arith in
          rw (attempt st (from_tuple peer sock) r ex i, low)
            (drain-iterate f (k + 1) a peer sock (again b r st) r ex (omega arith)
              (again-IsIdle b st (from_tuple peer sock) r ex i))

      records-iterate :
          (n : ℕ) (r : ℕ) (st : Store)
          → ((iterate n r st).objs r).internal.cipher_records
            ≡ (st.objs r).internal.cipher_records ++ replicate n rec
      unfolding iterate
      records-iterate zero r st = sym (append-nil _)
      records-iterate (suc n) r st =
          records-iterate n r (again b r st)
          ∙ (ap (λ l. l ++ replicate n rec) (once r st)
              ∙ append_assoc (st.objs r).internal.cipher_records (rec ∷ []) (replicate n rec))
        where
          once :
              (r : ℕ) (st : Store)
              → ((again b r st).objs r).internal.cipher_records
                ≡ (st.objs r).internal.cipher_records ++ rec ∷ []
          once r st = unfold again in rw (==_refl r) (records-touched b (st.objs r).internal)

      -- One line of the pipe, for a ciphertext of the internal side of a session whose external side
      -- has no plaintext waiting, with a payload that decodes: it ends with the buffer empty and with
      -- the record stored 21 times.
      pub read_line-replicate :
          (a : Answers) (peer sock : Address) (st : Store) (r : ℕ) (ex : Connection)
          → IsIdle st (from_tuple peer sock) r ex
          → (st' : Store) × (read_line b64decode app_data isqrt 21 (ciphertext peer sock d rec) a st
              ≡ listening [] st')
            × ((st'.objs r).internal.cipher_records
                ≡ (st.objs r).internal.cipher_records ++ replicate 21 rec)
      unfolding read_line
      read_line-replicate a peer sock st r ex i = (
        iterate 21 r st,
        drain-iterate 20 0 a peer sock st r ex (omega arith) i,
        records-iterate 21 r st,
      )
