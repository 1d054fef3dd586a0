-- ===== src/Midman/Writer/Stored.antt =====
-- What the database thread stores of a packet, in the words of the packet and its session.
use middle_man.Base.{
  ℕ, ◌≡◌, ◌≢◌, refl, inl, inr, none, some, List, [], ◌∷◌, ◌++◌, Bool-cases, In, ◌==◌, ==_iff,
}
use middle_man.Midman.Connection.{Connection}
use middle_man.Midman.Session.{Session, Packet}
use middle_man.Midman.Store.{Row, PacketRow, session_row, packet_row, made, Store}
use middle_man.Midman.Writer.{as_stored}

-- What is stored of a packet: all of it as it is, but for the protocol and the cipher suite, which are
-- those of SSL 3.0 for the destination port 8443.
pub record StoredAs (pkt : Packet) (row : PacketRow) : Type 0 where
  pub source : row.source ≡ pkt.source
  pub destination : row.destination ≡ pkt.destination
  pub payload : row.payload ≡ pkt.payload
  pub packet_size : row.packet_size ≡ pkt.packet_size
  pub delay : row.delay ≡ pkt.delay
  pub alpn : row.alpn ≡ pkt.alpn
  pub cipher_data : row.cipher_data ≡ pkt.cipher_data
  pub replaced :
      pkt.destination.port ≡ 8443
      → (row.protocol_version ≡ some "SSL3.0")
        × (row.cipher_suite ≡ some "SSL_RSA_WITH_RC4_128_MD5")
  pub kept :
      pkt.destination.port ≢ 8443
      → (row.protocol_version ≡ pkt.protocol_version) × (row.cipher_suite ≡ pkt.cipher_suite)

pub as_stored-StoredAs : (pkt : Packet) → StoredAs pkt (as_stored pkt)
unfolding as_stored
as_stored-StoredAs pkt =
    let is_8443 = ==_iff pkt.destination.port 8443 in
    record {
      source = refl;
      destination = refl;
      payload = refl;
      packet_size = refl;
      delay = refl;
      alpn = refl;
      cipher_data = refl;
      replaced = λ e. rw (is_8443.1 e) (refl, refl);
      kept = λ n. elim (Bool-cases (pkt.destination.port == 8443)) [
        | inl e ↦ absurd (n (is_8443.0 e))
        | inr e ↦ rw e (refl, refl)
      ];
    }

-- The rows that a round adds in front of the packet: none for a session that has an id, else the row of
-- the session with its two addresses, its start and its name, under the id that the database gives.
abbrev pub Added : Session → ℕ → ℕ → ℕ → List Row → Type 0
Added s r id i new = elim (s.sessionid) [
  | some old ↦ (new ≡ []) × (id ≡ old)
  | none ↦
      (id ≡ i)
      × ((external : Connection) × ((s.external ≡ some external)
            × (new
                ≡ session_row r i (s.internal.ends.peername) (external.ends.peername) (s.ts_start)
                    (s.external_sni)
                  ∷ [])))
]

-- What a round on `st` that stores the packet `pkt` of the object `r` leaves, where the database numbers
-- a new session `i`.
pub record Delivered (st st' : Store) (i r : ℕ) (pkt : Packet) (rest : List (ℕ × Packet))
    : Type 0 where
  pub id : ℕ
  pub new : List Row
  pub row : PacketRow
  pub appended : st'.rows ≡ st.rows ++ (new ++ packet_row id row ∷ [])
  pub added : Added (st.objs r) r id i new
  pub stored : StoredAs pkt row
  pub owner : (st'.objs r).sessionid ≡ some id
  pub in_table : In (r, id) (made st'.rows)
  pub left : st'.db_queue ≡ rest
