-- ===== src/Midman/Session/Reports.antt =====
-- What `check_packet` reports, the delay that it writes, and the call that finds no plaintext.
use middle_man.Base.{
  ℕ, ◌-◌, ◌*◌, ◌≤◌, ◌<◌, ◌≡◌, refl, inl, inr, true, none, some, [], arith, Bool-cases, ltb,
  if◌then◌else◌,
}
use middle_man.Midman.Fault.{unbound_local, raised}
use middle_man.Midman.Connection.{Connection, conn_eq}
use middle_man.Midman.Session.{Session, delay, sweep, store, check_packet, Swept, broken, swept}
use middle_man.Midman.Session.Search.{IsSorted}
use middle_man.Midman.Session.Sweep.{AllMeasured, packets, sweep-Measured}

-- the timestamps of a connection, in the order in which they were appended
pub record IsTimed (c : Connection) : Type 0 where
  pub received : IsSorted c.cipher_recv_tss
  pub sent : IsSorted c.cipher_send_tss

module _ (isqrt : ℕ → ℕ) where
  packets-store :
      (put : Connection → Session) (conn : Connection) (r : Swept)
      → (store isqrt put conn r).2 ≡ packets r
  unfolding store
  packets-store put conn (broken f rest out) = refl
  packets-store put conn (swept left none out) = refl
  packets-store put conn (swept left (some c) out) = refl

  swept_from :
      (conn to_conn : Connection)
      → IsTimed conn
      → IsTimed to_conn
      → AllMeasured isqrt conn to_conn conn.plain_data
          (packets (sweep isqrt conn to_conn conn.plain_data [] none []))
  swept_from conn to_conn a b =
      sweep-Measured isqrt conn to_conn a.received b.sent conn.plain_data conn.plain_data [] none []
        (λ q i. i) tt

  -- For a session with both sides, whose ciphertext timestamps were appended in order: every packet
  -- that `check_packet` reports carries an item of plaintext of the side that did not send (the
  -- external side if the call is for the internal one, else the internal side), and its delay is
  -- measured from the last ciphertext received there before that item to the first ciphertext sent
  -- on to the other side after it.
  pub check_packet-Measured :
      (s : Session) (to_conn ex : Connection)
      → s.external ≡ some ex
      → IsTimed s.internal
      → IsTimed ex
      → if conn_eq to_conn s.internal
        then AllMeasured isqrt ex s.internal ex.plain_data (check_packet isqrt s to_conn).2
        else AllMeasured isqrt s.internal ex s.internal.plain_data (check_packet isqrt s to_conn).2
  unfolding check_packet
  check_packet-Measured s to_conn ex e ti te = elim (Bool-cases (conn_eq to_conn s.internal)) [
    | inl y ↦ rw (e, y, packets-store) (swept_from ex s.internal te ti)
    | inr n ↦ elim (Bool-cases (conn_eq to_conn ex)) [
      | inl y ↦ rw (e, n, y, packets-store) (swept_from s.internal ex ti te)
      | inr n' ↦ rw (e, n, n') tt
    ]
  ]

  -- When the side that the call reads from has no plaintext, `check_packet` raises on the variable
  -- that only the loop assigns; it changes nothing and reports nothing.
  pub check_packet_idle :
      (s : Session) (to_conn ex : Connection)
      → s.external ≡ some ex
      → conn_eq to_conn s.internal ≡ true
      → ex.plain_data ≡ []
      → check_packet isqrt s to_conn ≡ (raised unbound_local, s, [])
  unfolding check_packet sweep store
  check_packet_idle s to_conn ex e y nothing = ground (arith)

-- `isqrt` never exceeds the square root
abbrev pub IsRoot : (ℕ → ℕ) → Type 0
IsRoot isqrt = (n : ℕ) → isqrt n * isqrt n ≤ n

-- The delay of a packet never exceeds the time between its two timestamps. Past 100 ms it is
-- smaller, and otherwise it is that time.
pub delay_lem :
    (isqrt : ℕ → ℕ) (lo hi : ℕ)
    → IsRoot isqrt
    → if ltb 100_000 (hi - lo) then (delay isqrt lo hi < hi - lo) else (delay isqrt lo hi ≡ hi - lo)
unfolding delay
delay_lem isqrt lo hi root = elim (Bool-cases (ltb 100_000 (hi - lo))) [
  | inl long ↦ rw long (
      by_square (isqrt (100_000 * (hi - lo))) (hi - lo) (root (100_000 * (hi - lo))) (ground arith))
  | inr short ↦ rw short
]
  where
    by_square : (r d : ℕ) → r * r ≤ 100_000 * d → 100_000 < d → r < d
    by_square r d h k = grind arith
