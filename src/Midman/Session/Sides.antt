-- ===== src/Midman/Session/Sides.antt =====
-- `check_packet` and `set_conn_cipher` keep the sides of a session; with one side nothing is reported.
use middle_man.Base.{
  ℕ, ◌≡◌, refl, ◌⊎◌, inl, inr, true, Option, none, some, is_some, [], arith, Bool-cases, String,
}
use middle_man.Midman.Connection.{Connection, conn_eq}
use middle_man.Midman.Session.{
  Session, store, check_sides, check_packet, set_conn_cipher, Swept, broken, swept,
}

module _ (isqrt : ℕ → ℕ) where
  store-external :
      (put : Connection → Session) (conn : Connection) (r : Swept)
      → ((c : Connection) → is_some (put c).external ≡ true)
      → is_some (store isqrt put conn r).1.external ≡ true
  unfolding store
  store-external put conn (broken f rest out) h = h _
  store-external put conn (swept left none out) h = h _
  store-external put conn (swept left (some c) out) h = h _

  -- the session has its external side after the call, or nothing was reported
  pub check_packet_sides :
      (s : Session) (to_conn : Connection)
      → ((check_packet isqrt s to_conn).2 ≡ [])
        ⊎ (is_some (check_packet isqrt s to_conn).1.external ≡ true)
  unfolding check_packet
  check_packet_sides s to_conn = by_external s.external refl
    where
      by_external :
          (x : Option Connection)
          → s.external ≡ x
          → ((check_sides isqrt s to_conn x).2 ≡ [])
            ⊎ (is_some (check_sides isqrt s to_conn x).1.external ≡ true)
      by_external none e = inl refl
      by_external (some ex) e = elim (Bool-cases (conn_eq to_conn s.internal)) [
        | inl y ↦ rw y (inr (store-external _ ex _ (λ c. refl)))
        | inr n ↦ elim (Bool-cases (conn_eq to_conn ex)) [
          | inl y ↦ rw (n, y) (inr (store-external _ s.internal _ (λ c. rw e refl)))
          | inr n' ↦ rw (n, n') (inl refl)
        ]
      ]

  pub check_packet-Grows :
      (s : Session) (to_conn : Connection)
      → is_some s.external ≡ true
      → is_some (check_packet isqrt s to_conn).1.external ≡ true
  unfolding check_packet
  check_packet-Grows s to_conn h = by_external s.external refl
    where
      by_external :
          (x : Option Connection)
          → s.external ≡ x
          → is_some (check_sides isqrt s to_conn x).1.external ≡ true
      by_external none e = h
      by_external (some ex) e = elim (Bool-cases (conn_eq to_conn s.internal)) [
        | inl y ↦ rw y (store-external _ ex _ (λ c. refl))
        | inr n ↦ elim (Bool-cases (conn_eq to_conn ex)) [
          | inl y ↦ rw (n, y) (store-external _ s.internal _ (λ c. rw e refl))
          | inr n' ↦ rw (n, n') h
        ]
      ]

  store-sessionid :
      (put : Connection → Session) (conn : Connection) (r : Swept) (id : Option ℕ)
      → ((c : Connection) → (put c).sessionid ≡ id)
      → (store isqrt put conn r).1.sessionid ≡ id
  unfolding store
  store-sessionid put conn (broken f rest out) id h = h _
  store-sessionid put conn (swept left none out) id h = h _
  store-sessionid put conn (swept left (some c) out) id h = h _

  pub check_packet-sessionid :
      (s : Session) (to_conn : Connection)
      → (check_packet isqrt s to_conn).1.sessionid ≡ s.sessionid
  unfolding check_packet
  check_packet-sessionid s to_conn = by_external s.external
    where
      by_external :
          (x : Option Connection) → (check_sides isqrt s to_conn x).1.sessionid ≡ s.sessionid
      by_external none = refl
      by_external (some ex) = elim (Bool-cases (conn_eq to_conn s.internal)) [
        | inl y ↦ rw y (store-sessionid _ ex _ s.sessionid (λ c. refl))
        | inr n ↦ elim (Bool-cases (conn_eq to_conn ex)) [
          | inl y ↦ rw (n, y) (store-sessionid _ s.internal _ s.sessionid (λ c. refl))
          | inr n' ↦ rw (n, n') refl
        ]
      ]

pub set_conn_cipher-sessionid :
    (s : Session) (conn : Connection) (suite version alpn : Option String)
    → (set_conn_cipher s conn suite version alpn).1.sessionid ≡ s.sessionid
unfolding set_conn_cipher
set_conn_cipher-sessionid s conn suite version alpn = ground arith

pub set_conn_cipher-Grows :
    (s : Session) (conn : Connection) (suite version alpn : Option String)
    → is_some s.external ≡ true
    → is_some (set_conn_cipher s conn suite version alpn).1.external ≡ true
unfolding set_conn_cipher
set_conn_cipher-Grows s conn suite version alpn h = ground arith
