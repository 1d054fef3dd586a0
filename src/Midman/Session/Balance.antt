-- ===== src/Midman/Session/Balance.antt =====
-- No item of plaintext is lost or reported twice by `check_packet`, except when it raises.
use mathlib.Core.List.{concat-ne-nil, map-append, Perm, perm_middle, perm_append_comm}
use mathlib.Core.List.Perm
use mathlib.Core.Path.{subst}
use middle_man.Base.{
  ℕ, ◌≡◌, ◌≢◌, ◌↔◌, refl, ap, inl, inr, Option, none, some, List, [], ◌∷◌, ◌++◌, map, append_assoc,
  append-nil, arith, Bool-cases, ltb,
}
use middle_man.Midman.Fault.{Fault, value_error, Outcome, raised}
use middle_man.Midman.Connection.{PlainData, CipherRecord, Connection, conn_eq}
use middle_man.Midman.Session.{
  Session, Packet, both, packet_for, search, after_send, after_recv, examine, sweep, store,
  check_sides, check_packet, Verdict, fail, wait, searched, Swept, broken, swept, first_after,
  first, last, take_record,
}
use middle_man.Midman.Session.Sweep.{after_recv-searched}

-- the item of plaintext that a packet reports
abbrev pub item : Packet → PlainData
item pkt = record { ts = pkt.timestamp; bytes = pkt.payload }

-- the plaintext that waits on one side, and on both
abbrev pub plain_of : Option Connection → List PlainData
plain_of none = []
plain_of (some c) = c.plain_data

abbrev pub waiting : Session → List PlainData
waiting s = s.internal.plain_data ++ plain_of s.external

move_front {ℓ} :
    {A : Type ℓ} (xs ys ws zs : List A) → Perm (xs ++ (ys ++ (ws ++ zs))) (ws ++ (xs ++ (ys ++ zs)))
move_front xs ys ws zs =
    subst (λ l. Perm l (ws ++ (xs ++ (ys ++ zs)))) (simp append_assoc)
      (subst (λ l. Perm (((xs ++ ys) ++ ws) ++ zs) l) (simp append_assoc)
        (Perm.append_right zs (perm_append_comm (xs ++ ys) ws)))

module _ (isqrt : ℕ → ℕ) (conn to_conn : Connection) where
  packet_for-item :
      (plain : PlainData) (a b : Option ℕ) (blob : Option (List ℕ)) (pkt : Packet)
      → packet_for isqrt conn to_conn plain a b blob ≡ some pkt
      → item pkt ≡ plain
  unfolding packet_for both
  packet_for-item plain (some lo) (some hi) blob pkt h = ground arith
  packet_for-item plain (some lo) none blob pkt h = cc
  packet_for-item plain none b blob pkt h = cc

  after_send-item :
      (plain : PlainData) (a newest : Option ℕ) (c : List CipherRecord) (pkt : Packet)
      → after_send isqrt conn to_conn plain a newest ≡ searched c (some pkt)
      → item pkt ≡ plain
  unfolding after_send search
  after_send-item plain a none c pkt h = cc
  after_send-item plain a (some t) c pkt h = elim (Bool-cases (ltb t plain.ts)) [
    | inl e ↦ cc (rw e at h)
    | inr e ↦
        let b = first_after plain.ts to_conn.cipher_send_tss in
        let blob = (take_record a b conn.cipher_records []).0 in
        let found : packet_for isqrt conn to_conn plain a b blob ≡ some pkt = cc (rw e at h) in
        packet_for-item plain a b blob pkt found
  ]

  examine-item :
      (plain : PlainData) (c : List CipherRecord) (pkt : Packet)
      → examine isqrt conn to_conn plain ≡ searched c (some pkt)
      → item pkt ≡ plain
  unfolding examine
  examine-item plain c pkt h =
      after_send-item plain _ (last to_conn.cipher_send_tss) c pkt
        (after_recv-searched plain _ _ c (some pkt) h)

  after_send-ne-fail :
      (plain : PlainData) (a newest : Option ℕ) (f : Fault)
      → after_send isqrt conn to_conn plain a newest ≢ fail f
  unfolding after_send search
  after_send-ne-fail plain a none f h = cc
  after_send-ne-fail plain a (some t) f h = ground arith

  -- the only exception of a round is the source's ValueError
  examine-fail :
      (plain : PlainData) (f : Fault) → examine isqrt conn to_conn plain ≡ fail f → f ≡ value_error
  unfolding examine after_recv
  examine-fail plain f h = by_first (first conn.cipher_recv_tss) refl
    where
      by_first : (o : Option ℕ) → first conn.cipher_recv_tss ≡ o → f ≡ value_error
      by_first none e = cc (rw e at h)
      by_first (some t) e = elim (Bool-cases (ltb plain.ts t)) [
        | inl k ↦ cc (rw (e, k) at h)
        | inr k ↦ absurd (after_send-ne-fail plain _ _ f (rw (e, k) at h))
      ]

  -- After the loop: what was reported and what is kept are the items, each as often as before. After
  -- an exception at least one item is in neither.
  abbrev Balanced : List PlainData → Swept → Type 0
  Balanced items (swept left c out) = Perm (map item out ++ left) items
  Balanced items (broken f rest out) =
      (lost : List PlainData) × (lost ≢ [])
      × (f ≡ value_error)
      × Perm (map item out ++ (lost ++ rest)) items

  sweep-Balanced :
      (items todo left : List PlainData) (c : Option (List CipherRecord)) (out : List Packet)
      → Perm (map item out ++ (left ++ todo)) items
      → Balanced items (sweep isqrt conn to_conn todo left c out)
  unfolding sweep
  sweep-Balanced items [] left c out h = rw append-nil at h
  sweep-Balanced items (p ∷ todo) left c out h =
      by_verdict (examine isqrt conn to_conn p) refl
        (λ left c out h. sweep-Balanced items todo left c out h)
    where
      kept : Perm (map item out ++ ((left ++ p ∷ []) ++ todo)) items
      kept = rw append_assoc h

      reported :
          (k : List CipherRecord) (pkt : Packet)
          → examine isqrt conn to_conn p ≡ searched k (some pkt)
          → Perm (map item (out ++ pkt ∷ []) ++ (left ++ todo)) items
      reported k pkt e =
          simp (map-append, append_assoc, examine-item p k pkt e)
            (Perm.trans (Perm.append_left (map item out) (Perm.symm (perm_middle left todo))) h)

      by_verdict :
          (v : Verdict)
          → examine isqrt conn to_conn p ≡ v
          → ((left : List PlainData) (c : Option (List CipherRecord)) (out : List Packet)
              → Perm (map item out ++ (left ++ todo)) items
              → Balanced items (sweep isqrt conn to_conn todo left c out))
          → Balanced items (sweep isqrt conn to_conn (p ∷ todo) left c out)
      by_verdict (fail f) e rec =
          rw (e, Balanced, sweep) (left ++ p ∷ [], concat-ne-nil p left, examine-fail p f e, kept)
      by_verdict wait e rec = rw (e, Balanced, sweep) (rec _ _ out kept)
      by_verdict (searched k none) e rec = rw (e, Balanced, sweep) (rec _ _ out kept)
      by_verdict (searched k (some pkt)) e rec =
          rw (e, Balanced, sweep) (rec left (some k) (out ++ pkt ∷ []) (reported k pkt e))

-- What a call of `check_packet` does to the plaintext that waits in its session.
abbrev pub Accounted : Session → Outcome × Session × List Packet → Type 0
Accounted s (o, s', pkts) =
    (lost : List PlainData) × Perm (map item pkts ++ (lost ++ waiting s')) (waiting s)
    × ((o ≡ raised value_error) ↔ (lost ≢ []))

module _ (isqrt : ℕ → ℕ) where
  -- the stored result, where `put` changes the list `before` of a session into the given one
  store-Accounted :
      (s : Session) (put : Connection → Session) (conn to_conn : Connection)
      (front back : List PlainData)
      → waiting s ≡ front ++ (conn.plain_data ++ back)
      → ((c : Connection) → waiting (put c) ≡ front ++ (c.plain_data ++ back))
      → Accounted s (store isqrt put conn (sweep isqrt conn to_conn conn.plain_data [] none []))
  unfolding store
  store-Accounted s put conn to_conn front back own other =
      by_result (sweep isqrt conn to_conn conn.plain_data [] none [])
        (sweep-Balanced isqrt conn to_conn conn.plain_data conn.plain_data [] none [] (Perm.refl _))
    where
      -- the other side's items stand on both sides of the permutation
      frame :
          (lost kept : List PlainData) (out : List Packet)
          → Perm (map item out ++ (lost ++ kept)) conn.plain_data
          → Perm (map item out ++ (lost ++ (front ++ (kept ++ back)))) (waiting s)
      frame lost kept out h = rw own (
          Perm.trans (move_front (map item out) lost front (kept ++ back)) (
            Perm.append_left front (
              subst (λ l. Perm l (conn.plain_data ++ back)) (simp append_assoc)
                (Perm.append_right back h))))

      by_result :
          (r : Swept)
          → Balanced isqrt conn to_conn conn.plain_data r
          → Accounted s (store isqrt put conn r)
      by_result (broken f rest out) (lost, some_lost, kind, h) =
          (lost, rw other (frame lost rest out h), (λ _. some_lost, λ _. ap raised kind))
      by_result (swept left none out) h =
          ([], rw other (frame [] left out h), (λ e. cc, λ ne. absurd (ne refl)))
      by_result (swept left (some c) out) h =
          ([], rw other (frame [] left out h), (λ e. cc, λ ne. absurd (ne refl)))

  -- Every item of plaintext that waits in the session before a call of `check_packet` is reported
  -- by it in one packet or still waits after it, and nothing else does, each as often as before;
  -- but if the call ends in the ValueError of its two checks, at least one item is lost, and only then.
  pub check_packet-Accounted :
      (s : Session) (to_conn : Connection) → Accounted s (check_packet isqrt s to_conn)
  unfolding check_packet
  check_packet-Accounted s to_conn = by_external s.external refl
    where
      by_external :
          (x : Option Connection) → s.external ≡ x → Accounted s (check_sides isqrt s to_conn x)
      by_external none e = ([], Perm.refl _, (λ e. cc, λ ne. absurd (ne refl)))
      by_external (some ex) e = elim (Bool-cases (conn_eq to_conn s.internal)) [
        | inl to_in ↦ rw to_in (
            store-Accounted s (λ c. record s { external = some c }) ex s.internal
              s.internal.plain_data [] (rw (e, append-nil) refl) (λ c. rw append-nil refl))
        | inr not_in ↦ elim (Bool-cases (conn_eq to_conn ex)) [
          | inl to_ex ↦
              rw (not_in, to_ex)
                (store-Accounted s (λ c. record s { internal = c }) s.internal ex [] ex.plain_data
                  (rw e refl) (λ c. rw e refl))
          | inr neither ↦ rw (not_in, neither) ([], Perm.refl _, (λ e. cc, λ ne. absurd (ne refl)))
        ]
      ]
