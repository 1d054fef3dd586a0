-- ===== src/Midman/Session/Sweep.antt =====
-- The loop of `check_packet`: what it reports, and what becomes of the plaintext.
use middle_man.Base.{
  ℕ, ◌≤◌, ◌<◌, ◌≡◌, refl, inl, inr, Option, none, some, List, [], ◌∷◌, ◌++◌, arith, Bool-cases, ltb,
  length, All, All-append, In,
}
use middle_man.Midman.Connection.{PlainData, CipherRecord, Connection}
use middle_man.Midman.Session.{
  Packet, both, delay, packet_for, search, after_send, examine, sweep, Verdict, fail, wait,
  searched, Swept, broken, swept, last_before, first_after, last, after_recv, take_record,
}
use middle_man.Midman.Session.Search.{
  IsSorted, last_before-some, last_before-max, first_after-some, first_after-min,
}

pub after_recv-searched :
    (plain : PlainData) (o : Option ℕ) (v : Verdict) (c : List CipherRecord) (k : Option Packet)
    → after_recv plain o v ≡ searched c k
    → v ≡ searched c k
unfolding after_recv
after_recv-searched plain none v c k h = cc
after_recv-searched plain (some t) v c k h = ground arith

abbrev pub packets : Swept → List Packet
packets (broken f rest out) = out
packets (swept left c out) = out

module _ (isqrt : ℕ → ℕ) (conn to_conn : Connection) where
  -- The packet reports the item `plain`, and its delay is measured between the last ciphertext
  -- received before the item and the first one sent on after it.
  pub record Measured (plain : PlainData) (pkt : Packet) : Type 0 where
    pub lo : ℕ
    pub hi : ℕ
    pub received : In lo conn.cipher_recv_tss
    pub sent : In hi to_conn.cipher_send_tss
    pub before : lo < plain.ts
    pub after : plain.ts < hi
    pub newest : (t : ℕ) → In t conn.cipher_recv_tss → t < plain.ts → t ≤ lo
    pub soonest : (t : ℕ) → In t to_conn.cipher_send_tss → plain.ts < t → hi ≤ t
    pub stamped : pkt.timestamp ≡ plain.ts
    pub carried : pkt.payload ≡ plain.bytes
    pub sized : pkt.packet_size ≡ length plain.bytes
    pub delayed : pkt.delay ≡ delay isqrt lo hi
    pub from_conn : pkt.source ≡ conn.ends.peername
    pub to_other : pkt.destination ≡ to_conn.ends.peername

  packet_for-Measured :
      (plain : PlainData) (a b : Option ℕ) (blob : Option (List ℕ)) (pkt : Packet)
      → packet_for isqrt conn to_conn plain a b blob ≡ some pkt
      → IsSorted conn.cipher_recv_tss
      → IsSorted to_conn.cipher_send_tss
      → last_before plain.ts conn.cipher_recv_tss none ≡ a
      → first_after plain.ts to_conn.cipher_send_tss ≡ b
      → Measured plain pkt
  unfolding packet_for both
  packet_for-Measured plain (some lo) (some hi) blob pkt h sr ss la fa =
      let s = first_after-some plain.ts to_conn.cipher_send_tss hi fa in
      elim (last_before-some plain.ts conn.cipher_recv_tss none lo la) [
        | inl e ↦ cc
        | inr r ↦ record {
          lo = lo;
          hi = hi;
          received = r.0;
          sent = s.0;
          before = r.1;
          after = s.1;
          newest = λ t i k. last_before-max plain.ts conn.cipher_recv_tss none lo t sr la i k;
          soonest = λ t i k. first_after-min plain.ts to_conn.cipher_send_tss hi t ss fa i k;
          stamped = ground arith;
          carried = ground arith;
          sized = ground arith;
          delayed = ground arith;
          from_conn = ground arith;
          to_other = ground arith;
        }
      ]
  packet_for-Measured plain (some lo) none blob pkt h sr ss la fa = cc
  packet_for-Measured plain none b blob pkt h sr ss la fa = cc

  after_send-Measured :
      (plain : PlainData) (newest : Option ℕ) (c : List CipherRecord) (pkt : Packet)
      → after_send isqrt conn to_conn plain (last_before plain.ts conn.cipher_recv_tss none) newest
        ≡ searched c (some pkt)
      → IsSorted conn.cipher_recv_tss
      → IsSorted to_conn.cipher_send_tss
      → Measured plain pkt
  unfolding after_send search
  after_send-Measured plain none c pkt h sr ss = cc
  after_send-Measured plain (some t) c pkt h sr ss = elim (Bool-cases (ltb t plain.ts)) [
    | inl e ↦ cc (rw e at h)
    | inr e ↦
        let a = last_before plain.ts conn.cipher_recv_tss none in
        let b = first_after plain.ts to_conn.cipher_send_tss in
        let blob = (take_record a b conn.cipher_records []).0 in
        let found : packet_for isqrt conn to_conn plain a b blob ≡ some pkt = cc (rw e at h) in
        packet_for-Measured plain a b blob pkt found sr ss refl refl
  ]

  -- an item that is reported is measured between its two neighbours
  pub examine-Measured :
      (plain : PlainData) (c : List CipherRecord) (pkt : Packet)
      → examine isqrt conn to_conn plain ≡ searched c (some pkt)
      → IsSorted conn.cipher_recv_tss
      → IsSorted to_conn.cipher_send_tss
      → Measured plain pkt
  unfolding examine
  examine-Measured plain c pkt h sr ss =
      after_send-Measured plain (last to_conn.cipher_send_tss) c pkt
        (after_recv-searched plain _ _ c (some pkt) h) sr ss

  -- every reported packet measures one of the items that the loop started with
  abbrev pub AllMeasured : List PlainData → List Packet → Type 0
  AllMeasured items = All (λ pkt. (plain : PlainData) × In plain items × Measured plain pkt)

  module _ (sr : IsSorted conn.cipher_recv_tss) (ss : IsSorted to_conn.cipher_send_tss) where
    pub sweep-Measured :
        (items todo left : List PlainData) (c : Option (List CipherRecord)) (out : List Packet)
        → ((p : PlainData) → In p todo → In p items)
        → AllMeasured items out
        → AllMeasured items (packets (sweep isqrt conn to_conn todo left c out))
    unfolding sweep
    sweep-Measured items [] left c out sub ok = ok
    sweep-Measured items (p ∷ todo) left c out sub ok =
        by_verdict (examine isqrt conn to_conn p) refl
          (λ left c out ok. sweep-Measured items todo left c out (λ q i. sub q (inr i)) ok)
      where
        by_verdict :
            (v : Verdict)
            → examine isqrt conn to_conn p ≡ v
            → ((left : List PlainData) (c : Option (List CipherRecord)) (out : List Packet)
                → AllMeasured items out
                → AllMeasured items (packets (sweep isqrt conn to_conn todo left c out)))
            → AllMeasured items (packets (sweep isqrt conn to_conn (p ∷ todo) left c out))
        by_verdict (fail f) e rec = rw (e, packets, sweep) ok
        by_verdict wait e rec = rw (e, packets, sweep) (rec _ _ out ok)
        by_verdict (searched k none) e rec = rw (e, packets, sweep) (rec _ _ out ok)
        by_verdict (searched k (some pkt)) e rec =
            rw (e, packets, sweep)
              (rec _ _ (out ++ pkt ∷ []) (
                All-append _ out (pkt ∷ []) ok
                  ((p, sub p (inl refl), examine-Measured p k pkt e sr ss), tt)))
