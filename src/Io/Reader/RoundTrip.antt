-- ===== src/Io/Reader/RoundTrip.antt =====
-- A file that a FlowWriter has written gives a FlowReader the flows back.
use mathlib.Core.Path.{subst}
use middle_man.Base.{
  ℕ, zero, suc, ◌≤◌, ◌≡◌, refl, ◌∙◌, ap, sym, Bool, true, false, Option, none, some, List, [], ◌∷◌,
  ◌++◌, append_assoc, append-nil, arith, length, length-append, All, ◌==◌,
}
use middle_man.Http.Text.{Bytes, is_digit, all_digits, codes}
use middle_man.Http.Assemble.{starts_with, decimal}
use middle_man.Http.Assemble.Response.{is_filled}
use middle_man.Io.Tnetstring.{
  Value, int_text, null, boolean, integer, float, bytes, str, list, dict, dumps,
}
use middle_man.Io.Tnetstring.Format.{
  netstring, tagged, encode, encode_values, encode_entries, dumps-encode,
}
use middle_man.Io.Tnetstring.Parse.{Python, loaded, load}
use middle_man.Io.Tnetstring.Parse.Netstring.{digits_of}
use middle_man.Io.Tnetstring.Parse.Storable.{flipped, IsStorable}
use middle_man.Io.Tnetstring.Parse.RoundTrip.{load-dumps}
use middle_man.Io.Reader.{
  finished, Ending, add, add_all, stream_loop, stream_of, stream, without_mark,
}

-- the first byte of a netstring is a digit
abbrev opens_digit : Bytes → Bool
opens_digit [] = false
opens_digit (c ∷ s) = is_digit c

abbrev AllOpen : Option Bytes → Type 0
AllOpen none = Unit
AllOpen (some s) = opens_digit s ≡ true

netstring-opens : (tag : ℕ) (payload : Bytes) → opens_digit (netstring tag payload) ≡ true
unfolding netstring
netstring-opens tag payload = by_digits (decimal (length payload)) (digits_of (length payload))
  where
    by_digits :
        (s : Bytes)
        → (all_digits s ≡ true) × (is_filled s ≡ true)
        → opens_digit (s ++ (b':' ∷ (payload ++ tag ∷ []))) ≡ true
    by_digits [] h = ground (arith, h)
    by_digits (c ∷ s) h = ground (arith, h)

tagged-opens : (tag : ℕ) (payload : Option Bytes) → AllOpen (tagged tag payload)
tagged-opens tag none = tt
tagged-opens tag (some payload) = netstring-opens tag payload

encode-opens :
    (utf8_encode : Bytes → Option Bytes) (value : Value) → AllOpen (encode utf8_encode value)
unfolding encode
encode-opens utf8_encode null = netstring-opens b'~' []
encode-opens utf8_encode (boolean true) = netstring-opens b'!' (codes "true")
encode-opens utf8_encode (boolean false) = netstring-opens b'!' (codes "false")
encode-opens utf8_encode (integer n) = netstring-opens b'#' (int_text n)
encode-opens utf8_encode (float repr) = netstring-opens b'^' repr
encode-opens utf8_encode (bytes payload) = netstring-opens b',' payload
encode-opens utf8_encode (str s) = tagged-opens b';' (utf8_encode s)
encode-opens utf8_encode (list values) = tagged-opens b']' (encode_values utf8_encode values)
encode-opens utf8_encode (dict entries) = tagged-opens b'}' (encode_entries utf8_encode entries)

dumps-opens :
    (utf8_encode : Bytes → Option Bytes) (value : Value) (s : Bytes)
    → dumps utf8_encode value ≡ some s
    → opens_digit s ≡ true
dumps-opens utf8_encode value s e =
    subst AllOpen (sym (dumps-encode utf8_encode value) ∙ e) (encode-opens utf8_encode value)

opens-length : (s : Bytes) → opens_digit s ≡ true → 1 ≤ length s
opens-length [] h = ground (arith, h)
opens-length (c ∷ s) h = omega arith

opens-append : (s t : Bytes) → opens_digit s ≡ true → opens_digit (s ++ t) ≡ true
opens-append [] t h = ground (arith, h)
opens-append (c ∷ s) t h = h

-- such bytes have no byte order mark and are no HAR file
opens-starts : (s : Bytes) → opens_digit s ≡ true → starts_with (codes "{") s ≡ false
opens-starts [] h = refl
opens-starts (c ∷ s) h = let brace : (b'{' == c) ≡ false = ground (arith, h) in rw brace refl

opens-without_mark : (s : Bytes) → opens_digit s ≡ true → without_mark s ≡ s
opens-without_mark [] h = refl
opens-without_mark (a ∷ []) h = refl
opens-without_mark (a ∷ b ∷ []) h = refl
opens-without_mark (a ∷ b ∷ c ∷ s) h =
    let mark : (239 == a) ≡ false = ground (arith, h) in rw mark refl

-- the states of some flows one after the other
data Dumped {F : Type 0} (utf8_encode : Bytes → Option Bytes) (get_state : F → Value)
    : List F → Bytes → Type 0 where
  none_left : Dumped utf8_encode get_state [] []
  one_more :
      (flow : F) (flows : List F) (d s : Bytes)
      → dumps utf8_encode (get_state flow) ≡ some d
      → Dumped utf8_encode get_state flows s
      → Dumped utf8_encode get_state (flow ∷ flows) (d ++ s)

module _ {F : Type 0} (utf8_encode : Bytes → Option Bytes) (get_state : F → Value) where
  add_all-Dumped :
      (flows : List F) (fo file : Bytes)
      → add_all utf8_encode get_state flows fo ≡ some file
      → (s : Bytes) × ((file ≡ fo ++ s) × Dumped utf8_encode get_state flows s)
  unfolding add_all add
  add_all-Dumped [] fo file e = ([], (ground (arith, e, append-nil fo), none_left))
  add_all-Dumped (flow ∷ flows) fo file e =
      by_dump (dumps utf8_encode (get_state flow)) refl (λ d. add_all-Dumped flows (fo ++ d) file) e
    where
      by_dump :
          (dumped : Option Bytes)
          → dumps utf8_encode (get_state flow) ≡ dumped
          → ((d : Bytes)
              → add_all utf8_encode get_state flows (fo ++ d) ≡ some file
              → (s : Bytes) × ((file ≡ (fo ++ d) ++ s) × Dumped utf8_encode get_state flows s))
          → (elim (elim dumped as (λ d. Option Bytes) [ none ↦ none | some d ↦ some (fo ++ d) ])
              as (λ d. Option Bytes) [
                | none ↦ none
                | some file ↦ add_all utf8_encode get_state flows file
              ])
            ≡ some file
          → (s : Bytes) × ((file ≡ fo ++ s) × Dumped utf8_encode get_state (flow ∷ flows) s)
      by_dump none f more e = ground (arith, e)
      by_dump (some d) f more e =
          let rest = more d e in
          (
            d ++ rest.0,
            (rest.1.0 ∙ append_assoc fo d rest.0, one_more flow flows d rest.0 f rest.1.1),
          )

module _ {F : Type 0} (python : Python) (utf8_encode : Bytes → Option Bytes)
    (decodes : (s b : Bytes) → utf8_encode s ≡ some b → python.utf8_decode b ≡ some s)
    (get_state : F → Value) (from_state : Value → Option F)
    (read_har : Bytes → List F × Ending) where
  -- A flow whose state can be stored and gives the flow again. Dicts of a state come back with their pairs
  -- in the reverse order.
  abbrev pub IsSaved : F → Type 0
  IsSaved flow =
      IsStorable python (get_state flow) × (from_state (flipped (get_state flow)) ≡ some flow)

  stream_loop-next :
      (flow : F) (rounds : ℕ) (value : Value) (s rest : Bytes)
      → load python s ≡ loaded value rest
      → from_state value ≡ some flow
      → stream_loop python from_state read_har (suc rounds) s ≡ (
        flow ∷ (stream_loop python from_state read_har rounds rest).0,
        (stream_loop python from_state read_har rounds rest).1,
      )
  unfolding stream_loop
  stream_loop-next flow rounds value s rest e f = rw (stream_loop, e, f) refl

  stream_loop-Dumped :
      (flows : List F) (s : Bytes) (rounds : ℕ)
      → Dumped utf8_encode get_state flows s
      → All IsSaved flows
      → length s ≤ 999999999999
      → suc (length s) ≤ rounds
      → stream_loop python from_state read_har rounds s ≡ (flows, finished)
  unfolding stream_loop load
  stream_loop-Dumped flows s zero dumped h bound enough = absurd (omega (arith, enough))
  stream_loop-Dumped _ _ (suc rounds) none_left h bound enough = refl
  stream_loop-Dumped _ _ (suc rounds) (one_more flow flows d s e dumped) h bound enough =
      let filled = opens-length d (dumps-opens utf8_encode (get_state flow) d e) in
      let sizes = length-append d s in
      stream_loop-next flow rounds (flipped (get_state flow)) (d ++ s) s
        (load-dumps python utf8_encode decodes (get_state flow) d s e h.0.0
          (omega (arith, bound, sizes))).1
        h.0.1
      ∙ ap (λ found. (flow ∷ found.0, found.1))
          (stream_loop-Dumped flows s rounds dumped h.1 (omega (arith, bound, sizes))
            (omega (arith, enough, sizes, filled)))

  stream-opens :
      (s : Bytes) (flows : List F × Ending)
      → opens_digit s ≡ true
      → stream_loop python from_state read_har (suc (length s)) s ≡ flows
      → stream python from_state read_har s ≡ flows
  unfolding stream stream_of
  stream-opens s flows h e =
      ap (stream_of python from_state read_har) (opens-without_mark s h)
      ∙ rw (stream_of, opens-starts s h) e

  stream-Dumped :
      (flows : List F) (s : Bytes)
      → Dumped utf8_encode get_state flows s
      → stream_loop python from_state read_har (suc (length s)) s ≡ (flows, finished)
      → stream python from_state read_har s ≡ (flows, finished)
  unfolding stream stream_of stream_loop load
  stream-Dumped _ _ none_left e = e
  stream-Dumped _ _ (one_more flow flows d s f dumped) e =
      stream-opens (d ++ s) (flow ∷ flows, finished)
        (opens-append d s (dumps-opens utf8_encode (get_state flow) d f)) e

  -- A file that a FlowWriter has filled with flows gives a FlowReader these flows in their order, and its
  -- end, where the states can be stored and the file is not longer than twelve digits can say.
  pub stream-add_all :
      (flows : List F) (file : Bytes)
      → add_all utf8_encode get_state flows [] ≡ some file
      → All IsSaved flows
      → length file ≤ 999999999999
      → stream python from_state read_har file ≡ (flows, finished)
  stream-add_all flows file e h bound =
      let written = add_all-Dumped utf8_encode get_state flows [] file e in
      let dumped = subst (Dumped utf8_encode get_state flows) (sym written.1.0) written.1.1 in
      stream-Dumped flows file dumped
        (stream_loop-Dumped flows file (suc (length file)) dumped h bound (omega arith))
