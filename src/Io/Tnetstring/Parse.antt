-- ===== src/Io/Tnetstring/Parse.antt =====
-- The reading half of mitmproxy/io/tnetstring.py, with `none` for the exceptions, and the end of the file
-- apart in `load`.
pub mod Netstring
pub mod Storable
pub mod Rounds
pub mod RoundTrip
pub mod Shorter
pub mod Enough
pub mod Runs
use middle_man.Base.{
  ℕ, zero, suc, ◌+◌, ◌-◌, ◌*◌, ◌≡◌, refl, Bool, true, false, not, ◌&&◌, ◌||◌, Option, none, some,
  [], ◌∷◌, ◌++◌, ltb, leb, ◌==◌, if◌then◌else◌, length, ℤ, pos, negsuc, signed,
}
use middle_man.Http.Text.{Bytes, codes, bytes_eq, is_digit, to_int, strip}
use middle_man.Http.Read.{is_space_byte}
use middle_man.Http.Assemble.{int_of}
use middle_man.Io.Tnetstring.Parts.{
  Tag, bytes_tag, str_tag, integer_tag, float_tag, boolean_tag, null_tag, list_tag, dict_tag,
  other_tag, tag_of, read_int, take, drop, cut, Parts, parts_of,
}
use middle_man.Io.Tnetstring.{
  Value, null, boolean, integer, float, bytes, str, list, dict, Values, nil, cons, Entries, end,
  entry,
}

-- what the code takes from Python: the decoding of texts, `float` as the `repr` of what it reads, and
-- the equality of keys
pub record Python : Type 0 where
  pub utf8_decode : Bytes → Option Bytes
  pub read_float : Bytes → Option Bytes
  pub same_key : Value → Value → Bool

-- whether a value can be a key of a dict
abbrev pub is_hashable : Value → Bool
is_hashable (list values) = false
is_hashable (dict entries) = false
is_hashable _ = true

abbrev pub read_boolean : Bytes → Option Value
read_boolean payload =
    if bytes_eq payload (codes "true")
    then some (boolean true)
    else if bytes_eq payload (codes "false")
    then some (boolean false)
    else none

abbrev pub read_null : Bytes → Option Value
read_null [] = some null
read_null (c ∷ s) = none

abbrev pub read_integer : Option (Bool × ℕ) → Option Value
read_integer none = none
read_integer (some (negative, n)) = some (integer (signed negative n))

abbrev pub str_of : Option Bytes → Option Value
str_of none = none
str_of (some s) = some (str s)

abbrev pub float_of : Option Bytes → Option Value
float_of none = none
float_of (some s) = some (float s)

abbrev pub list_of : Option Values → Option Value
list_of none = none
list_of (some values) = some (list values)

abbrev pub dict_of : Option Entries → Option Value
dict_of none = none
dict_of (some entries) = some (dict entries)

abbrev pub with_remain : Bytes → Option Value → Option (Value × Bytes)
with_remain remain none = none
with_remain remain (some value) = some (value, remain)

abbrev pub onto_values : Value → Option Values → Option Values
onto_values item none = none
onto_values item (some values) = some (cons item values)

-- the result of `load`: the ValueError of an empty file, another exception, or a value and the rest
pub data Loaded : Type 0 where
  empty invalid : Loaded
  loaded : Value → Bytes → Loaded

-- the length prefix, at most 12 digits, and what follows its colon; so many digits are read
unfoldable pub read_length : ℕ → Bytes → Option (Bytes × Bytes)
read_length count [] = none
read_length count (c ∷ s) =
    let more = read_length (suc count) s in
    if is_digit c
    then if ltb count 12
      then elim more [ none ↦ none | some found ↦ some (c ∷ found.0, found.1) ]
      else none
    else if c == b':'
    then some ([], s)
    else none

module _ (python : Python) where
  -- `d[key] = val`: a key that is there keeps its place
  unfoldable pub set_entry : Value → Value → Entries → Entries
  set_entry key val end = entry key val end
  set_entry key val (entry k v entries) =
      let rest = set_entry key val entries in
      if python.same_key k key then entry k val entries else entry k v rest

  module _ (pop : Bytes → Option (Value × Bytes)) where
    -- `while data` of a list; each round takes a byte at least, so the length bounds the rounds
    unfoldable pub pop_values : ℕ → Bytes → Option Values
    pop_values rounds [] = some nil
    pop_values zero (c ∷ s) = none
    pop_values (suc rounds) (c ∷ s) = elim (pop (c ∷ s)) [
      | none ↦ none
      | some found ↦ onto_values (found.0) (pop_values rounds (found.1))
    ]

    -- `while data` of a dict
    unfoldable pub pop_entries : ℕ → Entries → Bytes → Option Entries
    unfolding set_entry
    pop_entries rounds d [] = some d
    pop_entries zero d (c ∷ s) = none
    pop_entries (suc rounds) d (c ∷ s) = elim (pop (c ∷ s)) [
      | none ↦ none
      | some key ↦ elim (pop (key.1)) [
        | none ↦ none
        | some val ↦ elim (is_hashable (key.0)) [
          | false ↦ none
          | true ↦ pop_entries rounds (set_entry (key.0) (val.0) d) (val.1)
        ]
      ]
    ]

    unfoldable pub parse : Tag → Bytes → Option Value
    unfolding pop_values pop_entries read_int
    parse bytes_tag payload = some (bytes payload)
    parse str_tag payload = str_of (python.utf8_decode payload)
    parse integer_tag payload = read_integer (read_int payload)
    parse float_tag payload = float_of (python.read_float payload)
    parse boolean_tag payload = read_boolean payload
    parse null_tag payload = read_null payload
    parse list_tag payload = list_of (pop_values (length payload) payload)
    parse dict_tag payload = dict_of (pop_entries (length payload) end payload)
    parse other_tag payload = none

    -- what `pop` does with a payload, a tag and the rest
    unfoldable pub pop_parts : Option Parts → Option (Value × Bytes)
    unfolding parse tag_of
    pop_parts none = none
    pop_parts (some (payload, (tag, remain))) = with_remain remain (parse (tag_of tag) payload)

  -- The fuel bounds the depth of the values.
  unfoldable pub pop : ℕ → Bytes → Option (Value × Bytes)
  unfolding pop_parts parts_of
  pop zero s = none
  pop (suc fuel) s = pop_parts (pop fuel) (parts_of s)

  -- `pop` of the whole; no value is deeper than its bytes are long
  unfoldable pub loads : Bytes → Option Value
  unfolding pop
  loads s = elim (pop (length s) s) [ none ↦ none | some found ↦ some (found.0) ]

  abbrev pub load_parts : Option Parts → Loaded
  load_parts none = invalid
  load_parts (some (payload, (tag, remain))) =
      elim (parse (pop (length payload)) (tag_of tag) payload) [
        | none ↦ invalid
        | some value ↦ loaded value remain
      ]

  abbrev pub load_digits : Option (Bytes × Bytes) → Loaded
  load_digits none = invalid
  load_digits (some ([], rest)) = invalid
  load_digits (some (d ∷ digits, rest)) = load_parts (cut false (to_int 0 (d ∷ digits)) rest)

  unfoldable pub load : Bytes → Loaded
  unfolding read_length parse pop cut tag_of
  load [] = empty
  load (c ∷ s) = load_digits (read_length 0 (c ∷ s))
