-- ===== src/Http/Headers.antt =====
-- `Headers` of mitmproxy/http.py: a multidict over names that are equal up to case. `native` stands for
-- decoding as UTF-8 with surrogate escapes.
use middle_man.Base.{ℕ, Bool, Option, none, some, List, [], ◌∷◌, map, ◌==◌, if◌then◌else◌}
use middle_man.Multidict
use middle_man.Http.ContentType.{Parameters, set_parameter}
use middle_man.Http.Text.{Bytes, codes, bytes_eq, lower, join}

abbrev pub Fields : Type 0
Fields = List (Bytes × Bytes)

-- the raw values of a name, `MultiDict.get_all`
unfoldable pub raw_all : Bytes → Fields → List Bytes
unfolding Multidict.get_all lower
raw_all name fields = Multidict.get_all bytes_eq lower name fields

-- `name in headers`
unfoldable pub in_headers : Bytes → Fields → Bool
unfolding Multidict.contains lower
in_headers name fields = Multidict.contains bytes_eq lower name fields

module _ (native : Bytes → List ℕ) where
  -- `Headers.get_all`
  unfoldable pub get_all : Bytes → Fields → List Bytes
  unfolding raw_all
  get_all name fields = map native (raw_all name fields)

  -- `headers.get(name)`: the values, folded
  unfoldable pub get : Bytes → Fields → Option Bytes
  unfolding get_all join
  get name fields = elim (get_all name fields) [
    | [] ↦ none
    | v ∷ vs ↦ some (join (codes ", ") (v ∷ vs))
  ]

-- `__bytes__` is in Read. The operations that change headers, on names and values that are bytes:
-- `_always_bytes` leaves those.
unfoldable pub set_all : Bytes → List Bytes → Fields → Fields
unfolding Multidict.set_all lower
set_all name values fields = Multidict.set_all bytes_eq lower name values fields

unfoldable pub del_item : Bytes → Fields → Option Fields
unfolding Multidict.del_item lower
del_item key fields = Multidict.del_item bytes_eq lower key fields

unfoldable pub insert : ℕ → Bytes → Bytes → Fields → Fields
unfolding Multidict.insert
insert index key value fields = Multidict.insert index key value fields

-- `__iter__`: the names as texts
unfoldable pub iter : (Bytes → List ℕ) → Fields → List Bytes
unfolding Multidict.iter lower
iter native fields = map native (Multidict.iter bytes_eq lower fields)

-- `replace(b"_", b"-")`
unfoldable pub dashed : Bytes → Bytes
dashed name = map (λ c. if c == b'_' then b'-' else c) name

-- `update` with the entries of a dict
unfoldable pub update : List (Bytes × Bytes) → Fields → Fields
unfolding set_all
update [] fields = fields
update ((name, value) ∷ entries) fields = update entries (set_all name (value ∷ []) fields)

-- encoding as UTF-8 with surrogate escapes, with `none` for the UnicodeEncodeError
module _ (always_bytes : List ℕ → Option Bytes) where
  -- the dict of the keyword arguments, with a dash for each underscore
  unfoldable pub named : List (Bytes × Bytes) → Parameters → Option Parameters
  unfolding set_parameter dashed
  named [] entries = some entries
  named ((name, value) ∷ headers) entries = elim (always_bytes name) [
    | none ↦ none
    | some name ↦ elim (always_bytes value) [
      | none ↦ none
      | some value ↦ named headers (set_parameter (dashed name) value entries)
    ]
  ]

  -- `__init__` for fields of bytes, and keyword arguments in their order
  unfoldable pub new_headers : Fields → List (Bytes × Bytes) → Option Fields
  unfolding named update
  new_headers fields headers = elim (named headers []) [
    | none ↦ none
    | some entries ↦ some (update entries fields)
  ]

  -- `self[key]` of a text, with `none` for its exceptions
  unfoldable pub get_item : (Bytes → List ℕ) → Bytes → Fields → Option Bytes
  unfolding get
  get_item native key fields = elim (always_bytes key) [
    | none ↦ none
    | some name ↦ get native name fields
  ]

  unfoldable pub items_of : (Bytes → List ℕ) → List Bytes → Fields → Option (List (Bytes × Bytes))
  unfolding get_item
  items_of native [] fields = some []
  items_of native (key ∷ keys) fields = elim (get_item native key fields) [
    | none ↦ none
    | some value ↦ elim (items_of native keys fields) [
      | none ↦ none
      | some rest ↦ some ((key, value) ∷ rest)
    ]
  ]

  -- `items`
  unfoldable pub items : (Bytes → List ℕ) → Bool → Fields → Option (List (Bytes × Bytes))
  unfolding items_of iter
  items native multi fields =
      if multi
      then some (map (λ field. (native field.0, native field.1)) fields)
      else items_of native (iter native fields) fields
