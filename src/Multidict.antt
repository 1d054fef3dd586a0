-- ===== src/Multidict.antt =====
-- `_MultiDict` and `MultiDict` of mitmproxy/coretypes/multidict.py: a tuple of fields with several
-- values to a key. `kconv` is `_kconv` of the subclass and `eq` the equality of keys.
pub mod Laws
pub mod Keys
pub mod Items
mod Tests
use middle_man.Base.{
  ℕ, zero, suc, Bool, true, false, not, Option, none, some, List, [], ◌∷◌, ◌++◌, map, if◌then◌else◌,
  length,
}

module _ {K : Type 0} (eq : K → K → Bool) where
  abbrev pub member : K → List K → Bool
  member key [] = false
  member key (k ∷ ks) = if eq k key then true else member key ks

  -- a set of names, built by adding one after another
  unfoldable pub as_set : List K → List K → List K
  as_set seen [] = seen
  as_set seen (k ∷ ks) = as_set (if member k seen then seen else k ∷ seen) ks

module _ {K V : Type 0} where
  -- `self.fields[:index] + (item,) + self.fields[index:]` for an index from 0 on
  unfoldable pub insert : ℕ → K → V → List (K × V) → List (K × V)
  insert zero key value fields = (key, value) ∷ fields
  insert (suc index) key value [] = (key, value) ∷ []
  insert (suc index) key value (field ∷ fields) = field ∷ insert index key value fields

module _ {K V : Type 0} (eq : K → K → Bool) (kconv : K → K) where
  -- `self._kconv(k) == key` for a converted key
  abbrev pub has : K → K × V → Bool
  has key field = eq (kconv field.0) key

  -- the values of the fields whose converted name is `key`
  unfoldable pub values_of : K → List (K × V) → List V
  values_of key [] = []
  values_of key (field ∷ fields) =
      let rest = values_of key fields in if has key field then field.1 ∷ rest else rest

  unfoldable pub get_all : K → List (K × V) → List V
  unfolding values_of
  get_all key fields = values_of (kconv key) fields

  -- `__getitem__`, with `none` for the KeyError; `reduce` is `_reduce_values`
  unfoldable pub get_item : (V → List V → V) → K → List (K × V) → Option V
  get_item reduce key fields = elim (get_all key fields) [ [] ↦ none | v ∷ vs ↦ some (reduce v vs) ]

  -- `key in self`, by MutableMapping over `__getitem__`
  unfoldable pub contains : K → List (K × V) → Bool
  contains key fields = elim (get_all key fields) [ [] ↦ false | v ∷ vs ↦ true ]

  -- the loop of `set_all`, and its `while values`
  unfoldable pub set_loop : K → K → List (K × V) → List V → List (K × V)
  set_loop key key_kconv [] values = map (λ v. (key, v)) values
  set_loop key key_kconv (field ∷ fields) values = elim (has key_kconv field) [
    | true ↦ elim values [
      | [] ↦ set_loop key key_kconv fields []
      | v ∷ vs ↦ (field.0, v) ∷ set_loop key key_kconv fields vs
    ]
    | false ↦ field ∷ set_loop key key_kconv fields values
  ]

  unfoldable pub set_all : K → List V → List (K × V) → List (K × V)
  unfolding set_loop
  set_all key values fields = set_loop key (kconv key) fields values

  unfoldable pub set_item : K → V → List (K × V) → List (K × V)
  unfolding set_all
  set_item key value fields = set_all key (value ∷ []) fields

  -- the fields whose converted name is not `key`
  unfoldable pub without : K → List (K × V) → List (K × V)
  without key [] = []
  without key (field ∷ fields) =
      let rest = without key fields in if has key field then rest else field ∷ rest

  -- `__delitem__`, with `none` for the KeyError
  unfoldable pub del_item : K → List (K × V) → Option (List (K × V))
  unfolding contains without
  del_item key fields = if contains key fields then some (without (kconv key) fields) else none

  unfoldable pub add : K → V → List (K × V) → List (K × V)
  unfolding insert
  add key value fields = insert (length fields) key value fields

  -- `__iter__` from a set of converted names on
  unfoldable pub iter_from : List K → List (K × V) → List K
  iter_from seen [] = []
  iter_from seen (field ∷ fields) = elim (member eq (kconv field.0) seen) [
    | true ↦ iter_from seen fields
    | false ↦ field.0 ∷ iter_from (kconv field.0 ∷ seen) fields
  ]

  unfoldable pub iter : List (K × V) → List K
  unfolding iter_from
  iter fields = iter_from [] fields

  -- `__len__`
  unfoldable pub count : List (K × V) → ℕ
  unfolding as_set
  count fields = length (as_set eq [] (map (λ field. kconv field.0) fields))

  -- `ItemsView`: each key with `self[key]`, with `none` for a KeyError
  unfoldable pub items_of : (V → List V → V) → List K → List (K × V) → Option (List (K × V))
  unfolding get_item
  items_of reduce [] fields = some []
  items_of reduce (key ∷ keys) fields = elim (get_item reduce key fields) [
    | none ↦ none
    | some value ↦ elim (items_of reduce keys fields) [
      | none ↦ none
      | some rest ↦ some ((key, value) ∷ rest)
    ]
  ]

  -- `items`
  unfoldable pub items : (V → List V → V) → Bool → List (K × V) → Option (List (K × V))
  unfolding items_of iter
  items reduce multi fields = if multi then some fields else items_of reduce (iter fields) fields

  -- `keys`
  unfoldable pub keys : (V → List V → V) → Bool → List (K × V) → Option (List K)
  unfolding items
  keys reduce multi fields = elim (items reduce multi fields) [
    | none ↦ none
    | some l ↦ some (map (λ item. item.0) l)
  ]

  -- `values`
  unfoldable pub values : (V → List V → V) → Bool → List (K × V) → Option (List V)
  unfolding items
  values reduce multi fields = elim (items reduce multi fields) [
    | none ↦ none
    | some l ↦ some (map (λ item. item.1) l)
  ]
