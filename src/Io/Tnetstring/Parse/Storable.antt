-- ===== src/Io/Tnetstring/Parse/Storable.antt =====
-- The values that mitmproxy/io/tnetstring.py can write and read again, and what becomes of their dicts.
use middle_man.Base.{◌≡◌, refl, Bool, true, false, not, ◌&&◌, some, arith}
use middle_man.Io.Tnetstring.{
  Value, null, boolean, integer, float, bytes, str, list, dict, Values, nil, cons, Entries, end,
  entry,
}
use middle_man.Io.Tnetstring.Parse.{Python, is_hashable, set_entry}

-- a pair at the end of a dict
unfoldable pub add_last : Value → Value → Entries → Entries
add_last key val end = entry key val end
add_last key val (entry k v entries) = entry k v (add_last key val entries)

-- a value with the pairs of every dict in the reverse order; keys are no dicts
unfoldable mutual
  unfolding add_last

  pub flipped : Value → Value
  flipped (list values) = list (flipped_values values)
  flipped (dict entries) = dict (flipped_entries entries)
  flipped value = value

  pub flipped_values : Values → Values
  flipped_values nil = nil
  flipped_values (cons item values) = cons (flipped item) (flipped_values values)

  pub flipped_entries : Entries → Entries
  flipped_entries end = end
  flipped_entries (entry k v entries) = add_last k (flipped v) (flipped_entries entries)

module _ (python : Python) where
  -- no key of a dict equals the one given
  abbrev pub is_fresh : Value → Entries → Bool
  is_fresh key end = true
  is_fresh key (entry k v entries) = not (python.same_key k key) && is_fresh key entries

  -- values as Python has them: floats whose `repr` reads as itself, and dicts of distinct hashable keys
  unfoldable mutual
    pub IsStorable : Value → Type 0
    IsStorable (float repr) = python.read_float repr ≡ some repr
    IsStorable (list values) = IsStorableValues values
    IsStorable (dict entries) = IsStorableEntries entries
    IsStorable value = Unit

    pub IsStorableValues : Values → Type 0
    IsStorableValues nil = Unit
    IsStorableValues (cons item values) = IsStorable item × IsStorableValues values

    pub IsStorableEntries : Entries → Type 0
    IsStorableEntries end = Unit
    IsStorableEntries (entry k v entries) =
        ((is_hashable k ≡ true) × (is_fresh k entries ≡ true))
        × (IsStorable k × (IsStorable v × IsStorableEntries entries))

  pub set_entry-fresh :
      (key val : Value) (d : Entries)
      → is_fresh key d ≡ true
      → set_entry python key val d ≡ add_last key val d
  unfolding set_entry add_last
  set_entry-fresh key val end h = refl
  set_entry-fresh key val (entry k v d) h =
      let here : python.same_key k key ≡ false = ground (arith, h) in
      rw (here, set_entry-fresh key val d (ground (arith, h))) refl

  fresh-add_last :
      (key k v : Value) (d : Entries)
      → python.same_key k key ≡ false
      → is_fresh key d ≡ true
      → is_fresh key (add_last k v d) ≡ true
  unfolding add_last
  fresh-add_last key k v end e h = rw e refl
  fresh-add_last key k v (entry k' v' d) e h =
      ground (arith, h, fresh-add_last key k v d e (ground (arith, h)))

  pub fresh-flipped :
      (key : Value) (entries : Entries)
      → is_fresh key entries ≡ true
      → is_fresh key (flipped_entries entries) ≡ true
  unfolding flipped
  fresh-flipped key end h = refl
  fresh-flipped key (entry k v entries) h =
      fresh-add_last key k (flipped v) (flipped_entries entries) (ground (arith, h))
        (fresh-flipped key entries (ground (arith, h)))

  pub flipped-hashable : (key : Value) → is_hashable key ≡ true → flipped key ≡ key
  unfolding flipped
  flipped-hashable null h = refl
  flipped-hashable (boolean b) h = refl
  flipped-hashable (integer n) h = refl
  flipped-hashable (float s) h = refl
  flipped-hashable (bytes s) h = refl
  flipped-hashable (str s) h = refl
  flipped-hashable (list values) h = ground (arith, h)
  flipped-hashable (dict entries) h = ground (arith, h)
