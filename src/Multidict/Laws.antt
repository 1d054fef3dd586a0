-- ===== src/Multidict/Laws.antt =====
-- What reading, writing and deleting a key of a multidict do to it and to the other keys.
use middle_man.Base.{
  ◌≡◌, ◌≢◌, ◌↔◌, refl, Bool, true, false, Option, none, some, List, [], ◌∷◌, ◌++◌, map, arith,
  if◌then◌else◌,
}
use middle_man.Multidict.{
  values_of, get_all, get_item, contains, set_loop, set_all, set_item, without, del_item, add,
}

-- the equality of keys decides `≡`
abbrev pub Decides : {K : Type 0} → (K → K → Bool) → Type 0
Decides {K} eq = (a b : K) → (eq a b ≡ true) ↔ (a ≡ b)

module _ {K V : Type 0} (eq : K → K → Bool) (kconv : K → K) (eq_iff : Decides eq) where
  values_of-fresh :
      (key : K) (vs : List V) → values_of eq kconv (kconv key) (map (λ v. (key, v)) vs) ≡ vs
  unfolding values_of
  values_of-fresh key [] = refl
  values_of-fresh key (v ∷ vs) =
      ground (arith, eq_iff (kconv key) (kconv key), values_of-fresh key vs)

  values_of-set_loop_self :
      (key : K) (fields : List (K × V)) (vs : List V)
      → values_of eq kconv (kconv key) (set_loop eq kconv key (kconv key) fields vs) ≡ vs
  unfolding values_of set_loop
  values_of-set_loop_self key [] vs = values_of-fresh key vs
  values_of-set_loop_self key (field ∷ fields) [] =
      ground (arith, values_of-set_loop_self key fields [])
  values_of-set_loop_self key (field ∷ fields) (v ∷ vs) =
      ground
        (arith, values_of-set_loop_self key fields vs, values_of-set_loop_self key fields (v ∷ vs))

  without-fresh :
      (key : K) (vs : List V) → without eq kconv (kconv key) (map (λ v. (key, v)) vs) ≡ []
  unfolding without
  without-fresh key [] = refl
  without-fresh key (v ∷ vs) = ground (arith, eq_iff (kconv key) (kconv key), without-fresh key vs)

  without-set_loop :
      (key : K) (fields : List (K × V)) (vs : List V)
      → without eq kconv (kconv key) (set_loop eq kconv key (kconv key) fields vs)
        ≡ without eq kconv (kconv key) fields
  unfolding without set_loop
  without-set_loop key [] vs = without-fresh key vs
  without-set_loop key (field ∷ fields) [] = ground (arith, without-set_loop key fields [])
  without-set_loop key (field ∷ fields) (v ∷ vs) =
      ground (arith, without-set_loop key fields vs, without-set_loop key fields (v ∷ vs))

  -- After `set_all` the key has exactly the given values, in their order, and the fields of all other
  -- keys are what they were, in their order.
  pub set_all_lem :
      (key : K) (vs : List V) (fields : List (K × V))
      → (get_all eq kconv key (set_all eq kconv key vs fields) ≡ vs)
        × (without eq kconv (kconv key) (set_all eq kconv key vs fields)
            ≡ without eq kconv (kconv key) fields)
  unfolding get_all set_all
  set_all_lem key vs fields =
      (values_of-set_loop_self key fields vs, without-set_loop key fields vs)

  values_of-without :
      (k key : K) (fields : List (K × V))
      → values_of eq kconv k (without eq kconv key fields)
        ≡ (if eq k key then [] else values_of eq kconv k fields)
  unfolding values_of without
  values_of-without k key [] = ground arith
  values_of-without k key (field ∷ fields) = ground (
    arith,
    values_of-without k key fields,
    eq_iff (kconv field.0) key,
    eq_iff (kconv field.0) k,
    eq_iff k key,
  )

  -- the values of another key after `set_all`
  pub get_all-set_all_other :
      (k key : K) (vs : List V) (fields : List (K × V))
      → eq (kconv k) (kconv key) ≡ false
      → get_all eq kconv k (set_all eq kconv key vs fields) ≡ get_all eq kconv k fields
  unfolding get_all set_all
  get_all-set_all_other k key vs fields other = ground (
    arith,
    other,
    values_of-without (kconv k) (kconv key) (set_loop eq kconv key (kconv key) fields vs),
    values_of-without (kconv k) (kconv key) fields,
    without-set_loop key fields vs,
  )

  -- what `del self[key]` does: the KeyError for a key with no values, or the new fields
  abbrev pub Deleted : K → List (K × V) → Option (List (K × V)) → Type 0
  Deleted key fields none = get_all eq kconv key fields ≡ []
  Deleted key fields (some fields') =
      (get_all eq kconv key fields ≢ [])
      × ((k : K)
          → get_all eq kconv k fields'
            ≡ (if eq (kconv k) (kconv key) then [] else get_all eq kconv k fields))

  -- `del` raises exactly for a key that is not there. Else the keys that are converted like it have no
  -- values afterwards, and all others have the values that they had.
  pub del_item-Deleted :
      (key : K) (fields : List (K × V)) → Deleted key fields (del_item eq kconv key fields)
  unfolding del_item get_all
  del_item-Deleted key fields = by_values (values_of eq kconv (kconv key) fields) refl
    where
      by_values :
          (l : List V)
          → values_of eq kconv (kconv key) fields ≡ l
          → Deleted key fields (del_item eq kconv key fields)
      by_values [] e = rw (e, contains) e
      by_values (v ∷ vs) e =
          rw (e, contains) (λ nil. cc (e, nil), λ k. values_of-without (kconv k) (kconv key) fields)

  -- `add` puts the value behind those that the key has, and leaves the other keys.
  pub get_all-add :
      (k key : K) (value : V) (fields : List (K × V))
      → get_all eq kconv k (add eq kconv key value fields) ≡ (
          if eq (kconv key) (kconv k)
          then get_all eq kconv k fields ++ value ∷ []
          else get_all eq kconv k fields)
  unfolding get_all add values_of
  get_all-add k key value [] = ground arith
  get_all-add k key value (field ∷ fields) = ground (arith, get_all-add k key value fields)

  -- A key that was set alone reads back as the one value, whatever the fields were.
  pub get_item-set_item :
      (reduce : V → List V → V) (key : K) (value : V) (fields : List (K × V))
      → get_item eq kconv reduce key (set_item eq kconv key value fields) ≡ some (reduce value [])
  unfolding get_item set_item get_all set_all
  get_item-set_item reduce key value fields =
      rw (values_of-set_loop_self key fields (value ∷ []), get_item) refl
