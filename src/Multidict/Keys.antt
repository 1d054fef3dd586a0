-- ===== src/Multidict/Keys.antt =====
-- Iteration gives each name once, and `count` counts the names.
use middle_man.Base.{
  ◌+◌, ◌≡◌, refl, inl, inr, Bool, true, false, ◌||◌, List, [], ◌∷◌, map, arith, Bool-cases, length,
}
use middle_man.Multidict.{member, iter_from, iter, as_set, count, values_of, get_all, contains}
use middle_man.Multidict.Laws.{Decides}

module _ {K : Type 0} (eq : K → K → Bool) where
  -- no name stands twice
  abbrev pub IsUnique : List K → Type 0
  IsUnique [] = Unit
  IsUnique (k ∷ ks) = (member eq k ks ≡ false) × IsUnique ks

module _ {K V : Type 0} (eq : K → K → Bool) (kconv : K → K) (eq_iff : Decides eq) where
  names : List (K × V) → List K
  names fields = map (λ field. kconv field.0) fields

  length-as_set :
      (seen : List K) (fields : List (K × V))
      → length (as_set eq seen (names fields))
        ≡ length seen + length (iter_from eq kconv seen fields)
  unfolding as_set iter_from names
  length-as_set seen [] = omega arith
  length-as_set seen (field ∷ fields) = elim (Bool-cases (member eq (kconv field.0) seen)) [
    | inl e ↦ rw (e, iter_from, as_set) (length-as_set seen fields)
    | inr e ↦ rw (e, iter_from, as_set) (omega (arith, length-as_set (kconv field.0 ∷ seen) fields))
  ]

  -- a converted name is seen already or comes up, exactly if it is seen already or has a field
  member-iter_from :
      (c : K) (seen : List K) (fields : List (K × V))
      → (member eq c seen || member eq c (map kconv (iter_from eq kconv seen fields)))
        ≡ (member eq c seen || member eq c (names fields))
  unfolding iter_from names
  member-iter_from c seen [] = refl
  member-iter_from c seen (field ∷ fields) = elim (Bool-cases (member eq (kconv field.0) seen)) [
    | inl e ↦
        rw (e, iter_from) (ground (arith, eq_iff (kconv field.0) c, member-iter_from c seen fields))
    | inr e ↦ rw (e, iter_from) (ground (arith, member-iter_from c (kconv field.0 ∷ seen) fields))
  ]

  contains-names :
      (k : K) (fields : List (K × V))
      → contains eq kconv k fields ≡ member eq (kconv k) (names fields)
  unfolding contains get_all values_of names
  contains-names k [] = refl
  contains-names k (field ∷ fields) = ground (arith, contains-names k fields)

  iter_from-unseen :
      (c : K) (seen : List K) (fields : List (K × V))
      → member eq c seen ≡ true
      → member eq c (map kconv (iter_from eq kconv seen fields)) ≡ false
  unfolding iter_from
  iter_from-unseen c seen [] h = refl
  iter_from-unseen c seen (field ∷ fields) h = elim (Bool-cases (member eq (kconv field.0) seen)) [
    | inl e ↦ rw (e, iter_from) (iter_from-unseen c seen fields h)
    | inr e ↦
        rw (e, iter_from)
          (ground (
            arith,
            eq_iff (kconv field.0) c,
            iter_from-unseen c (kconv field.0 ∷ seen) fields (ground (arith, h)),
          ))
  ]

  iter_from-IsUnique :
      (seen : List K) (fields : List (K × V))
      → IsUnique eq (map kconv (iter_from eq kconv seen fields))
  unfolding iter_from
  iter_from-IsUnique seen [] = tt
  iter_from-IsUnique seen (field ∷ fields) = elim (Bool-cases (member eq (kconv field.0) seen)) [
    | inl e ↦ rw (e, iter_from) (iter_from-IsUnique seen fields)
    | inr e ↦
        rw (e, iter_from)
          (
            iter_from-unseen (kconv field.0) (kconv field.0 ∷ seen) fields
                (ground (arith, eq_iff (kconv field.0) (kconv field.0))),
            iter_from-IsUnique (kconv field.0 ∷ seen) fields,
          )
  ]

  -- Iteration gives no two keys with the same converted name, gives a key for each name that the
  -- multidict contains and for no other, and `count` is the number of keys that it gives.
  pub iter_lem :
      (fields : List (K × V))
      → IsUnique eq (map kconv (iter eq kconv fields))
        × ((k : K)
            → contains eq kconv k fields ≡ member eq (kconv k) (map kconv (iter eq kconv fields)))
        × (count eq kconv fields ≡ length (iter eq kconv fields))
  unfolding iter count names
  iter_lem fields = (
    iter_from-IsUnique [] fields,
    λ k. ground (arith, contains-names k fields, member-iter_from (kconv k) [] fields),
    ground (arith, length-as_set [] fields),
  )
