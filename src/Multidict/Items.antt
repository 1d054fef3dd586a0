-- ===== src/Multidict/Items.antt =====
-- The views of a multidict.
use middle_man.Base.{
  ◌≡◌, refl, ap, inl, inr, Bool, true, false, some, List, [], ◌∷◌, map, arith, Bool-cases, All,
  All-imp,
}
use middle_man.Multidict.{
  member, values_of, get_all, get_item, contains, iter_from, iter, items_of, items, keys,
}
use middle_man.Multidict.Laws.{Decides}

module _ {K V : Type 0} (eq : K → K → Bool) (kconv : K → K) (eq_iff : Decides eq) where
  contains-tail :
      (k : K) (field : K × V) (fields : List (K × V))
      → contains eq kconv k fields ≡ true
      → contains eq kconv k (field ∷ fields) ≡ true
  unfolding contains get_all values_of
  contains-tail k field fields h = ground (arith, h)

  contains-head :
      (field : K × V) (fields : List (K × V)) → contains eq kconv (field.0) (field ∷ fields) ≡ true
  unfolding contains get_all values_of
  contains-head field fields = ground (arith, eq_iff (kconv (field.0)) (kconv (field.0)))

  iter_from-contained :
      (seen : List K) (fields : List (K × V))
      → All (λ k. contains eq kconv k fields ≡ true) (iter_from eq kconv seen fields)
  unfolding iter_from
  iter_from-contained seen [] = tt
  iter_from-contained seen (field ∷ fields) = elim (Bool-cases (member eq (kconv field.0) seen)) [
    | inl e ↦
        rw (e, iter_from)
          (All-imp (iter_from eq kconv seen fields) (λ k. contains-tail k field fields)
            (iter_from-contained seen fields))
    | inr e ↦
        rw (e, iter_from)
          (
            contains-head field fields,
            All-imp (iter_from eq kconv (kconv field.0 ∷ seen) fields)
                (λ k. contains-tail k field fields)
                (iter_from-contained (kconv field.0 ∷ seen) fields),
          )
  ]

  contains-get_item :
      (reduce : V → List V → V) (k : K) (fields : List (K × V))
      → contains eq kconv k fields ≡ true
      → (v : V) × (get_item eq kconv reduce k fields ≡ some v)
  unfolding contains get_item
  contains-get_item reduce k fields h = by_values (get_all eq kconv k fields) refl
    where
      absent : get_all eq kconv k fields ≡ [] → contains eq kconv k fields ≡ true → ⊥
      absent same there = ground (arith, same, there)

      by_values :
          (l : List V)
          → get_all eq kconv k fields ≡ l
          → (v : V) × (get_item eq kconv reduce k fields ≡ some v)
      by_values [] same = elim (absent same h) [ ]
      by_values (v ∷ vs) same = (reduce v vs, rw (same, get_item) refl)

  items_of-keys :
      (reduce : V → List V → V) (ks : List K) (fields : List (K × V))
      → All (λ k. contains eq kconv k fields ≡ true) ks
      → (l : List (K × V)) × (items_of eq kconv reduce ks fields ≡ some l)
        × (map (λ item. item.0) l ≡ ks)
  unfolding items_of
  items_of-keys reduce [] fields h = ([], refl, refl)
  items_of-keys reduce (k ∷ ks) fields (h, all) =
      let value = contains-get_item reduce k fields h in
      let rest = items_of-keys reduce ks fields all in
      ((k, value.0) ∷ rest.0, rw (value.1, items_of, rest.1) refl, ap (λ l. k ∷ l) (rest.2))

  -- Listing a multidict without `multi` never meets a missing key: `keys` gives exactly the keys of the
  -- iteration.
  pub keys-iter :
      (reduce : V → List V → V) (fields : List (K × V))
      → keys eq kconv reduce false fields ≡ some (iter eq kconv fields)
  unfolding keys items iter
  keys-iter reduce fields =
      let listed =
        items_of-keys reduce (iter_from eq kconv [] fields) fields
          (iter_from-contained [] fields) in
      rw (listed.1, keys) (ap some (listed.2))
