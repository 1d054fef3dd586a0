-- ===== src/Http/Laws.antt =====
-- Headers as a map that does not see the case of names.
use mathlib.Core.Path.{subst}
use middle_man.Base.{ℕ, refl, ◌≡◌, some, List, ◌∷◌, map}
use middle_man.Multidict
use middle_man.Multidict.Laws
use middle_man.Http.Text.{Bytes, codes, bytes_eq, bytes_eq_iff, lower, join}
use middle_man.Http.Headers.{Fields, raw_all, get_all, get, set_all}

get-values_of :
    (native : Bytes → List ℕ) (key : Bytes) (value : Bytes) (values : List Bytes) (name : Bytes)
    (fields : Fields)
    → key ≡ lower name
    → Multidict.values_of bytes_eq lower key fields ≡ value ∷ values
    → get native name fields ≡ some (join (codes ", ") (map native (value ∷ values)))
unfolding get get_all raw_all Multidict.get_all
get-values_of native key value values name fields same h =
    by_name (subst (λ k. Multidict.values_of bytes_eq lower k fields ≡ value ∷ values) same h)
  where
    by_name :
        Multidict.values_of bytes_eq lower (lower name) fields ≡ value ∷ values
        → get native name fields ≡ some (join (codes ", ") (map native (value ∷ values)))
    by_name e = rw (e, get) refl

-- A header that is set to one value or several reads back under any spelling of its name, folded, and
-- the headers of other names are unchanged.
pub get-set_all :
    (native : Bytes → List ℕ) (name name' : Bytes) (value : Bytes) (values : List Bytes)
    (fields : Fields)
    → lower name ≡ lower name'
    → (get native name' (set_all name (value ∷ values) fields)
        ≡ some (join (codes ", ") (map native (value ∷ values))))
      × (Multidict.without bytes_eq lower (lower name) (set_all name (value ∷ values) fields)
          ≡ Multidict.without bytes_eq lower (lower name) fields)
unfolding set_all Multidict.get_all
get-set_all native name name' value values fields same =
    let set = Multidict.Laws.set_all_lem bytes_eq lower bytes_eq_iff name (value ∷ values) fields in
    (
      get-values_of native (lower name) value values name' (set_all name (value ∷ values) fields)
          same (set.0),
      set.1,
    )
