-- ===== src/Multidict/Tests.antt =====
-- Multidicts of numbers whose keys count up to their last digit.
use middle_man.Base.{ℕ, ◌≡◌, ◌%◌, refl, List, [], ◌∷◌, ◌++◌, map, ◌==◌, ==_iff, length}
use middle_man.Multidict.{contains, set_all, insert, iter, count}
use middle_man.Multidict.Keys.{IsUnique, iter_lem}
use middle_man.Multidict.{member}

abbrev last_digit : ℕ → ℕ
last_digit n = n % 10

abbrev fields : List (ℕ × ℕ)
fields = (1, 100) ∷ (2, 200) ∷ (11, 300) ∷ (3, 400) ∷ (21, 500) ∷ []

test_set_all :
    set_all ◌==◌ last_digit 31 (7 ∷ 8 ∷ []) fields ≡ (1, 7) ∷ (2, 200) ∷ (11, 8) ∷ (3, 400) ∷ []
unfolding set_all
test_set_all = refl

test_iter : iter ◌==◌ last_digit fields ≡ 1 ∷ 2 ∷ 3 ∷ []
unfolding iter
test_iter = refl

test_insert : insert 9 5 6 fields ≡ fields ++ (5, 6) ∷ []
unfolding insert
test_insert = refl

iter_lem_example :
    IsUnique ◌==◌ (map last_digit (iter ◌==◌ last_digit fields))
    × ((k : ℕ)
        → contains ◌==◌ last_digit k fields
          ≡ member ◌==◌ (last_digit k) (map last_digit (iter ◌==◌ last_digit fields)))
    × (count ◌==◌ last_digit fields ≡ length (iter ◌==◌ last_digit fields))
iter_lem_example = iter_lem ◌==◌ last_digit ==_iff fields
