-- ===== src/Http/ContentType/Tests.antt =====
-- Content types at concrete inputs.
use middle_man.Base.{ℕ, Bool, ◌≡◌, refl, none, some, [], ◌∷◌, ◌==◌}
use middle_man.Http.Text.{codes, lower, strip}
use middle_man.Http.ContentType.{Parameters, parse_content_type, assemble_content_type}
use middle_man.Http.ContentType.RoundTrip.{parse-assemble_content_type}

abbrev is_space : ℕ → Bool
is_space c = c == b' '

abbrev charset : Parameters
charset = (codes "charset", codes "UTF-8") ∷ (codes "q", codes "a=b") ∷ []

parse-assemble_content_type_example :
    parse_content_type lower is_space (assemble_content_type (codes "Text") (codes "html") charset)
    ≡ some (lower (codes "Text"), (lower (codes "html"), charset))
unfolding strip
parse-assemble_content_type_example =
    parse-assemble_content_type lower is_space refl (codes "Text") (codes "html") charset refl refl
      (((refl, refl), (refl, refl)), (refl, (((refl, refl), (refl, refl)), (refl, tt))))

written : assemble_content_type (codes "a") (codes "b") charset ≡ codes "a/b; charset=UTF-8; q=a=b"
unfolding assemble_content_type
written = refl

-- a clause without a value is left out, and the last of two values counts
odd_clauses :
    parse_content_type lower is_space (codes "a/b;x; k=1;k=2")
    ≡ some (codes "a", (codes "b", (codes "k", codes "2") ∷ []))
unfolding parse_content_type lower
odd_clauses = refl

no_subtype : parse_content_type lower is_space (codes "text; a/b=c") ≡ none
unfolding parse_content_type
no_subtype = refl
