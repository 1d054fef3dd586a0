-- ===== src/Http/RequestLine/Words.antt =====
-- A line of three words is split into them, and a URL at its separators.
use mathlib.Core.Path.{subst}
use middle_man.Base.{
  ◌≡◌, refl, ◌∙◌, ap, sym, true, false, Option, some, [], ◌∷◌, ◌++◌, append_assoc, ◌==◌, arith,
}
use middle_man.Http.Text.{Bytes, codes}
use middle_man.Http.Read.{is_space_byte}
use middle_man.Http.Assemble.{take_word, skip_blanks}
use middle_man.Http.Assemble.Response.{is_filled, no_blank, take_word-append, skip_blanks-append}
use middle_man.Net.Hostport.{all_of, not_colon}
use middle_man.Http.RequestLine.{three, split_words, split_scheme}

take_word-all : (s : Bytes) → no_blank s ≡ true → take_word s ≡ (s, [])
unfolding take_word
take_word-all [] h = refl
take_word-all (c ∷ s) h =
    let here : is_space_byte c ≡ false = ground (arith, h) in
    rw (here, take_word-all s (ground (arith, h))) refl

words_parts :
    (line first after_first second after_second third method target version : Bytes)
    → skip_blanks line ≡ first
    → take_word first ≡ (method, after_first)
    → skip_blanks after_first ≡ second
    → take_word second ≡ (target, after_second)
    → skip_blanks after_second ≡ third
    → take_word third ≡ (version, [])
    → split_words line ≡ three method target version []
unfolding split_words
words_parts line first after_first second after_second third method target version a b c d e f =
    subst (λ l. words l ≡ three method target version []) (sym a) (rw (b, c, d, e, f) refl)
  where
    words : Bytes → Option (Bytes × (Bytes × Bytes))
    words l =
        let first = take_word l in
        let second = take_word (skip_blanks (first.1)) in
        let third = take_word (skip_blanks (second.1)) in
        three (first.0) (second.0) (third.0) (skip_blanks (third.1))

three-filled :
    (a b c : Bytes)
    → is_filled a ≡ true
    → is_filled b ≡ true
    → is_filled c ≡ true
    → three a b c [] ≡ some (a, (b, c))
three-filled [] b c f g h = ground (arith, f)
three-filled (x ∷ a) [] c f g h = ground (arith, g)
three-filled (x ∷ a) (y ∷ b) [] f g h = ground (arith, h)
three-filled (x ∷ a) (y ∷ b) (z ∷ c) f g h = refl

-- a word of a line
abbrev pub IsWord : Bytes → Type 0
IsWord s = (is_filled s ≡ true) × (no_blank s ≡ true)

pub split_words-append :
    (a b c : Bytes)
    → IsWord a
    → IsWord b
    → IsWord c
    → split_words (a ++ (b' ' ∷ b) ++ (b' ' ∷ c)) ≡ some (a, (b, c))
unfolding skip_blanks is_space_byte
split_words-append a b c f g h =
    ap split_words (append_assoc a (b' ' ∷ b) (b' ' ∷ c))
    ∙ words_parts (a ++ b' ' ∷ (b ++ b' ' ∷ c)) (a ++ b' ' ∷ (b ++ b' ' ∷ c))
        (b' ' ∷ (b ++ b' ' ∷ c)) (b ++ b' ' ∷ c) (b' ' ∷ c) c a b c
        (skip_blanks-append a (b' ' ∷ (b ++ b' ' ∷ c)) f.0 f.1)
        (take_word-append a (b ++ b' ' ∷ c) f.1) (skip_blanks-append b (b' ' ∷ c) g.0 g.1)
        (take_word-append b c g.1) (skip_alone c h) (take_word-all c h.1)
    ∙ three-filled a b c f.0 g.0 h.0
  where
    skip_alone : (c : Bytes) → (is_filled c ≡ true) × (no_blank c ≡ true) → skip_blanks c ≡ c
    skip_alone [] h = refl
    skip_alone (d ∷ c) h = ground (arith, h.1)

pub split_scheme-append :
    (scheme rest : Bytes)
    → all_of not_colon scheme ≡ true
    → split_scheme (scheme ++ (codes "://" ++ rest)) ≡ some (scheme, rest)
unfolding split_scheme
split_scheme-append [] rest h = refl
split_scheme-append (c ∷ scheme) rest h =
    let here : (b':' == c) ≡ false = ground (arith, h) in
    rw (here, split_scheme-append scheme rest (ground (arith, h))) refl
