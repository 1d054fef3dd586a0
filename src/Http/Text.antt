-- ===== src/Http/Text.antt =====
-- Bytes and texts as lists of numbers, with the operations of Python that the http code calls on them.
use Prim.Native.Char.{code}
use middle_man.Base.{
  ℕ, ◌+◌, ◌-◌, ◌*◌, ◌≡◌, ◌↔◌, refl, String, Bool, true, false, ◌&&◌, List, [], ◌∷◌, ◌++◌, map,
  arith, leb, ltb, ◌==◌, if◌then◌else◌,
}

abbrev pub Bytes : Type 0
Bytes = List ℕ

-- the code points of a literal
abbrev pub codes : String → Bytes
codes String.[] = []
codes (String.◌∷◌ c s) = code c ∷ codes s

abbrev pub bytes_eq : Bytes → Bytes → Bool
bytes_eq [] [] = true
bytes_eq (a ∷ s) (b ∷ t) = a == b && bytes_eq s t
bytes_eq _ _ = false

pub bytes_eq_iff : (s t : Bytes) → (bytes_eq s t ≡ true) ↔ (s ≡ t)
bytes_eq_iff [] [] = (λ h. refl, λ h. refl)
bytes_eq_iff [] (b ∷ t) = (λ h. cc, λ h. cc)
bytes_eq_iff (a ∷ s) [] = (λ h. cc, λ h. cc)
bytes_eq_iff (a ∷ s) (b ∷ t) =
    (λ h. ground (arith, bytes_eq_iff s t), λ h. ground (arith, bytes_eq_iff s t))

-- the letters that `lower` and `upper` change
unfoldable pub lower_byte : ℕ → ℕ
lower_byte c = if leb b'A' c && leb c b'Z' then c + 32 else c

unfoldable pub upper_byte : ℕ → ℕ
upper_byte c = if leb b'a' c && leb c b'z' then c - 32 else c

unfoldable pub lower : Bytes → Bytes
unfolding lower_byte
lower s = map lower_byte s

unfoldable pub upper : Bytes → Bytes
unfolding upper_byte
upper s = map upper_byte s

-- `isascii`
unfoldable pub is_ascii : Bytes → Bool
is_ascii [] = true
is_ascii (c ∷ s) = ltb c 128 && is_ascii s

abbrev pub is_digit : ℕ → Bool
is_digit c = leb b'0' c && leb c b'9'

abbrev pub all_digits : Bytes → Bool
all_digits [] = true
all_digits (c ∷ s) = is_digit c && all_digits s

-- `int` of a text of digits
abbrev pub to_int : ℕ → Bytes → ℕ
to_int n [] = n
to_int n (c ∷ s) = to_int (n * 10 + (c - b'0')) s

-- `sep.join(texts)`
unfoldable pub join : Bytes → List Bytes → Bytes
join sep [] = []
join sep (s ∷ []) = s
join sep (s ∷ t ∷ rest) = s ++ (sep ++ join sep (t ∷ rest))

-- `strip` of the characters that a test accepts: at the end of the text they are held back until
-- another character follows
unfoldable pub strip_right : (ℕ → Bool) → Bytes → Bytes → Bytes
strip_right blank held [] = []
strip_right blank held (c ∷ s) =
    let more = strip_right blank (held ++ c ∷ []) s in
    let kept = held ++ c ∷ strip_right blank [] s in if blank c then more else kept

unfoldable pub strip : (ℕ → Bool) → Bytes → Bytes
unfolding strip_right
strip blank [] = []
strip blank (c ∷ s) =
    let rest = strip blank s in if blank c then rest else strip_right blank [] (c ∷ s)
