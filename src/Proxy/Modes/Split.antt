-- ===== src/Proxy/Modes/Split.antt =====
-- Texts that are split at a separator, and the names of the modes.
use middle_man.Base.{
  ℕ, ◌≡◌, refl, Bool, true, false, not, none, some, [], ◌∷◌, ◌++◌, map, ◌==◌, arith,
}
use middle_man.Http.Text.{Bytes, is_digit, all_digits}
use middle_man.Http.Assemble.{lower_char}
use middle_man.Http.Assemble.Response.{is_filled}
use middle_man.Net.Hostport.{all_of, not_colon}
use middle_man.Proxy.Modes.{
  ModeClass, regular, transparent, upstream, reverse, socks5, dns, wireguard, local, tun, osproxy,
  type_name, classes, rpartition, find_class,
}

abbrev pub not_at : ℕ → Bool
not_at c = not (c == b'@')

pub rpartition-none :
    (sep : ℕ) (s : Bytes) → all_of (λ c. not (c == sep)) s ≡ true → rpartition sep s ≡ none
unfolding rpartition
rpartition-none sep [] h = refl
rpartition-none sep (c ∷ s) h =
    let here : (c == sep) ≡ false = ground (arith, h) in
    rw (rpartition-none sep s (ground (arith, h)), here) refl

pub rpartition-append :
    (sep : ℕ) (a b : Bytes)
    → all_of (λ c. not (c == sep)) b ≡ true
    → rpartition sep (a ++ sep ∷ b) ≡ some (a, b)
unfolding rpartition
rpartition-append sep [] b h =
    let here : (sep == sep) ≡ true = ground arith in rw (rpartition-none sep b h, here) refl
rpartition-append sep (c ∷ a) b h = rw (rpartition-append sep a b h) refl

pub digits-not :
    (sep : ℕ) (s : Bytes)
    → is_digit sep ≡ false
    → all_digits s ≡ true
    → all_of (λ c. not (c == sep)) s ≡ true
digits-not sep [] e h = refl
digits-not sep (c ∷ s) e h = ground (arith, e, h, digits-not sep s e (ground (arith, h)))

-- the names of the modes have neither colons nor at signs, and name one class each
pub name-IsPlain :
    (c : ModeClass)
    → ((is_filled (type_name c) ≡ true) × (all_of not_colon (type_name c) ≡ true))
      × ((all_of not_at (type_name c) ≡ true)
          × (find_class (map lower_char (type_name c)) classes ≡ some c))
unfolding type_name lower_char
name-IsPlain regular = ((refl, refl), (refl, refl))
name-IsPlain transparent = ((refl, refl), (refl, refl))
name-IsPlain upstream = ((refl, refl), (refl, refl))
name-IsPlain reverse = ((refl, refl), (refl, refl))
name-IsPlain socks5 = ((refl, refl), (refl, refl))
name-IsPlain dns = ((refl, refl), (refl, refl))
name-IsPlain wireguard = ((refl, refl), (refl, refl))
name-IsPlain local = ((refl, refl), (refl, refl))
name-IsPlain tun = ((refl, refl), (refl, refl))
name-IsPlain osproxy = ((refl, refl), (refl, refl))
