-- ===== src/Midman/Connection/Equality.antt =====
-- `Connection.__eq__` decides whether two connections have a pair of addresses in common.
use text.Mathlib.TextEquality.{eq_iff}
use mathlib.Core.Path.{subst}
use middle_man.Base.{
  ◌≡◌, refl, ◌↔◌, ◌⊎◌, inl, inr, Bool, true, ◌||◌, List, ◌∷◌, arith, any, In, any→In, In→any,
  ==_iff,
}
use middle_man.Midman.Connection.{Address, address_eq, Ends, ends_eq, Connection, alias_eq, conn_eq}

pub address_eq_iff : (a b : Address) → (address_eq a b ≡ true) ↔ (a ≡ b)
unfolding address_eq
address_eq_iff a b = (
  λ h. ground (arith, eq_iff a.ip b.ip, ==_iff a.port b.port),
  λ h. ground (arith, eq_iff a.ip b.ip, ==_iff a.port b.port),
)

pub ends_eq_iff : (a b : Ends) → (ends_eq a b ≡ true) ↔ (a ≡ b)
unfolding ends_eq
ends_eq_iff a b = (
  λ h. ground (arith, address_eq_iff a.peername b.peername, address_eq_iff a.sockname b.sockname),
  λ h. ground (arith, address_eq_iff a.peername b.peername, address_eq_iff a.sockname b.sockname),
)

-- the pairs of addresses by which a connection is known
abbrev pub names : Connection → List Ends
names c = c.ends ∷ c.alias

pub ends_eq_refl : (e : Ends) → ends_eq e e ≡ true
ends_eq_refl e = (ends_eq_iff e e).1 refl

||-cases : (a b : Bool) → (a || b) ≡ true → (a ≡ true) ⊎ (b ≡ true)
||-cases a b h = ground arith

-- the two connections share one of their names
abbrev pub Shared : Connection → Connection → Type 0
Shared c d = (e : Ends) × In e (names c) × In e (names d)

alias_eq→In : (a : Ends) (c : Connection) → alias_eq a c ≡ true → In a (names c)
unfolding alias_eq
alias_eq→In a c h = elim (||-cases _ _ h) [
  | inl e ↦ inl ((ends_eq_iff a c.ends).0 e)
  | inr k ↦
      let (b, i, e) = any→In (λ b. ends_eq b a) c.alias k in
      inr (subst (λ x. In x c.alias) ((ends_eq_iff b a).0 e) i)
]

In→alias_eq : (a : Ends) (c : Connection) → In a (names c) → alias_eq a c ≡ true
unfolding alias_eq
In→alias_eq a c (inl e) = ground (arith, ends_eq_iff a c.ends)
In→alias_eq a c (inr i) = ground (arith, In→any (λ b. ends_eq b a) a c.alias i (ends_eq_refl a))

-- an alias of the one that the other knows too
alias→Shared : (c d : Connection) → any (λ a. alias_eq a d) c.alias ≡ true → Shared c d
alias→Shared c d h =
    let (a, i, e) = any→In (λ a. alias_eq a d) c.alias h in (a, inr i, alias_eq→In a d e)

-- Two connections are equal exactly when they have a pair of addresses in common, as their own or
-- as that of an alias.
pub conn_eq_iff : (c d : Connection) → (conn_eq c d ≡ true) ↔ Shared c d
unfolding conn_eq
conn_eq_iff c d = (equal→shared, shared→equal)
  where
    own : ends_eq c.ends d.ends ≡ true → Shared c d
    own e = (c.ends, inl refl, inl ((ends_eq_iff c.ends d.ends).0 e))

    flip : Shared d c → Shared c d
    flip (e, i, j) = (e, j, i)

    equal→shared : conn_eq c d ≡ true → Shared c d
    equal→shared h = elim (||-cases _ _ h) [
      | inl k ↦ elim (||-cases _ _ k) [ inl e ↦ own e | inr a ↦ alias→Shared c d a ]
      | inr b ↦ flip (alias→Shared d c b)
    ]

    shared→equal : Shared c d → conn_eq c d ≡ true
    shared→equal (e, inl p, inl q) = ground (arith, ends_eq_iff c.ends d.ends)
    shared→equal (e, inr i, j) =
        ground (arith, In→any (λ a. alias_eq a d) e c.alias i (In→alias_eq e d j))
    shared→equal (e, inl p, inr j) =
        ground (arith, In→any (λ a. alias_eq a c) e d.alias j (In→alias_eq e c (inl p)))

pub conn_eq_refl : (c : Connection) → conn_eq c c ≡ true
conn_eq_refl c = (conn_eq_iff c c).1 (c.ends, inl refl, inl refl)
