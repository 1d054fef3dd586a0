-- ===== src/Http/Content/Lookups.antt =====
-- Looking up the headers that the methods on the content of a message change.
use middle_man.Base.{
  ℕ, ◌≡◌, refl, true, false, none, some, List, [], ◌∷◌, ◌⊎◌, inl, inr, arith, Bool-cases,
  Option-cases,
}
use middle_man.Multidict
use middle_man.Multidict.Laws.{get_all-set_all_other, set_all_lem, del_item-Deleted}
use middle_man.Http.Text.{Bytes, codes, bytes_eq, bytes_eq_iff, lower}
use middle_man.Http.Headers.{Fields, raw_all, in_headers, get_all, get, set_all, del_item}
use middle_man.Http.Assemble.{decimal}
use middle_man.Http.Encoding.{Content}
use middle_man.Http.Content.{pop, size, with_length, content_encoding}

-- `set_content` leaves the values of other headers than content-length
pub raw_all-with_length :
    (name : Bytes) (raw : Content) (headers : Fields)
    → bytes_eq (lower name) (lower (codes "content-length")) ≡ false
    → raw_all name (with_length raw headers) ≡ raw_all name headers
unfolding with_length raw_all set_all
raw_all-with_length name raw headers other =
    elim (Bool-cases (in_headers (codes "transfer-encoding") headers)) [
      | inl e ↦ rw e refl
      | inr e ↦ rw e (
          get_all-set_all_other bytes_eq lower bytes_eq_iff name (codes "content-length")
            (decimal (size raw) ∷ []) headers other)
    ]

-- what a length says: nothing with a transfer-encoding, else the length of the content
abbrev pub IsMeasured : Content → Fields → Type 0
IsMeasured raw headers =
    (in_headers (codes "transfer-encoding") headers ≡ true)
    ⊎ (raw_all (codes "content-length") headers ≡ decimal (size raw) ∷ [])

pub with_length-IsMeasured :
    (raw : Content) (headers : Fields) → IsMeasured raw (with_length raw headers)
unfolding with_length raw_all set_all
with_length-IsMeasured raw headers =
    elim (Bool-cases (in_headers (codes "transfer-encoding") headers)) [
      | inl e ↦ rw e (inl e)
      | inr e ↦ rw e (
          inr
            (set_all_lem bytes_eq lower bytes_eq_iff (codes "content-length")
              (decimal (size raw) ∷ []) headers).0)
    ]

-- a header that is popped is gone
pub raw_all-pop : (name : Bytes) (headers : Fields) → raw_all name (pop name headers) ≡ []
unfolding pop raw_all del_item
raw_all-pop name headers = elim (Option-cases (Multidict.del_item bytes_eq lower name headers)) [
  | inl e ↦ rw (pop, e) (rw e at (del_item-Deleted bytes_eq lower bytes_eq_iff name headers))
  | inr (rest, e) ↦
      let kept = (rw e at (del_item-Deleted bytes_eq lower bytes_eq_iff name headers)).1 name in
      rw (pop, e) (ground (arith, kept, bytes_eq_iff (lower name) (lower name)))
]

pub in_headers-absent :
    (name : Bytes) (headers : Fields) → raw_all name headers ≡ [] → in_headers name headers ≡ false
unfolding in_headers raw_all
in_headers-absent name headers e = rw (e, Multidict.contains) refl

module _ (native : Bytes → List ℕ) where
  pub get-raw_all :
      (name : Bytes) (headers headers' : Fields)
      → raw_all name headers ≡ raw_all name headers'
      → get native name headers ≡ get native name headers'
  unfolding get get_all
  get-raw_all name headers headers' e = rw (get, get_all, e) refl

  pub content_encoding-with_length :
      (raw : Content) (headers : Fields)
      → content_encoding native (with_length raw headers) ≡ content_encoding native headers
  unfolding lower
  content_encoding-with_length raw headers =
      get-raw_all (codes "content-encoding") (with_length raw headers) headers
        (raw_all-with_length (codes "content-encoding") raw headers refl)

  pub get-none :
      (name : Bytes) (headers : Fields) → raw_all name headers ≡ [] → get native name headers ≡ none
  unfolding get get_all
  get-none name headers e = rw (get, get_all, e) refl

  -- what `del headers[name]` leaves of a header that is there
  pub get-del_item :
      (name c : Bytes) (headers : Fields)
      → get native name headers ≡ some c
      → (headers' : Fields) × ((del_item name headers ≡ some headers')
          × (get native name headers' ≡ none))
  unfolding raw_all del_item
  get-del_item name c headers e =
      elim (Option-cases (Multidict.del_item bytes_eq lower name headers)) [
        | inl gone ↦ absurd (
            ground (
              arith,
              e,
              get-none name headers
                  (rw gone at (del_item-Deleted bytes_eq lower bytes_eq_iff name headers)),
            ))
        | inr (headers', left) ↦
            let kept =
              (rw left at (del_item-Deleted bytes_eq lower bytes_eq_iff name headers)).1 name in
            (
              headers',
              (
                left,
                get-none name headers'
                    (ground (arith, kept, bytes_eq_iff (lower name) (lower name))),
              ),
            )
      ]
