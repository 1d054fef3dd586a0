-- ===== src/Io/Tnetstring.antt =====
-- The writing half of mitmproxy/io/tnetstring.py. A float stands as its `repr`. The interpreter's limits on
-- recursion and on the digits of a number are left out.
pub mod Format
pub mod Parts
pub mod Parse
use middle_man.Base.{
  ℕ, suc, ◌+◌, ◌-◌, Bool, true, false, Option, none, some, List, [], ◌∷◌, ◌++◌, length, ℤ, pos,
  negsuc,
}
use middle_man.Http.Text.{Bytes, codes}
use middle_man.Http.Assemble.{decimal, concat}

-- the types that are serialised; the pairs of a dict are in the order of its items
mutual
  pub data Value : Type 0 where
    null : Value
    boolean : Bool → Value
    integer : ℤ → Value
    float bytes str : Bytes → Value
    list : Values → Value
    dict : Entries → Value

  pub data Values : Type 0 where
    nil : Values
    cons : Value → Values → Values

  pub data Entries : Type 0 where
    end : Entries
    entry : Value → Value → Entries → Entries

-- `str` of an int
unfoldable pub int_text : ℤ → Bytes
unfolding decimal
int_text (pos n) = decimal n
int_text (negsuc n) = b'-' ∷ decimal (suc n)

-- A state is the chunks of the deque, first to last, and the size. The chunks of one netstring, and of one whose payload is in the queue, behind `init_size`
unfoldable pub write_as : ℕ → Bytes → List Bytes × ℕ → List Bytes × ℕ
unfolding decimal
write_as tag payload (q, size) =
    let ldata = length payload in
    let span = decimal ldata in
    ((span ++ (b':' ∷ (payload ++ tag ∷ []))) ∷ q, size + 2 + length span + ldata)

unfoldable pub write_parts : ℕ → Bytes → List Bytes × ℕ → List Bytes × ℕ
unfolding decimal
write_parts tag payload (q, size) =
    let ldata = length payload in
    let span = decimal ldata in
    (span ∷ (b':' ∷ []) ∷ payload ∷ (tag ∷ []) ∷ q, size + 2 + length span + ldata)

unfoldable pub write_span : ℕ → List Bytes × ℕ → List Bytes × ℕ
unfolding decimal
write_span init_size (q, size) =
    let span = decimal (size - init_size) in (span ∷ (b':' ∷ []) ∷ q, size + 1 + length span)

abbrev pub then :
    Option (List Bytes × ℕ) → (List Bytes × ℕ → Option (List Bytes × ℕ)) → Option (List Bytes × ℕ)
then none f = none
then (some state) f = f state

-- what follows `write(b"]")` and `write(b"}")`: the payload, its span and its size
abbrev pub enclosed :
    (List Bytes × ℕ → Option (List Bytes × ℕ)) → ℕ → List Bytes × ℕ → Option (List Bytes × ℕ)
enclosed content tag (q, size) =
    then (content ((tag ∷ []) ∷ q, size + 1)) (λ state. some (write_span (size + 1) state))

module _ (utf8_encode : Bytes → Option Bytes) where
  abbrev pub write_text : Bytes → List Bytes × ℕ → Option (List Bytes × ℕ)
  write_text s state = elim (utf8_encode s) [
    | none ↦ none
    | some payload ↦ some (write_parts b';' payload state)
  ]

  -- `_rdumpq`, with `none` for the UnicodeEncodeError of a text
  unfoldable mutual
    unfolding write_as write_parts write_span int_text

    pub _rdumpq : Value → List Bytes × ℕ → Option (List Bytes × ℕ)
    _rdumpq null (q, size) = some (codes "0:~" ∷ q, size + 3)
    _rdumpq (boolean true) (q, size) = some (codes "4:true!" ∷ q, size + 7)
    _rdumpq (boolean false) (q, size) = some (codes "5:false!" ∷ q, size + 8)
    _rdumpq (integer n) state = some (write_as b'#' (int_text n) state)
    _rdumpq (float payload) state = some (write_as b'^' payload state)
    _rdumpq (bytes payload) state = some (write_parts b',' payload state)
    _rdumpq (str s) state = write_text s state
    _rdumpq (list values) state = enclosed (rdump_values values) b']' state
    _rdumpq (dict entries) state = enclosed (rdump_entries entries) b'}' state

    -- the loop over `reversed(value)`
    pub rdump_values : Values → List Bytes × ℕ → Option (List Bytes × ℕ)
    rdump_values nil state = some state
    rdump_values (cons item values) state = then (rdump_values values state) (_rdumpq item)

    -- the loop over `value.items()`
    pub rdump_entries : Entries → List Bytes × ℕ → Option (List Bytes × ℕ)
    rdump_entries end state = some state
    rdump_entries (entry k v entries) state =
        then (then (_rdumpq v state) (_rdumpq k)) (rdump_entries entries)

  unfoldable pub dumps : Value → Option Bytes
  unfolding _rdumpq
  dumps value = elim (_rdumpq value ([], 0)) [ none ↦ none | some state ↦ some (concat (state.0)) ]
