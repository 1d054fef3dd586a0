-- ===== src/Io/Reader.antt =====
-- FlowWriter and FlowReader of mitmproxy/io/io.py, over flows `F` that have a state. The migration of old
-- states with Flow.from_state is one function, and so is the reading of a HAR file.
pub mod RoundTrip
pub mod Enough
use middle_man.Base.{
  ℕ, zero, suc, Bool, true, false, Option, none, some, List, [], ◌∷◌, ◌++◌, if◌then◌else◌, length,
}
use middle_man.Http.Text.{Bytes, codes}
use middle_man.Http.Assemble.{starts_with}
use middle_man.Io.Tnetstring.{Value, dumps}
use middle_man.Io.Tnetstring.Parse.{Python, empty, invalid, loaded, load}

-- how a reader ends: at the end of the file, or with a FlowReadException
pub data Ending : Type 0 where
  finished failed : Ending

module _ {F : Type 0} (utf8_encode : Bytes → Option Bytes) (get_state : F → Value) where
  -- `FlowWriter.add`: the file after it, with `none` for an exception
  unfoldable pub add : F → Bytes → Option Bytes
  unfolding dumps
  add flow fo = elim (dumps utf8_encode (get_state flow)) [ none ↦ none | some d ↦ some (fo ++ d) ]

  -- a writer that is given some flows
  unfoldable pub add_all : List F → Bytes → Option Bytes
  unfolding add
  add_all [] fo = some fo
  add_all (flow ∷ flows) fo = elim (add flow fo) [ none ↦ none | some file ↦ add_all flows file ]

-- what follows a byte order mark in front of a brace
abbrev pub without_mark : Bytes → Bytes
without_mark (a ∷ b ∷ c ∷ fo) =
    if starts_with (239 ∷ 187 ∷ 191 ∷ codes "{") (a ∷ b ∷ c ∷ fo) then fo else a ∷ b ∷ c ∷ fo
without_mark fo = fo

module _ {F : Type 0} (python : Python) (from_state : Value → Option F)
    (read_har : Bytes → List F × Ending) where
  -- the loop of `stream`; each round takes a byte at least
  unfoldable pub stream_loop : ℕ → Bytes → List F × Ending
  unfolding load
  stream_loop zero fo = ([], failed)
  stream_loop (suc rounds) fo = elim (load python fo) [
    | empty ↦ ([], finished)
    | invalid ↦ ([], failed)
    | loaded value rest ↦ elim (from_state value) [
      | none ↦ ([], failed)
      | some flow ↦ (flow ∷ (stream_loop rounds rest).0, (stream_loop rounds rest).1)
    ]
  ]

  -- the flows that are yielded, and the end, of a file without a byte order mark
  unfoldable pub stream_of : Bytes → List F × Ending
  unfolding stream_loop
  stream_of fo =
      if starts_with (codes "{") fo then read_har fo else stream_loop (suc (length fo)) fo

  -- `stream`, `peek` giving the bytes at hand
  unfoldable pub stream : Bytes → List F × Ending
  unfolding stream_of
  stream fo = stream_of (without_mark fo)
