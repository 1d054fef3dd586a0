-- ===== src/Io/Tests.antt =====
-- The theorems on tnetstrings and flow files at concrete inputs, with texts that are their own encoding.
use middle_man.Base.{
  ℕ, Bool, true, false, ◌≡◌, refl, sym, Option, none, some, List, [], ◌∷◌, ◌++◌, arith, pos, negsuc,
}
use middle_man.Http.Text.{Bytes, codes, bytes_eq}
use middle_man.Io.Tnetstring.{
  Value, null, boolean, integer, bytes, str, list, dict, nil, cons, end, entry, dumps,
}
use middle_man.Io.Tnetstring.Format.{encode, dumps-encode}
use middle_man.Io.Tnetstring.Parse.{Python, loads, load, loaded, invalid, pop}
use middle_man.Io.Tnetstring.Parse.Storable.{flipped, IsStorable}
use middle_man.Io.Tnetstring.Parse.RoundTrip.{load-dumps}
use middle_man.Io.Tnetstring.Parse.Runs.{Pops, pop-Pops}
use middle_man.Io.Reader.{Ending, finished, failed, add_all, stream}
use middle_man.Io.Reader.RoundTrip.{stream-add_all}

abbrev same_str : Value → Value → Bool
same_str (str s) (str t) = bytes_eq s t
same_str _ _ = false

abbrev python : Python
python = record { utf8_decode = λ s. some s; read_float = λ s. some s; same_key = same_str }

abbrev plain_text : Bytes → Option Bytes
plain_text s = some s

abbrev state : Value
state = dict (
    entry (str (codes "a")) (list (cons null (cons (boolean true) (cons (integer (negsuc 2)) nil))))
      (entry (str (codes "b")) (bytes (codes "x")) end))

abbrev written : Bytes
written = codes "31:1:b;1:x,1:a;15:0:~4:true!2:-3#]}"

dumps-encode_example : dumps plain_text state ≡ encode plain_text state
dumps-encode_example = dumps-encode plain_text state

load-dumps_example :
    (loads python written ≡ some (flipped state))
    × (load python (written ++ codes "0:~") ≡ loaded (flipped state) (codes "0:~"))
unfolding dumps IsStorable
load-dumps_example =
    load-dumps python plain_text (λ s b e. sym e) state written (codes "0:~") refl
      ((refl, refl), (tt, ((tt, (tt, (tt, tt))), ((refl, refl), (tt, (tt, tt)))))) (omega arith)

-- flows that are numbers
abbrev state_of : ℕ → Value
state_of n = dict (entry (str (codes "id")) (integer (pos n)) end)

abbrev flow_of : Value → Option ℕ
flow_of (dict (entry key (integer (pos n)) end)) = some n
flow_of _ = none

abbrev no_har : Bytes → List ℕ × Ending
no_har fo = ([], failed)

stream-add_all_example :
    stream python flow_of no_har (codes "10:2:id;2:10#}9:2:id;1:7#}") ≡ (10 ∷ 7 ∷ [], finished)
unfolding add_all IsStorable flipped
stream-add_all_example =
    stream-add_all python plain_text (λ s b e. sym e) state_of flow_of no_har (10 ∷ 7 ∷ [])
      (codes "10:2:id;2:10#}9:2:id;1:7#}") refl
      ((((refl, refl), (tt, (tt, tt))), refl), ((((refl, refl), (tt, (tt, tt))), refl), tt))
      (omega arith)

-- a negative length counts from the end, and one of -1 leaves all that follows the colon
negative_length : pop python 9 (codes "-1:abc,") ≡ some (bytes (codes "abc"), codes "abc,")
unfolding pop
negative_length = refl

too_short : loads python (codes "4:abc,") ≡ none
unfolding loads
too_short = refl

long_prefix : load python (codes "0000000000003:abc,") ≡ invalid
unfolding load
long_prefix = refl

cut_off : stream python flow_of no_har (codes "10:2:id;2:10#}9:2:id;") ≡ (10 ∷ [], failed)
unfolding stream
cut_off = refl

pop-Pops_example : Pops python written (pop python 40 written)
pop-Pops_example = pop-Pops python 40 written (omega arith)
