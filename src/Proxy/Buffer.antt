-- ===== src/Proxy/Buffer.antt =====
-- `ReceiveBuffer` of mitmproxy/proxy/utils.py: chunks of a stream, and their length together.
use middle_man.Base.{
  ℕ, ◌+◌, ◌≡◌, refl, ◌∙◌, ap, sym, append_assoc, append-nil, Bool, List, [], ◌∷◌, ◌++◌, ltb, length,
  arith,
}

abbrev pub Bytes : Type 0
Bytes = List ℕ

pub record ReceiveBuffer : Type 0 where
  pub _chunks : List Bytes
  pub _len : ℕ

-- `__init__`
unfoldable pub new_buffer : ReceiveBuffer
new_buffer = record { _chunks = []; _len = 0 }

-- `__iadd__`
unfoldable pub iadd : ReceiveBuffer → Bytes → ReceiveBuffer
iadd buffer more = record {
  _chunks = buffer._chunks ++ more ∷ [];
  _len = buffer._len + length more;
}

-- `b"".join`
abbrev pub joined : List Bytes → Bytes
joined [] = []
joined (chunk ∷ chunks) = chunk ++ joined chunks

-- `__bytes__`
unfoldable pub buffer_bytes : ReceiveBuffer → Bytes
buffer_bytes buffer = joined (buffer._chunks)

-- `__bool__`
unfoldable pub is_true : ReceiveBuffer → Bool
is_true buffer = ltb 0 (buffer._len)

-- `clear`
unfoldable pub clear : ReceiveBuffer → ReceiveBuffer
clear buffer = record { _chunks = []; _len = 0 }

-- the calls that change a buffer
pub data Call : Type 0 where
  adds : Bytes → Call
  clears : Call

abbrev pub calls : ReceiveBuffer → List Call → ReceiveBuffer
calls buffer [] = buffer
calls buffer (adds more ∷ rest) = calls (iadd buffer more) rest
calls buffer (clears ∷ rest) = calls (clear buffer) rest

-- what a plain text holds after the same calls
abbrev pub content : Bytes → List Call → Bytes
content text [] = text
content text (adds more ∷ rest) = content (text ++ more) rest
content text (clears ∷ rest) = content [] rest

joined-append :
    (chunks : List Bytes) (more : Bytes) → joined (chunks ++ more ∷ []) ≡ joined chunks ++ more
joined-append [] more = append-nil more
joined-append (chunk ∷ chunks) more =
    ap (λ l. chunk ++ l) (joined-append chunks more) ∙ sym (append_assoc chunk (joined chunks) more)

length-append : (s t : Bytes) → length (s ++ t) ≡ length s + length t
length-append [] t = omega arith
length-append (c ∷ s) t = omega (arith, length-append s t)

-- the buffer holds the text and knows its length
Holds : Bytes → ReceiveBuffer → Type 0
Holds text buffer = (buffer_bytes buffer ≡ text) × (buffer._len ≡ length text)

calls-Holds :
    (text : Bytes) (buffer : ReceiveBuffer) (rest : List Call)
    → Holds text buffer
    → Holds (content text rest) (calls buffer rest)
unfolding Holds buffer_bytes iadd clear
calls-Holds text buffer [] h = h
calls-Holds text buffer (adds more ∷ rest) (same, len) =
    calls-Holds (text ++ more) (iadd buffer more) rest (
      joined-append (buffer._chunks) more ∙ ap (λ l. l ++ more) same,
      omega (arith, length-append text more, len),
    )
calls-Holds text buffer (clears ∷ rest) h = calls-Holds [] (clear buffer) rest (refl, refl)

-- After any calls of `+=` and `clear` on a new buffer its bytes are those that were added since the last
-- `clear`, in their order, `len` is their number, and it is true exactly if there are any.
pub calls-content :
    (rest : List Call)
    → (buffer_bytes (calls new_buffer rest) ≡ content [] rest)
      × ((calls new_buffer rest)._len ≡ length (content [] rest))
      × (is_true (calls new_buffer rest) ≡ ltb 0 (length (content [] rest)))
unfolding new_buffer Holds is_true buffer_bytes
calls-content rest =
    let holds = calls-Holds [] new_buffer rest (refl, refl) in
    (holds.0, holds.1, ap (λ n. ltb 0 n) (holds.1))
