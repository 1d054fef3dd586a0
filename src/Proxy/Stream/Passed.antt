-- ===== src/Proxy/Stream/Passed.antt =====
-- What a stream passes on of the pieces of a body, by `chunks_of` and as its callback answers.
use middle_man.Base.{append_assoc, append-nil, ◌≡◌, refl, sym, ap, ◌∙◌, List, [], ◌∷◌, ◌++◌}
use middle_man.Http.Text.{Bytes}
use middle_man.Proxy.Messages.{Chunks, chunk, many, Streaming, off, on, callback}
use middle_man.Proxy.Stream.Bodies.{chunks_of, called}

-- the data that an answer of a callback stands for
abbrev pieces_of : Chunks → List Bytes
pieces_of (chunk one) = one ∷ []
pieces_of (many chunks) = chunks

-- what a callback answers to pieces in their order, each call knowing the pieces before it
abbrev answers : (List Bytes → Bytes → Chunks) → List Bytes → List Bytes → List Bytes
answers f heard [] = []
answers f heard (piece ∷ pieces) =
    pieces_of (f heard piece) ++ answers f (heard ++ piece ∷ []) pieces

-- what is to be passed on of the pieces
abbrev pub passed : Streaming → List Bytes → List Bytes
passed off pieces = pieces
passed on pieces = pieces
passed (callback heard f) pieces = answers f heard pieces

-- the attribute behind the pieces: a callback has been given them all
abbrev pub given : Streaming → List Bytes → Streaming
given off pieces = off
given on pieces = on
given (callback heard f) pieces = callback (heard ++ pieces) f

unfoldable pub all_chunks : Streaming → List Bytes → List Bytes
all_chunks stream [] = []
all_chunks stream (piece ∷ pieces) =
    chunks_of stream piece ++ all_chunks (called stream piece) pieces

unfoldable pub all_called : Streaming → List Bytes → Streaming
all_called stream [] = stream
all_called stream (piece ∷ pieces) = all_called (called stream piece) pieces

chunks_of-pieces_of :
    (heard : List Bytes) (f : List Bytes → Bytes → Chunks) (piece : Bytes)
    → chunks_of (callback heard f) piece ≡ pieces_of (f heard piece)
chunks_of-pieces_of heard f piece = by_answer (f heard piece)
  where
    by_answer :
        (answer : Chunks)
        → elim answer [ chunk one ↦ one ∷ [] | many chunks ↦ chunks ] ≡ pieces_of answer
    by_answer (chunk one) = refl
    by_answer (many chunks) = refl

pub all_chunks-passed :
    (stream : Streaming) (pieces : List Bytes) → all_chunks stream pieces ≡ passed stream pieces
unfolding all_chunks
all_chunks-passed off [] = refl
all_chunks-passed off (piece ∷ pieces) = ap (λ l. piece ∷ l) (all_chunks-passed off pieces)
all_chunks-passed on [] = refl
all_chunks-passed on (piece ∷ pieces) = ap (λ l. piece ∷ l) (all_chunks-passed on pieces)
all_chunks-passed (callback heard f) [] = refl
all_chunks-passed (callback heard f) (piece ∷ pieces) =
    ap (λ l. l ++ all_chunks (callback (heard ++ piece ∷ []) f) pieces)
      (chunks_of-pieces_of heard f piece)
    ∙ ap (λ l. pieces_of (f heard piece) ++ l)
        (all_chunks-passed (callback (heard ++ piece ∷ []) f) pieces)

pub all_called-given :
    (stream : Streaming) (pieces : List Bytes) → all_called stream pieces ≡ given stream pieces
unfolding all_called
all_called-given off [] = refl
all_called-given off (piece ∷ pieces) = all_called-given off pieces
all_called-given on [] = refl
all_called-given on (piece ∷ pieces) = all_called-given on pieces
all_called-given (callback heard f) [] = ap (λ l. callback l f) (sym (append-nil heard))
all_called-given (callback heard f) (piece ∷ pieces) =
    all_called-given (callback (heard ++ piece ∷ []) f) pieces
    ∙ ap (λ l. callback l f) (append_assoc heard (piece ∷ []) pieces)
