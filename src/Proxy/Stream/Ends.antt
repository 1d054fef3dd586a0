-- ===== src/Proxy/Stream/Ends.antt =====
-- Which hooks may end a flow: what a generator of a stream may still yield.
pub mod Errors
pub mod Bodies
pub mod Answers
pub mod Sizes
pub mod Handlers
pub mod Responses
pub mod Connect
pub mod Requests
pub mod Events
pub mod Spending
pub mod Once
use middle_man.Base.{
  ℕ, ◌≡◌, ◌≢◌, refl, Bool, true, false, not, ◌&&◌, ◌||◌, Option, none, some, List, [], ◌∷◌, arith,
  inl, inr, Bool-cases,
}
use middle_man.Proxy.Layer.{stop, yields}
use middle_man.Proxy.Stream.{
  StreamState, wait_for_request_headers, consume_request_body, HttpCommand, response_hook,
  error_hook, drop_stream, HttpStream, Generator, Reply, is_done, is_errored,
}

-- A hook that ends the flow, the DropStream behind which nothing follows, or another command.
pub data HookKind : Type 0 where
  plain ending dropping : HookKind

abbrev pub kind_of : HttpCommand → HookKind
kind_of response_hook = ending
kind_of error_hook = ending
kind_of drop_stream = dropping
kind_of _ = plain

abbrev pub is_over : StreamState → Bool
is_over state = is_done state || is_errored state

-- the request is not complete
abbrev pub is_early : StreamState → Bool
is_early wait_for_request_headers = true
is_early consume_request_body = true
is_early _ = false

-- A stream at rest in these states, of which the last is whether it passes events through: a response
-- is over only if its request is complete, and without `credit` no hook may end the flow any more.
abbrev pub fits : Bool → StreamState → StreamState → Bool → Bool
fits credit client_state server_state passthrough =
    (not (is_early client_state && is_over server_state)
      && (credit || is_over server_state || is_errored client_state))
    || passthrough

abbrev pub Fits : Bool → Bool → StreamState → StreamState → Bool → Type 0
Fits dropped credit client_state server_state passthrough =
    (dropped || fits credit client_state server_state passthrough) ≡ true

abbrev Choice : HookKind → Type 0 → Type 0 → Type 0 → Type 0
Choice plain A B D = A
Choice ending A B D = B
Choice dropping A B D = D

module _ {C : Type 0} where
  -- Whatever it is sent, the generator yields a hook that ends the flow at most once, and only with
  -- credit; it stops in states that fit the credit left, unless the stream has been dropped.
  abbrev pub Bounded : Bool → Bool → Generator C → Type 0
  Bounded dropped credit (stop s) = Fits dropped credit s.client_state s.server_state s.passthrough
  Bounded dropped credit (yields command resume) =
      Choice (kind_of command.asks) ((sent : Option Reply) → Bounded dropped credit (resume sent))
        ((credit ≡ true) × ((sent : Option Reply) → Bounded dropped false (resume sent)))
        ((sent : Option Reply) → Bounded true credit (resume sent))

  -- what follows for any stream in the given states
  abbrev pub Next :
      Bool → Bool → StreamState → StreamState → Bool → (HttpStream C → Generator C) → Type 0
  Next dropped credit client_state server_state passthrough next =
      (s : HttpStream C)
      → s.client_state ≡ client_state
      → s.server_state ≡ server_state
      → s.passthrough ≡ passthrough
      → Bounded dropped credit (next s)

  -- credit that is not used does no harm
  pub Bounded-credit :
      (dropped : Bool) (g : Generator C) → Bounded dropped false g → Bounded dropped true g
  Bounded-credit dropped (stop s) h = ground (arith, h)
  Bounded-credit dropped (yields command resume) h =
      by_kind (kind_of command.asks) h (λ now sent. Bounded-credit now (resume sent))
    where
      by_kind :
          (kind : HookKind)
          → Choice kind
              ((sent : Option Reply) → Bounded dropped false (resume sent))
              ((false ≡ true) × ((sent : Option Reply) → Bounded dropped false (resume sent)))
              ((sent : Option Reply) → Bounded true false (resume sent))
          → ((dropped : Bool) (sent : Option Reply)
              → Bounded dropped false (resume sent)
              → Bounded dropped true (resume sent))
          → Choice kind
              ((sent : Option Reply) → Bounded dropped true (resume sent))
              ((true ≡ true) × ((sent : Option Reply) → Bounded dropped false (resume sent)))
              ((sent : Option Reply) → Bounded true true (resume sent))
      by_kind plain h rest = λ sent. rest dropped sent (h sent)
      by_kind ending h rest = (refl, h.1)
      by_kind dropping h rest = λ sent. rest true sent (h sent)
