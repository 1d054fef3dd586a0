-- ===== src/Proxy/Stream/Ends/Spending.antt =====
-- The hooks that end a flow in a run of a generator.
use middle_man.Base.{
  ℕ, ◌+◌, ◌≤◌, ◌≡◌, refl, Bool, true, false, Option, none, some, List, [], ◌∷◌, ◌++◌, arith, inl,
  inr, Bool-cases,
}
use middle_man.Proxy.Layer.{
  Command, stop, yields, Paused, idle, paused, after, is_blocking, wait_for,
}
use middle_man.Proxy.Layer.Reference.{block}
use middle_man.Proxy.Stream.{HttpCommand, HttpStream, Generator, Reply}
use middle_man.Proxy.Stream.Ends.{HookKind, plain, ending, dropping, kind_of, Choice, Fits, Bounded}

-- 1 for the hooks that end a flow
abbrev weight : HookKind → ℕ
weight ending = 1
weight _ = 0

-- how many of the commands end a flow
abbrev pub ended : List (Command HttpCommand) → ℕ
ended [] = 0
ended (command ∷ commands) = weight (kind_of command.asks) + ended commands

abbrev pub one : Bool → ℕ
one true = 1
one false = 0

-- the credit behind a command, and whether the stream is dropped then
abbrev credit_after : HookKind → Bool → Bool
credit_after ending credit = false
credit_after _ credit = credit

abbrev dropped_after : HookKind → Bool → Bool
dropped_after dropping dropped = true
dropped_after _ dropped = dropped

abbrev pub credit_behind : Bool → List (Command HttpCommand) → Bool
credit_behind credit [] = credit
credit_behind credit (command ∷ commands) =
    credit_behind (credit_after (kind_of command.asks) credit) commands

abbrev pub dropped_behind : Bool → List (Command HttpCommand) → Bool
dropped_behind dropped [] = dropped
dropped_behind dropped (command ∷ commands) =
    dropped_behind (dropped_after (kind_of command.asks) dropped) commands

module _ {C : Type 0} where
  yields-Bounded :
      (kind : HookKind) (dropped credit : Bool) (resume : Option Reply → Generator C)
      → Choice kind
          ((sent : Option Reply) → Bounded dropped credit (resume sent))
          ((credit ≡ true) × ((sent : Option Reply) → Bounded dropped false (resume sent)))
          ((sent : Option Reply) → Bounded true credit (resume sent))
      → (weight kind + one (credit_after kind credit) ≤ one credit)
        × ((sent : Option Reply)
            → Bounded (dropped_after kind dropped) (credit_after kind credit) (resume sent))
  yields-Bounded plain dropped credit resume h = (omega arith, h)
  yields-Bounded ending dropped credit resume (e, h) = (rw (e) (omega arith), h)
  yields-Bounded dropping dropped credit resume h = (omega arith, h)

  -- at rest in states that fit, or paused
  abbrev pub AtRest : Bool → Bool → Paused HttpCommand Reply (HttpStream C) → Type 0
  AtRest dropped credit (idle s) =
      Fits dropped credit (s.client_state) (s.server_state) (s.passthrough)
  AtRest dropped credit (paused command resume) = true ≡ true

  -- what a run of a generator does with its credit
  abbrev Spends :
      Bool
      → Bool
      → List (Command HttpCommand) × (Paused HttpCommand Reply (HttpStream C) × List Reply)
      → Type 0
  Spends dropped credit run =
      (ended (run.0) + one (credit_behind credit (run.0)) ≤ one credit)
      × AtRest (dropped_behind dropped (run.0)) (credit_behind credit (run.0)) (run.1.0)

  after-Spends :
      (dropped credit : Bool) (command : Command HttpCommand)
      (run : List (Command HttpCommand) × (Paused HttpCommand Reply (HttpStream C) × List Reply))
      → weight (kind_of command.asks) + one (credit_after (kind_of command.asks) credit)
        ≤ one credit
      → Spends
          (dropped_after (kind_of command.asks) dropped)
          (credit_after (kind_of command.asks) credit)
          run
      → Spends dropped credit (after (command ∷ []) run)
  after-Spends dropped credit command run w (n, rests) = (omega (arith, w, n), rests)

  pub block-Spends :
      (dropped credit : Bool) (g : Generator C) (replies : List Reply)
      → Bounded dropped credit g
      → Spends dropped credit (block g replies)
  unfolding wait_for
  block-Spends dropped credit (stop s) replies h = (omega arith, h)
  block-Spends dropped credit (yields command resume) [] h =
      let kind = kind_of command.asks in
      let (w, k) = yields-Bounded kind dropped credit resume h in
      let next =
        block-Spends (dropped_after kind dropped) (credit_after kind credit) (resume none) []
          (k none) in
      elim (Bool-cases (is_blocking command)) [
        | inl e ↦ rw (e) (omega (arith, w), refl)
        | inr e ↦ rw (e) (after-Spends dropped credit command (block (resume none) []) w next)
      ]
  block-Spends dropped credit (yields command resume) (reply ∷ replies) h =
      let kind = kind_of command.asks in
      let (w, k) = yields-Bounded kind dropped credit resume h in
      let replied =
        block-Spends (dropped_after kind dropped) (credit_after kind credit) (resume (some reply))
          replies (k (some reply)) in
      let next =
        block-Spends (dropped_after kind dropped) (credit_after kind credit) (resume none)
          (reply ∷ replies) (k none) in
      elim (Bool-cases (is_blocking command)) [
        | inl e ↦ rw (e) (
            after-Spends dropped credit (wait_for command) (block (resume (some reply)) replies) w
              replied)
        | inr e ↦
            rw (e)
              (after-Spends dropped credit command (block (resume none) (reply ∷ replies)) w next)
      ]

pub ended-append : (cs ds : List (Command HttpCommand)) → ended (cs ++ ds) ≡ ended cs + ended ds
ended-append [] ds = omega arith
ended-append (c ∷ cs) ds = omega (arith, ended-append cs ds)
