-- ===== src/Flow/Laws.antt =====
-- Backups, kills and interceptions of a flow.
use middle_man.Base.{ℕ, ◌≡◌, refl, Bool, true, false, Option, none, some, inl, inr, Bool-cases}
use middle_man.Flow.{
  Equality, Flow, same_state, get_state, modified, backup, killable, killed, kill, intercept,
  resume, wait_for_resume, is_waiting,
}

-- the fields of a flow that a backup does not hold: `live`, the event of those that wait, and the states of
-- the two connections
abbrev pub with_unsaved : {C S M : Type 0} → Flow C S M → Flow C S M → Flow C S M
with_unsaved flow changed = record flow {
  client_conn = record flow.client_conn { state = changed.client_conn.state };
  server_conn = record flow.server_conn { state = changed.server_conn.state };
  live = changed.live;
  _resume_event = changed._resume_event;
}

module _ {C S M : Type 0} (same : Equality C S M) where
  -- Once a backup has been made, `modified` answers True for every later state of the flow, the
  -- unchanged one included, and without a backup it answers False.
  pub modified-backup :
      (flow changed : Flow C S M)
      → flow._backup ≡ none
      → changed._backup ≡ (backup same flow)._backup
      → (modified same changed ≡ true) × (modified same flow ≡ false)
  unfolding backup modified get_state same_state
  modified-backup flow changed empty kept = (rw (kept, empty) refl, rw (empty) refl)

module _ {C S M : Type 0} where
  -- a flow that is not intercepted
  abbrev pub running : Flow C S M → Flow C S M
  running flow = record flow { intercepted = false }

  -- one that is intercepted, and waited for
  abbrev pub awaited : Flow C S M → Flow C S M
  awaited flow = wait_for_resume (intercept (running flow))

  abbrev held : Flow C S M → Flow C S M
  held flow = record flow { intercepted = true; _resume_event = some false }

  awaited-held : (flow : Flow C S M) → awaited flow ≡ held flow
  unfolding wait_for_resume intercept
  awaited-held flow = by_event (flow._resume_event)
    where
      by_event : (event : Option Bool) → awaited (record flow { _resume_event = event }) ≡ held flow
      by_event none = refl
      by_event (some b) = refl

  -- A flow that is intercepted and waited for is released by `resume`, but not by `kill`: the killed flow
  -- is no longer intercepted, its waiter still waits, and `resume` does nothing any more.
  pub resume-kill :
      (now : ℕ) (flow : Flow C S M)
      → killable flow ≡ true
      → (is_waiting (resume (awaited flow)) ≡ false)
        × ((kill now (awaited flow) ≡ some (killed now (awaited flow)))
            × ((is_waiting (killed now (awaited flow)) ≡ true)
                × (resume (killed now (awaited flow)) ≡ killed now (awaited flow))))
  unfolding resume kill killable
  resume-kill now flow can = rw (awaited-held flow, can) (refl, (refl, (refl, refl)))

  -- what a kill may be: the exception for a flow that cannot be killed, or a killed flow, which cannot be
  -- killed again
  abbrev pub Kills : ℕ → Flow C S M → Option (Flow C S M) → Type 0
  Kills now flow none = killable flow ≡ false
  Kills now flow (some after) =
      (killable flow ≡ true) × ((killable after ≡ false) × (kill now after ≡ none))

  -- `kill` raises exactly for a flow that is not killable, and a flow that it kills cannot be killed again.
  pub kill-Kills : (now : ℕ) (flow : Flow C S M) → Kills now flow (kill now flow)
  unfolding kill killable
  kill-Kills now flow = elim (Bool-cases (killable flow)) [
    | inl e ↦ rw (e, kill) (e, (refl, refl))
    | inr e ↦ rw (e, kill) e
  ]
