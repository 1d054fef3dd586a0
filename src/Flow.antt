-- ===== src/Flow.antt =====
-- `Flow` of mitmproxy/flow.py: the states that are saved, intercepted and killed. `C` and `S` are the
-- fields of a client and a server connection that are serialized (mitmproxy/connection.py), `M` is the
-- metadata.
pub mod Laws
mod Tests
use middle_man.Base.{
  ℕ, Bool, true, false, not, ◌&&◌, ◌||◌, ◌==◌, Option, none, some, List, [], ◌∷◌, if◌then◌else◌,
}
use middle_man.Http.Text.{Bytes, bytes_eq}
use middle_man.Proxy.Messages.{killed_message}

-- `Error`
pub record Error : Type 0 where
  pub msg : Bytes
  pub timestamp : ℕ

-- A connection: what is serialized of it, and the field `state`, which is not.
pub record Connection (K : Type 0) : Type 0 where
  pub serialized : K
  pub state : ℕ

-- the dict that `get_state` makes, but for the backup
pub record Saved (C S M : Type 0) : Type 0 where
  pub version : ℕ
  pub type : Bytes
  pub id : Bytes
  pub error : Option Error
  pub client_conn : C
  pub server_conn : S
  pub intercepted : Bool
  pub is_replay : Option Bytes
  pub marked : Bytes
  pub metadata : M
  pub comment : Bytes
  pub timestamp_created : ℕ

-- a state: a dict without the key "backup", one where it is None, and one with a backup
pub data State (C S M : Type 0) : Type 0 where
  partial : Saved C S M → State C S M
  plain : Saved C S M → State C S M
  backed : Saved C S M → State C S M → State C S M

-- The attributes, with the class attribute `type`; the resume event is whether it is set.
pub record Flow (C S M : Type 0) : Type 0 where
  pub type : Bytes
  pub id : Bytes
  pub error : Option Error
  pub client_conn : Connection C
  pub server_conn : Connection S
  pub intercepted : Bool
  pub is_replay : Option Bytes
  pub marked : Bytes
  pub metadata : M
  pub comment : Bytes
  pub timestamp_created : ℕ
  pub live : Bool
  pub _backup : Option (State C S M)
  pub _resume_event : Option Bool

-- `FLOW_FORMAT_VERSION` of mitmproxy/version.py
abbrev pub flow_format_version : ℕ
flow_format_version = 21

-- `event.clear()` and `event.set()` of an event that may be there
abbrev pub set_event : Bool → Option Bool → Option Bool
set_event b none = none
set_event b (some old) = some b

-- equality of errors and of texts that may be there
abbrev pub same_error : Option Error → Option Error → Bool
same_error none none = true
same_error none (some b) = false
same_error (some a) none = false
same_error (some a) (some b) = bytes_eq (a.msg) (b.msg) && a.timestamp == b.timestamp

abbrev pub same_text : Option Bytes → Option Bytes → Bool
same_text none none = true
same_text none (some b) = false
same_text (some a) none = false
same_text (some a) (some b) = bytes_eq a b

abbrev pub same_bool : Bool → Bool → Bool
same_bool true b = b
same_bool false b = not b

-- `==` of what is opaque here
pub record Equality (C S M : Type 0) : Type 0 where
  pub same_client : C → C → Bool
  pub same_server : S → S → Bool
  pub same_metadata : M → M → Bool

module _ {C S M : Type 0} (same : Equality C S M) where
  unfoldable pub same_saved : Saved C S M → Saved C S M → Bool
  same_saved a b =
      a.version == b.version
      && (bytes_eq (a.type) (b.type)
          && (bytes_eq (a.id) (b.id)
              && (same_error (a.error) (b.error)
                  && (same.same_client (a.client_conn) (b.client_conn)
                      && (same.same_server (a.server_conn) (b.server_conn)
                          && (same_bool (a.intercepted) (b.intercepted)
                              && (same_text (a.is_replay) (b.is_replay)
                                  && (bytes_eq (a.marked) (b.marked)
                                      && (same.same_metadata (a.metadata) (b.metadata)
                                          && (bytes_eq (a.comment) (b.comment)
                                              && a.timestamp_created
                                                == b.timestamp_created))))))))))

  -- `==` of two states, which have the same keys if they are equal
  unfoldable pub same_state : State C S M → State C S M → Bool
  unfolding same_saved
  same_state (partial a) (partial b) = same_saved a b
  same_state (plain a) (plain b) = same_saved a b
  same_state (backed a old) (backed b old') =
      let rest = same_state old old' in same_saved a b && rest
  same_state _ _ = false

  -- the dict of `get_state`, before the backup is added
  abbrev pub saved_of : Flow C S M → Saved C S M
  saved_of flow = record {
    version = flow_format_version;
    type = flow.type;
    id = flow.id;
    error = flow.error;
    client_conn = flow.client_conn.serialized;
    server_conn = flow.server_conn.serialized;
    intercepted = flow.intercepted;
    is_replay = flow.is_replay;
    marked = flow.marked;
    metadata = flow.metadata;
    comment = flow.comment;
    timestamp_created = flow.timestamp_created;
  }

  unfoldable pub get_state : Flow C S M → State C S M
  unfolding same_state
  get_state flow = elim (flow._backup) [
    | none ↦ plain (saved_of flow)
    | some old ↦
        if same_state old (partial (saved_of flow))
        then plain (saved_of flow)
        else backed (saved_of flow) old
  ]

  unfoldable pub modified : Flow C S M → Bool
  unfolding get_state
  modified flow = elim (flow._backup) [
    | none ↦ false
    | some old ↦ not (same_state old (get_state flow))
  ]

  unfoldable pub backup : Flow C S M → Flow C S M
  unfolding get_state
  backup flow = elim (flow._backup) [
    | none ↦ record flow { _backup = some (get_state flow) }
    | some old ↦ flow
  ]

-- the error that a state has, set on the one that is there or made anew
abbrev pub set_error : Option Error → Option Error → Option Error
set_error none old = none
set_error (some e) none = some e
set_error (some e) (some old) = some (record old { msg = e.msg; timestamp = e.timestamp })

module _ {C S M : Type 0} where
  -- the assignments of `set_state`, with the popped backup
  abbrev pub assigned : Saved C S M → Option (State C S M) → Flow C S M → Flow C S M
  assigned saved old flow = record flow {
    id = saved.id;
    error = set_error (saved.error) (flow.error);
    client_conn = record flow.client_conn { serialized = saved.client_conn };
    server_conn = record flow.server_conn { serialized = saved.server_conn };
    intercepted = saved.intercepted;
    is_replay = saved.is_replay;
    marked = saved.marked;
    metadata = saved.metadata;
    comment = saved.comment;
    timestamp_created = saved.timestamp_created;
    _backup = old;
  }

  -- behind the asserts on the version and the type, which come before all assignments; the dict is empty
  -- in the end, as a state has no other keys
  abbrev pub set_saved : Saved C S M → Option (State C S M) → Flow C S M → Option (Flow C S M)
  set_saved saved old flow =
      if saved.version == flow_format_version && bytes_eq (saved.type) (flow.type)
      then some (assigned saved old flow)
      else none

  -- `set_state`, with `none` for the AssertionError
  unfoldable pub set_state : State C S M → Flow C S M → Option (Flow C S M)
  set_state (partial saved) flow = set_saved saved none flow
  set_state (plain saved) flow = set_saved saved none flow
  set_state (backed saved old) flow = set_saved saved (some old) flow

  unfoldable pub revert : Flow C S M → Option (Flow C S M)
  unfolding set_state
  revert flow = elim (flow._backup) [
    | none ↦ some flow
    | some old ↦ elim (set_state old flow) [
      | none ↦ none
      | some reverted ↦ some (record reverted { _backup = none })
    ]
  ]

  unfoldable pub is_killed : Flow C S M → Bool
  is_killed flow = elim (flow.error) [
    | none ↦ false
    | some error ↦ bytes_eq (error.msg) killed_message
  ]

  unfoldable pub killable : Flow C S M → Bool
  unfolding is_killed
  killable flow = flow.live && not (is_killed flow)

  -- the assignments of `kill` at some time
  abbrev pub killed : ℕ → Flow C S M → Flow C S M
  killed now flow = record flow {
    error = some (record { msg = killed_message; timestamp = now });
    intercepted = false;
    live = false;
  }

  -- `kill`, where None is the ControlException
  unfoldable pub kill : ℕ → Flow C S M → Option (Flow C S M)
  unfolding killable
  kill now flow = if killable flow then some (killed now flow) else none

  unfoldable pub intercept : Flow C S M → Flow C S M
  intercept flow =
      if flow.intercepted
      then flow
      else record flow { intercepted = true; _resume_event = set_event false flow._resume_event }

  unfoldable pub resume : Flow C S M → Flow C S M
  resume flow =
      if flow.intercepted
      then record flow { intercepted = false; _resume_event = set_event true flow._resume_event }
      else flow

  -- `wait_for_resume` up to its wait: the event is there, and the flow waits until it is set
  unfoldable pub wait_for_resume : Flow C S M → Flow C S M
  wait_for_resume flow =
      if flow.intercepted
      then elim (flow._resume_event) [
        | none ↦ record flow { _resume_event = some false }
        | some b ↦ flow
      ]
      else flow

  -- whether one that waits for the event is still waiting
  abbrev pub is_waiting : Flow C S M → Bool
  is_waiting flow = elim (flow._resume_event) [ none ↦ false | some b ↦ not b ]
