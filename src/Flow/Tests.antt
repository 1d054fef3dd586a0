-- ===== src/Flow/Tests.antt =====
-- A flow that is backed up, changed, intercepted and killed.
use middle_man.Base.{[], ℕ, ◌≡◌, refl, true, false, none, some, ◌==◌}
use middle_man.Http.Text.{codes}
use middle_man.Flow.{
  Equality, Flow, modified, backup, revert, killable, kill, killed, resume, is_waiting,
}
use middle_man.Flow.Laws.{modified-backup, awaited, resume-kill}

abbrev same : Equality ℕ ℕ ℕ
same = record { same_client = ◌==◌; same_server = ◌==◌; same_metadata = ◌==◌ }

abbrev flow : Flow ℕ ℕ ℕ
flow = record {
  type = codes "http";
  id = codes "1";
  error = none;
  client_conn = record { serialized = 10; state = 3 };
  server_conn = record { serialized = 20; state = 3 };
  intercepted = false;
  is_replay = none;
  marked = [];
  metadata = 0;
  comment = codes "first";
  timestamp_created = 5;
  live = true;
  _backup = none;
  _resume_event = none;
}

abbrev changed : Flow ℕ ℕ ℕ
changed = record (backup same flow) {
  error = some (record { msg = codes "gone"; timestamp = 7 });
  client_conn = record { serialized = 11; state = 0 };
  marked = codes ":x:";
  metadata = 1;
  comment = codes "second";
  live = false;
}

-- a backup of another class
test_type : revert (record changed { type = codes "tcp" }) ≡ none
unfolding revert backup
test_type = refl

modified-backup_example : (modified same (backup same flow) ≡ true) × (modified same flow ≡ false)
unfolding backup
modified-backup_example = modified-backup same flow (backup same flow) refl refl

resume-kill_example :
    (is_waiting (resume (awaited flow)) ≡ false)
    × ((kill 9 (awaited flow) ≡ some (killed 9 (awaited flow)))
        × ((is_waiting (killed 9 (awaited flow)) ≡ true)
            × (resume (killed 9 (awaited flow)) ≡ killed 9 (awaited flow))))
unfolding killable
resume-kill_example = resume-kill 9 flow refl
