-- ===== src/Store/Examples.antt =====
-- Concrete runs, stores and events on which the theorems on runs and their logs apply.
pub mod Outbox
pub mod Tables
use scenara.Prelude.{
  String, ℕ, ◌≡◌, ◌≢◌, refl, true, false, none, some, List, [], ◌∷◌, drop, length, ◌++◌, key_eqb,
  arith, ◌==◌, string_eq, key_eq, ==-iff,
}
use scenara.Prelude.Dict.{Dict, lookup, has_key, insert}
use scenara.Models.{ℤ, pos, JsonObject, PipelineRef, Json}
use scenara.Models.Run.{RunStatus, RunRecord, RunEvent}
use scenara.Store.{MemoryStateStore, ok, conflict, key_error}
use scenara.Store.Reach.{RunReach, RunStep, RunReach-IsConsistent}
use scenara.Store.Runs.{run_key, create_run_idempotent, list_runs, count_runs, save_run, delete_run}
use scenara.Store.Runs.Revision.{save_all, save_run-once}
use scenara.Store.Runs.Idempotency.{create_run_idempotent-replay, create_run_idempotent-reused}
use scenara.Store.Runs.Listing.{list_runs-append, length-list_runs}
use scenara.Store.Events.{append_event, events_of, events_after}
use scenara.Store.Events.Log.{events_after-eq-drop, append_event-IsConsistent}
use scenara.Store.Invariant.{
  IsConsistent, create_run_idempotent-total, save_run-IsConsistent,
  create_run_idempotent-IsConsistent, delete_run-IsConsistent,
}

-- Texts that are seen to differ.
pub differ : (a b : String) → (a == b) ≡ false → a ≢ b
differ a b h same = ground (arith, ==-iff a b)

abbrev pub empty : MemoryStateStore
empty = record {
  assets = [];
  sources = [];
  datasets = [];
  dataset_versions = [];
  saved_searches = [];
  runs = [];
  events = [];
  results = [];
  idempotency = [];
  audits = [];
  external_event_hashes = [];
  object_retention = [];
  pipelines = [];
  webhook_subscriptions = [];
  webhook_deliveries = [];
}

abbrev parse_run : RunRecord
parse_run = record {
  run_id = "run_1";
  tenant_id = "acme";
  project_id = "demo";
  principal_id = "alice";
  request_id = none;
  trace_id = none;
  domain = "ocr";
  pipeline = record { pipeline_id = "ocr"; version = "1.0.0" };
  asset_id = some "asset_1";
  source_id = none;
  stream_session_id = none;
  stream_segment_index = none;
  previous_run_id = none;
  next_run_id = none;
  parameters = [];
  priority = pos 0;
  status = RunStatus.queued;
  revision = 1;
  progress = 0;
  error_code = none;
  termination_reason = none;
  created_at = 10;
  updated_at = 10;
  started_at = none;
  completed_at = none;
}

abbrev second_run : RunRecord
second_run = record parse_run { run_id = "run_2"; created_at = 20 }

abbrev started_run : RunRecord
started_run = record parse_run { status = RunStatus.running }

-- A store with one run.
abbrev started : MemoryStateStore
started = (create_run_idempotent parse_run "key" "hash" empty).0

empty-IsConsistent : IsConsistent empty
unfolding has_key
empty-IsConsistent = record { keyed = tt; replayable = tt; logged = λ k. refl; numbered = tt }

started-IsConsistent : IsConsistent started
started-IsConsistent =
    create_run_idempotent-IsConsistent empty empty-IsConsistent parse_run "key" "hash"

created : create_run_idempotent parse_run "key" "hash" empty ≡ (started, ok (parse_run, true))
unfolding create_run_idempotent has_key lookup insert key_eqb
created = refl

-- The store once a writer that read revision 1 has been heard.
abbrev saved : MemoryStateStore
saved = (save_run started_run 1 started).0

heard : save_run started_run 1 started ≡ (saved, ok (record started_run { revision = 2 }))
unfolding save_run create_run_idempotent has_key lookup insert key_eqb
heard = refl

save_run-once_example :
    save_run parse_run 1 (save_all ((started_run, 2) ∷ (second_run, 1) ∷ []) saved)
    ≡ (save_all ((started_run, 2) ∷ (second_run, 1) ∷ []) saved, conflict "run revision conflict")
save_run-once_example =
    save_run-once started_run parse_run 1 ((started_run, 2) ∷ (second_run, 1) ∷ []) started heard
      refl

create_run_idempotent-replay_example :
    create_run_idempotent second_run "key" "hash" started ≡ (started, ok (parse_run, false))
create_run_idempotent-replay_example =
    create_run_idempotent-replay parse_run second_run "key" "hash" empty created refl refl

create_run_idempotent-total_example :
    (create_run_idempotent second_run "key" "hash" started).1 ≢ key_error
create_run_idempotent-total_example =
    create_run_idempotent-total second_run "key" "hash" started started-IsConsistent

abbrev queued_event : RunEvent
queued_event = record {
  run_id = "run_1";
  event_id = 0;
  event_type = "run.queued";
  event_version = "1.0";
  occurred_at = none;
  producer = "scenara";
  tenant_id = none;
  project_id = none;
  request_id = none;
  trace_id = none;
  status = RunStatus.queued;
  payload = [];
  created_at = 11;
}

abbrev no_payload : RunEvent → JsonObject
no_payload event = []

abbrev one_id : ℕ → String
one_id n = "0"

abbrev logged : MemoryStateStore
logged = (append_event no_payload one_id "acme" "demo" queued_event started).0

-- A run is created, its log is appended to, a stale save is refused and the run is deleted.
deleted : MemoryStateStore
deleted = (delete_run "acme" "demo" "run_1" (save_run started_run 7 logged).0).0

reached : RunReach no_payload deleted
unfolding deleted
reached =
    RunReach.more
      (RunReach.more
        (RunReach.more
          (RunReach.more (RunReach.start empty refl refl refl)
            (RunStep.create parse_run "key" "hash"))
          (RunStep.append one_id "acme" "demo" queued_event))
        (RunStep.save started_run 7))
      (RunStep.delete "acme" "demo" "run_1")

RunReach-IsConsistent_example : IsConsistent deleted
RunReach-IsConsistent_example = RunReach-IsConsistent no_payload reached

logged-IsConsistent : IsConsistent logged
logged-IsConsistent =
    append_event-IsConsistent no_payload one_id "acme" "demo" queued_event started
      started-IsConsistent

events_after-eq-drop_example :
    events_after "acme" "demo" "run_1" 1 logged
    ≡ drop 1 (events_of ("acme", "demo", "run_1") logged)
events_after-eq-drop_example =
    events_after-eq-drop "acme" "demo" "run_1" 1 logged logged-IsConsistent
