-- ===== src/Store/Events.antt =====
-- The log of a run: `append_event` and `events_after` of `MemoryStateStore` in
-- scenara/infrastructure/memory_state.py.
pub mod Log
use scenara.Prelude.{
  String, ℕ, ◌+◌, ◌<◌, Bool, Option, none, some, List, [], ◌∷◌, Key, key_eq, ltb, length, filter,
}
use mathlib.Core.List.{◌++◌}
use Prim.Native.String.{◌++◌ as append}
use scenara.Prelude.Decimal.{decimal}
use scenara.Prelude.Dict.{lookup, insert}
use scenara.Models.{JsonObject}
use scenara.Models.Run.{RunEvent}
use scenara.Store.{MemoryStateStore, Reply, ok, conflict}
use scenara.Store.Webhooks.{WebhookEvent, enqueue_webhook_event}

-- The event that the subscribers of the run's project are sent; `dump` is pydantic's
-- `model_dump(mode="json")`.
abbrev pub published : (RunEvent → JsonObject) → String → String → RunEvent → WebhookEvent
published dump tenant_id project_id stored = record {
  tenant_id = tenant_id;
  project_id = project_id;
  event_id = append stored.run_id (append ":" (decimal stored.event_id));
  event_type = stored.event_type;
  payload = dump stored;
  created_at = stored.created_at;
}

unfoldable pub append_event :
    (RunEvent → JsonObject)
    → (ℕ → String)
    → String
    → String
    → RunEvent
    → MemoryStateStore
    → MemoryStateStore × Reply RunEvent
append_event dump uuid tenant_id project_id event s =
    elim (lookup (tenant_id, project_id, event.run_id) s.events) [
      | none ↦ (s, conflict "run does not exist")
      | some rows ↦
          let stored = record event { event_id = length rows + 1 } in
          (
            enqueue_webhook_event uuid (published dump tenant_id project_id stored) (record s {
              events = insert (tenant_id, project_id, event.run_id) (rows ++ stored ∷ []) s.events;
            }),
            ok stored,
          )
    ]

-- `self._events.get(key, [])`
abbrev pub events_of : Key → MemoryStateStore → List RunEvent
events_of k s = elim (lookup k s.events) [ none ↦ [] | some rows ↦ rows ]

unfoldable pub events_after : String → String → String → ℕ → MemoryStateStore → List RunEvent
events_after tenant_id project_id run_id event_id s =
    filter (λ e. ltb event_id e.event_id) (events_of (tenant_id, project_id, run_id) s)
