-- ===== src/Store/Reach.antt =====
-- Calls of `MemoryStateStore` in a row: the methods on runs and their logs, and those on webhooks.
use scenara.Prelude.{String, ℕ, [], ◌≡◌}
use scenara.Prelude.Dict.{has_key}
use scenara.Models.{Timestamp, JsonObject}
use scenara.Models.Run.{RunRecord, RunEvent}
use scenara.Models.Webhook.{WebhookSubscription}
use scenara.Store.{MemoryStateStore}
use scenara.Store.Runs.{create_run_idempotent, save_run, delete_run}
use scenara.Store.Events.{append_event}
use scenara.Store.Events.Log.{append_event-IsConsistent}
use scenara.Store.Invariant.{
  IsConsistent, create_run_idempotent-IsConsistent, save_run-IsConsistent, delete_run-IsConsistent,
}
use scenara.Store.Webhooks.{
  WebhookEvent, create_webhook_subscription, delete_webhook_subscription, enqueue_webhook_event,
  claim_webhook_deliveries,
}
use scenara.Store.Webhooks.Routing.{
  IsRouted, create_webhook_subscription-IsRouted, delete_webhook_subscription-IsRouted,
  enqueue_webhook_event-IsRouted, claim_webhook_deliveries-IsRouted,
}

module _ (dump : RunEvent → JsonObject) where
  -- A call of a method on runs, by any tenant.
  pub data RunStep (s : MemoryStateStore) : MemoryStateStore → Type 0 where
    create :
        (run : RunRecord) (key hash : String) → RunStep s (create_run_idempotent run key hash s).0
    save : (run : RunRecord) (revision : ℕ) → RunStep s (save_run run revision s).0
    append :
        (uuid : ℕ → String) (t p : String) (event : RunEvent)
        → RunStep s (append_event dump uuid t p event s).0
    delete : (t p i : String) → RunStep s (delete_run t p i s).0

  -- Such calls in a row, from a store without runs.
  pub data RunReach : MemoryStateStore → Type 0 where
    start : (s : MemoryStateStore) → s.runs ≡ [] → s.events ≡ [] → s.idempotency ≡ [] → RunReach s
    more : {r s : MemoryStateStore} → RunReach r → RunStep r s → RunReach s

  RunStep-IsConsistent : {r s : MemoryStateStore} → RunStep r s → IsConsistent r → IsConsistent s
  RunStep-IsConsistent {r = r} (RunStep.create run key hash) c =
      create_run_idempotent-IsConsistent r c run key hash
  RunStep-IsConsistent {r = r} (RunStep.save run revision) c =
      save_run-IsConsistent r c run revision
  RunStep-IsConsistent {r = r} (RunStep.append uuid t p event) c =
      append_event-IsConsistent dump uuid t p event r c
  RunStep-IsConsistent {r = r} (RunStep.delete t p i) c = delete_run-IsConsistent r c t p i

  -- Whatever runs are created, saved, appended to and deleted, from a store without runs on, the
  -- tables stay consistent: a run stands under its own key, an idempotency key stands for a stored
  -- run, exactly the stored runs have a log, and every log is numbered from 1 without gaps.
  pub RunReach-IsConsistent : {s : MemoryStateStore} → RunReach s → IsConsistent s
  unfolding has_key
  RunReach-IsConsistent (RunReach.start s no_runs no_events no_keys) = record {
    keyed = rw no_runs tt;
    replayable = rw no_keys tt;
    logged = λ k. rw no_runs (rw no_events);
    numbered = rw no_events tt;
  }
  RunReach-IsConsistent (RunReach.more reach step) =
      RunStep-IsConsistent step (RunReach-IsConsistent reach)

-- A call of a method on webhooks.
pub data HookStep (s : MemoryStateStore) : MemoryStateStore → Type 0 where
  subscribe :
      (endpoint : WebhookSubscription) → HookStep s (create_webhook_subscription endpoint s).0
  unsubscribe : (t p i : String) → HookStep s (delete_webhook_subscription t p i s).0
  enqueue :
      (uuid : ℕ → String) (event : WebhookEvent) → HookStep s (enqueue_webhook_event uuid event s)
  claim :
      (before lease_until : Timestamp) (limit : ℕ)
      → HookStep s (claim_webhook_deliveries before lease_until limit s).0

-- Such calls in a row, from a store without subscriptions and deliveries.
pub data HookReach : MemoryStateStore → Type 0 where
  start :
      (s : MemoryStateStore)
      → s.webhook_subscriptions ≡ []
      → s.webhook_deliveries ≡ []
      → HookReach s
  more : {r s : MemoryStateStore} → HookReach r → HookStep r s → HookReach s

HookStep-IsRouted : {r s : MemoryStateStore} → HookStep r s → IsRouted r → IsRouted s
HookStep-IsRouted {r = r} (HookStep.subscribe endpoint) h =
    create_webhook_subscription-IsRouted endpoint r h
HookStep-IsRouted {r = r} (HookStep.unsubscribe t p i) h =
    delete_webhook_subscription-IsRouted t p i r h
HookStep-IsRouted {r = r} (HookStep.enqueue uuid event) h =
    enqueue_webhook_event-IsRouted uuid event r h
HookStep-IsRouted {r = r} (HookStep.claim before lease_until limit) h =
    claim_webhook_deliveries-IsRouted before lease_until limit r h

-- Whatever subscriptions are created and deleted, events enqueued and deliveries claimed, from a
-- store without them on, every delivery is for a subscription that is stored.
pub HookReach-IsRouted : {s : MemoryStateStore} → HookReach s → IsRouted s
HookReach-IsRouted (HookReach.start s no_endpoints no_deliveries) = record {
  keyed = rw no_endpoints tt;
  sent = rw no_deliveries tt;
}
HookReach-IsRouted (HookReach.more reach step) = HookStep-IsRouted step (HookReach-IsRouted reach)
