-- ===== src/Store/Examples/Outbox.antt =====
-- Concrete subscriptions and deliveries on which the theorems on webhooks apply.
use scenara.Prelude.{
  String, ℕ, zero, suc, ◌≡◌, ◌≢◌, refl, ap, sym, true, some, [], ◌∷◌, ◌++◌, Key, length, All,
  key_eqb, key_eq, arith,
}
use Prim.Native.String.{◌++◌ as append}
use text.Mathlib.TextLemmas.{append_cancel_left, append-eq-nil_iff}
use scenara.Prelude.Dict.{Dict, lookup, has_key, insert, values}
use scenara.Models.Webhook.{WebhookSubscription, DeliveryStatus, WebhookDeliveryRecord}
use scenara.Store.{MemoryStateStore, conflict}
use scenara.Store.Reach.{HookReach, HookStep, HookReach-IsRouted}
use scenara.Store.Webhooks.{
  WebhookEvent, delivery_key, delivery_of, envelope, enqueue_each, enqueue_webhook_event,
  create_webhook_subscription, delete_webhook_subscription, claim_webhook_deliveries,
  save_webhook_delivery,
}
use scenara.Store.Webhooks.Claim.{IsKeyed, claim_webhook_deliveries-exclusive}
use scenara.Store.Webhooks.Outbox.{Outbox, IsFresh, sent_payload, enqueue_webhook_event-Outbox}
use scenara.Store.Webhooks.Routing.{IsRouted, save_webhook_delivery-deleted}
use scenara.Store.Examples.{empty, differ}

abbrev endpoint : WebhookSubscription
endpoint = record {
  endpoint_id = "whk_1";
  tenant_id = "acme";
  project_id = "demo";
  name = "orders";
  url = "https://hooks.example";
  secret_ref = "env:HOOK";
  event_types = "run.completed" ∷ [];
  enabled = true;
  created_at = 1;
}

-- Identifiers that differ from one another.
unfoldable pub ticks : ℕ → String
ticks zero = ""
ticks (suc n) = append "i" (ticks n)

pub ticks_inj : (m n : ℕ) → ticks m ≡ ticks n → m ≡ n
unfolding ticks
ticks_inj zero zero h = refl
ticks_inj zero (suc n) h =
    absurd (differ "i" "" refl ((append-eq-nil_iff {p = "i"} {q = ticks n}).0 (sym h)).0)
ticks_inj (suc m) zero h =
    absurd (differ "i" "" refl ((append-eq-nil_iff {p = "i"} {q = ticks m}).0 h).0)
ticks_inj (suc m) (suc n) h = ap suc (ticks_inj m n (append_cancel_left "i" (ticks m) (ticks n) h))

abbrev completed : WebhookEvent
completed = record {
  tenant_id = "acme";
  project_id = "demo";
  event_id = "run_1:2";
  event_type = "run.completed";
  payload = [];
  created_at = 10;
}

-- A store with one subscription, and with one delivery for it.
abbrev subscribed : MemoryStateStore
subscribed = (create_webhook_subscription endpoint empty).0

abbrev enqueued : MemoryStateStore
enqueued = enqueue_webhook_event ticks completed subscribed

ticks-IsFresh : IsFresh ticks completed 0 subscribed.webhook_deliveries
unfolding create_webhook_subscription has_key
ticks-IsFresh m h = refl

enqueue_webhook_event-Outbox_example :
    (new : Dict Key WebhookDeliveryRecord) × Outbox ticks
      (record completed { payload = sent_payload completed })
      0
      (values subscribed.webhook_subscriptions)
      new
    × (enqueued ≡ record subscribed { webhook_deliveries = subscribed.webhook_deliveries ++ new })
enqueue_webhook_event-Outbox_example =
    enqueue_webhook_event-Outbox ticks completed subscribed ticks_inj ticks-IsFresh

-- One delivery is enqueued.
one_enqueued : length enqueued.webhook_deliveries ≡ 1
unfolding enqueue_webhook_event create_webhook_subscription enqueue_each envelope insert has_key
    key_eqb ticks
one_enqueued = refl

-- A subscription, an event for it, and a claim.
abbrev claimed : MemoryStateStore
claimed = (claim_webhook_deliveries 12 72 5 enqueued).0

reached : HookReach claimed
reached =
    HookReach.more
      (HookReach.more
        (HookReach.more (HookReach.start empty refl refl) (HookStep.subscribe endpoint))
        (HookStep.enqueue ticks completed))
      (HookStep.claim 12 72 5)

HookReach-IsRouted_example : IsRouted claimed
HookReach-IsRouted_example = HookReach-IsRouted reached

-- The delivery, as a worker that claimed it has it, and a store that holds only it.
abbrev sent : WebhookDeliveryRecord
sent = delivery_of completed "1" endpoint

abbrev waiting : MemoryStateStore
waiting = record subscribed { webhook_deliveries = (delivery_key sent, sent) ∷ [] }

waiting-IsKeyed : IsKeyed waiting.webhook_deliveries
unfolding has_key
waiting-IsKeyed = record { unique = (refl, tt); keyed = (refl, tt) }

claim_webhook_deliveries-exclusive_example :
    let (s', claimed) = claim_webhook_deliveries 12 72 5 waiting in
    let (s'', others) = claim_webhook_deliveries 30 90 5 s' in
    All
      (λ (a : WebhookDeliveryRecord).
        All (λ (b : WebhookDeliveryRecord). delivery_key a ≢ delivery_key b) others)
      claimed
claim_webhook_deliveries-exclusive_example =
    claim_webhook_deliveries-exclusive 12 72 30 90 5 5 waiting waiting-IsKeyed (omega arith)

stored : lookup (delivery_key sent) waiting.webhook_deliveries ≡ some sent
unfolding lookup key_eqb
stored = refl

save_webhook_delivery-deleted_example :
    let s' = (delete_webhook_subscription "acme" "demo" "whk_1" waiting).0 in
    save_webhook_delivery (record sent { status = DeliveryStatus.delivered }) s'
    ≡ (s', conflict "webhook delivery does not exist")
save_webhook_delivery-deleted_example =
    save_webhook_delivery-deleted "acme" "demo" "whk_1"
      (record sent { status = DeliveryStatus.delivered }) sent waiting waiting-IsKeyed stored refl
