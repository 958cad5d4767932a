-- ===== src/Store/Webhooks.antt =====
-- Webhook subscriptions and the outbox of deliveries: the webhook methods of `MemoryStateStore` in
-- scenara/infrastructure/memory_state.py.
pub mod Claim
pub mod Outbox
pub mod Routing
use scenara.Prelude.{
  String, ℕ, suc, Bool, true, false, ◌&&◌, ◌||◌, not, Option, none, some, List, [], ◌∷◌, ◌≡◌, Key,
  ◌==◌, key_eq, string_eq, contains, leb, ltb, nat_eqb, if◌then◌else◌, take,
}
use Prim.Native.String.{◌++◌}
use scenara.Prelude.Dict.{Dict, lookup, has_key, insert, erase, retain, select, values}
use scenara.Prelude.Sort.{sort, stamped_ltb, str_ltb}
use scenara.Models.{Timestamp, Json, JsonObject}
use scenara.Models.Webhook.{WebhookSubscription, DeliveryStatus, WebhookDeliveryRecord}
use scenara.Store.{MemoryStateStore, Reply, ok, conflict}
use scenara.Store.Runs.{in_scope}

abbrev pub subscription_key : WebhookSubscription → Key
subscription_key e = (e.tenant_id, e.project_id, e.endpoint_id)

abbrev pub delivery_key : WebhookDeliveryRecord → Key
delivery_key d = (d.tenant_id, d.project_id, d.delivery_id)

unfoldable pub create_webhook_subscription :
    WebhookSubscription → MemoryStateStore → MemoryStateStore × Reply WebhookSubscription
create_webhook_subscription endpoint s =
    if has_key (subscription_key endpoint) s.webhook_subscriptions
    then (s, conflict "webhook subscription already exists")
    else (
      record s {
        webhook_subscriptions = insert (subscription_key endpoint) endpoint s.webhook_subscriptions;
      },
      ok endpoint,
    )

unfoldable pub get_webhook_subscription :
    String → String → String → MemoryStateStore → Option WebhookSubscription
get_webhook_subscription tenant_id project_id endpoint_id s =
    lookup (tenant_id, project_id, endpoint_id) s.webhook_subscriptions

-- The comparison of the keys of a sorted table.
abbrev pub key_ltb : Key → Key → Bool
key_ltb (t, p, i) (t', p', i') =
    if str_ltb t t'
    then true
    else if t == t'
    then (if str_ltb p p' then true else if p == p' then str_ltb i i' else false)
    else false

unfoldable pub list_webhook_subscriptions :
    String → String → MemoryStateStore → List WebhookSubscription
list_webhook_subscriptions tenant_id project_id s =
    select (λ k e. in_scope tenant_id project_id k)
      (sort (λ a b. key_ltb a.0 b.0) s.webhook_subscriptions)

-- `(item.tenant_id, item.project_id, item.endpoint_id) == (tenant_id, project_id, endpoint_id)`
abbrev pub is_for : Key → WebhookDeliveryRecord → Bool
is_for endpoint d = (d.tenant_id, d.project_id, d.endpoint_id) == endpoint

unfoldable pub delete_webhook_subscription :
    String → String → String → MemoryStateStore → MemoryStateStore × Option WebhookSubscription
delete_webhook_subscription tenant_id project_id endpoint_id s = (
  record s {
    webhook_subscriptions = erase (tenant_id, project_id, endpoint_id) s.webhook_subscriptions;
    webhook_deliveries =
        retain (λ k d. not (is_for (tenant_id, project_id, endpoint_id) d)) s.webhook_deliveries;
  },
  lookup (tenant_id, project_id, endpoint_id) s.webhook_subscriptions,
)

-- `item.status in {"pending", "delivering"}`
abbrev pub is_open : DeliveryStatus → Bool
is_open DeliveryStatus.pending = true
is_open DeliveryStatus.delivering = true
is_open DeliveryStatus.delivered = false
is_open DeliveryStatus.dead_letter = false

abbrev pub is_due : Timestamp → WebhookDeliveryRecord → Bool
is_due before d = is_open d.status && leb d.next_attempt_at before

-- The key (next_attempt_at, created_at, delivery_id).
abbrev pub due_ltb : WebhookDeliveryRecord → WebhookDeliveryRecord → Bool
due_ltb a b =
    if ltb a.next_attempt_at b.next_attempt_at
    then true
    else if nat_eqb a.next_attempt_at b.next_attempt_at
    then stamped_ltb a.created_at a.delivery_id b.created_at b.delivery_id
    else false

abbrev pub leased : Timestamp → Timestamp → WebhookDeliveryRecord → WebhookDeliveryRecord
leased before lease_until d = record d {
  status = DeliveryStatus.delivering;
  next_attempt_at = lease_until;
  updated_at = before;
}

-- The loop over the rows that are due.
unfoldable pub claim_each :
    Timestamp
    → Timestamp
    → List WebhookDeliveryRecord
    → Dict Key WebhookDeliveryRecord
    → Dict Key WebhookDeliveryRecord × List WebhookDeliveryRecord
claim_each before lease_until [] d = (d, [])
claim_each before lease_until (item ∷ due) d =
    let updated = leased before lease_until item in
    let (d', claimed) = claim_each before lease_until due (insert (delivery_key item) updated d) in
    (d', updated ∷ claimed)

unfoldable pub claim_webhook_deliveries :
    Timestamp → Timestamp → ℕ → MemoryStateStore → MemoryStateStore × List WebhookDeliveryRecord
unfolding claim_each
claim_webhook_deliveries before lease_until limit s =
    let due = take limit (sort due_ltb (select (λ k d. is_due before d) s.webhook_deliveries)) in
    let (d, claimed) = claim_each before lease_until due s.webhook_deliveries in
    (record s { webhook_deliveries = d }, claimed)

unfoldable pub save_webhook_delivery :
    WebhookDeliveryRecord → MemoryStateStore → MemoryStateStore × Reply (Unit {0})
save_webhook_delivery delivery s =
    if not (has_key (delivery_key delivery) s.webhook_deliveries)
    then (s, conflict "webhook delivery does not exist")
    else (
      record s {
        webhook_deliveries = insert (delivery_key delivery) delivery s.webhook_deliveries;
      },
      ok tt,
    )

unfoldable pub list_webhook_deliveries :
    String → String → ℕ → MemoryStateStore → List WebhookDeliveryRecord
list_webhook_deliveries tenant_id project_id limit s = take limit (
    sort (λ a b. stamped_ltb b.created_at b.delivery_id a.created_at a.delivery_id)
      (select (λ k d. in_scope tenant_id project_id k) s.webhook_deliveries))

-- `payload.setdefault(key, value)`
abbrev pub setdefault : String → Json → JsonObject → JsonObject
setdefault key value payload = if has_key key payload then payload else insert key value payload

unfoldable pub envelope : String → String → JsonObject → JsonObject
envelope tenant_id project_id payload = setdefault "event_version" (Json.text "1.0") (
    setdefault "producer" (Json.text "scenara") (
      setdefault "project_id" (Json.text project_id)
        (setdefault "tenant_id" (Json.text tenant_id) payload)))

abbrev pub subscribes : String → String → String → WebhookSubscription → Bool
subscribes tenant_id project_id event_type e =
    (e.tenant_id == tenant_id)
    && ((e.project_id == project_id) && (e.enabled && contains event_type e.event_types))

-- What an event is for its subscribers.
pub record WebhookEvent : Type 0 where
  pub tenant_id : String
  pub project_id : String
  pub event_id : String
  pub event_type : String
  pub payload : JsonObject
  pub created_at : Timestamp

-- The record that is stored for one subscriber; `uuid` is the hexadecimal form that uuid4 gave.
abbrev pub delivery_of : WebhookEvent → String → WebhookSubscription → WebhookDeliveryRecord
delivery_of event uuid endpoint = record {
  delivery_id = "whd_" ++ uuid;
  tenant_id = event.tenant_id;
  project_id = event.project_id;
  endpoint_id = endpoint.endpoint_id;
  event_id = event.event_id;
  event_type = event.event_type;
  payload = event.payload;
  status = DeliveryStatus.pending;
  attempts = 0;
  next_attempt_at = event.created_at;
  status_code = none;
  last_error = none;
  created_at = event.created_at;
  updated_at = event.created_at;
  delivered_at = none;
}

-- The loop over the subscriptions; `uuid n` is the n-th identifier that uuid4 gives.
unfoldable pub enqueue_each :
    (ℕ → String)
    → ℕ
    → WebhookEvent
    → List WebhookSubscription
    → Dict Key WebhookDeliveryRecord
    → Dict Key WebhookDeliveryRecord
enqueue_each uuid n event [] d = d
enqueue_each uuid n event (endpoint ∷ rest) d =
    let wanted = subscribes event.tenant_id event.project_id event.event_type endpoint in
    let delivery = delivery_of event (uuid n) endpoint in
    enqueue_each uuid (if wanted then suc n else n) event rest
      (if wanted then insert (delivery_key delivery) delivery d else d)

unfoldable pub enqueue_webhook_event :
    (ℕ → String) → WebhookEvent → MemoryStateStore → MemoryStateStore
unfolding envelope enqueue_each
enqueue_webhook_event uuid event s =
    let sent = record event { payload = envelope event.tenant_id event.project_id event.payload } in
    record s {
      webhook_deliveries =
          enqueue_each uuid 0 sent (values s.webhook_subscriptions) s.webhook_deliveries;
    }
