-- ===== src/Store/Webhooks/Outbox.antt =====
-- `enqueue_webhook_event` of `MemoryStateStore`.
use scenara.Prelude.{
  String, ℕ, suc, refl, true, not, none, ◌↔◌, ==-iff, string_eq, contains, ◌≤◌, ◌≡◌, sym, ap, ◌∙◌,
  inl, inr, false, List, [], ◌∷◌, ◌++◌, Key, ◌==◌, key_eq, key_eqb_iff, Bool-cases, arith, filter,
}
use Prim.Native.String.{◌++◌ as append}
use text.Mathlib.TextLemmas.{append_cancel_left}
use mathlib.Core.List.{append-nil, append_assoc}
use scenara.Prelude.Dict.{Dict, has_key, insert, insert_new, has_key-insert, IsUnique, values}
use scenara.Models.{Json, JsonObject}
use scenara.Models.Webhook.{WebhookSubscription, DeliveryStatus, WebhookDeliveryRecord}
use scenara.Store.{MemoryStateStore}
use scenara.Store.Webhooks.{
  WebhookEvent, delivery_of, subscribes, setdefault, envelope, enqueue_each, enqueue_webhook_event,
}

module _ (event : WebhookEvent) where
  -- An enabled subscription of the project of the event to its type.
  abbrev pub IsSubscriber : WebhookSubscription → Type 0
  IsSubscriber e =
      (e.tenant_id ≡ event.tenant_id)
      × (e.project_id ≡ event.project_id)
      × (e.enabled ≡ true)
      × (contains event.event_type e.event_types ≡ true)

  -- The entries that every payload has.
  abbrev defaults : JsonObject
  defaults =
      ("tenant_id", Json.text event.tenant_id)
      ∷ ("project_id", Json.text event.project_id)
      ∷ ("producer", Json.text "scenara")
      ∷ ("event_version", Json.text "1.0")
      ∷ []

  -- The payload of the event, and those of the entries that it does not give itself.
  abbrev pub sent_payload : JsonObject
  sent_payload = event.payload ++ filter (λ item. not (has_key item.0 event.payload)) defaults

module _ (uuid : ℕ → String) (event : WebhookEvent) where
  -- One pending delivery for each subscriber, in their order, under successive identifiers.
  pub data Outbox : ℕ → List WebhookSubscription → Dict Key WebhookDeliveryRecord → Type 0 where
    done : {n : ℕ} → Outbox n [] []
    skip :
        {n : ℕ} {endpoint : WebhookSubscription} {rest : List WebhookSubscription}
        {new : Dict Key WebhookDeliveryRecord}
        → ¬ IsSubscriber event endpoint
        → Outbox n rest new
        → Outbox n (endpoint ∷ rest) new
    send :
        {n : ℕ} {endpoint : WebhookSubscription} {rest : List WebhookSubscription}
        {new : Dict Key WebhookDeliveryRecord}
        → IsSubscriber event endpoint
        → Outbox (suc n) rest new
        → Outbox n (endpoint ∷ rest) (
            (
              (event.tenant_id, event.project_id, append "whd_" (uuid n)),
              record {
                delivery_id = append "whd_" (uuid n);
                tenant_id = event.tenant_id;
                project_id = event.project_id;
                endpoint_id = endpoint.endpoint_id;
                event_id = event.event_id;
                event_type = event.event_type;
                payload = event.payload;
                status = DeliveryStatus.pending;
                attempts = 0;
                next_attempt_at = event.created_at;
                status_code = none;
                last_error = none;
                created_at = event.created_at;
                updated_at = event.created_at;
                delivered_at = none;
              },
            )
            ∷ new)

subscribes_iff :
    (event : WebhookEvent) (e : WebhookSubscription)
    → (subscribes event.tenant_id event.project_id event.event_type e ≡ true) ↔ IsSubscriber event e
subscribes_iff event e =
    let tenant = ==-iff e.tenant_id event.tenant_id in
    let project = ==-iff e.project_id event.project_id in ground (arith, tenant, project)

-- A new entry does not change which of the other entries are missing.
filter-insert :
    (k : String) (v : Json) (d items : JsonObject)
    → has_key k items ≡ false
    → filter (λ item. not (has_key item.0 (insert k v d))) items
      ≡ filter (λ item. not (has_key item.0 d)) items
unfolding has_key
filter-insert k v d [] absent = refl
filter-insert k v d ((j, w) ∷ items) absent =
    ground (arith, filter-insert k v d items, has_key-insert j k v d, ==-iff k j, ==-iff j k)

-- A chain of calls of `setdefault`.
setdefaults : JsonObject → JsonObject → JsonObject
setdefaults [] d = d
setdefaults ((k, v) ∷ items) d = setdefaults items (setdefault k v d)

setdefaults-filter :
    (items d : JsonObject)
    → IsUnique items
    → setdefaults items d ≡ d ++ filter (λ item. not (has_key item.0 d)) items
unfolding setdefaults
setdefaults-filter [] d u = sym (append-nil d)
setdefaults-filter ((k, v) ∷ items) d u = elim (Bool-cases (has_key k d)) [
  | inl there ↦ rw there (setdefaults-filter items d u.1)
  | inr absent ↦ rw absent (
      setdefaults-filter items (insert k v d) u.1
      ∙ (rw (filter-insert k v d items u.0)
          (rw (insert_new k v d absent) (append_assoc d ((k, v) ∷ []) _))))
]

defaults-IsUnique : (event : WebhookEvent) → IsUnique (defaults event)
unfolding has_key
defaults-IsUnique event = (refl, (refl, (refl, (refl, tt))))

envelope-sent_payload :
    (event : WebhookEvent)
    → envelope event.tenant_id event.project_id event.payload ≡ sent_payload event
unfolding envelope setdefaults
envelope-sent_payload event =
    setdefaults-filter (defaults event) event.payload (defaults-IsUnique event)

module _ (uuid : ℕ → String) (event : WebhookEvent) where
  -- The key of the n-th delivery.
  abbrev new_key : ℕ → Key
  new_key n = (event.tenant_id, event.project_id, append "whd_" (uuid n))

  -- No delivery has an identifier that is still to come.
  abbrev pub IsFresh : ℕ → Dict Key WebhookDeliveryRecord → Type 0
  IsFresh n d = (m : ℕ) → n ≤ m → has_key (new_key m) d ≡ false

  abbrev pub IsInjective : Type 0
  IsInjective = (m n : ℕ) → uuid m ≡ uuid n → m ≡ n

  insert-IsFresh :
      (n : ℕ) (r : WebhookDeliveryRecord) (d : Dict Key WebhookDeliveryRecord)
      → IsInjective
      → IsFresh n d
      → IsFresh (suc n) (insert (new_key n) r d)
  insert-IsFresh n r d different fresh m later =
      let old : has_key (new_key m) d ≡ false = fresh m (omega arith) in
      elim (Bool-cases (new_key n == new_key m)) [
        | inl same ↦
            let keys : new_key n ≡ new_key m = (key_eqb_iff (new_key n) (new_key m)).0 same in
            let equal : n ≡ m =
              different n m
                (append_cancel_left "whd_" (uuid n) (uuid m) (ap (λ (k : Key). k.2) keys)) in
            absurd (omega (arith, equal))
        | inr other ↦ ground (arith, has_key-insert (new_key m) (new_key n) r d)
      ]

  enqueue_each-Outbox :
      (n : ℕ) (endpoints : List WebhookSubscription) (d : Dict Key WebhookDeliveryRecord)
      → IsInjective
      → IsFresh n d
      → (new : Dict Key WebhookDeliveryRecord) × Outbox uuid event n endpoints new
        × (enqueue_each uuid n event endpoints d ≡ d ++ new)
  unfolding enqueue_each
  enqueue_each-Outbox n [] d different fresh = ([], Outbox.done, sym (append-nil d))
  enqueue_each-Outbox n (endpoint ∷ rest) d different fresh =
      let r = delivery_of event (uuid n) endpoint in
      elim (Bool-cases (subscribes event.tenant_id event.project_id event.event_type endpoint)) [
        | inl wanted ↦
            let (new, listed, equal) =
              enqueue_each-Outbox (suc n) rest (insert (new_key n) r d) different
                (insert-IsFresh n r d different fresh) in
            (
              (new_key n, r) ∷ new,
              (Outbox.send ((subscribes_iff event endpoint).0 wanted) listed),
              rw wanted (
                  equal
                  ∙ (rw (insert_new (new_key n) r d (fresh n (omega arith)))
                      (append_assoc d ((new_key n, r) ∷ []) new))),
            )
        | inr unwanted ↦
            let (new, listed, equal) = enqueue_each-Outbox n rest d different fresh in
            (
              new,
              Outbox.skip
                  (λ h. absurd (ground (arith, (subscribes_iff event endpoint).1 h, unwanted)))
                  listed,
              rw unwanted equal,
            )
      ]

-- An event adds to the outbox exactly one pending delivery for each enabled subscription of its
-- project to its type, with the payload of the event and those of the four common entries that it
-- does not give itself, and changes no other delivery and no other table, where the identifiers that
-- uuid4 gives differ from one another and from those in use.
pub enqueue_webhook_event-Outbox :
    (uuid : ℕ → String) (event : WebhookEvent) (s : MemoryStateStore)
    → IsInjective uuid event
    → IsFresh uuid event 0 s.webhook_deliveries
    → (new : Dict Key WebhookDeliveryRecord) × Outbox uuid
        (record event { payload = sent_payload event })
        0
        (values s.webhook_subscriptions)
        new
      × (enqueue_webhook_event uuid event s
          ≡ record s { webhook_deliveries = s.webhook_deliveries ++ new })
unfolding enqueue_webhook_event
enqueue_webhook_event-Outbox uuid event s different fresh =
    let (new, listed, equal) =
      enqueue_each-Outbox uuid (record event { payload = sent_payload event }) 0
        (values s.webhook_subscriptions) s.webhook_deliveries different fresh in
    (
      new,
      listed,
      rw (envelope-sent_payload event) (ap (λ d. record s { webhook_deliveries = d }) equal),
    )
