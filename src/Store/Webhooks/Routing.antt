-- ===== src/Store/Webhooks/Routing.antt =====
-- The subscriptions that the deliveries of `MemoryStateStore` are for.
use scenara.Prelude.{
  String, ℕ, suc, ◌≡◌, refl, subst, inl, inr, true, not, some, List, [], ◌∷◌, Key, key_eq,
  string_eq, key_eqb_iff, ==-iff, Bool-cases, arith, All, All-take, take,
}
use scenara.Prelude.Dict.{
  Dict, lookup, has_key, insert, values, select, AllEntries, AllEntries-insert, AllEntries-erase,
  AllEntries-mono, AllEntries-both, retain-AllEntries_with, has_key-insert, has_key-erase,
  has_key_self, values-All, select-All_with, retain_dropped,
}
use scenara.Prelude.Sort.{sort, All-sort}
use scenara.Models.{Timestamp}
use scenara.Models.Webhook.{WebhookSubscription, WebhookDeliveryRecord}
use scenara.Store.{MemoryStateStore, conflict}
use scenara.Store.Webhooks.Claim.{IsKeyed}
use scenara.Store.Webhooks.{
  WebhookEvent, subscription_key, delivery_key, delivery_of, subscribes, envelope, is_for, is_due,
  due_ltb, leased, claim_each, enqueue_each, enqueue_webhook_event, create_webhook_subscription,
  delete_webhook_subscription, claim_webhook_deliveries, save_webhook_delivery,
}

abbrev Subscriptions : Type 0
Subscriptions = Dict Key WebhookSubscription

-- The subscription that a delivery is for.
abbrev pub route : WebhookDeliveryRecord → Key
route r = (r.tenant_id, r.project_id, r.endpoint_id)

abbrev IsSent : Subscriptions → WebhookDeliveryRecord → Type 0
IsSent subscriptions r = has_key (route r) subscriptions ≡ true

-- A subscription stands under its own key, and every delivery is for one that is stored.
pub record IsRouted (s : MemoryStateStore) : Type 0 where
  pub keyed : AllEntries (λ k e. k ≡ subscription_key e) s.webhook_subscriptions
  pub sent : AllEntries (λ k r. IsSent s.webhook_subscriptions r) s.webhook_deliveries

-- A new subscription keeps the deliveries routed.
pub create_webhook_subscription-IsRouted :
    (endpoint : WebhookSubscription) (s : MemoryStateStore)
    → IsRouted s
    → IsRouted (create_webhook_subscription endpoint s).0
unfolding create_webhook_subscription
create_webhook_subscription-IsRouted endpoint s h =
    elim (Bool-cases (has_key (subscription_key endpoint) s.webhook_subscriptions)) [
      | inl taken ↦ rw taken h
      | inr new ↦ rw new (record {
        keyed =
            AllEntries-insert (λ k e. k ≡ subscription_key e) (subscription_key endpoint) endpoint
              s.webhook_subscriptions h.keyed refl;
        sent =
            AllEntries-mono _ (λ k r. IsSent s.webhook_subscriptions r) s.webhook_deliveries
              (λ k r there. ground (
                arith,
                has_key-insert (route r) (subscription_key endpoint) endpoint
                    s.webhook_subscriptions,
              ))
              h.sent;
      })
    ]

-- To delete a subscription keeps every delivery that is left with a subscription that exists.
pub delete_webhook_subscription-IsRouted :
    (t p i : String) (s : MemoryStateStore)
    → IsRouted s
    → IsRouted (delete_webhook_subscription t p i s).0
unfolding delete_webhook_subscription
delete_webhook_subscription-IsRouted t p i s h = record {
  keyed =
      AllEntries-erase (λ k e. k ≡ subscription_key e) (t, p, i) s.webhook_subscriptions h.keyed;
  sent =
      retain-AllEntries_with _ (λ k r. IsSent s.webhook_subscriptions r)
        (λ k r. not (is_for (t, p, i) r)) s.webhook_deliveries
        (λ k r other there. ground (
          arith,
          has_key-erase (route r) (t, p, i) s.webhook_subscriptions,
          key_eqb_iff (t, p, i) (route r),
          key_eqb_iff (route r) (t, p, i),
        ))
        h.sent;
}

enqueue_each-IsSent :
    (uuid : ℕ → String) (n : ℕ) (event : WebhookEvent) (subscriptions : Subscriptions)
    (endpoints : List WebhookSubscription) (d : Dict Key WebhookDeliveryRecord)
    → All (λ (e : WebhookSubscription). has_key (subscription_key e) subscriptions ≡ true) endpoints
    → AllEntries (λ k r. IsSent subscriptions r) d
    → AllEntries (λ k r. IsSent subscriptions r) (enqueue_each uuid n event endpoints d)
unfolding enqueue_each
enqueue_each-IsSent uuid n event subscriptions [] d known sent = sent
enqueue_each-IsSent uuid n event subscriptions (e ∷ es) d known sent =
    let r = delivery_of event (uuid n) e in
    elim (Bool-cases (subscribes event.tenant_id event.project_id event.event_type e)) [
      | inl wanted ↦ rw wanted (
          enqueue_each-IsSent uuid (suc n) event subscriptions es (insert (delivery_key r) r d)
            known.1
            (AllEntries-insert (λ k r. IsSent subscriptions r) (delivery_key r) r d sent
              (ground (
                arith,
                known.0,
                ==-iff e.tenant_id event.tenant_id,
                ==-iff e.project_id event.project_id,
              ))))
      | inr unwanted ↦
          rw unwanted (enqueue_each-IsSent uuid n event subscriptions es d known.1 sent)
    ]

-- To enqueue an event keeps every delivery with a subscription that exists.
pub enqueue_webhook_event-IsRouted :
    (uuid : ℕ → String) (event : WebhookEvent) (s : MemoryStateStore)
    → IsRouted s
    → IsRouted (enqueue_webhook_event uuid event s)
unfolding enqueue_webhook_event
enqueue_webhook_event-IsRouted uuid event s h = record {
  keyed = h.keyed;
  sent =
      enqueue_each-IsSent uuid 0
        (record event { payload = envelope event.tenant_id event.project_id event.payload })
        s.webhook_subscriptions (values s.webhook_subscriptions) s.webhook_deliveries
        (values-All (λ k e. has_key (subscription_key e) s.webhook_subscriptions ≡ true) _
          s.webhook_subscriptions (λ k e there. there)
          (AllEntries-both (λ k e. has_key k s.webhook_subscriptions ≡ true)
            (λ k e. k ≡ subscription_key e) _ s.webhook_subscriptions
            (λ k e there own. subst (λ j. has_key j s.webhook_subscriptions ≡ true) own there)
            (has_key_self s.webhook_subscriptions) h.keyed))
        h.sent;
}

claim_each-IsSent :
    (before lease_until : Timestamp) (subscriptions : Subscriptions)
    (due : List WebhookDeliveryRecord) (d : Dict Key WebhookDeliveryRecord)
    → All (IsSent subscriptions) due
    → AllEntries (λ k r. IsSent subscriptions r) d
    → AllEntries (λ k r. IsSent subscriptions r) (claim_each before lease_until due d).0
unfolding claim_each
claim_each-IsSent before lease_until subscriptions [] d known sent = sent
claim_each-IsSent before lease_until subscriptions (item ∷ due) d known sent =
    let next = insert (delivery_key item) (leased before lease_until item) d in
    claim_each-IsSent before lease_until subscriptions due next known.1 (
      AllEntries-insert (λ k r. IsSent subscriptions r) (delivery_key item)
        (leased before lease_until item) d sent known.0)

-- A claim keeps every delivery with a subscription that exists.
pub claim_webhook_deliveries-IsRouted :
    (before lease_until : Timestamp) (limit : ℕ) (s : MemoryStateStore)
    → IsRouted s
    → IsRouted (claim_webhook_deliveries before lease_until limit s).0
unfolding claim_webhook_deliveries
claim_webhook_deliveries-IsRouted before lease_until limit s h = record {
  keyed = h.keyed;
  sent =
      claim_each-IsSent before lease_until s.webhook_subscriptions
        (take limit (sort due_ltb (select (λ k d. is_due before d) s.webhook_deliveries)))
        s.webhook_deliveries
        (All-take _ limit _ (
          All-sort due_ltb _ _ (
            select-All_with _ (λ k r. IsSent s.webhook_subscriptions r) (λ k d. is_due before d)
              s.webhook_deliveries (λ k r due there. there) h.sent)))
        h.sent;
}

-- Where the table of deliveries is a dict of records under their own keys: once a subscription is
-- deleted, the outcome of a delivery of it cannot be saved; the save is refused and changes
-- nothing.
pub save_webhook_delivery-deleted :
    (t p i : String) (row r : WebhookDeliveryRecord) (s : MemoryStateStore)
    → IsKeyed s.webhook_deliveries
    → lookup (delivery_key row) s.webhook_deliveries ≡ some r
    → route r ≡ (t, p, i)
    → let s' = (delete_webhook_subscription t p i s).0 in
      save_webhook_delivery row s' ≡ (s', conflict "webhook delivery does not exist")
unfolding delete_webhook_subscription save_webhook_delivery
save_webhook_delivery-deleted t p i row r s h found routed =
    let gone =
      retain_dropped (λ k d. not (is_for (t, p, i) d)) (delivery_key row) r s.webhook_deliveries
        h.unique found (ground (arith, key_eqb_iff (route r) (t, p, i))) in
    rw gone
