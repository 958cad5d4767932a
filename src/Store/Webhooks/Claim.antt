-- ===== src/Store/Webhooks/Claim.antt =====
-- Leases of deliveries: `claim_webhook_deliveries` of `MemoryStateStore`.
use scenara.Prelude.{
  ℕ, suc, ◌≤◌, ◌<◌, ◌≡◌, ◌≢◌, refl, ap, subst, inl, inr, some, List, [], ◌∷◌, Key, ◌==◌, key_eq,
  Bool-cases, arith, All, All-take, take, length, length-take,
}
use scenara.Prelude.Dict.{
  Dict, lookup, insert, select, lookup-insert, lookup-insert_self, AllEntries, AllEntries-insert,
  AllEntries-both, IsUnique, insert-IsUnique, IsUnique-lookup, select-All_with,
}
use scenara.Prelude.Sort.{sort, All-sort}
use scenara.Models.{Timestamp}
use scenara.Models.Webhook.{DeliveryStatus, WebhookDeliveryRecord}
use scenara.Store.{MemoryStateStore}
use scenara.Store.Webhooks.{
  delivery_key, is_due, due_ltb, leased, claim_each, claim_webhook_deliveries,
}

-- The table of deliveries is a dict in which every record stands under its own key.
pub record IsKeyed (d : Dict Key WebhookDeliveryRecord) : Type 0 where
  pub unique : IsUnique d
  pub keyed : AllEntries (λ k r. k ≡ delivery_key r) d

module _ (before lease_until : Timestamp) where
  claim_each-IsKeyed :
      (due : List WebhookDeliveryRecord) (d : Dict Key WebhookDeliveryRecord)
      → IsKeyed d
      → IsKeyed (claim_each before lease_until due d).0
  unfolding claim_each
  claim_each-IsKeyed [] d h = h
  claim_each-IsKeyed (item ∷ due) d h =
      claim_each-IsKeyed due (insert (delivery_key item) (leased before lease_until item) d)
        (record {
          unique = insert-IsUnique (delivery_key item) (leased before lease_until item) d h.unique;
          keyed =
              AllEntries-insert (λ k r. k ≡ delivery_key r) (delivery_key item)
                (leased before lease_until item) d h.keyed refl;
        })

  -- The delivery under the key is leased.
  abbrev IsLeased : Key → Dict Key WebhookDeliveryRecord → Type 0
  IsLeased k d =
      (r : WebhookDeliveryRecord) × (lookup k d ≡ some r) × (r.next_attempt_at ≡ lease_until)

  claim_each-keeps :
      (due : List WebhookDeliveryRecord) (k : Key) (d : Dict Key WebhookDeliveryRecord)
      → IsLeased k d
      → IsLeased k (claim_each before lease_until due d).0
  unfolding claim_each
  claim_each-keeps [] k d h = h
  claim_each-keeps (item ∷ due) k d (r, found, until) =
      claim_each-keeps due k (insert (delivery_key item) (leased before lease_until item) d)
        (elim (Bool-cases (delivery_key item == k)) [
          | inl same ↦ (
            leased before lease_until item,
            ground (arith, lookup-insert k (delivery_key item) (leased before lease_until item) d),
            refl,
          )
          | inr other ↦ (
            r,
            ground (arith, lookup-insert k (delivery_key item) (leased before lease_until item) d),
            until,
          )
        ])

  claim_each-leases :
      (due : List WebhookDeliveryRecord) (d : Dict Key WebhookDeliveryRecord)
      → let (d', claimed) = claim_each before lease_until due d in
        All
          (λ (r : WebhookDeliveryRecord).
            (r.status ≡ DeliveryStatus.delivering) × IsLeased (delivery_key r) d')
          claimed
  unfolding claim_each
  claim_each-leases [] d = tt
  claim_each-leases (item ∷ due) d =
      let next = insert (delivery_key item) (leased before lease_until item) d in
      (
        (
          refl,
          claim_each-keeps due (delivery_key item) next (
            leased before lease_until item,
            lookup-insert_self (delivery_key item) (leased before lease_until item) d,
            refl,
          ),
        ),
        claim_each-leases due next,
      )

  length-claim_each :
      (due : List WebhookDeliveryRecord) (d : Dict Key WebhookDeliveryRecord)
      → length (claim_each before lease_until due d).1 ≡ length due
  unfolding claim_each
  length-claim_each [] d = refl
  length-claim_each (item ∷ due) d =
      ap suc (length-claim_each due (insert (delivery_key item) (leased before lease_until item) d))

  claim_each-All :
      (P : Key → Type 0) (due : List WebhookDeliveryRecord) (d : Dict Key WebhookDeliveryRecord)
      → All (λ (r : WebhookDeliveryRecord). P (delivery_key r)) due
      → All
          (λ (r : WebhookDeliveryRecord). P (delivery_key r))
          (claim_each before lease_until due d).1
  unfolding claim_each
  claim_each-All P [] d h = tt
  claim_each-All P (item ∷ due) d h = (
    h.0,
    claim_each-All P due (insert (delivery_key item) (leased before lease_until item) d) h.1,
  )

-- The delivery under the key may be attempted by now.
abbrev IsOpen : Timestamp → Dict Key WebhookDeliveryRecord → Key → Type 0
IsOpen before d k =
    (q : WebhookDeliveryRecord) × (lookup k d ≡ some q) × (q.next_attempt_at ≤ before)

leased_ne_due :
    (before lease_until : Timestamp) (d : Dict Key WebhookDeliveryRecord)
    (r q : WebhookDeliveryRecord) (j k : Key)
    → j ≡ k
    → lookup j d ≡ some r
    → r.next_attempt_at ≡ lease_until
    → lookup k d ≡ some q
    → q.next_attempt_at ≤ before
    → before < lease_until
    → ⊥
leased_ne_due before lease_until d r q j k same found until there soon early = ground arith

-- The due records, of which a claim takes the first.
due_found :
    (before : Timestamp) (limit : ℕ) (d : Dict Key WebhookDeliveryRecord)
    → IsKeyed d
    → All
        (λ (r : WebhookDeliveryRecord). IsOpen before d (delivery_key r))
        (take limit (sort due_ltb (select (λ k r. is_due before r) d)))
due_found before limit d h = All-take _ limit _ (
    All-sort due_ltb _ _ (
      select-All_with _ (λ k r. (lookup k d ≡ some r) × (k ≡ delivery_key r))
        (λ k r. is_due before r) d
        (λ k r due (found, own). (r, subst (λ j. lookup j d ≡ some r) own found, ground arith))
        (AllEntries-both (λ k r. lookup k d ≡ some r) (λ k r. k ≡ delivery_key r) _ d
          (λ k r found own. (found, own)) (IsUnique-lookup d h.unique) h.keyed)))

pub claim_webhook_deliveries-IsLeased :
    (before lease_until : Timestamp) (limit : ℕ) (s : MemoryStateStore)
    → IsKeyed s.webhook_deliveries
    → let (s', claimed) = claim_webhook_deliveries before lease_until limit s in
      (length claimed ≤ limit)
      × All
          (λ (r : WebhookDeliveryRecord).
            (r.status ≡ DeliveryStatus.delivering)
            × IsLeased before lease_until (delivery_key r) s'.webhook_deliveries)
          claimed
      × IsKeyed s'.webhook_deliveries
unfolding claim_webhook_deliveries
claim_webhook_deliveries-IsLeased before lease_until limit s h =
    let rows = sort due_ltb (select (λ k d. is_due before d) s.webhook_deliveries) in
    (
      omega (
        arith,
        length-claim_each before lease_until (take limit rows) s.webhook_deliveries,
        length-take limit rows,
      ),
      claim_each-leases before lease_until (take limit rows) s.webhook_deliveries,
      claim_each-IsKeyed before lease_until (take limit rows) s.webhook_deliveries h,
    )

module _ {ℓ κ} {A : Type ℓ} {B : Type κ} (P : A → Type 0) (Q : B → Type 0) (R : A → B → Type 0)
    (step : (x : A) (y : B) → P x → Q y → R x y) where
  All-row : (x : A) (ys : List B) → P x → All Q ys → All (R x) ys
  All-row x [] p q = tt
  All-row x (y ∷ ys) p q = (step x y p q.0, All-row x ys p q.1)

  All-cross : (xs : List A) (ys : List B) → All P xs → All Q ys → All (λ x. All (R x) ys) xs
  All-cross [] ys p q = tt
  All-cross (x ∷ xs) ys p q = (All-row x ys p.0 q, All-cross xs ys p.1 q)

-- Where the table of deliveries is a dict of records under their own keys, a second claim that is
-- made before the first one's lease ends takes none of its deliveries.
pub claim_webhook_deliveries-exclusive :
    (before lease_until before' lease_until' : Timestamp) (limit limit' : ℕ) (s : MemoryStateStore)
    → IsKeyed s.webhook_deliveries
    → before' < lease_until
    → let (s', claimed) = claim_webhook_deliveries before lease_until limit s in
      let (s'', others) = claim_webhook_deliveries before' lease_until' limit' s' in
      All
        (λ (a : WebhookDeliveryRecord).
          All (λ (b : WebhookDeliveryRecord). delivery_key a ≢ delivery_key b) others)
        claimed
claim_webhook_deliveries-exclusive before lease_until before' lease_until' limit limit' s h early =
    let (few, held, kept) = claim_webhook_deliveries-IsLeased before lease_until limit s h in
    let s' = (claim_webhook_deliveries before lease_until limit s).0 in
    All-cross
      (λ (a : WebhookDeliveryRecord).
        (a.status ≡ DeliveryStatus.delivering)
        × IsLeased before lease_until (delivery_key a) s'.webhook_deliveries)
      (λ (b : WebhookDeliveryRecord). IsOpen before' s'.webhook_deliveries (delivery_key b)) _
      (λ a b one other same.
        let (r, found, until) = one.1 in
        let (q, there, soon) = other in
        absurd (
          leased_ne_due before' lease_until s'.webhook_deliveries r q (delivery_key a)
            (delivery_key b) same found until there soon early))
      _ _ held
      (unfold claim_webhook_deliveries in
        claim_each-All before' lease_until' (IsOpen before' s'.webhook_deliveries) _
          s'.webhook_deliveries (due_found before' limit' s'.webhook_deliveries kept))
