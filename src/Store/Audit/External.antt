-- ===== src/Store/Audit/External.antt =====
-- `append_external_event_audit` and `delete_audit_events_before` of `MemoryStateStore`.
use scenara.Prelude.{
  String, ℕ, suc, ◌-◌, ◌<◌, ◌≤◌, ◌≡◌, ◌≢◌, ◌⊎◌, refl, subst, inl, inr, Bool, true, false, not, List,
  [], ◌∷◌, Key, ◌==◌, key_eq, string_eq, ==-iff, Option-cases, Bool-cases, arith, filter, length,
  if◌then◌else◌,
}
use scenara.Prelude.Dict.{lookup, lookup-insert_self}
use scenara.Models.{Timestamp, Json}
use scenara.Models.Retention.{AuditEvent}
use scenara.Store.{MemoryStateStore, ok, conflict}
use scenara.Store.Audit.{
  external_id, append_external_event_audit, is_outdated, delete_audit_events_before,
}

-- The key under which the hash of an external event is kept.
abbrev external_key : (Json → String) → AuditEvent → Key
external_key str event = (event.tenant_id, event.project_id, external_id str event)

-- Once an external event has been answered, an event of the same project and external identifier
-- with the same content is answered with `False` and changes nothing; with other content it is
-- refused and changes nothing.
pub append_external_event_audit-once :
    (str : Json → String) (a b : AuditEvent) (hash other : String) (s : MemoryStateStore)
    {s' : MemoryStateStore} {fresh : Bool}
    → append_external_event_audit str a hash s ≡ (s', ok fresh)
    → external_key str b ≡ external_key str a
    → append_external_event_audit str b other s' ≡ (
      s',
      if hash == other
          then ok false
          else conflict "external event id was reused with different content",
    )
unfolding append_external_event_audit
append_external_event_audit-once str a b hash other s {s'} h same =
    elim (Option-cases (lookup (external_key str a) s.external_event_hashes)) [
      | inl new ↦
          ground (arith, lookup-insert_self (external_key str a) hash s.external_event_hashes)
      | inr (old, found) ↦ ground (arith, ==-iff old hash)
    ]

-- The audit log after the events of a project before a time went, and their number: every other
-- event stays, in its place.
pub data Swept (tenant_id project_id : String) (before : Timestamp)
    : List AuditEvent → List AuditEvent → ℕ → Type 0 where
  done : Swept tenant_id project_id before [] [] 0
  goes :
      {e : AuditEvent} {old new : List AuditEvent} {n : ℕ}
      → e.tenant_id ≡ tenant_id
      → e.project_id ≡ project_id
      → e.created_at < before
      → Swept tenant_id project_id before old new n
      → Swept tenant_id project_id before (e ∷ old) new (suc n)
  stays :
      {e : AuditEvent} {old new : List AuditEvent} {n : ℕ}
      → ((e.tenant_id ≢ tenant_id) ⊎ ((e.project_id ≢ project_id) ⊎ (before ≤ e.created_at)))
      → Swept tenant_id project_id before old new n
      → Swept tenant_id project_id before (e ∷ old) (e ∷ new) n

module _ (t p : String) (before : Timestamp) where
  outdated :
      (e : AuditEvent)
      → is_outdated t p before e ≡ true
      → (e.tenant_id ≡ t) × (e.project_id ≡ p) × (e.created_at < before)
  outdated e h = ground (arith, ==-iff e.tenant_id t, ==-iff e.project_id p)

  recent :
      (e : AuditEvent)
      → is_outdated t p before e ≡ false
      → (e.tenant_id ≢ t) ⊎ ((e.project_id ≢ p) ⊎ (before ≤ e.created_at))
  recent e h = ground (arith, ==-iff e.tenant_id t, ==-iff e.project_id p)

  filter_le :
      (xs : List AuditEvent) → length (filter (λ x. not (is_outdated t p before x)) xs) ≤ length xs
  filter_le [] = omega arith
  filter_le (x ∷ xs) = ground (arith, filter_le xs)

  filter-Swept :
      (xs : List AuditEvent)
      → let left = filter (λ x. not (is_outdated t p before x)) xs in
        Swept t p before xs left (length xs - length left)
  filter-Swept [] = Swept.done
  filter-Swept (x ∷ xs) = elim (Bool-cases (is_outdated t p before x)) [
    | inl old ↦
        let (tenant, project, earlier) = outdated x old in
        let left = filter (λ x. not (is_outdated t p before x)) xs in
        let one : suc (length xs) - length left ≡ suc (length xs - length left) =
          omega (arith, filter_le xs) in
        rw old (rw one (Swept.goes tenant project earlier (filter-Swept xs)))
    | inr new ↦
        let left = filter (λ x. not (is_outdated t p before x)) xs in
        let same : length xs - length left ≡ suc (length xs) - suc (length left) = omega arith in
        rw new (
          subst (λ n. Swept t p before (x ∷ xs) (x ∷ left) n) same
            (Swept.stays (recent x new) (filter-Swept xs)))
  ]

-- The retention of a project's audit log takes out exactly the events of the project that are older
-- than the given time, leaves all others in their order, reports the number of those that went, and
-- changes no other table.
pub delete_audit_events_before-Swept :
    (t p : String) (before : Timestamp) (s : MemoryStateStore)
    → let (s', deleted) = delete_audit_events_before t p before s in
      Swept t p before s.audits s'.audits deleted × (s' ≡ record s { audits = s'.audits })
unfolding delete_audit_events_before
delete_audit_events_before-Swept t p before s = (filter-Swept t p before s.audits, refl)
