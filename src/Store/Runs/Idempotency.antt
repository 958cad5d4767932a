-- ===== src/Store/Runs/Idempotency.antt =====
-- Replays of `create_run_idempotent` of `MemoryStateStore`.
use scenara.Prelude.{
  String, Bool, false, ◌≡◌, ◌≢◌, inl, inr, key_eq, string_eq, ==-iff, Option-cases, arith,
}
use scenara.Prelude.Dict.{lookup, lookup-insert_self}
use scenara.Models.Run.{RunRecord}
use scenara.Store.{MemoryStateStore, ok, conflict}
use scenara.Store.Runs.{run_key, create_run_idempotent}

-- Once a creation of a run has been answered, a second one in the same project under the same key
-- and hash is answered with the same run, as not created, and changes nothing, whatever run it
-- proposes.
pub create_run_idempotent-replay :
    (a b : RunRecord) (key hash : String) (s : MemoryStateStore) {s' : MemoryStateStore}
    {r : RunRecord} {fresh : Bool}
    → create_run_idempotent a key hash s ≡ (s', ok (r, fresh))
    → b.tenant_id ≡ a.tenant_id
    → b.project_id ≡ a.project_id
    → create_run_idempotent b key hash s' ≡ (s', ok (r, false))
unfolding create_run_idempotent
create_run_idempotent-replay a b key hash s h t p = ground (
  arith,
  ==-iff hash hash,
  lookup-insert_self (a.tenant_id, a.project_id, key) (hash, a.run_id) s.idempotency,
  lookup-insert_self (run_key a) a s.runs,
)

-- Once a creation has been answered, a request in the same project under the same key but another
-- hash is refused, and nothing changes.
pub create_run_idempotent-reused :
    (a b : RunRecord) (key hash other : String) (s : MemoryStateStore) {s' : MemoryStateStore}
    {r : RunRecord} {fresh : Bool}
    → create_run_idempotent a key hash s ≡ (s', ok (r, fresh))
    → b.tenant_id ≡ a.tenant_id
    → b.project_id ≡ a.project_id
    → hash ≢ other
    → create_run_idempotent b key other s'
      ≡ (s', conflict "idempotency key was already used for a different request")
unfolding create_run_idempotent
create_run_idempotent-reused a b key hash other s h t p differs =
    elim (Option-cases (lookup (a.tenant_id, a.project_id, key) s.idempotency)) [
      | inl new ↦ ground (
        arith,
        ==-iff hash other,
        lookup-insert_self (a.tenant_id, a.project_id, key) (hash, a.run_id) s.idempotency,
      )
      | inr (old, found) ↦ ground (arith, ==-iff old.0 hash, ==-iff hash other)
    ]
