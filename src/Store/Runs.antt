-- ===== src/Store/Runs.antt =====
-- Runs and their idempotency keys: `create_run_idempotent` to `save_run` of `MemoryStateStore` in
-- scenara/infrastructure/memory_state.py.
pub mod Revision
pub mod Idempotency
pub mod Listing
use scenara.Prelude.{
  String, ℕ, ◌+◌, Bool, true, false, not, ◌&&◌, Option, none, some, List, [], Key, ◌==◌, key_eq,
  string_eq, option_eq, contains, nat_eqb, if◌then◌else◌, slice, drop, ◌≡◌, ◌↔◌, Eq, arith,
}
use scenara.Prelude.Dict.{lookup, has_key, insert, erase, retain, select, count_entries, any_entry}
use scenara.Prelude.Sort.{sort, stamped_ltb}
use scenara.Models.Run.{RunStatus, RunRecord, is_terminal}
use scenara.Store.{MemoryStateStore, Reply, ok, conflict, value_error, key_error}

abbrev pub run_status_eqb : RunStatus → RunStatus → Bool
run_status_eqb RunStatus.queued RunStatus.queued = true
run_status_eqb RunStatus.running RunStatus.running = true
run_status_eqb RunStatus.pausing RunStatus.pausing = true
run_status_eqb RunStatus.paused RunStatus.paused = true
run_status_eqb RunStatus.completed RunStatus.completed = true
run_status_eqb RunStatus.failed RunStatus.failed = true
run_status_eqb RunStatus.cancelling RunStatus.cancelling = true
run_status_eqb RunStatus.cancelled RunStatus.cancelled = true
run_status_eqb _ _ = false

pub run_status_eqb_iff : (a b : RunStatus) → (run_status_eqb a b ≡ true) ↔ (a ≡ b)
run_status_eqb_iff a b = ground arith

instance abbrev pub run_status_eq : Eq RunStatus
run_status_eq = record { test = run_status_eqb; decides = run_status_eqb_iff }

abbrev pub run_key : RunRecord → Key
run_key run = (run.tenant_id, run.project_id, run.run_id)

unfoldable pub create_run_idempotent :
    RunRecord → String → String → MemoryStateStore → MemoryStateStore × Reply (RunRecord × Bool)
create_run_idempotent run idempotency_key request_hash s =
    elim (lookup (run.tenant_id, run.project_id, idempotency_key) s.idempotency) [
      | some (existing_hash, existing_run_id) ↦
          if not (existing_hash == request_hash)
          then (s, conflict "idempotency key was already used for a different request")
          else (
            s,
            elim (lookup (run.tenant_id, run.project_id, existing_run_id) s.runs) [
              | some existing_run ↦ ok (existing_run, false)
              | none ↦ key_error
            ],
          )
      | none ↦ if has_key (run_key run) s.runs then (s, conflict "run already exists") else (
        record s {
          runs = insert (run_key run) run s.runs;
          events = insert (run_key run) [] s.events;
          idempotency =
              insert (run.tenant_id, run.project_id, idempotency_key) (request_hash, run.run_id)
                s.idempotency;
        },
        ok (run, true),
      )
    ]

unfoldable pub get_run : String → String → String → MemoryStateStore → Option RunRecord
get_run tenant_id project_id run_id s = lookup (tenant_id, project_id, run_id) s.runs

-- `row_tenant == tenant_id and row_project == project_id`
abbrev pub in_scope : String → String → Key → Bool
in_scope tenant_id project_id (t, p, i) = (t == tenant_id) && (p == project_id)

abbrev pub key_id : Key → String
key_id (t, p, i) = i

unfoldable pub get_runs : String → String → List String → MemoryStateStore → List RunRecord
get_runs tenant_id project_id run_ids s =
    select (λ k run. in_scope tenant_id project_id k && contains (key_id k) run_ids) s.runs

-- `wanted is None or value == wanted`
abbrev pub matches {ℓ} : {A : Type ℓ} ⦃e : Eq A⦄ → Option A → A → Bool
matches none value = true
matches (some wanted) value = value == wanted

abbrev pub is_listed : String → String → Option RunStatus → Option String → Key → RunRecord → Bool
is_listed tenant_id project_id status domain k run =
    in_scope tenant_id project_id k && (matches status run.status && matches domain run.domain)

-- The sort key (created_at, run_id), reversed: later runs first.
abbrev pub newer_run : RunRecord → RunRecord → Bool
newer_run a b = stamped_ltb b.created_at b.run_id a.created_at a.run_id

-- `rows[offset:] if limit is None else rows[offset : offset + limit]`
abbrev pub page {ℓ} : {A : Type ℓ} → ℕ → Option ℕ → List A → List A
page offset none rows = drop offset rows
page offset (some limit) rows = slice offset limit rows

unfoldable pub list_runs :
    String
    → String
    → Option RunStatus
    → Option String
    → ℕ
    → Option ℕ
    → MemoryStateStore
    → List RunRecord
list_runs tenant_id project_id status domain offset limit s =
    page offset limit
      (sort newer_run (select (is_listed tenant_id project_id status domain) s.runs))

unfoldable pub count_runs :
    String → String → Option RunStatus → Option String → MemoryStateStore → ℕ
count_runs tenant_id project_id status domain s =
    count_entries (is_listed tenant_id project_id status domain) s.runs

unfoldable pub recoverable_runs : MemoryStateStore → List RunRecord
recoverable_runs s =
    sort (λ a b. stamped_ltb a.created_at a.run_id b.created_at b.run_id)
      (select (λ k run. not (is_terminal run.status)) s.runs)

unfoldable pub has_non_terminal_run :
    String → String → Option String → Option String → MemoryStateStore → Reply Bool
has_non_terminal_run tenant_id project_id none none s =
    value_error "exactly one of asset_id or source_id is required"
has_non_terminal_run tenant_id project_id (some a) (some b) s =
    value_error "exactly one of asset_id or source_id is required"
has_non_terminal_run tenant_id project_id (some a) none s = ok (
    any_entry
      (λ k run.
        in_scope tenant_id project_id k
        && (not (is_terminal run.status) && (run.asset_id == some a)))
      s.runs)
has_non_terminal_run tenant_id project_id none (some b) s = ok (
    any_entry
      (λ k run.
        in_scope tenant_id project_id k
        && (not (is_terminal run.status) && (run.source_id == some b)))
      s.runs)

unfoldable pub delete_run :
    String → String → String → MemoryStateStore → MemoryStateStore × Option RunRecord
delete_run tenant_id project_id run_id s = (
  record s {
    runs = erase (tenant_id, project_id, run_id) s.runs;
    events = erase (tenant_id, project_id, run_id) s.events;
    results = erase (tenant_id, project_id, run_id) s.results;
    idempotency =
        retain (λ k stored. not (in_scope tenant_id project_id k && (stored.1 == run_id)))
          s.idempotency;
  },
  lookup (tenant_id, project_id, run_id) s.runs,
)

unfoldable pub save_run : RunRecord → ℕ → MemoryStateStore → MemoryStateStore × Reply RunRecord
save_run run expected_revision s = elim (lookup (run_key run) s.runs) [
  | none ↦ (s, conflict "run does not exist")
  | some current ↦
      if not (nat_eqb current.revision expected_revision)
      then (s, conflict "run revision conflict")
      else let saved = record run { revision = expected_revision + 1 } in
        (record s { runs = insert (run_key run) saved s.runs }, ok saved)
]
