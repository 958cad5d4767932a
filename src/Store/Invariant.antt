-- ===== src/Store/Invariant.antt =====
-- The tables of `MemoryStateStore` for runs, their logs and their idempotency keys, under the methods
-- on runs.
use scenara.Prelude.{
  String, ℕ, nat_eqb, suc, ◌+◌, ◌≡◌, ◌≢◌, refl, inl, inr, true, not, ◌&&◌, List, [], ◌∷◌, Key, ◌==◌,
  key_eq, string_eq, key_eqb_iff, ==-iff, Option-cases, Bool-cases, arith,
}
use scenara.Prelude.Dict.{
  lookup, has_key, insert, erase, AllEntries, AllEntries-lookup, AllEntries-insert,
  AllEntries-erase, AllEntries-mono, retain-AllEntries_with, has_key-insert, has_key-erase,
  has_key_of_lookup, lookup_of_has_key,
}
use scenara.Models.Run.{RunRecord, RunEvent}
use scenara.Store.{MemoryStateStore, key_error}
use scenara.Store.Runs.{run_key, create_run_idempotent, save_run, delete_run, in_scope}

-- The events of a log carry the numbers after `n`.
abbrev pub IsNumbered : ℕ → List RunEvent → Type 0
IsNumbered n [] = Unit
IsNumbered n (e ∷ es) = (e.event_id ≡ suc n) × IsNumbered (suc n) es

-- The run that an idempotency key stands for.
abbrev pub target : Key → String × String → Key
target (t, p, i) (hash, run_id) = (t, p, run_id)

pub record IsConsistent (s : MemoryStateStore) : Type 0 where
  -- a run stands under its own key
  pub keyed : AllEntries (λ k run. k ≡ run_key run) s.runs
  -- an idempotency key stands for a stored run
  pub replayable : AllEntries (λ k stored. has_key (target k stored) s.runs ≡ true) s.idempotency
  -- the runs have a log, and no others
  pub logged : (k : Key) → has_key k s.events ≡ has_key k s.runs
  -- every log is numbered from 1
  pub numbered : AllEntries (λ k rows. IsNumbered 0 rows) s.events

-- Where the tables are consistent, `create_run_idempotent` never meets an idempotency key whose
-- run is gone.
pub create_run_idempotent-total :
    (run : RunRecord) (key hash : String) (s : MemoryStateStore)
    → IsConsistent s
    → (create_run_idempotent run key hash s).1 ≢ key_error
unfolding create_run_idempotent
create_run_idempotent-total run key hash s c h =
    elim (Option-cases (lookup (run.tenant_id, run.project_id, key) s.idempotency)) [
      | inl new ↦ ground arith
      | inr (stored, found) ↦
          let there =
            AllEntries-lookup (λ k stored. has_key (target k stored) s.runs ≡ true)
              (run.tenant_id, run.project_id, key) stored s.idempotency c.replayable found in
          let (old, here) =
            lookup_of_has_key (run.tenant_id, run.project_id, stored.1) s.runs there in
          ground arith
    ]

module _ (s : MemoryStateStore) (c : IsConsistent s) where
  has_key-insert_of :
      (j k : Key) (run : RunRecord)
      → has_key j s.runs ≡ true
      → has_key j (insert k run s.runs) ≡ true
  has_key-insert_of j k run h = ground (arith, has_key-insert j k run s.runs)

  -- To write a run over one that is stored.
  overwrite-IsConsistent :
      (run : RunRecord)
      → has_key (run_key run) s.runs ≡ true
      → IsConsistent (record s { runs = insert (run_key run) run s.runs })
  overwrite-IsConsistent run known = record {
    keyed = AllEntries-insert (λ k run. k ≡ run_key run) (run_key run) run s.runs c.keyed refl;
    replayable =
        AllEntries-mono
          (λ k stored. has_key (target k stored) (insert (run_key run) run s.runs) ≡ true)
          (λ k stored. has_key (target k stored) s.runs ≡ true) s.idempotency
          (λ k stored. has_key-insert_of (target k stored) (run_key run) run) c.replayable;
    logged = λ k.
        ground (
          arith,
          c.logged k,
          has_key-insert k (run_key run) run s.runs,
          key_eqb_iff (run_key run) k,
        );
    numbered = c.numbered;
  }

  -- `save_run` keeps the tables consistent.
  pub save_run-IsConsistent : (run : RunRecord) (n : ℕ) → IsConsistent (save_run run n s).0
  save_run-IsConsistent run n = elim (Option-cases (lookup (run_key run) s.runs)) [
    | inl missing ↦ unfold save_run in rw (missing, save_run) c
    | inr (old, found) ↦ elim (Bool-cases (not (nat_eqb old.revision n))) [
      | inl stale ↦ unfold save_run in rw (found, save_run) (rw stale c)
      | inr current ↦
          unfold save_run in
          rw (found, save_run)
            (rw current (
              overwrite-IsConsistent (record run { revision = n + 1 })
                (has_key_of_lookup (run_key run) old s.runs found)))
    ]
  ]

  -- To store a new run with an empty log.
  create-IsConsistent :
      (run : RunRecord) (key hash : String)
      → IsConsistent (record s {
        runs = insert (run_key run) run s.runs;
        events = insert (run_key run) [] s.events;
        idempotency = insert (run.tenant_id, run.project_id, key) (hash, run.run_id) s.idempotency;
      })
  create-IsConsistent run key hash = record {
    keyed = AllEntries-insert (λ k run. k ≡ run_key run) (run_key run) run s.runs c.keyed refl;
    replayable =
        AllEntries-insert
          (λ k stored. has_key (target k stored) (insert (run_key run) run s.runs) ≡ true)
          (run.tenant_id, run.project_id, key) (hash, run.run_id) s.idempotency
          (AllEntries-mono
            (λ k stored. has_key (target k stored) (insert (run_key run) run s.runs) ≡ true)
            (λ k stored. has_key (target k stored) s.runs ≡ true) s.idempotency
            (λ k stored. has_key-insert_of (target k stored) (run_key run) run) c.replayable)
          (ground (
            arith,
            has_key-insert (run_key run) (run_key run) run s.runs,
            key_eqb_iff (run_key run) (run_key run),
          ));
    logged = λ k. ground (
      arith,
      c.logged k,
      has_key-insert k (run_key run) run s.runs,
      has_key-insert {V = List RunEvent} k (run_key run) [] s.events,
    );
    numbered =
        AllEntries-insert (λ k rows. IsNumbered 0 rows) (run_key run) [] s.events c.numbered tt;
  }

  -- `create_run_idempotent` keeps the tables of runs, logs and idempotency keys consistent.
  pub create_run_idempotent-IsConsistent :
      (run : RunRecord) (key hash : String) → IsConsistent (create_run_idempotent run key hash s).0
  create_run_idempotent-IsConsistent run key hash =
      elim (Option-cases (lookup (run.tenant_id, run.project_id, key) s.idempotency)) [
        | inl new ↦ elim (Bool-cases (has_key (run_key run) s.runs)) [
          | inl taken ↦ unfold create_run_idempotent in rw (new, create_run_idempotent) (rw taken c)
          | inr free ↦
              unfold create_run_idempotent in
              rw (new, create_run_idempotent) (rw free (create-IsConsistent run key hash))
        ]
        | inr (stored, found) ↦ elim (Bool-cases (not (stored.0 == hash))) [
          | inl differs ↦
              unfold create_run_idempotent in rw (found, create_run_idempotent) (rw differs c)
          | inr same ↦ unfold create_run_idempotent in rw (found, create_run_idempotent) (rw same c)
        ]
      ]

  survives :
      (t p i : String) (k : Key) (stored : String × String)
      → not (in_scope t p k && (stored.1 == i)) ≡ true
      → has_key (target k stored) s.runs ≡ true
      → has_key (target k stored) (erase (t, p, i) s.runs) ≡ true
  survives t p i (t', p', i') stored kept there = ground (
    arith,
    has_key-erase (t', p', stored.1) (t, p, i) s.runs,
    key_eqb_iff (t, p, i) (t', p', stored.1),
    ==-iff t' t,
    ==-iff p' p,
    ==-iff stored.1 i,
  )

  -- `delete_run` keeps the tables consistent: it takes the log and the idempotency keys of the run
  -- along with it.
  pub delete_run-IsConsistent : (t p i : String) → IsConsistent (delete_run t p i s).0
  unfolding delete_run
  delete_run-IsConsistent t p i = record {
    keyed = AllEntries-erase (λ k run. k ≡ run_key run) (t, p, i) s.runs c.keyed;
    replayable =
        retain-AllEntries_with
          (λ k stored. has_key (target k stored) (erase (t, p, i) s.runs) ≡ true)
          (λ k stored. has_key (target k stored) s.runs ≡ true)
          (λ k stored. not (in_scope t p k && (stored.1 == i))) s.idempotency (survives t p i)
          c.replayable;
    logged = λ k.
        ground
          (arith, c.logged k, has_key-erase k (t, p, i) s.runs, has_key-erase k (t, p, i) s.events);
    numbered = AllEntries-erase (λ k rows. IsNumbered 0 rows) (t, p, i) s.events c.numbered;
  }
