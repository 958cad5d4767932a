-- ===== src/Store/Runs/Revision.antt =====
-- Optimistic concurrency of `save_run` of `MemoryStateStore`.
use scenara.Prelude.{
  ap, ℕ, ◌+◌, ◌≤◌, ◌≡◌, ◌≢◌, inl, inr, some, List, [], ◌∷◌, Key, ◌==◌, key_eq, key_eqb_iff,
  Option-cases, Bool-cases, nat_eqb, arith,
}
use scenara.Prelude.Dict.{lookup, lookup-insert, lookup-insert_self, lookup-insert_ne}
use scenara.Models.Run.{RunRecord}
use scenara.Store.{MemoryStateStore, ok, conflict}
use scenara.Store.Runs.{run_key, save_run}

-- A save that succeeds had the stored revision, stores the record one revision on, and leaves
-- every other run as it was.
pub save_run-ok :
    (run : RunRecord) (n : ℕ) (s : MemoryStateStore) {s' : MemoryStateStore} {saved : RunRecord}
    → save_run run n s ≡ (s', ok saved)
    → ((old : RunRecord) × (lookup (run_key run) s.runs ≡ some old) × (old.revision ≡ n))
      × (saved ≡ record run { revision = n + 1 })
      × (lookup (run_key run) s'.runs ≡ some saved)
      × ((k : Key) → run_key run ≢ k → lookup k s'.runs ≡ lookup k s.runs)
unfolding save_run
save_run-ok run n s h = elim (Option-cases (lookup (run_key run) s.runs)) [
  | inl missing ↦ ground arith
  | inr (old, found) ↦ (
    (old, found, ground arith),
    ground arith,
    ground (arith, lookup-insert_self (run_key run) (record run { revision = n + 1 }) s.runs),
    λ k other.
        ground
          (arith, lookup-insert_ne k (run_key run) (record run { revision = n + 1 }) s.runs other),
  )
]

-- A save under another revision than the stored one is refused, and changes nothing.
pub save_run-conflict :
    (run old : RunRecord) (n : ℕ) (s : MemoryStateStore)
    → lookup (run_key run) s.runs ≡ some old
    → old.revision ≢ n
    → save_run run n s ≡ (s, conflict "run revision conflict")
unfolding save_run
save_run-conflict run old n s found stale = ground arith

-- Saves of other writers, one after another; those that are refused change nothing.
unfoldable pub save_all : List (RunRecord × ℕ) → MemoryStateStore → MemoryStateStore
save_all [] s = s
save_all ((run, n) ∷ later) s = save_all later (save_run run n s).0

-- A save never takes a run away nor its revision back.
save_run-le :
    (run old : RunRecord) (n : ℕ) (k : Key) (s : MemoryStateStore)
    → lookup k s.runs ≡ some old
    → (new : RunRecord) × (lookup k (save_run run n s).0.runs ≡ some new)
      × (old.revision ≤ new.revision)
unfolding save_run
save_run-le run old n k s found = elim (Option-cases (lookup (run_key run) s.runs)) [
  | inl missing ↦ (old, ground arith, omega arith)
  | inr (current, here) ↦ elim (Bool-cases (nat_eqb current.revision n)) [
    | inl same ↦ elim (Bool-cases (run_key run == k)) [
      | inl this ↦ (
        record run { revision = n + 1 },
        ground (arith, lookup-insert k (run_key run) (record run { revision = n + 1 }) s.runs),
        ground (arith, key_eqb_iff (run_key run) k),
      )
      | inr that ↦ (
        old,
        ground (arith, lookup-insert k (run_key run) (record run { revision = n + 1 }) s.runs),
        omega arith,
      )
    ]
    | inr differs ↦ (old, ground arith, omega arith)
  ]
]

save_all-le :
    (later : List (RunRecord × ℕ)) (old : RunRecord) (k : Key) (s : MemoryStateStore)
    → lookup k s.runs ≡ some old
    → (new : RunRecord) × (lookup k (save_all later s).runs ≡ some new)
      × (old.revision ≤ new.revision)
unfolding save_all
save_all-le [] old k s found = (old, found, omega arith)
save_all-le ((run, n) ∷ later) old k s found =
    let (next, there, grew) = save_run-le run old n k s found in
    let (new, last, more) = save_all-le later next k (save_run run n s).0 there in
    (new, last, omega arith)

-- Of two writers that read the same revision only one is heard: once a save of a run under a
-- revision has succeeded, a second save of that run under the same revision is refused and changes
-- nothing, also after any saves in between, of this run or of others.
pub save_run-once :
    (a b : RunRecord) (n : ℕ) (later : List (RunRecord × ℕ)) (s : MemoryStateStore)
    {s' : MemoryStateStore} {saved : RunRecord}
    → save_run a n s ≡ (s', ok saved)
    → run_key b ≡ run_key a
    → save_run b n (save_all later s') ≡ (save_all later s', conflict "run revision conflict")
save_run-once a b n later s {s'} {saved} h same =
    let (_, stored, there, _) = save_run-ok a n s h in
    let (new, found, grew) = save_all-le later saved (run_key a) s' there in
    save_run-conflict b new n (save_all later s') (rw same found)
      (λ e. absurd (omega (arith, ap (λ (r : RunRecord). r.revision) stored)))
