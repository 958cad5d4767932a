-- ===== src/Surveillance/Repository.antt =====
-- `MemorySurveillanceRepository` of scenara/infrastructure/memory_surveillance.py: watchlists,
-- members, tasks, and alerts with their debounce and idempotency. Each method holds the lock, so it
-- is one step.
use scenara.Prelude.{
  String, ℕ, ◌+◌, Bool, true, false, not, ◌&&◌, Option, none, some, List, Key, ◌==◌, key_eq,
  string_eq, option_eq, pair_eq, contains, nat_eqb, ltb, any, slice, length, if◌then◌else◌,
}
use scenara.Prelude.Dict.{Dict, lookup, has_key, insert, erase, retain, select, any_entry}
use scenara.Prelude.Sort.{sort, str_ltb}
use scenara.Models.{Timestamp}
use scenara.Store.{Reply, ok, conflict}
use scenara.Store.Runs.{in_scope}
use scenara.Surveillance.Models.{
  Watchlist, WatchlistMember, active_at, SurveillanceTaskStatus, TaskBinding, SurveillanceTask,
  AlertRecord, AlertEvent, DebounceState,
}

pub record MemorySurveillanceRepository : Type 0 where
  pub watchlists : Dict Key Watchlist
  pub members : Dict Key WatchlistMember
  pub tasks : Dict Key SurveillanceTask
  pub alerts : Dict Key AlertRecord
  pub events : Dict (String × String) (List AlertEvent)
  pub debounce : Dict Key DebounceState
  pub idempotency : Dict Key String

abbrev pub watchlist_key : Watchlist → Key
watchlist_key w = (w.tenant_id, w.project_id, w.watchlist_id)

abbrev pub member_key : WatchlistMember → Key
member_key m = (m.tenant_id, m.project_id, m.member_id)

abbrev pub task_key : SurveillanceTask → Key
task_key t = (t.tenant_id, t.project_id, t.task_id)

abbrev pub alert_key : AlertRecord → Key
alert_key a = (a.tenant_id, a.project_id, a.alert_id)

unfoldable pub create_watchlist :
    Watchlist → MemorySurveillanceRepository → MemorySurveillanceRepository × Reply Watchlist
create_watchlist w s =
    if has_key (watchlist_key w) s.watchlists
    then (s, conflict "watchlist already exists")
    else (record s { watchlists = insert (watchlist_key w) w s.watchlists }, ok w)

unfoldable pub get_watchlist :
    String → String → String → MemorySurveillanceRepository → Option Watchlist
get_watchlist tenant_id project_id watchlist_id s =
    lookup (tenant_id, project_id, watchlist_id) s.watchlists

-- The key (-updated_at, identifier): the latest first, then by identifier.
abbrev pub latest_ltb : Timestamp → String → Timestamp → String → Bool
latest_ltb t i t' i' = if ltb t' t then true else if nat_eqb t t' then str_ltb i i' else false

unfoldable pub list_watchlists :
    String → String → ℕ → ℕ → MemorySurveillanceRepository → List Watchlist × ℕ
list_watchlists tenant_id project_id offset limit s =
    let rows =
      sort (λ a b. latest_ltb a.updated_at a.watchlist_id b.updated_at b.watchlist_id)
        (select (λ k w. in_scope tenant_id project_id k) s.watchlists) in
    (slice offset limit rows, length rows)

unfoldable pub save_watchlist :
    Watchlist → ℕ → MemorySurveillanceRepository → MemorySurveillanceRepository × Reply Watchlist
save_watchlist w expected_revision s = elim (lookup (watchlist_key w) s.watchlists) [
  | none ↦ (s, conflict "watchlist does not exist")
  | some current ↦
      if not (nat_eqb current.revision expected_revision)
      then (s, conflict "watchlist revision conflict")
      else let stored = record w { revision = expected_revision + 1 } in
        (record s { watchlists = insert (watchlist_key w) stored s.watchlists }, ok stored)
]

abbrev pub is_member_of : Key → WatchlistMember → Bool
is_member_of (t, p, w) m = (m.tenant_id == t) && ((m.project_id == p) && (m.watchlist_id == w))

unfoldable pub delete_watchlist :
    String → String → String → MemorySurveillanceRepository → MemorySurveillanceRepository × Bool
delete_watchlist tenant_id project_id watchlist_id s =
    elim (lookup (tenant_id, project_id, watchlist_id) s.watchlists) [
      | none ↦ (
        record s { watchlists = erase (tenant_id, project_id, watchlist_id) s.watchlists },
        false,
      )
      | some removed ↦ (
        record s {
          watchlists = erase (tenant_id, project_id, watchlist_id) s.watchlists;
          members =
              retain (λ k m. not (is_member_of (tenant_id, project_id, watchlist_id) m)) s.members;
        },
        true,
      )
    ]

-- The same identity in the same watchlist.
abbrev pub same_identity : WatchlistMember → WatchlistMember → Bool
same_identity m item =
    (item.tenant_id == m.tenant_id)
    && ((item.project_id == m.project_id)
        && ((item.watchlist_id == m.watchlist_id)
            && (item.portrait_identity_id == m.portrait_identity_id)))

unfoldable pub create_member :
    WatchlistMember
    → MemorySurveillanceRepository
    → MemorySurveillanceRepository × Reply WatchlistMember
create_member m s =
    if has_key (member_key m) s.members
    then (s, conflict "watchlist member already exists")
    else if any_entry (λ k. same_identity m) s.members
    then (s, conflict "portrait identity is already a member of this watchlist")
    else (record s { members = insert (member_key m) m s.members }, ok m)

unfoldable pub get_member :
    String → String → String → MemorySurveillanceRepository → Option WatchlistMember
get_member tenant_id project_id member_id s = lookup (tenant_id, project_id, member_id) s.members

unfoldable pub list_members :
    String → String → String → ℕ → ℕ → MemorySurveillanceRepository → List WatchlistMember × ℕ
list_members tenant_id project_id watchlist_id offset limit s =
    let rows =
      sort (λ a b. latest_ltb a.updated_at a.member_id b.updated_at b.member_id)
        (select (λ k m. is_member_of (tenant_id, project_id, watchlist_id) m) s.members) in
    (slice offset limit rows, length rows)

unfoldable pub list_active_members :
    String → String → List String → Timestamp → MemorySurveillanceRepository → List WatchlistMember
unfolding active_at
list_active_members tenant_id project_id watchlist_ids at s =
    select
      (λ k m.
        (m.tenant_id == tenant_id)
        && ((m.project_id == project_id)
            && (contains m.watchlist_id watchlist_ids && active_at m at)))
      s.members

unfoldable pub save_member :
    WatchlistMember
    → ℕ
    → MemorySurveillanceRepository
    → MemorySurveillanceRepository × Reply WatchlistMember
save_member m expected_revision s = elim (lookup (member_key m) s.members) [
  | none ↦ (s, conflict "watchlist member does not exist")
  | some current ↦
      if not (nat_eqb current.revision expected_revision)
      then (s, conflict "watchlist member revision conflict")
      else let stored = record m { revision = expected_revision + 1 } in
        (record s { members = insert (member_key m) stored s.members }, ok stored)
]

unfoldable pub delete_member :
    String → String → String → MemorySurveillanceRepository → MemorySurveillanceRepository × Bool
delete_member tenant_id project_id member_id s = (
  record s { members = erase (tenant_id, project_id, member_id) s.members },
  has_key (tenant_id, project_id, member_id) s.members,
)

unfoldable pub create_task :
    SurveillanceTask
    → MemorySurveillanceRepository
    → MemorySurveillanceRepository × Reply SurveillanceTask
create_task t s =
    if has_key (task_key t) s.tasks
    then (s, conflict "surveillance task already exists")
    else (record s { tasks = insert (task_key t) t s.tasks }, ok t)

unfoldable pub get_task :
    String → String → String → MemorySurveillanceRepository → Option SurveillanceTask
get_task tenant_id project_id task_id s = lookup (tenant_id, project_id, task_id) s.tasks

unfoldable pub list_tasks :
    String → String → ℕ → ℕ → MemorySurveillanceRepository → List SurveillanceTask × ℕ
list_tasks tenant_id project_id offset limit s =
    let rows =
      sort (λ a b. latest_ltb a.updated_at a.task_id b.updated_at b.task_id)
        (select (λ k t. in_scope tenant_id project_id k) s.tasks) in
    (slice offset limit rows, length rows)

-- `item.status.value == "active"`
abbrev pub is_active_task : SurveillanceTask → Bool
is_active_task t = elim t.status [ SurveillanceTaskStatus.active ↦ true | _ ↦ false ]

unfoldable pub list_active_tasks_for_source :
    String → String → String → MemorySurveillanceRepository → List SurveillanceTask
list_active_tasks_for_source tenant_id project_id source_id s =
    select
      (λ k t.
        (t.tenant_id == tenant_id)
        && ((t.project_id == project_id)
            && (is_active_task t
                && any (λ (b : TaskBinding). b.source_id == source_id) t.bindings)))
      s.tasks

unfoldable pub list_active_tasks :
    String → String → MemorySurveillanceRepository → List SurveillanceTask
list_active_tasks tenant_id project_id s =
    select (λ k t. (t.tenant_id == tenant_id) && ((t.project_id == project_id) && is_active_task t))
      s.tasks

unfoldable pub list_all_active_tasks : MemorySurveillanceRepository → List SurveillanceTask
list_all_active_tasks s = select (λ k. is_active_task) s.tasks

unfoldable pub save_task :
    SurveillanceTask
    → ℕ
    → MemorySurveillanceRepository
    → MemorySurveillanceRepository × Reply SurveillanceTask
save_task t expected_revision s = elim (lookup (task_key t) s.tasks) [
  | none ↦ (s, conflict "surveillance task does not exist")
  | some current ↦
      if not (nat_eqb current.revision expected_revision)
      then (s, conflict "surveillance task revision conflict")
      else let stored = record t { revision = expected_revision + 1 } in
        (record s { tasks = insert (task_key t) stored s.tasks }, ok stored)
]
