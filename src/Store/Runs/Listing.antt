-- ===== src/Store/Runs/Listing.antt =====
-- Pages of `list_runs` of `MemoryStateStore`.
use scenara.Prelude.{String, ℕ, ◌+◌, ◌≡◌, ◌∙◌, Option, none, some, ◌++◌, length, slice-append-slice}
use scenara.Prelude.Dict.{length-select}
use scenara.Prelude.Sort.{length-sort}
use scenara.Models.Run.{RunStatus}
use scenara.Store.{MemoryStateStore}
use scenara.Store.Runs.{list_runs, count_runs, newer_run}

-- Two consecutive pages of the runs are one page of both sizes.
pub list_runs-append :
    (t p : String) (status : Option RunStatus) (domain : Option String) (start m n : ℕ)
    (s : MemoryStateStore)
    → list_runs t p status domain start (some m) s
        ++ list_runs t p status domain (start + m) (some n) s
      ≡ list_runs t p status domain start (some (m + n)) s
unfolding list_runs
list_runs-append t p status domain start m n s = slice-append-slice start m n _

-- `count_runs` is the number of runs that `list_runs` gives with no limit.
pub length-list_runs :
    (t p : String) (status : Option RunStatus) (domain : Option String) (s : MemoryStateStore)
    → length (list_runs t p status domain 0 none s) ≡ count_runs t p status domain s
unfolding list_runs count_runs
length-list_runs t p status domain s = length-sort newer_run _ ∙ length-select _ s.runs
