-- ===== src/Retention/Sweep.antt =====
-- `RetentionScheduler.sweep` of scenara/platform/retention.py over `LocalObjectStore`.
use scenara.Prelude.{String, ℕ, ◌≤◌, ◌≡◌, refl, false, List, [], ◌∷◌, All, string_eq, arith}
use scenara.Prelude.Dict.{Dict, has_key}
use scenara.Models.{Timestamp}
use scenara.Store.{MemoryStateStore, ok}
use scenara.Store.Retention.{expired_object_keys}
use scenara.Retention.{local_delete, delete_each, sweep}

delete_each-missing :
    (keys : List String) (files : Dict String String)
    → All (λ key. has_key key files ≡ false) keys
    → delete_each local_delete keys files ≡ (files, [])
unfolding delete_each local_delete
delete_each-missing [] files h = refl
delete_each-missing (key ∷ keys) files h = rw h.0 (rw (delete_each-missing keys files h.1))

-- Where the files of the expired objects that fit into the limit are gone, a sweep over the local
-- object store reports 0 and changes nothing, so that the next sweep meets the same objects.
pub sweep-stuck :
    (before now : Timestamp) (limit : ℕ) (s : MemoryStateStore) (files : Dict String String)
    → 1 ≤ limit
    → limit ≤ 10000
    → All (λ key. has_key key files ≡ false) (expired_object_keys before limit s)
    → sweep local_delete before limit now s files ≡ ((s, files), ok 0)
unfolding sweep
sweep-stuck before now limit s files low high gone =
    rw (delete_each-missing (expired_object_keys before limit s) files gone) (ground arith)
