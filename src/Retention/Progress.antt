-- ===== src/Retention/Progress.antt =====
-- Repeated sweeps of `RetentionScheduler` over an object store that deletes what it is asked to.
use scenara.Prelude.{
  String, ℕ, zero, suc, ◌≤◌, ◌<◌, ◌≡◌, refl, sym, ap, ◌∙◌, ◌⊎◌, inl, inr, Bool, true, false, not,
  ◌&&◌, some, List, [], ◌∷◌, length, string_eq, key_eq, leb, ==-iff, List-cases, if◌then◌else◌,
  contains, take, Key, arith,
}
use scenara.Prelude.Dict.{Dict, select, count_entries, update_all}
use scenara.Prelude.Sort.{sort, str_ltb, contains-sort}
use scenara.Models.{Timestamp}
use scenara.Models.Retention.{ObjectRetentionRecord}
use scenara.Store.{MemoryStateStore}
use scenara.Store.Retention.{
  expired_object_keys, is_expired, is_target, object_keys_of, mark_objects_deleted,
}
use scenara.Retention.{delete_each, sweep}

-- The number of objects that are expired and not deleted.
unfoldable pub expired_count : Timestamp → MemoryStateStore → ℕ
expired_count before s = count_entries (λ k r. is_expired before r) s.object_retention

contains-take :
    (a : String) (n : ℕ) (xs : List String) → contains a (take n xs) ≡ true → contains a xs ≡ true
contains-take a zero xs h = ground arith
contains-take a (suc n) [] h = h
contains-take a (suc n) (x ∷ xs) h = ground (arith, contains-take a n xs)

abbrev mark : List String → Timestamp → Key → ObjectRetentionRecord → ObjectRetentionRecord
mark targets now k r = if is_target targets r then record r { deleted_at = some now } else r

module _ (targets : List String) (before now : Timestamp) where
  mark-le :
      (d : Dict Key ObjectRetentionRecord)
      → count_entries (λ k r. is_expired before r) (update_all (mark targets now) d)
        ≤ count_entries (λ k r. is_expired before r) d
  unfolding count_entries update_all
  mark-le [] = omega arith
  mark-le ((k, r) ∷ d) = ground (arith, mark-le d)

  mark-lt :
      (key : String) (d : Dict Key ObjectRetentionRecord)
      → contains key targets ≡ true
      → contains key (object_keys_of (select (λ k r. is_expired before r) d)) ≡ true
      → count_entries (λ k r. is_expired before r) (update_all (mark targets now) d)
        < count_entries (λ k r. is_expired before r) d
  unfolding count_entries update_all select
  mark-lt key [] hit h = absurd (ground arith)
  mark-lt key ((k, r) ∷ d) hit h = ground (arith, mark-le d, mark-lt key d, ==-iff key r.object_key)

count-object_keys_of :
    (before : Timestamp) (d : Dict Key ObjectRetentionRecord)
    → object_keys_of (select (λ k r. is_expired before r) d) ≡ []
    → count_entries (λ k r. is_expired before r) d ≡ 0
unfolding select count_entries
count-object_keys_of before [] h = refl
count-object_keys_of before ((k, r) ∷ d) h = ground (arith, count-object_keys_of before d)

object_keys_of-nil :
    (before : Timestamp) (d : Dict Key ObjectRetentionRecord)
    → count_entries (λ k r. is_expired before r) d ≡ 0
    → object_keys_of (select (λ k r. is_expired before r) d) ≡ []
unfolding select count_entries
object_keys_of-nil before [] h = refl
object_keys_of-nil before ((k, r) ∷ d) h = ground (arith, object_keys_of-nil before d)

take-nil : (n : ℕ) → take {A = String} n [] ≡ []
take-nil zero = refl
take-nil (suc n) = refl

expired_object_keys-nil :
    (before : Timestamp) (limit : ℕ) (s : MemoryStateStore)
    → expired_count before s ≡ 0
    → expired_object_keys before limit s ≡ []
unfolding expired_object_keys expired_count sort
expired_object_keys-nil before limit s h =
    rw (object_keys_of-nil before s.object_retention h) (take-nil limit)

-- The first expired key, where there is one.
expired_object_keys-head :
    (before : Timestamp) (limit : ℕ) (s : MemoryStateStore) (key : String) (keys : List String)
    → expired_object_keys before limit s ≡ key ∷ keys
    → contains key (object_keys_of (select (λ k r. is_expired before r) s.object_retention)) ≡ true
unfolding expired_object_keys
expired_object_keys-head before limit s key keys h =
    let all = object_keys_of (select (λ k r. is_expired before r) s.object_retention) in
    let found : contains key (take limit (sort str_ltb all)) ≡ true =
      rw h (ground (arith, ==-iff key key)) in
    sym (contains-sort str_ltb key all) ∙ contains-take key limit (sort str_ltb all) found

-- No key within a limit of at least one means that nothing is expired.
expired_object_keys-none :
    (before : Timestamp) (limit : ℕ) (s : MemoryStateStore)
    → 1 ≤ limit
    → expired_object_keys before limit s ≡ []
    → expired_count before s ≡ 0
unfolding expired_object_keys expired_count
expired_object_keys-none before limit s low h =
    let all = object_keys_of (select (λ k r. is_expired before r) s.object_retention) in
    count-object_keys_of before s.object_retention (elim (List-cases all) [
      | inl empty ↦ empty
      | inr (y, ys, some_left) ↦ absurd (
          first limit low (sort str_ltb all) h
            (y, contains-sort str_ltb y all ∙ rw some_left (ground (arith, ==-iff y y))))
    ])
  where
    first :
        (n : ℕ)
        → 1 ≤ n
        → (xs : List String) → take n xs ≡ []
        → ((y : String) × (contains y xs ≡ true))
        → ⊥
    first zero low xs h found = omega arith
    first (suc n) low [] h (y, found) = ground arith
    first (suc n) low (x ∷ xs) h found = ground arith

module _ {ℓ} {O : Type ℓ} (delete : String → O → O × Bool) where
  -- One sweep after another, at the times given.
  unfoldable pub sweep_all :
      Timestamp → ℕ → List Timestamp → MemoryStateStore → O → MemoryStateStore × O
  sweep_all before limit [] s o = (s, o)
  sweep_all before limit (now ∷ later) s o =
      let (s', o') = (sweep delete before limit now s o).0 in sweep_all before limit later s' o'

module _ {ℓ} {O : Type ℓ} (delete : String → O → O × Bool)
    (deletes : (key : String) (o : O) → (delete key o).1 ≡ true) where
  delete_each-all : (keys : List String) (o : O) → (delete_each delete keys o).1 ≡ keys
  unfolding delete_each
  delete_each-all [] o = refl
  delete_each-all (key ∷ keys) o =
      rw (deletes key o) (ap (◌∷◌ key) (delete_each-all keys (delete key o).0))

  sweep-decreases :
      (before now : Timestamp) (limit : ℕ) (s : MemoryStateStore) (o : O)
      → 1 ≤ limit
      → limit ≤ 10000
      → (expired_count before (sweep delete before limit now s o).0.0 ≡ 0)
        ⊎ (expired_count before (sweep delete before limit now s o).0.0 < expired_count before s)
  unfolding sweep
  sweep-decreases before now limit s o low high =
      let in_bounds : (not (leb 1 limit && leb limit 10000)) ≡ false = ground arith in
      elim (List-cases (expired_object_keys before limit s)) [
        | inl nothing ↦ inl (
            rw (in_bounds, delete_each-all (expired_object_keys before limit s) o, nothing)
              (expired_object_keys-none before limit s low nothing))
        | inr (key, keys, some_left) ↦ inr (
            rw (in_bounds, delete_each-all (expired_object_keys before limit s) o, some_left)
              (unfold expired_count mark_objects_deleted in
                mark-lt (key ∷ keys) before now key s.object_retention
                  (ground (arith, ==-iff key key))
                  (expired_object_keys-head before limit s key keys some_left)))
      ]

  sweep_all-count :
      (before : Timestamp) (limit : ℕ) (nows : List Timestamp) (s : MemoryStateStore) (o : O)
      → 1 ≤ limit
      → limit ≤ 10000
      → expired_count before s ≤ length nows
      → expired_count before (sweep_all delete before limit nows s o).0 ≡ 0
  unfolding sweep_all
  sweep_all-count before limit [] s o low high enough = omega (arith, enough)
  sweep_all-count before limit (now ∷ later) s o low high enough =
      let (s', o') = (sweep delete before limit now s o).0 in
      sweep_all-count before limit later s' o' low high
        (elim (sweep-decreases before now limit s o low high) [
          | inl done ↦ omega (arith, done)
          | inr fewer ↦ omega (arith, fewer, enough)
        ])

  -- Where the deletion of an object is always answered with `True`, as many sweeps as there are
  -- expired objects, of any limit from 1 to 10000, leave no object expired.
  pub sweep_all-clears :
      (before : Timestamp) (limit n : ℕ) (nows : List Timestamp) (s : MemoryStateStore) (o : O)
      → 1 ≤ limit
      → limit ≤ 10000
      → expired_count before s ≤ length nows
      → expired_object_keys before n (sweep_all delete before limit nows s o).0 ≡ []
  sweep_all-clears before limit n nows s o low high enough =
      expired_object_keys-nil before n (sweep_all delete before limit nows s o).0
        (sweep_all-count before limit nows s o low high enough)
