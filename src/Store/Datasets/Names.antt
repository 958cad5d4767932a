-- ===== src/Store/Datasets/Names.antt =====
-- The names of saved searches: `create_saved_search` and `save_saved_search` of `MemoryStateStore`.
use scenara.Prelude.{
  ◌≡◌, ◌≢◌, inl, inr, false, not, ◌&&◌, some, Key, ◌==◌, key_eq, key_eqb_iff, string_eq, ==-iff,
  Bool-cases, arith,
}
use scenara.Prelude.Dict.{Dict, lookup, has_key, insert, lookup-insert, any_entry, any_entry-lookup}
use scenara.Models.Dataset.{SavedSearch}
use scenara.Store.{MemoryStateStore}
use scenara.Store.Datasets.{search_key, same_name, create_saved_search, save_saved_search}

-- A search stands under its own key, and no two searches of a project have one name.
pub record HasUniqueNames (d : Dict Key SavedSearch) : Type 0 where
  pub keyed : (k : Key) (q : SavedSearch) → lookup k d ≡ some q → search_key q ≡ k
  pub unique :
      (j k : Key) (q r : SavedSearch)
      → lookup j d ≡ some q
      → lookup k d ≡ some r
      → q.tenant_id ≡ r.tenant_id
      → q.project_id ≡ r.project_id
      → q.name ≡ r.name
      → j ≡ k

module _ (d : Dict Key SavedSearch) (h : HasUniqueNames d) (q : SavedSearch) where
  -- To write a search whose name no other search of the project has.
  insert-HasUniqueNames :
      ((k : Key) (r : SavedSearch) → lookup k d ≡ some r → search_key q ≢ k → same_name q r ≡ false)
      → HasUniqueNames (insert (search_key q) q d)
  insert-HasUniqueNames free = record {
    keyed = λ k r found. elim (Bool-cases (search_key q == k)) [
      | inl same ↦ ground (arith, lookup-insert k (search_key q) q d, key_eqb_iff (search_key q) k)
      | inr other ↦ ground (arith, lookup-insert k (search_key q) q d, h.keyed k r)
    ];
    unique = λ j k r t hr ht tenant project name. ground (
      arith,
      lookup-insert j (search_key q) q d,
      lookup-insert k (search_key q) q d,
      key_eqb_iff (search_key q) j,
      key_eqb_iff (search_key q) k,
      free j r,
      free k t,
      ==-iff r.tenant_id q.tenant_id,
      ==-iff r.project_id q.project_id,
      ==-iff r.name q.name,
      ==-iff t.tenant_id q.tenant_id,
      ==-iff t.project_id q.project_id,
      ==-iff t.name q.name,
      h.unique j k r t,
    );
  }

-- `create_saved_search` keeps the names of a project's searches unique.
pub create_saved_search-HasUniqueNames :
    (q : SavedSearch) (s : MemoryStateStore)
    → HasUniqueNames s.saved_searches
    → HasUniqueNames (create_saved_search q s).0.saved_searches
unfolding create_saved_search
create_saved_search-HasUniqueNames q s h =
    elim (Bool-cases (has_key (search_key q) s.saved_searches)) [
      | inl taken ↦ rw taken h
      | inr new ↦ elim (Bool-cases (any_entry (λ k. same_name q) s.saved_searches)) [
        | inl named ↦ rw new (rw named h)
        | inr free ↦ rw new (
            rw free (
              insert-HasUniqueNames s.saved_searches h q (λ k r found apart.
                any_entry-lookup (λ k. same_name q) k r s.saved_searches free found)))
      ]
    ]

other_name :
    (q : SavedSearch) (k : Key) (r : SavedSearch)
    → (same_name q r && not (r.saved_search_id == q.saved_search_id)) ≡ false
    → search_key r ≡ k
    → search_key q ≢ k
    → same_name q r ≡ false
other_name q k r clear keyed apart = elim (Bool-cases (same_name q r)) [
  | inr differs ↦ differs
  | inl same ↦ absurd (
      apart (
        ground (
          arith,
          ==-iff r.saved_search_id q.saved_search_id,
          ==-iff r.tenant_id q.tenant_id,
          ==-iff r.project_id q.project_id,
        )))
]

-- `save_saved_search` keeps the names of a project's searches unique.
pub save_saved_search-HasUniqueNames :
    (q : SavedSearch) (s : MemoryStateStore)
    → HasUniqueNames s.saved_searches
    → HasUniqueNames (save_saved_search q s).0.saved_searches
unfolding save_saved_search
save_saved_search-HasUniqueNames q s h =
    elim (Bool-cases (has_key (search_key q) s.saved_searches)) [
      | inr missing ↦ rw missing h
      | inl known ↦
          elim (Bool-cases (
            any_entry
              (λ k item. same_name q item && not (item.saved_search_id == q.saved_search_id))
              s.saved_searches)) [
                | inl named ↦ rw known (rw named h)
                | inr free ↦ rw known (
                    rw free (
                      insert-HasUniqueNames s.saved_searches h q (λ k r found apart.
                        other_name q k r
                          (any_entry-lookup
                            (λ k item.
                              same_name q item && not (item.saved_search_id == q.saved_search_id))
                            k r s.saved_searches free found)
                          (h.keyed k r found) apart)))
              ]
    ]
