-- ===== src/Store/Datasets.antt =====
-- Datasets, their versions and saved searches: `create_dataset` to `delete_saved_search` of
-- `MemoryStateStore` in scenara/infrastructure/memory_state.py. Offsets and limits are not
-- negative, which the source refuses.
pub mod Names
use scenara.Prelude.{
  String, ℕ, Bool, true, false, not, ◌&&◌, ◌||◌, Option, none, List, Key, ◌==◌, key_eq, string_eq,
  leb, ltb, if◌then◌else◌, slice,
}
use scenara.Prelude.Dict.{lookup, has_key, insert, erase, select, count_entries, any_entry}
use scenara.Prelude.Sort.{sort, stamped_ltb}
use scenara.Models.Dataset.{DatasetRecord, DatasetVersion, SavedSearch}
use scenara.Store.{MemoryStateStore, Reply, ok, conflict}
use scenara.Store.Runs.{in_scope}

abbrev pub dataset_key : DatasetRecord → Key
dataset_key d = (d.tenant_id, d.project_id, d.dataset_id)

abbrev pub version_key : DatasetVersion → Key
version_key v = (v.tenant_id, v.project_id, v.version_id)

abbrev pub search_key : SavedSearch → Key
search_key q = (q.tenant_id, q.project_id, q.saved_search_id)

-- `1 <= limit <= 200`
abbrev pub is_page_size : ℕ → Bool
is_page_size limit = leb 1 limit && leb limit 200

unfoldable pub create_dataset :
    DatasetRecord → MemoryStateStore → MemoryStateStore × Reply DatasetRecord
create_dataset dataset s =
    if has_key (dataset_key dataset) s.datasets
    then (s, conflict "dataset already exists")
    else (record s { datasets = insert (dataset_key dataset) dataset s.datasets }, ok dataset)

unfoldable pub get_dataset : String → String → String → MemoryStateStore → Option DatasetRecord
get_dataset tenant_id project_id dataset_id s =
    lookup (tenant_id, project_id, dataset_id) s.datasets

unfoldable pub list_datasets :
    String → String → ℕ → ℕ → MemoryStateStore → Reply (List DatasetRecord)
list_datasets tenant_id project_id offset limit s =
    if not (is_page_size limit)
    then conflict "invalid dataset pagination"
    else ok (
        slice offset limit (
          sort (λ a b. stamped_ltb b.updated_at b.dataset_id a.updated_at a.dataset_id)
            (select (λ k d. in_scope tenant_id project_id k) s.datasets)))

unfoldable pub count_datasets : String → String → MemoryStateStore → ℕ
count_datasets tenant_id project_id s =
    count_entries (λ k d. in_scope tenant_id project_id k) s.datasets

unfoldable pub save_dataset :
    DatasetRecord → MemoryStateStore → MemoryStateStore × Reply DatasetRecord
save_dataset dataset s =
    if not (has_key (dataset_key dataset) s.datasets)
    then (s, conflict "dataset not found")
    else (record s { datasets = insert (dataset_key dataset) dataset s.datasets }, ok dataset)

-- Another version record of the dataset has the version's name.
abbrev pub same_version : DatasetVersion → Key → DatasetVersion → Bool
same_version v k item =
    (item.tenant_id == v.tenant_id)
    && ((item.project_id == v.project_id)
        && ((item.dataset_id == v.dataset_id) && (item.version == v.version)))

unfoldable pub create_dataset_version :
    DatasetVersion → MemoryStateStore → MemoryStateStore × Reply DatasetVersion
create_dataset_version v s =
    if has_key (version_key v) s.dataset_versions
    then (s, conflict "dataset version already exists")
    else if any_entry (same_version v) s.dataset_versions
    then (s, conflict "dataset version already exists")
    else (record s { dataset_versions = insert (version_key v) v s.dataset_versions }, ok v)

unfoldable pub get_dataset_version :
    String → String → String → MemoryStateStore → Option DatasetVersion
get_dataset_version tenant_id project_id version_id s =
    lookup (tenant_id, project_id, version_id) s.dataset_versions

unfoldable pub save_dataset_version :
    DatasetVersion → MemoryStateStore → MemoryStateStore × Reply DatasetVersion
save_dataset_version v s =
    if not (has_key (version_key v) s.dataset_versions)
    then (s, conflict "dataset version not found")
    else (record s { dataset_versions = insert (version_key v) v s.dataset_versions }, ok v)

unfoldable pub list_dataset_versions :
    String → String → String → ℕ → ℕ → MemoryStateStore → Reply (List DatasetVersion)
list_dataset_versions tenant_id project_id dataset_id offset limit s =
    if not (is_page_size limit)
    then conflict "invalid dataset version pagination"
    else ok (
        slice offset limit (
          sort (λ a b. stamped_ltb b.created_at b.version_id a.created_at a.version_id)
            (select (λ k v. in_scope tenant_id project_id k && (v.dataset_id == dataset_id))
              s.dataset_versions)))

unfoldable pub count_dataset_versions : String → String → String → MemoryStateStore → ℕ
count_dataset_versions tenant_id project_id dataset_id s =
    count_entries (λ k v. in_scope tenant_id project_id k && (v.dataset_id == dataset_id))
      s.dataset_versions

-- Another search of the project has the name.
abbrev pub same_name : SavedSearch → SavedSearch → Bool
same_name q item =
    (item.tenant_id == q.tenant_id) && ((item.project_id == q.project_id) && (item.name == q.name))

unfoldable pub create_saved_search :
    SavedSearch → MemoryStateStore → MemoryStateStore × Reply SavedSearch
create_saved_search q s =
    if has_key (search_key q) s.saved_searches
    then (s, conflict "saved search already exists")
    else if any_entry (λ k. same_name q) s.saved_searches
    then (s, conflict "saved search name already exists")
    else (record s { saved_searches = insert (search_key q) q s.saved_searches }, ok q)

unfoldable pub get_saved_search : String → String → String → MemoryStateStore → Option SavedSearch
get_saved_search tenant_id project_id saved_search_id s =
    lookup (tenant_id, project_id, saved_search_id) s.saved_searches

unfoldable pub list_saved_searches :
    String → String → ℕ → ℕ → MemoryStateStore → Reply (List SavedSearch)
list_saved_searches tenant_id project_id offset limit s =
    if not (is_page_size limit)
    then conflict "invalid saved search pagination"
    else ok (
        slice offset limit (
          sort (λ a b. stamped_ltb b.updated_at b.saved_search_id a.updated_at a.saved_search_id)
            (select (λ k q. in_scope tenant_id project_id k) s.saved_searches)))

unfoldable pub count_saved_searches : String → String → MemoryStateStore → ℕ
count_saved_searches tenant_id project_id s =
    count_entries (λ k q. in_scope tenant_id project_id k) s.saved_searches

unfoldable pub save_saved_search :
    SavedSearch → MemoryStateStore → MemoryStateStore × Reply SavedSearch
save_saved_search q s =
    if not (has_key (search_key q) s.saved_searches)
    then (s, conflict "saved search not found")
    else if any_entry
        (λ k item. same_name q item && not (item.saved_search_id == q.saved_search_id))
        s.saved_searches
    then (s, conflict "saved search name already exists")
    else (record s { saved_searches = insert (search_key q) q s.saved_searches }, ok q)

unfoldable pub delete_saved_search :
    String → String → String → MemoryStateStore → MemoryStateStore × Option SavedSearch
delete_saved_search tenant_id project_id saved_search_id s = (
  record s { saved_searches = erase (tenant_id, project_id, saved_search_id) s.saved_searches },
  lookup (tenant_id, project_id, saved_search_id) s.saved_searches,
)
