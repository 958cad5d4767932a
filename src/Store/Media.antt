-- ===== src/Store/Media.antt =====
-- Media assets and sources: `create_asset` to `delete_source`, and `delete_asset`, of
-- `MemoryStateStore` in scenara/infrastructure/memory_state.py.
use scenara.Prelude.{
  String, ℕ, Bool, ◌&&◌, ◌||◌, Option, List, Key, ◌==◌, key_eq, string_eq, option_eq, if◌then◌else◌,
}
use scenara.Prelude.Dict.{lookup, has_key, insert, erase, select, count_entries}
use scenara.Prelude.Sort.{sort, stamped_ltb}
use scenara.Models.Media.{MediaAsset, MediaSource}
use scenara.Store.{MemoryStateStore, Reply, ok, conflict}
use scenara.Store.Runs.{in_scope, page}
use scenara.Store.Retention.{is_none}

abbrev pub asset_key : MediaAsset → Key
asset_key a = (a.tenant_id, a.project_id, a.asset_id)

abbrev pub source_key : MediaSource → Key
source_key a = (a.tenant_id, a.project_id, a.source_id)

unfoldable pub create_asset : MediaAsset → MemoryStateStore → MemoryStateStore × Reply MediaAsset
create_asset asset s =
    if has_key (asset_key asset) s.assets
    then (s, conflict "media asset already exists")
    else (record s { assets = insert (asset_key asset) asset s.assets }, ok asset)

unfoldable pub get_asset : String → String → String → MemoryStateStore → Option MediaAsset
get_asset tenant_id project_id asset_id s = lookup (tenant_id, project_id, asset_id) s.assets

-- `wanted is None or value == wanted` where the value may be missing too.
abbrev pub matches_some : Option String → Option String → Bool
matches_some wanted value = is_none wanted || value == wanted

abbrev pub is_listed_asset : String → String → Option String → Bool → Key → MediaAsset → Bool
is_listed_asset tenant_id project_id domain include_deleted k a =
    in_scope tenant_id project_id k
    && ((include_deleted || is_none a.deleted_at) && matches_some domain a.domain)

unfoldable pub list_assets :
    String → String → Option String → Bool → ℕ → Option ℕ → MemoryStateStore → List MediaAsset
list_assets tenant_id project_id domain include_deleted offset limit s = page offset limit (
    sort (λ a b. stamped_ltb b.created_at b.asset_id a.created_at a.asset_id)
      (select (is_listed_asset tenant_id project_id domain include_deleted) s.assets))

unfoldable pub count_assets : String → String → Option String → Bool → MemoryStateStore → ℕ
count_assets tenant_id project_id domain include_deleted s =
    count_entries (is_listed_asset tenant_id project_id domain include_deleted) s.assets

unfoldable pub delete_asset :
    String → String → String → MemoryStateStore → MemoryStateStore × Option MediaAsset
delete_asset tenant_id project_id asset_id s = (
  record s { assets = erase (tenant_id, project_id, asset_id) s.assets },
  lookup (tenant_id, project_id, asset_id) s.assets,
)

unfoldable pub create_source : MediaSource → MemoryStateStore → MemoryStateStore × Reply MediaSource
create_source source s =
    if has_key (source_key source) s.sources
    then (s, conflict "media source already exists")
    else (record s { sources = insert (source_key source) source s.sources }, ok source)

unfoldable pub get_source : String → String → String → MemoryStateStore → Option MediaSource
get_source tenant_id project_id source_id s = lookup (tenant_id, project_id, source_id) s.sources

unfoldable pub list_sources : String → String → ℕ → Option ℕ → MemoryStateStore → List MediaSource
list_sources tenant_id project_id offset limit s = page offset limit (
    sort (λ a b. stamped_ltb b.created_at b.source_id a.created_at a.source_id)
      (select (λ k a. in_scope tenant_id project_id k) s.sources))

unfoldable pub count_sources : String → String → MemoryStateStore → ℕ
count_sources tenant_id project_id s =
    count_entries (λ k a. in_scope tenant_id project_id k) s.sources

unfoldable pub delete_source :
    String → String → String → MemoryStateStore → MemoryStateStore × Option MediaSource
delete_source tenant_id project_id source_id s = (
  record s { sources = erase (tenant_id, project_id, source_id) s.sources },
  lookup (tenant_id, project_id, source_id) s.sources,
)
