-- ===== src/ControlPlane.antt =====
-- `MemoryControlPlaneStore` of scenara/platform/control_plane_store.py. A record is a document, a dict;
-- `number` is what `float` and `int` give of a value in it, `value` the value that a number is.
pub mod Quota
pub mod Sessions
pub mod Examples
use scenara.Prelude.{
  String, ℕ, Bool, true, false, not, ◌&&◌, ◌||◌, Option, none, some, List, [], ◌∷◌, map, length,
  ◌+◌, ◌==◌, string_eq, pair_eq, ltb, leb, nat_eqb, if◌then◌else◌,
}
use scenara.Prelude.Dict.{Dict, lookup, insert, erase, retain, select}
use scenara.Prelude.Sort.{sort, stamped_ltb}
use scenara.Models.{Timestamp, Json, JsonObject}

-- Kind, tenant, project and identifier.
abbrev pub RecordKey : Type 0
RecordKey = (String × String) × (String × String)

pub record MemoryControlPlaneStore : Type 0 where
  pub records : Dict RecordKey JsonObject
  pub session_tokens : Dict String RecordKey

-- `document.get("token_sha256")` where it is a text.
abbrev pub text_of : Option Json → Option String
text_of (some (Json.text t)) = some t
text_of _ = none

abbrev pub token_of : JsonObject → Option String
token_of document = text_of (lookup "token_sha256" document)

abbrev pub is_session : RecordKey → Bool
is_session key = key.0.0 == "session"

unfoldable pub get : RecordKey → MemoryControlPlaneStore → Option JsonObject
get key s = lookup key s.records

unfoldable pub get_by_token_sha256 : String → MemoryControlPlaneStore → Option JsonObject
get_by_token_sha256 token_sha256 s = elim (lookup token_sha256 s.session_tokens) [
  | none ↦ none
  | some key ↦ lookup key s.records
]

-- `self._session_tokens.pop(digest, None)` where there is a digest.
abbrev pub forget : Option String → Dict String RecordKey → Dict String RecordKey
forget none tokens = tokens
forget (some digest) tokens = erase digest tokens

abbrev pub remember : Option String → RecordKey → Dict String RecordKey → Dict String RecordKey
remember none key tokens = tokens
remember (some digest) key tokens = insert digest key tokens

abbrev pub token_of_record : Option JsonObject → Option String
token_of_record none = none
token_of_record (some document) = token_of document

unfoldable pub put : RecordKey → JsonObject → MemoryControlPlaneStore → MemoryControlPlaneStore
put key document s = record {
  records = insert key document s.records;
  session_tokens =
      if is_session key
      then remember (token_of document) key
          (forget (token_of_record (lookup key s.records)) s.session_tokens)
      else s.session_tokens;
}

unfoldable pub delete : RecordKey → MemoryControlPlaneStore → MemoryControlPlaneStore
delete key s = record {
  records = erase key s.records;
  session_tokens =
      if is_session key
      then forget (token_of_record (lookup key s.records)) s.session_tokens
      else s.session_tokens;
}

module _ (number : Json → ℕ) (value : ℕ → Json) where
  -- `float(document.get(name, default))`
  abbrev pub number_at : String → ℕ → JsonObject → ℕ
  number_at name default document = elim (lookup name document) [
    | none ↦ default
    | some v ↦ number v
  ]

  -- `str(document.get("record_id", ""))`; `text` is what `str` gives of a value.
  abbrev pub name_of : (Json → String) → JsonObject → String
  name_of text document = elim (lookup "record_id" document) [ none ↦ "" | some v ↦ text v ]

  -- The newest first; `"*"` stands for any tenant or project.
  unfoldable pub list_records :
      (Json → String) → String → String → String → MemoryControlPlaneStore → List JsonObject
  list_records text kind tenant_id project_id s =
      sort
        (λ a b.
          stamped_ltb (number_at "updated_at" 0 b) (name_of text b) (number_at "updated_at" 0 a)
            (name_of text a))
        (select
          (λ key document.
            (key.0.0 == kind)
            && ((tenant_id == "*" || key.0.1 == tenant_id)
                && (project_id == "*" || key.1.0 == project_id)))
          s.records)

  -- The keys of the sessions that have expired.
  unfoldable pub expired_keys : Timestamp → Dict RecordKey JsonObject → List RecordKey
  expired_keys now [] = []
  expired_keys now ((key, document) ∷ records) =
      let rest = expired_keys now records in
      if is_session key && leb (number_at "expires_at" 0 document) now then key ∷ rest else rest

  unfoldable pub delete_each : List RecordKey → MemoryControlPlaneStore → MemoryControlPlaneStore
  delete_each [] s = s
  delete_each (key ∷ keys) s = delete_each keys (delete key s)

  unfoldable pub delete_expired_sessions :
      Timestamp → MemoryControlPlaneStore → MemoryControlPlaneStore × ℕ
  delete_expired_sessions now s =
      let expired = expired_keys now s.records in (delete_each expired s, length expired)

  abbrev pub quota_key : String → String → String → RecordKey
  quota_key tenant_id project_id record_id = (("quota_usage", tenant_id), (project_id, record_id))

  abbrev pub usage_document : String → ℕ → Timestamp → Timestamp → JsonObject
  usage_document record_id used started now =
      ("record_id", Json.text record_id)
      ∷ ("used", value used)
      ∷ ("window_started_at", value started)
      ∷ ("updated_at", value now)
      ∷ []

  -- What is used, and since when: a record whose window is over counts for nothing.
  abbrev pub current_usage : Option JsonObject → ℕ → Timestamp → ℕ × Timestamp
  current_usage none window_seconds now = (0, now)
  current_usage (some existing) window_seconds now =
      if ltb now (number_at "window_started_at" now existing + window_seconds)
      then (number_at "used" 0 existing, number_at "window_started_at" now existing)
      else (0, now)

  abbrev pub within : ℕ → Option ℕ → Bool
  within used none = true
  within used (some limit) = leb used limit

  unfoldable pub adjust_quota_usage :
      String
      → String
      → String
      → ℕ
      → Timestamp
      → ℕ
      → Option ℕ
      → MemoryControlPlaneStore
      → MemoryControlPlaneStore × (JsonObject × Bool)
  adjust_quota_usage tenant_id project_id record_id window_seconds now amount limit s =
      let key = quota_key tenant_id project_id record_id in
      let (used, started) = current_usage (lookup key s.records) window_seconds now in
      let document = usage_document record_id (used + amount) started now in
      if within (used + amount) limit
      then (record s { records = insert key document s.records }, (document, true))
      else (s, (usage_document record_id used started now, false))
