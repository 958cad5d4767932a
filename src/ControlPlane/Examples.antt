-- ===== src/ControlPlane/Examples.antt =====
-- Witnesses: a quota of ten in a window of sixty seconds, and a session. A number is a list of that
-- many nulls here.
use scenara.Prelude.{
  ℕ, zero, suc, ◌≤◌, some, [], ◌∷◌, ◌≡◌, refl, ap, string_eq, pair_eq, arith, List,
}
use scenara.Prelude.Dict.{lookup, insert, erase}
use scenara.Models.{Timestamp, Json, JsonList, JsonObject}
use scenara.ControlPlane.{
  MemoryControlPlaneStore, RecordKey, quota_key, current_usage, token_of, get_by_token_sha256, put,
  delete,
}
use scenara.ControlPlane.Quota.{admit, admit-le}
use scenara.ControlPlane.Sessions.{Call, run, run-get_by_token_sha256}

nulls : ℕ → JsonList
nulls zero = JsonList.nil
nulls (suc n) = JsonList.cons Json.null (nulls n)

abbrev size : JsonList → ℕ
size JsonList.nil = 0
size (JsonList.cons x xs) = suc (size xs)

abbrev value : ℕ → Json
value n = Json.items (nulls n)

abbrev number : Json → ℕ
number (Json.items xs) = size xs
number _ = 0

size-nulls : (n : ℕ) → size (nulls n) ≡ n
unfolding nulls
size-nulls zero = refl
size-nulls (suc n) = ap suc (size-nulls n)

abbrev no_records : MemoryControlPlaneStore
no_records = record { records = []; session_tokens = [] }

abbrev requests : List (Timestamp × ℕ)
requests = (110, 5) ∷ (120, 4) ∷ (130, 1) ∷ []

no_usage :
    current_usage number value
      (lookup (quota_key number value "acme" "demo" "runs") no_records.records)
      60
      100
    ≡ (0, 100)
unfolding lookup
no_usage = refl

admit-le_example :
    (admit number value size-nulls "acme" "demo" "runs" 60 10 ((100, 4) ∷ requests) no_records).1
    ≤ 10
admit-le_example =
    admit-le number value size-nulls "acme" "demo" "runs" 60 10 100 4 requests no_records no_usage
      (omega arith) (omega arith, (omega arith, (omega arith, tt)))

abbrev session_key : RecordKey
session_key = (("session", "acme"), ("demo", "s1"))

abbrev session : JsonObject
session = ("token_sha256", Json.text "abc") ∷ ("expires_at", value 20) ∷ []

abbrev calls : List Call
calls = Call.putting session_key session ∷ Call.deleting (("session", "acme"), ("demo", "s2")) ∷ []

has_session : get_by_token_sha256 "abc" (run number value calls no_records) ≡ some session
unfolding get_by_token_sha256 put delete lookup insert erase
has_session = refl

run-get_by_token_sha256_example : token_of session ≡ some "abc"
run-get_by_token_sha256_example =
    run-get_by_token_sha256 number value calls "abc" session has_session
