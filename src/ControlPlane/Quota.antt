-- ===== src/ControlPlane/Quota.antt =====
-- `adjust_quota_usage` of `MemoryControlPlaneStore`, called again and again.
use scenara.Prelude.{
  String, ℕ, ◌+◌, ◌≤◌, ◌<◌, true, false, some, List, [], ◌∷◌, All, ◌≡◌, inl, inr, Bool-cases,
  if◌then◌else◌, ltb, leb, string_eq, pair_eq, arith,
}
use scenara.Prelude.Dict.{lookup, insert, lookup-insert_self}
use scenara.Models.{Timestamp, Json}
use scenara.ControlPlane.{
  MemoryControlPlaneStore, RecordKey, quota_key, usage_document, current_usage, adjust_quota_usage,
}

module _ (number : Json → ℕ) (value : ℕ → Json) (reads : (n : ℕ) → number (value n) ≡ n)
    (tenant_id project_id record_id : String) (window limit : ℕ) where
  -- One request after another, at the times and for the amounts given, with the sum of the amounts
  -- that are allowed.
  unfoldable pub admit :
      List (Timestamp × ℕ) → MemoryControlPlaneStore → MemoryControlPlaneStore × ℕ
  admit [] s = (s, 0)
  admit ((now, amount) ∷ requests) s =
      let (s', (document, allowed)) =
        adjust_quota_usage number value tenant_id project_id record_id window now amount
          (some limit) s in
      let (s'', total) = admit requests s' in (s'', if allowed then amount + total else total)

  abbrev key : RecordKey
  key = quota_key number value tenant_id project_id record_id

  -- The record says what is used since the start of the window.
  IsUsed : ℕ → Timestamp → MemoryControlPlaneStore → Type 0
  IsUsed used started s =
      (now : Timestamp) × (lookup key s.records
        ≡ some (usage_document number value record_id used started now))

  current_usage-IsUsed :
      (used : ℕ) (started now : Timestamp) (s : MemoryControlPlaneStore)
      → IsUsed used started s
      → now < started + window
      → current_usage number value (lookup key s.records) window now ≡ (used, started)
  unfolding IsUsed lookup
  current_usage-IsUsed used started now s (at, found) inside =
      let open_window : ltb now (started + window) ≡ true = ground (arith, inside) in
      rw found (rw (reads started) (rw (reads used) (rw open_window)))

  -- A request that fits is allowed and counted.
  adjust-allowed :
      (used : ℕ) (started now : Timestamp) (amount : ℕ) (s : MemoryControlPlaneStore)
      → IsUsed used started s
      → now < started + window
      → used + amount ≤ limit
      → adjust_quota_usage number value tenant_id project_id record_id window now amount
          (some limit)
          s
        ≡ (
          record s {
            records =
                insert key
                  (usage_document number value record_id (used + amount) started now)
                  s.records;
          },
          (usage_document number value record_id (used + amount) started now, true),
        )
  unfolding adjust_quota_usage
  adjust-allowed used started now amount s h inside fits =
      let room : leb (used + amount) limit ≡ true = ground (arith, fits) in
      rw (current_usage-IsUsed used started now s h inside) (rw room)

  -- A request that does not fit changes nothing.
  adjust-denied :
      (used : ℕ) (started now : Timestamp) (amount : ℕ) (s : MemoryControlPlaneStore)
      → IsUsed used started s
      → now < started + window
      → limit < used + amount
      → adjust_quota_usage number value tenant_id project_id record_id window now amount
          (some limit)
          s
        ≡ (s, (usage_document number value record_id used started now, false))
  unfolding adjust_quota_usage
  adjust-denied used started now amount s h inside over =
      let full : leb (used + amount) limit ≡ false = ground (arith, over) in
      rw (current_usage-IsUsed used started now s h inside) (rw full)

  admit-IsUsed :
      (used : ℕ) (started : Timestamp) (requests : List (Timestamp × ℕ))
      (s : MemoryControlPlaneStore)
      → IsUsed used started s
      → used ≤ limit
      → All (λ request. request.0 < started + window) requests
      → used + (admit requests s).1 ≤ limit
  unfolding admit
  admit-IsUsed used started [] s h low times = omega (arith, low)
  admit-IsUsed used started ((now, amount) ∷ requests) s h low times =
      elim (Bool-cases (leb (used + amount) limit)) [
        | inl room ↦
            let fits : used + amount ≤ limit = ground (arith, room) in
            let document = usage_document number value record_id (used + amount) started now in
            let s' : MemoryControlPlaneStore = record s {
              records = insert key document s.records;
            } in
            let counted : IsUsed (used + amount) started s' =
              unfold IsUsed in (now, lookup-insert_self key document s.records) in
            let later = admit-IsUsed (used + amount) started requests s' counted fits times.1 in
            rw (adjust-allowed used started now amount s h times.0 fits) (omega (arith, later))
        | inr full ↦
            let over : limit < used + amount = ground (arith, full) in
            rw (adjust-denied used started now amount s h times.0 over)
              (admit-IsUsed used started requests s h low times.1)
      ]

  -- From a request that opens a window and fits into the limit on, the amounts that are allowed
  -- within that window are together at most the limit.
  pub admit-le :
      (now : Timestamp) (amount : ℕ) (requests : List (Timestamp × ℕ)) (s : MemoryControlPlaneStore)
      → current_usage number value (lookup key s.records) window now ≡ (0, now)
      → amount ≤ limit
      → All (λ request. request.0 < now + window) requests
      → (admit ((now, amount) ∷ requests) s).1 ≤ limit
  unfolding admit adjust_quota_usage
  admit-le now amount requests s fresh fits times =
      let room : leb (0 + amount) limit ≡ true = ground (arith, fits) in
      let document = usage_document number value record_id (0 + amount) now now in
      let s' : MemoryControlPlaneStore = record s { records = insert key document s.records } in
      let counted : IsUsed (0 + amount) now s' =
        unfold IsUsed in (now, lookup-insert_self key document s.records) in
      let low : 0 + amount ≤ limit = omega (arith, fits) in
      let later = admit-IsUsed (0 + amount) now requests s' counted low times in
      rw fresh (rw room (omega (arith, later)))
