-- ===== src/Store/Events/Log.antt =====
-- `append_event` and `events_after` of `MemoryStateStore`.
use scenara.Prelude.{
  String, ℕ, key_eqb_iff, suc, ◌+◌, ◌-◌, ◌≡◌, ◌≢◌, sym, ap, ◌∙◌, drop-nil, List, [], ◌∷◌, ◌++◌, Key,
  key_eq, ltb, length, filter, drop, inl, inr, Option-cases, Bool-cases, arith,
}
use native.Mathlib.Nat.{sub-zero}
use scenara.Prelude.Dict.{
  lookup, lookup-insert_self, lookup-insert_ne, AllEntries-lookup, AllEntries-insert,
  has_key-insert, has_key_of_lookup,
}
use scenara.Models.{JsonObject}
use scenara.Models.Run.{RunEvent}
use scenara.Store.{MemoryStateStore, ok}
use scenara.Store.Invariant.{IsNumbered, IsConsistent}
use scenara.Store.Webhooks.{enqueue_webhook_event}
use scenara.Store.Events.{append_event, events_after, events_of}

filter-IsNumbered :
    (m n : ℕ) (rows : List RunEvent)
    → IsNumbered m rows
    → filter (λ e. ltb n e.event_id) rows ≡ drop (n - m) rows
filter-IsNumbered m n [] h = sym (drop-nil (n - m))
filter-IsNumbered m n (e ∷ es) h = elim (Bool-cases (ltb n e.event_id)) [
  | inl late ↦
      let start : n - m ≡ 0 = ground (arith, h.0) in
      let stay : n - suc m ≡ 0 = omega (arith, start) in
      rw (late, start) (ap (◌∷◌ e) (filter-IsNumbered (suc m) n es h.1 ∙ rw stay))
  | inr early ↦
      let step : n - m ≡ suc (n - suc m) = ground (arith, h.0) in
      rw (early, step) (filter-IsNumbered (suc m) n es h.1)
]

-- Where the tables are consistent, a reader that has seen the first n events of a run is given
-- exactly the events after them, in order.
pub events_after-eq-drop :
    (t p i : String) (n : ℕ) (s : MemoryStateStore)
    → IsConsistent s
    → events_after t p i n s ≡ drop n (events_of (t, p, i) s)
unfolding events_after
events_after-eq-drop t p i n s c = elim (Option-cases (lookup (t, p, i) s.events)) [
  | inl missing ↦ rw (missing, events_of) (sym (drop-nil n))
  | inr (rows, found) ↦
      rw (found, events_of)
        (filter-IsNumbered 0 n rows (
            AllEntries-lookup (λ k rows. IsNumbered 0 rows) (t, p, i) rows s.events c.numbered
              found)
          ∙ rw sub-zero)
]

-- An event that is accepted is the last of its run's log, under the next number; the logs of other
-- runs and all runs are as before.
pub append_event-ok :
    (dump : RunEvent → JsonObject) (uuid : ℕ → String) (t p : String) (event : RunEvent)
    (s : MemoryStateStore) {s' : MemoryStateStore} {stored : RunEvent}
    → append_event dump uuid t p event s ≡ (s', ok stored)
    → (stored ≡ record event { event_id = length (events_of (t, p, event.run_id) s) + 1 })
      × (events_of (t, p, event.run_id) s' ≡ events_of (t, p, event.run_id) s ++ stored ∷ [])
      × ((k : Key) → (t, p, event.run_id) ≢ k → events_of k s' ≡ events_of k s)
      × (s'.runs ≡ s.runs)
unfolding append_event enqueue_webhook_event
append_event-ok dump uuid t p event s h =
    elim (Option-cases (lookup (t, p, event.run_id) s.events)) [
      | inl missing ↦ ground arith
      | inr (rows, found) ↦
          let stored = record event { event_id = length rows + 1 } in
          (
            ground arith,
            ground (arith, lookup-insert_self (t, p, event.run_id) (rows ++ stored ∷ []) s.events),
            (λ k other. ground (
              arith,
              lookup-insert_ne k (t, p, event.run_id) (rows ++ stored ∷ []) s.events other,
            )),
            ground arith,
          )
    ]

IsNumbered-append :
    (m : ℕ) (rows : List RunEvent) (e : RunEvent)
    → IsNumbered m rows
    → e.event_id ≡ suc (m + length rows)
    → IsNumbered m (rows ++ e ∷ [])
IsNumbered-append m [] e h n = (omega (arith, n), tt)
IsNumbered-append m (x ∷ rows) e h n =
    (h.0, IsNumbered-append (suc m) rows e h.1 (omega (arith, n)))

-- `append_event` keeps the tables consistent: every log stays numbered from 1 without gaps.
pub append_event-IsConsistent :
    (dump : RunEvent → JsonObject) (uuid : ℕ → String) (t p : String) (event : RunEvent)
    (s : MemoryStateStore)
    → IsConsistent s
    → IsConsistent (append_event dump uuid t p event s).0
append_event-IsConsistent dump uuid t p event s c =
    elim (Option-cases (lookup (t, p, event.run_id) s.events)) [
      | inl missing ↦ unfold append_event in rw (missing, append_event) c
      | inr (rows, found) ↦
          let stored = record event { event_id = length rows + 1 } in
          unfold append_event enqueue_webhook_event in
          rw (found, append_event)
            (record {
              keyed = c.keyed;
              replayable = c.replayable;
              logged = λ k. ground (
                arith,
                c.logged k,
                has_key-insert k (t, p, event.run_id) (rows ++ stored ∷ []) s.events,
                key_eqb_iff (t, p, event.run_id) k,
                has_key_of_lookup (t, p, event.run_id) rows s.events found,
              );
              numbered =
                  AllEntries-insert (λ k rows. IsNumbered 0 rows) (t, p, event.run_id)
                    (rows ++ stored ∷ []) s.events c.numbered
                    (IsNumbered-append 0 rows stored
                      (AllEntries-lookup (λ k rows. IsNumbered 0 rows) (t, p, event.run_id) rows
                        s.events c.numbered found)
                      (omega arith));
            })
    ]
