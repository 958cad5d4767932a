-- ===== src/ControlPlane/Sessions.antt =====
-- The index of session tokens: `put`, `delete`, `delete_expired_sessions` and `get_by_token_sha256` of
-- `MemoryControlPlaneStore`.
use scenara.Prelude.{
  String, ℕ, true, Option, none, some, List, [], ◌∷◌, ◌==◌, ==-iff, string_eq, pair_eq, ◌≡◌, ◌≢◌,
  sym, ap, subst, ◌∙◌, inl, inr, Bool-cases, Option-cases, arith,
}
use scenara.Prelude.Dict.{
  Dict, lookup, insert, erase, lookup-insert, lookup-insert_self, lookup-insert_ne, lookup-erase,
  lookup-erase_ne,
}
use scenara.Models.{Timestamp, Json, JsonObject}
use scenara.ControlPlane.{
  MemoryControlPlaneStore, RecordKey, token_of, token_of_record, is_session, get_by_token_sha256,
  forget, remember, put, delete, expired_keys, delete_each, delete_expired_sessions,
}

-- A token leads to the session that has it.
abbrev pub IsIndexed : MemoryControlPlaneStore → Type 0
IsIndexed s =
    (token : String) (key : RecordKey)
    → lookup token s.session_tokens ≡ some key
    → (document : JsonObject) × (lookup key s.records ≡ some document)
      × (is_session key ≡ true)
      × (token_of document ≡ some token)

-- What `forget` leaves is not of the token that it forgets.
forget-lookup :
    (digest : Option String) (token : String) (k : RecordKey) (tokens : Dict String RecordKey)
    → lookup token (forget digest tokens) ≡ some k
    → (lookup token tokens ≡ some k) × (digest ≢ some token)
forget-lookup none token k tokens h = (h, λ same. cc)
forget-lookup (some t) token k tokens h = elim (Bool-cases (t == token)) [
  | inl same ↦ absurd (ground (arith, lookup-erase token t tokens, h))
  | inr other ↦ (
    ground (arith, lookup-erase token t tokens, h),
    λ same. let at : t ≡ token = cc same in ground (arith, ==-iff t token),
  )
]

module _ (key : RecordKey) (s : MemoryControlPlaneStore) (h : IsIndexed s) where
  -- After the token of a record is forgotten, no token leads to the record.
  forget-other :
      (token : String) (k : RecordKey)
      → lookup token (forget (token_of_record (lookup key s.records)) s.session_tokens) ≡ some k
      → (lookup token s.session_tokens ≡ some k) × (key ≢ k)
  forget-other token k found =
      let (there, apart) =
        forget-lookup (token_of_record (lookup key s.records)) token k s.session_tokens found in
      let (document, has, session, own) = h token k there in
      (
        there,
        λ same.
            apart
              (ap (λ j. token_of_record (lookup j s.records)) same ∙ ap token_of_record has ∙ own),
      )

  -- A token that leads to another record still does, whatever becomes of this one.
  kept :
      (token : String) (k : RecordKey) (records : Dict RecordKey JsonObject)
      → ((j : RecordKey) → key ≢ j → lookup j records ≡ lookup j s.records)
      → lookup token s.session_tokens ≡ some k
      → key ≢ k
      → (document : JsonObject) × (lookup k records ≡ some document)
        × (is_session k ≡ true)
        × (token_of document ≡ some token)
  kept token k records same there other =
      let (document, has, session, own) = h token k there in
      (document, same k other ∙ has, session, own)

  put-IsIndexed : (document : JsonObject) → IsIndexed (put key document s)
  unfolding put
  put-IsIndexed document token k found = elim (Bool-cases (is_session key)) [
    | inr plain ↦
        let there : lookup token s.session_tokens ≡ some k = rw plain at found in
        let (old, has, session, own) = h token k there in
        kept token k (insert key document s.records)
          (λ j other. lookup-insert_ne j key document s.records other) there
          (λ same.
            let clash : is_session key ≡ true = rw same session in ground (arith, clash, plain))
    | inl session ↦
        let forgotten = forget (token_of_record (lookup key s.records)) s.session_tokens in
        let at : lookup token (remember (token_of document) key forgotten) ≡ some k =
          rw session at found in
        elim (Option-cases (token_of document)) [
          | inl nameless ↦
              let (there, other) = forget-other token k (rw nameless at at) in
              kept token k (insert key document s.records)
                (λ j other. lookup-insert_ne j key document s.records other) there other
          | inr (t, named) ↦
              let at' : lookup token (insert t key forgotten) ≡ some k = rw named at at in
              elim (Bool-cases (t == token)) [
                | inl same ↦
                    let is_token : t ≡ token = (==-iff t token).0 same in
                    let is_key : key ≡ k =
                      cc (rw same at (rw (lookup-insert token t key forgotten) at at')) in
                    subst
                      (λ j.
                        (d : JsonObject) × (lookup j (insert key document s.records) ≡ some d)
                        × (is_session j ≡ true)
                        × (token_of d ≡ some token))
                      is_key
                      (
                        document,
                        lookup-insert_self key document s.records,
                        session,
                        named ∙ ap some is_token,
                      )
                | inr differs ↦
                    let (there, other) =
                      forget-other token k
                        (ground (arith, lookup-insert token t key forgotten, at')) in
                    kept token k (insert key document s.records)
                      (λ j other. lookup-insert_ne j key document s.records other) there other
              ]
        ]
  ]

  delete-IsIndexed : IsIndexed (delete key s)
  unfolding delete
  delete-IsIndexed token k found = elim (Bool-cases (is_session key)) [
    | inr plain ↦
        let there : lookup token s.session_tokens ≡ some k = rw plain at found in
        let (old, has, session, own) = h token k there in
        kept token k (erase key s.records) (λ j other. lookup-erase_ne j key s.records other) there
          (λ same.
            let clash : is_session key ≡ true = rw same session in ground (arith, clash, plain))
    | inl session ↦
        let (there, other) = forget-other token k (rw session at found) in
        kept token k (erase key s.records) (λ j other. lookup-erase_ne j key s.records other) there
          other
  ]

delete_each-IsIndexed :
    (number : Json → ℕ) (value : ℕ → Json) (keys : List RecordKey) (s : MemoryControlPlaneStore)
    → IsIndexed s
    → IsIndexed (delete_each number value keys s)
unfolding delete_each
delete_each-IsIndexed number value [] s h = h
delete_each-IsIndexed number value (key ∷ keys) s h =
    delete_each-IsIndexed number value keys (delete key s) (delete-IsIndexed key s h)

-- The calls that change records.
pub data Call : Type 0 where
  putting : RecordKey → JsonObject → Call
  deleting : RecordKey → Call
  expiring : Timestamp → Call

module _ (number : Json → ℕ) (value : ℕ → Json) where
  abbrev pub call : Call → MemoryControlPlaneStore → MemoryControlPlaneStore
  call (Call.putting key document) s = put key document s
  call (Call.deleting key) s = delete key s
  call (Call.expiring now) s = (delete_expired_sessions number value now s).0

  -- Calls in a row.
  abbrev pub run : List Call → MemoryControlPlaneStore → MemoryControlPlaneStore
  run [] s = s
  run (c ∷ calls) s = run calls (call c s)

  call-IsIndexed : (c : Call) (s : MemoryControlPlaneStore) → IsIndexed s → IsIndexed (call c s)
  call-IsIndexed (Call.putting key document) s h = put-IsIndexed key s h document
  call-IsIndexed (Call.deleting key) s h = delete-IsIndexed key s h
  call-IsIndexed (Call.expiring now) s h =
      unfold delete_expired_sessions in
      delete_each-IsIndexed number value (expired_keys number value now s.records) s h

  run-IsIndexed :
      (calls : List Call) (s : MemoryControlPlaneStore) → IsIndexed s → IsIndexed (run calls s)
  run-IsIndexed [] s h = h
  run-IsIndexed (c ∷ calls) s h = run-IsIndexed calls (call c s) (call-IsIndexed c s h)

  -- Whatever records are put, deleted and expired, from an empty store on, a document that is
  -- found by a token is one that has this token.
  pub run-get_by_token_sha256 :
      (calls : List Call) (token : String) (document : JsonObject)
      → get_by_token_sha256 token (run calls (record { records = []; session_tokens = [] }))
        ≡ some document
      → token_of document ≡ some token
  unfolding get_by_token_sha256
  run-get_by_token_sha256 calls token document h =
      let s = run calls (record { records = []; session_tokens = [] }) in
      let indexed : IsIndexed s =
        run-IsIndexed calls (record { records = []; session_tokens = [] })
          (λ token key found. absurd (no_token token key found)) in
      elim (Option-cases (lookup token s.session_tokens)) [
        | inl unknown ↦ absurd (ground (arith, rw (unknown, get_by_token_sha256) at h))
        | inr (key, known) ↦
            let (stored, there, session, own) = indexed token key known in
            let same : stored ≡ document =
              cc (rw there at (rw (known, get_by_token_sha256) at h)) in
            ap token_of (sym same) ∙ own
      ]
    where
      no_token : (token : String) (key : RecordKey) → lookup {V = RecordKey} token [] ≡ some key → ⊥
      no_token token key found = unfold lookup in cc
