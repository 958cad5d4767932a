-- ===== src/Feedback/Correction.antt =====
-- `contains_sensitive_correction` of scenara/platform/feedback.py. `lower` is Python's `str.lower`.
use scenara.Prelude.{
  String, Bool, true, false, List, [], ◌∷◌, contains, string_eq, ◌≡◌, ◌↔◌, ◌⊎◌, inl, inr, ◌||◌,
  Bool-cases, refl, arith,
}
use scenara.Models.{Json, JsonList, JsonFields, JsonObject}

abbrev pub sensitive_correction_keys : List String
sensitive_correction_keys =
    "base64" ∷ "bytes" ∷ "crop" ∷ "embedding" ∷ "embeddings" ∷ "image_bytes" ∷ "raw_media" ∷ []

module _ (lower : String → String) where
  unfoldable pub is_sensitive : String → Bool
  is_sensitive key = contains (lower key) sensitive_correction_keys

  unfoldable mutual
    pub contains_sensitive : Json → Bool
    contains_sensitive Json.null = false
    contains_sensitive (Json.flag b) = false
    contains_sensitive (Json.number n) = false
    contains_sensitive (Json.text t) = false
    contains_sensitive (Json.items xs) = any_sensitive xs
    contains_sensitive (Json.object fields) = any_sensitive_field fields

    pub any_sensitive : JsonList → Bool
    any_sensitive JsonList.nil = false
    any_sensitive (JsonList.cons x xs) = contains_sensitive x || any_sensitive xs

    pub any_sensitive_field : JsonFields → Bool
    any_sensitive_field JsonFields.end = false
    any_sensitive_field (JsonFields.field key x fields) =
        is_sensitive key || (contains_sensitive x || any_sensitive_field fields)

  -- The call on a correction, which is a dict.
  unfoldable pub contains_sensitive_correction : JsonObject → Bool
  contains_sensitive_correction [] = false
  contains_sensitive_correction ((key, x) ∷ correction) =
      is_sensitive key || (contains_sensitive x || contains_sensitive_correction correction)

  -- A key is reached in a document: it is a field's, or it is reached in an item or in a field.
  mutual
    pub data Reaches (key : String) : Json → Type 0 where
      item : {xs : JsonList} → ReachesItem key xs → Reaches key (Json.items xs)
      entry : {fields : JsonFields} → ReachesField key fields → Reaches key (Json.object fields)

    pub data ReachesItem (key : String) : JsonList → Type 0 where
      here : {x : Json} {xs : JsonList} → Reaches key x → ReachesItem key (JsonList.cons x xs)
      there : {x : Json} {xs : JsonList} → ReachesItem key xs → ReachesItem key (JsonList.cons x xs)

    pub data ReachesField (key : String) : JsonFields → Type 0 where
      name : {x : Json} {fields : JsonFields} → ReachesField key (JsonFields.field key x fields)
      held :
          {k : String} {x : Json} {fields : JsonFields}
          → Reaches key x
          → ReachesField key (JsonFields.field k x fields)
      later :
          {k : String} {x : Json} {fields : JsonFields}
          → ReachesField key fields
          → ReachesField key (JsonFields.field k x fields)

  mutual
    unfolding contains_sensitive any_sensitive any_sensitive_field

    found :
        (x : Json)
        → contains_sensitive x ≡ true
        → (key : String) × (is_sensitive key ≡ true) × Reaches key x
    found (Json.items xs) h = let (key, s, r) = found_item xs h in (key, s, Reaches.item r)
    found (Json.object fields) h =
        let (key, s, r) = found_field fields h in (key, s, Reaches.entry r)
    found Json.null h = absurd (ground arith)
    found (Json.flag b) h = absurd (ground arith)
    found (Json.number n) h = absurd (ground arith)
    found (Json.text t) h = absurd (ground arith)

    found_item :
        (xs : JsonList)
        → any_sensitive xs ≡ true
        → (key : String) × (is_sensitive key ≡ true) × ReachesItem key xs
    found_item JsonList.nil h = absurd (ground arith)
    found_item (JsonList.cons x xs) h = elim (Bool-cases (contains_sensitive x)) [
      | inl hit ↦ let (key, s, r) = found x hit in (key, s, ReachesItem.here r)
      | inr miss ↦ let (key, s, r) = found_item xs (ground arith) in (key, s, ReachesItem.there r)
    ]

    found_field :
        (fields : JsonFields)
        → any_sensitive_field fields ≡ true
        → (key : String) × (is_sensitive key ≡ true) × ReachesField key fields
    found_field JsonFields.end h = absurd (ground arith)
    found_field (JsonFields.field key x fields) h = elim (Bool-cases (is_sensitive key)) [
      | inl hit ↦ (key, hit, ReachesField.name)
      | inr miss ↦ elim (Bool-cases (contains_sensitive x)) [
        | inl inner ↦ let (k, s, r) = found x inner in (k, s, ReachesField.held r)
        | inr none_inner ↦
            let (k, s, r) = found_field fields (ground arith) in (k, s, ReachesField.later r)
      ]
    ]

  mutual
    unfolding contains_sensitive any_sensitive any_sensitive_field

    reached :
        (key : String) (x : Json)
        → is_sensitive key ≡ true
        → Reaches key x
        → contains_sensitive x ≡ true
    reached key Json.null s r = elim r [ ]
    reached key (Json.flag b) s r = elim r [ ]
    reached key (Json.number n) s r = elim r [ ]
    reached key (Json.text t) s r = elim r [ ]
    reached key (Json.items xs) s (Reaches.item r) = reached_item key xs s r
    reached key (Json.object fields) s (Reaches.entry r) = reached_field key fields s r

    reached_item :
        (key : String) (xs : JsonList)
        → is_sensitive key ≡ true
        → ReachesItem key xs
        → any_sensitive xs ≡ true
    reached_item key JsonList.nil s r = elim r [ ]
    reached_item key (JsonList.cons x xs) s (ReachesItem.here r) = ground (arith, reached key x s r)
    reached_item key (JsonList.cons x xs) s (ReachesItem.there r) =
        ground (arith, reached_item key xs s r)

    reached_field :
        (key : String) (fields : JsonFields)
        → is_sensitive key ≡ true
        → ReachesField key fields
        → any_sensitive_field fields ≡ true
    reached_field key JsonFields.end s r = elim r [ ]
    reached_field key (JsonFields.field k x fields) s ReachesField.name = ground arith
    reached_field key (JsonFields.field k x fields) s (ReachesField.held r) =
        ground (arith, reached key x s r)
    reached_field key (JsonFields.field k x fields) s (ReachesField.later r) =
        ground (arith, reached_field key fields s r)

  -- The key is reached in a correction: it is a key of the dict, or it is reached in a value of it.
  abbrev pub ReachesCorrection : String → JsonObject → Type 0
  ReachesCorrection key [] = ⊥
  ReachesCorrection key ((k, x) ∷ correction) =
      (k ≡ key) ⊎ (Reaches key x ⊎ ReachesCorrection key correction)

  sound :
      (correction : JsonObject)
      → contains_sensitive_correction correction ≡ true
      → (key : String) × (is_sensitive key ≡ true) × ReachesCorrection key correction
  unfolding contains_sensitive_correction
  sound [] h = absurd (ground arith)
  sound ((k, x) ∷ correction) h = elim (Bool-cases (is_sensitive k)) [
    | inl hit ↦ (k, hit, inl refl)
    | inr miss ↦ elim (Bool-cases (contains_sensitive x)) [
      | inl inner ↦ let (key, s, r) = found x inner in (key, s, inr (inl r))
      | inr none_inner ↦ let (key, s, r) = sound correction (ground arith) in (key, s, inr (inr r))
    ]
  ]

  complete :
      (key : String) (correction : JsonObject)
      → is_sensitive key ≡ true
      → ReachesCorrection key correction
      → contains_sensitive_correction correction ≡ true
  unfolding contains_sensitive_correction
  complete key [] s r = elim r [ ]
  complete key ((k, x) ∷ correction) s (inl same) =
      let here : is_sensitive k ≡ true = rw same s in ground arith
  complete key ((k, x) ∷ correction) s (inr (inl r)) = ground (arith, reached key x s r)
  complete key ((k, x) ∷ correction) s (inr (inr r)) = ground (arith, complete key correction s r)

  -- A correction is found sensitive exactly when a sensitive key is reached in it, at any depth.
  pub contains_sensitive_correction_iff :
      (correction : JsonObject)
      → (contains_sensitive_correction correction ≡ true)
        ↔ ((key : String) × (is_sensitive key ≡ true) × ReachesCorrection key correction)
  contains_sensitive_correction_iff correction =
      (sound correction, λ (key, s, r). complete key correction s r)
