-- ===== src/Results/Objects.antt =====
-- `LocalObjectStore.put` and `get` of scenara/infrastructure/object_store.py. The store is a dict of
-- the files with what their metadata files say of them; the size is that of the content.
use scenara.Prelude.{
  String, Bool, not, Option, none, some, ◌==◌, string_eq, if◌then◌else◌, ◌≡◌, ◌⊎◌, inl, inr, refl,
}
use scenara.Prelude.Dict.{Dict, lookup, insert}

pub record StoredObject {ℓ} (D : Type ℓ) : Type ℓ where
  pub content : D
  pub sha256 : String
  pub content_type : String
  pub retention_category : Option String

pub data ObjectError : Type 0 where
  -- the file is not there
  missing : ObjectError
  -- `ObjectIntegrityError`
  corrupt : ObjectError
  -- `ObjectAlreadyExistsError`
  exists : ObjectError
  -- `PipelineError`
  pipeline_error : String → ObjectError

pub data Outcome {ℓ} (A : Type ℓ) : Type ℓ where
  done : A → Outcome A
  failed : ObjectError → Outcome A

pub Outcome-cases {ℓ} :
    {A : Type ℓ} (o : Outcome A) → ((a : A) × (o ≡ done a)) ⊎ ((e : ObjectError) × (o ≡ failed e))
Outcome-cases (done a) = inl (a, refl)
Outcome-cases (failed e) = inr (e, refl)

module _ {ℓ} {D : Type ℓ} (sha : D → String) where
  abbrev pub Files : Type ℓ
  Files = Dict String (StoredObject D)

  -- `put` with a digest; it answers with the metadata of the object.
  unfoldable pub put :
      String → D → String → String → Bool → Option String → Files → Files × Outcome (StoredObject D)
  put object_key content content_type digest overwrite category files =
      let written : StoredObject D = record {
        content = content;
        sha256 = digest;
        content_type = content_type;
        retention_category = category;
      } in
      if not (digest == sha content)
      then (files, failed corrupt)
      else elim (lookup object_key files) [
        | none ↦ (insert object_key written files, done written)
        | some existing ↦
            if overwrite
            then (insert object_key written files, done written)
            else if existing.sha256 == digest
            then (files, done existing)
            else (files, failed exists)
      ]

  unfoldable pub get : String → Option String → Files → Outcome D
  get object_key expected_sha256 files = elim (lookup object_key files) [
    | none ↦ failed missing
    | some existing ↦ elim expected_sha256 [
      | none ↦ done existing.content
      | some expected ↦
          if not (sha existing.content == expected) then failed corrupt else done existing.content
    ]
  ]
