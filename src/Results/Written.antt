-- ===== src/Results/Written.antt =====
-- The writing of the shards by `RunExecutionMixin._store_result` of
-- scenara/platform/services_execution.py.
use scenara.Prelude.{
  String, ℕ, zero, suc, ◌+◌, ◌≤◌, false, Option, none, some, List, [], ◌∷◌, ◌++◌, length,
  length-drop, take-append-drop, take, drop, ==-iff, string_eq, ◌≡◌, refl, sym, ap, ◌∙◌, arith,
}
use mathlib.Core.List.{append_assoc}
use scenara.Prelude.Dict.{Dict, lookup, insert, lookup-insert, lookup-insert_self, lookup-insert_ne}
use scenara.Results.Objects.{Files, StoredObject, ObjectError, Outcome, done, failed, put}
use scenara.Results.Shards.{Shard, shard_key, write_shards}
use scenara.Results.Holds.{Holds}
use Prim.Native.String.{◌++◌ as append}
use text.Mathlib.TextLemmas.{append_cancel_left, append_cancel_right}

-- What is in the first files is in the others.
abbrev pub Keeps {ℓ} :
    {D : Type ℓ} → Dict String (StoredObject D) → Dict String (StoredObject D) → Type ℓ
Keeps {D = D} files files' =
    (key : String) (object : StoredObject D)
    → lookup key files ≡ some object
    → lookup key files' ≡ some object

Keeps-insert {ℓ} :
    {D : Type ℓ} (key : String) (object : StoredObject D) (files : Dict String (StoredObject D))
    → lookup key files ≡ none
    → Keeps files (insert key object files)
Keeps-insert key object files free k o there =
    rw (lookup-insert k key object files) (ground (arith, ==-iff key k))

-- The object that a document of units is.
abbrev pub json_object {ℓ} : {D : Type ℓ} → (D → String) → D → StoredObject D
json_object sha document = record {
  content = document;
  sha256 = sha document;
  content_type = "application/json";
  retention_category = some "structured_result";
}

module _ {ℓ} {U D : Type ℓ} (encode : List U → D) (sha : D → String) where
  pub Holds-append :
      (files : Files sha) (first later : List Shard) (units more : List U)
      → Holds encode sha files first units
      → Holds encode sha files later more
      → Holds encode sha files (first ++ later) (units ++ more)
  Holds-append files [] later units more held held' = rw held held'
  Holds-append files (s ∷ first) later units more
        (chunk, rest, object, there, content, digest, number, parts, held) held' =
      (
        chunk,
        rest ++ more,
        object,
        there,
        content,
        digest,
        number,
        ap (λ us. us ++ more) parts ∙ append_assoc chunk rest more,
        Holds-append files first later rest more held held',
      )

  -- Files that keep what others have hold what they hold.
  pub Holds-mono :
      (files files' : Files sha) (shards : List Shard) (units : List U)
      → Keeps files files'
      → Holds encode sha files shards units
      → Holds encode sha files' shards units
  Holds-mono files files' [] units keeps held = held
  Holds-mono files files' (s ∷ shards) units keeps
        (chunk, rest, object, there, content, digest, number, parts, held) =
      (
        chunk,
        rest,
        object,
        keeps s.key object there,
        content,
        digest,
        number,
        parts,
        Holds-mono files files' shards rest keeps held,
      )

module _ {ℓ} {U D : Type ℓ} (encode : List U → D) (sha : D → String) (padded : ℕ → String) where
  -- No file has the key of a shard from the `n`-th on.
  abbrev pub IsFree : String → ℕ → Files sha → Type ℓ
  IsFree base_key n files =
      (m : ℕ) → n ≤ m → lookup (shard_key encode sha padded base_key m) files ≡ none

module _ {ℓ} {U D : Type ℓ} (encode : List U → D) (sha : D → String) (padded : ℕ → String)
    (padded_inj : (m n : ℕ) → padded m ≡ padded n → m ≡ n) where
  pub shard_key-inj :
      (base_key : String) (m n : ℕ)
      → shard_key encode sha padded base_key m ≡ shard_key encode sha padded base_key n
      → m ≡ n
  shard_key-inj base_key m n h = padded_inj m n (
      append_cancel_right (padded m) (padded n) ".json" (
        append_cancel_left "/units-" (append (padded m) ".json") (append (padded n) ".json") (
          append_cancel_left base_key (append "/units-" (append (padded m) ".json"))
            (append "/units-" (append (padded n) ".json")) h)))

  put-new :
      (key : String) (document : D) (files : Files sha)
      → lookup key files ≡ none
      → put sha key document "application/json"
          (sha document)
          false
          (some "structured_result")
          files
        ≡ (insert key (json_object sha document) files, done (json_object sha document))
  unfolding put
  put-new key document files free =
      rw (free, put) (rw ((==-iff (sha document) (sha document)).1 refl))

  -- The shard of the units in front of what the rest of the loop gives.
  abbrev first_written :
      String
      → List U
      → Files sha × List Shard × Option ObjectError
      → Files sha × List Shard × Option ObjectError
  first_written key units (files', shards, error) = (
    files',
    (record { key = key; sha256 = sha (encode units); unit_count = length units }) ∷ shards,
    error,
  )

  -- What the loop over the shards of the units does.
  abbrev pub IsWritten : Files sha → List U → Files sha × List Shard × Option ObjectError → Type ℓ
  IsWritten files units (files', shards, error) =
      (error ≡ none) × Holds encode sha files' shards units × Keeps files files'

  -- A shard whose file is not there is written, and the loop goes on.
  write_shards-suc :
      (fuel size : ℕ) (base_key : String) (n : ℕ) (u : U) (us : List U) (files : Files sha)
      → lookup (shard_key encode sha padded base_key n) files ≡ none
      → write_shards encode sha padded (suc fuel) size base_key n (u ∷ us) files
        ≡ first_written (shard_key encode sha padded base_key n) (take size (u ∷ us)) (
            write_shards encode sha padded fuel size base_key (n + 1) (drop size (u ∷ us)) (
              insert
                (shard_key encode sha padded base_key n)
                (json_object sha (encode (take size (u ∷ us))))
                files))
  unfolding write_shards
  write_shards-suc fuel size base_key n u us files free =
      let key = shard_key encode sha padded base_key n in
      let units = take size (u ∷ us) in
      let later = write_shards encode sha padded fuel size base_key (n + 1) (drop size (u ∷ us)) in
      ap
        (λ (p : Files sha × Outcome (StoredObject D)).
          elim p.1 as (λ o. Files sha × List Shard × Option ObjectError) [
            | failed e ↦ (p.0, [], some e)
            | done object ↦ first_written key units (later p.0)
          ])
        (put-new key (encode units) files free)

  pub write_shards-IsWritten :
      (fuel size : ℕ) (base_key : String) (n : ℕ) (units : List U) (files : Files sha)
      → 1 ≤ size
      → length units ≤ fuel
      → IsFree encode sha padded base_key n files
      → IsWritten files units (write_shards encode sha padded fuel size base_key n units files)
  write_shards-IsWritten zero size base_key n [] files low enough free =
      unfold write_shards in (refl, refl, λ k o there. there)
  write_shards-IsWritten zero size base_key n (u ∷ us) files low enough free =
      absurd (omega (arith, enough))
  write_shards-IsWritten (suc fuel) size base_key n [] files low enough free =
      unfold write_shards in (refl, refl, λ k o there. there)
  write_shards-IsWritten (suc fuel) size base_key n (u ∷ us) files low enough free =
      let key = shard_key encode sha padded base_key n in
      let units = take size (u ∷ us) in
      let rest = drop size (u ∷ us) in
      let object = json_object sha (encode units) in
      let written = insert key object files in
      let fewer : length rest ≤ fuel = omega (arith, length-drop size (u ∷ us), enough, low) in
      let still_free : IsFree encode sha padded base_key (n + 1) written = λ m later.
        rw
          (lookup-insert_ne (shard_key encode sha padded base_key m) key object files
            (λ same. omega (arith, later, shard_key-inj base_key n m same)))
          (free m (omega (arith, later))) in
      let (none_raised, held, keeps) =
        write_shards-IsWritten fuel size base_key (n + 1) rest written low fewer still_free in
      rw (write_shards-suc fuel size base_key n u us files (free n (omega arith))) (
        none_raised,
        (
          units,
          rest,
          object,
          keeps key object (lookup-insert_self key object files),
          refl,
          refl,
          refl,
          sym (take-append-drop size (u ∷ us)),
          held,
        ),
        λ k o there. keeps k o (Keeps-insert key object files (free n (omega arith)) k o there),
      )
