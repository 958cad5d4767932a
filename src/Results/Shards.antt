-- ===== src/Results/Shards.antt =====
-- The loops over shards: the writing of `_store_result`, the reading of `result` and `result_page`.
-- The lists of keys, digests and counts, which grow together, are one list of entries here.
use scenara.Prelude.{
  String, ℕ, zero, suc, ◌+◌, ◌-◌, ◌*◌, false, not, ◌&&◌, Option, none, some, List, [], ◌∷◌, ◌++◌,
  ◌==◌, string_eq, nat_eqb, ltb, leb, length, take, drop, map, if◌then◌else◌,
}
use Prim.Native.Nat.{min}
use Prim.Native.String.{◌++◌ as append}
use scenara.Results.Objects.{Files, ObjectError, pipeline_error, Outcome, done, failed, put, get}

pub record Shard : Type 0 where
  pub key : String
  pub sha256 : String
  pub unit_count : ℕ

-- What of a `ResultReference` says where the documents are.
pub record Reference : Type 0 where
  pub object_key : String
  pub sha256 : String
  pub unit_count : ℕ
  pub shard_keys : List String
  pub shard_sha256 : List String
  pub shard_unit_counts : List ℕ

abbrev pub keys_of : List Shard → List String
keys_of shards = map (λ (s : Shard). s.key) shards

abbrev pub sha256_of : List Shard → List String
sha256_of shards = map (λ (s : Shard). s.sha256) shards

abbrev pub counts_of : List Shard → List ℕ
counts_of shards = map (λ (s : Shard). s.unit_count) shards

-- The reference to a result of `n` units, with the shards that were written for it.
unfoldable pub reference_of : String → String → ℕ → List Shard → Reference
reference_of object_key sha256 n shards = record {
  object_key = object_key;
  sha256 = sha256;
  unit_count = n;
  shard_keys = keys_of shards;
  shard_sha256 = sha256_of shards;
  shard_unit_counts = counts_of shards;
}

-- `zip(keys, digests, counts, strict=True)`, of lists of one length.
abbrev pub zip : List String → List String → List ℕ → List Shard
zip [] digests counts = []
zip (k ∷ keys) [] counts = []
zip (k ∷ keys) (h ∷ digests) [] = []
zip (k ∷ keys) (h ∷ digests) (n ∷ counts) =
    (record { key = k; sha256 = h; unit_count = n }) ∷ zip keys digests counts

-- `xs[start:end]`
abbrev pub between {ℓ} : {A : Type ℓ} → ℕ → ℕ → List A → List A
between start end xs = take (end - start) (drop start xs)

-- `[count] * n` with the last one replaced.
abbrev pub full_counts : ℕ → ℕ → ℕ → List ℕ
full_counts size last zero = []
full_counts size last (suc zero) = last ∷ []
full_counts size last (suc (suc n)) = size ∷ full_counts size last (suc n)

-- The counts of a reference, made up where they are not as many as the keys.
unfoldable pub counts_or_full : ℕ → Reference → List ℕ
counts_or_full size reference =
    let number = length reference.shard_keys in
    if not (nat_eqb (length reference.shard_unit_counts) number)
    then full_counts size (reference.unit_count - size * (number - 1)) number
    else reference.shard_unit_counts

-- The shards of a reference, with such counts.
unfoldable pub shards_of : ℕ → Reference → List Shard
shards_of size reference =
    zip reference.shard_keys reference.shard_sha256 (counts_or_full size reference)

module _ {ℓ κ} {U : Type ℓ} {D : Type κ} (encode : List U → D) (sha : D → String)
    (padded : ℕ → String) where
  abbrev pub shard_key : String → ℕ → String
  shard_key base_key n = append base_key (append "/units-" (append (padded n) ".json"))

  -- The loop over the offsets; `units` are those from the offset on, and `n` is the number of the
  -- shard. It ends with the shards that were written, and the error where a `put` raises. The fuel
  -- is the number of units.
  unfoldable pub write_shards :
      ℕ → ℕ → String → ℕ → List U → Files sha → Files sha × List Shard × Option ObjectError
  write_shards zero size base_key n units files = (files, [], none)
  write_shards (suc fuel) size base_key n [] files = (files, [], none)
  write_shards (suc fuel) size base_key n (u ∷ us) files =
      let units = take size (u ∷ us) in
      let document = encode units in
      let key = shard_key base_key n in
      let (files', stored) =
        put sha key document "application/json" (sha document) false (some "structured_result")
          files in
      let shard : Shard = record { key = key; sha256 = sha document; unit_count = length units } in
      let (files'', shards, error) =
        write_shards fuel size base_key (n + 1) (drop size (u ∷ us)) files' in
      elim stored [
        | failed e ↦ (files', [], some e)
        | done object ↦ (files'', shard ∷ shards, error)
      ]

  -- The branch of a complete result: the shards of a long one, with the units that the index document
  -- has.
  unfoldable pub store_complete :
      ℕ → String → List U → Files sha → Files sha × (List Shard × List U) × Option ObjectError
  store_complete size base_key units files =
      let (files', shards, error) = write_shards (length units) size base_key 0 units files in
      if ltb size (length units) then (files', (shards, []), error) else (files, ([], units), none)

  -- The branch of a partial result: the shards of the previous partial result stay, and those of the
  -- units since then follow.
  unfoldable pub store_partial :
      ℕ
      → String
      → Option Reference
      → List U
      → Files sha
      → Files sha × List Shard × Option ObjectError
  store_partial size base_key previous units files =
      let (shards, count) : List Shard × ℕ = elim previous [
        | none ↦ ([], 0)
        | some reference ↦ (shards_of size reference, reference.unit_count)
      ] in
      let new_units = drop count units in
      let (files', written, error) =
        write_shards (length new_units) size base_key (length shards) new_units files in
      if ltb (length units) count
      then (files, shards, some (pipeline_error "partial result unit count must be monotonic"))
      else (files', shards ++ written, error)

module _ {ℓ κ} {U : Type ℓ} {D : Type κ} (decode : D → Option (List U)) (sha : D → String) where
  -- `load_shard`, and what `load_selected` reads.
  unfoldable pub load_shard : String → String → Files sha → Outcome (List U)
  load_shard object_key expected_sha256 files =
      elim (get sha object_key (some expected_sha256) files) [
        | failed e ↦ failed e
        | done document ↦
            if not (sha document == expected_sha256)
            then failed (pipeline_error "stored result shard checksum does not match its reference")
            else elim (decode document) [
              | none ↦ failed (pipeline_error "stored result shard is not a unit list")
              | some units ↦ done units
            ]
      ]

  -- The shards that `gather` loads, in their order.
  unfoldable pub load_shards : List String → List String → Files sha → Outcome (List U)
  load_shards [] digests files = done []
  load_shards (key ∷ keys) [] files = done []
  load_shards (key ∷ keys) (digest ∷ digests) files = elim (load_shard key digest files) [
    | failed e ↦ failed e
    | done units ↦ elim (load_shards keys digests files) [
      | failed e ↦ failed e
      | done rest ↦ done (units ++ rest)
    ]
  ]

  -- The units of `result`; `inline_units` are those of the index document.
  unfoldable pub result_units : Reference → List U → Files sha → Outcome (List U)
  result_units reference inline_units files = elim reference.shard_keys [
    | [] ↦ done inline_units
    | key ∷ keys ↦
        if not (nat_eqb (length reference.shard_keys) (length reference.shard_sha256))
        then failed (pipeline_error "stored result shard manifest is invalid")
        else elim (load_shards reference.shard_keys reference.shard_sha256 files) [
          | failed e ↦ failed e
          | done units ↦
              if not (nat_eqb (length units) reference.unit_count)
              then failed (pipeline_error "stored result shard count does not match its reference")
              else done units
        ]
  ]

  -- The loop that selects the shards that overlap the page, and the loading of what they give to it.
  unfoldable pub load_pages : ℕ → ℕ → ℕ → List Shard → Files sha → Outcome (List U)
  load_pages unit_offset page_end cursor [] files = done []
  load_pages unit_offset page_end cursor (s ∷ shards) files =
      let shard_end = cursor + s.unit_count in
      let later = load_pages unit_offset page_end shard_end shards files in
      if ltb cursor page_end && ltb unit_offset shard_end
      then elim (load_shard s.key s.sha256 files) [
        | failed e ↦ failed e
        | done units ↦ elim later [
          | failed e ↦ failed e
          | done rest ↦
              done (between (unit_offset - cursor) (min shard_end page_end - cursor) units ++ rest)
        ]
      ]
      else later

  -- The units of `result_page`; `size` is `result_shard_units`.
  unfoldable pub page_units : ℕ → Reference → List U → ℕ → ℕ → Files sha → Outcome (List U)
  page_units size reference inline_units unit_offset unit_limit files =
      let total = reference.unit_count in
      let page_end = min total (unit_offset + unit_limit) in
      let number = length reference.shard_keys in
      if leb total unit_offset then done [] else elim reference.shard_keys [
        | [] ↦ done (between unit_offset page_end inline_units)
        | key ∷ keys ↦
            if not (nat_eqb number (length reference.shard_sha256))
            then failed (pipeline_error "stored result shard manifest is invalid")
            else load_pages unit_offset page_end 0 (shards_of size reference) files
      ]
