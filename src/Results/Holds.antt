-- ===== src/Results/Holds.antt =====
-- What it is for the files to hold the units of a result in shards, and what the reading of such
-- files gives.
use scenara.Prelude.{
  String, Option, some, List, [], ◌∷◌, ◌++◌, ==-iff, string_eq, length, ◌≡◌, refl, sym, ap,
}
use scenara.Prelude.Dict.{lookup}
use scenara.Results.Objects.{Files, StoredObject, done, get}
use scenara.Results.Shards.{Shard, keys_of, sha256_of, load_shard, load_shards}

module _ {ℓ} {U D : Type ℓ} (encode : List U → D) (sha : D → String) where
  -- The files have each shard's document, which is that of the units it stands for.
  abbrev pub Holds : Files sha → List Shard → List U → Type ℓ
  Holds files [] units = units ≡ []
  Holds files (s ∷ shards) units =
      (chunk : List U) × (rest : List U) × (object : StoredObject D) × (lookup s.key files
        ≡ some object)
      × (object.content ≡ encode chunk)
      × (s.sha256 ≡ sha (encode chunk))
      × (s.unit_count ≡ length chunk)
      × (units ≡ chunk ++ rest)
      × Holds files shards rest

module _ {ℓ} {U D : Type ℓ} (encode : List U → D) (decode : D → Option (List U)) (sha : D → String)
    (decodes : (us : List U) → decode (encode us) ≡ some us) where
  get_held :
      (files : Files sha) (key : String) (object : StoredObject D) (chunk : List U)
      → lookup key files ≡ some object
      → object.content ≡ encode chunk
      → get sha key (some (sha (encode chunk))) files ≡ done (encode chunk)
  unfolding get
  get_held files key object chunk there content =
      rw (there, get) (rw content (rw ((==-iff (sha (encode chunk)) (sha (encode chunk))).1 refl)))

  pub load_shard_held :
      (files : Files sha) (s : Shard) (object : StoredObject D) (chunk : List U)
      → lookup s.key files ≡ some object
      → object.content ≡ encode chunk
      → s.sha256 ≡ sha (encode chunk)
      → load_shard decode sha s.key s.sha256 files ≡ done chunk
  unfolding load_shard
  load_shard_held files s object chunk there content digest = rw digest (
      rw (get_held files s.key object chunk there content, load_shard)
        (rw ((==-iff (sha (encode chunk)) (sha (encode chunk))).1 refl) (rw (decodes chunk))))

  pub load_shards-Holds :
      (files : Files sha) (shards : List Shard) (units : List U)
      → Holds encode sha files shards units
      → load_shards decode sha (keys_of shards) (sha256_of shards) files ≡ done units
  unfolding load_shards
  load_shards-Holds files [] units held = ap done (sym held)
  load_shards-Holds files (s ∷ shards) units
        (chunk, rest, object, there, content, digest, number, parts, held) =
      rw (load_shard_held files s object chunk there content digest, load_shards)
        (rw (load_shards-Holds files shards rest held) (ap done (sym parts)))
