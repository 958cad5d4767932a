-- ===== src/Results/Roundtrip.antt =====
-- The storing of a result's units by `RunExecutionMixin._store_result` of
-- scenara/platform/services_execution.py, followed by the reading of them by `RunService.result` and
-- `result_page` of scenara/platform/services.py.
use scenara.Prelude.{
  String, ℕ, suc, ◌≤◌, false, Option, none, some, List, [], ◌∷◌, ◌++◌, length, length-append,
  drop-length_append, slice, ltb, nat_eqb_iff, Bool-cases, ◌≡◌, refl, ap, inl, inr, arith,
}
use scenara.Results.Objects.{Files, done}
use scenara.Results.Shards.{
  Shard, reference_of, write_shards, store_complete, store_partial, result_units, page_units,
}
use scenara.Results.Holds.{Holds, load_shards-Holds}
use scenara.Results.Page.{page_units-Holds, shards_of-reference, length-map}
use scenara.Results.Written.{Holds-append, Holds-mono, IsFree, write_shards-IsWritten}

module _ {ℓ} {U D : Type ℓ} (encode : List U → D) (decode : D → Option (List U)) (sha : D → String)
    (padded : ℕ → String) (padded_inj : (m n : ℕ) → padded m ≡ padded n → m ≡ n)
    (decodes : (us : List U) → decode (encode us) ≡ some us) where
  result_units-Holds :
      (object_key sha256 : String) (shards : List Shard) (units index_units : List U)
      (files : Files sha)
      → 1 ≤ length units
      → Holds encode sha files shards units
      → result_units decode sha
          (reference_of object_key sha256 (length units) shards)
          index_units
          files
        ≡ done units
  unfolding result_units reference_of
  result_units-Holds object_key sha256 [] units index_units files some_unit held =
      absurd (omega (arith, some_unit, ap (λ us. length us) held))
  result_units-Holds object_key sha256 (s ∷ shards) units index_units files some_unit held =
      rw (length-map (λ (s : Shard). s.key) shards) (
        rw (length-map (λ (s : Shard). s.sha256) shards) (
          rw ((nat_eqb_iff (suc (length shards)) (suc (length shards))).1 refl) (
            rw (load_shards-Holds encode decode sha decodes files (s ∷ shards) units held)
              (rw ((nat_eqb_iff (length units) (length units)).1 refl)))))

  -- What a partial store does: the shards of the units since the previous one follow its shards.
  store_partial-append :
      (size : ℕ) (base_key object_key sha256 : String) (shards : List Shard) (before new : List U)
      (files : Files sha)
      → (let (files', written, error) =
            write_shards encode sha padded (length new) size base_key (length shards) new files in
          store_partial encode sha padded size base_key
            (some (reference_of object_key sha256 (length before) shards))
            (before ++ new)
            files
          ≡ (files', shards ++ written, error))
  unfolding store_partial
  store_partial-append size base_key object_key sha256 shards before new files =
      let longer : ltb (length (before ++ new)) (length before) ≡ false =
        ground (arith, length-append before new) in
      rw (shards_of-reference size object_key sha256 (length before) shards)
        (unfold reference_of in rw longer (rw (drop-length_append before new)))

  -- Where no file has the key of a shard, the storing of a complete result raises nothing, and the
  -- units that are read back by its reference are those that were stored, for a result of any
  -- length and shards of any size from 1 on.
  pub store_complete-result_units :
      (size : ℕ) (base_key object_key sha256 : String) (units : List U) (files : Files sha)
      → 1 ≤ size
      → IsFree encode sha padded base_key 0 files
      → (let (files', (shards, index_units), error) =
            store_complete encode sha padded size base_key units files in
          (error ≡ none)
          × (result_units decode sha
                (reference_of object_key sha256 (length units) shards)
                index_units
                files'
              ≡ done units))
  unfolding store_complete
  store_complete-result_units size base_key object_key sha256 units files low free =
      elim (Bool-cases (ltb size (length units))) [
        | inl long ↦
            let written =
              write_shards-IsWritten encode sha padded padded_inj (length units) size base_key 0
                units files low (omega arith) free in
            let (files', shards, error) =
              write_shards encode sha padded (length units) size base_key 0 units files in
            rw long (
              written.0,
              result_units-Holds object_key sha256 shards units [] files' (ground arith) written.1,
            )
        | inr short ↦ rw short (refl, unfold result_units reference_of in refl)
      ]

  -- Where the shards of a partial result are held by the files, and no file has the key of a later
  -- shard: the storing of a longer partial result that begins with the same units raises nothing,
  -- and any page that is read of it is the slice of its units.
  pub store_partial-page_units :
      (size : ℕ) (base_key object_key sha256 : String) (shards : List Shard)
      (before new index_units : List U) (unit_offset unit_limit : ℕ) (files : Files sha)
      → 1 ≤ size
      → Holds encode sha files shards before
      → IsFree encode sha padded base_key (length shards) files
      → (let (files', shards', error) =
            store_partial encode sha padded size base_key
              (some (reference_of object_key sha256 (length before) shards))
              (before ++ new)
              files in
          (error ≡ none)
          × (page_units decode sha size
                (reference_of object_key sha256 (length (before ++ new)) shards')
                index_units
                unit_offset
                unit_limit
                files'
              ≡ done (slice unit_offset unit_limit (before ++ new))))
  store_partial-page_units size base_key object_key sha256 shards before new index_units unit_offset
        unit_limit files low held free =
      let (files', written, error) =
        write_shards encode sha padded (length new) size base_key (length shards) new files in
      let (none_raised, held_new, keeps) =
        write_shards-IsWritten encode sha padded padded_inj (length new) size base_key
          (length shards) new files low (omega arith) free in
      rw (store_partial-append size base_key object_key sha256 shards before new files) (
        none_raised,
        page_units-Holds encode decode sha decodes size object_key sha256 (shards ++ written)
            (before ++ new) index_units unit_offset unit_limit files'
            (Holds-append encode sha files' shards written before new
              (Holds-mono encode sha files files' shards before keeps held) held_new),
      )
