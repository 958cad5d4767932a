-- ===== src/Results/Page.antt =====
-- `RunService.result_page` of scenara/platform/services.py over files that hold the units.
use scenara.Prelude.{
  String, ℕ, suc, ◌+◌, ◌-◌, true, false, ◌&&◌, Option, some, List, [], ◌∷◌, ◌++◌, map, length,
  length-drop, length-take, take, drop, take-min, take-nil, drop-nil, take-append, drop-append,
  slice, ltb, leb, nat_eqb_iff, Bool-cases, ◌≡◌, refl, sym, ap, ◌∙◌, inl, inr, arith,
}
use Prim.Native.Nat.{min}
use scenara.Results.Objects.{Files, done}
use scenara.Results.Shards.{
  Shard, reference_of, keys_of, sha256_of, counts_of, zip, between, shards_of, counts_or_full,
  load_pages, page_units,
}
use scenara.Results.Holds.{Holds, load_shard_held}

zip-of : (shards : List Shard) → zip (keys_of shards) (sha256_of shards) (counts_of shards) ≡ shards
zip-of [] = refl
zip-of (s ∷ shards) = ap (◌∷◌ s) (zip-of shards)

pub length-map {ℓ κ} :
    {A : Type ℓ} {B : Type κ} (f : A → B) (xs : List A) → length (map f xs) ≡ length xs
length-map f [] = refl
length-map f (x ∷ xs) = omega (arith, length-map f xs)

-- The shards that a reference was made of are read back from it.
pub shards_of-reference :
    (size : ℕ) (object_key sha256 : String) (n : ℕ) (shards : List Shard)
    → shards_of size (reference_of object_key sha256 n shards) ≡ shards
unfolding shards_of counts_or_full reference_of
shards_of-reference size object_key sha256 n shards =
    rw (length-map (λ (s : Shard). s.key) shards) (
      rw (length-map (λ (s : Shard). s.unit_count) shards)
        (rw ((nat_eqb_iff (length shards) (length shards)).1 refl) (zip-of shards)))

module _ {ℓ} {U : Type ℓ} where
  take-none : (xs : List U) → length xs ≡ 0 → xs ≡ []
  take-none [] h = refl
  take-none (x ∷ xs) h = absurd (omega (arith, h))

  -- The part of a page that comes from a chunk and what follows it.
  page-append :
      (unit_offset page_end cursor count : ℕ) (chunk rest : List U)
      → count ≡ length chunk
      → take
          (page_end - cursor - (unit_offset - cursor))
          (drop (unit_offset - cursor) (chunk ++ rest))
        ≡ between (unit_offset - cursor) (min (cursor + count) page_end - cursor) chunk
          ++ take
              (page_end - (cursor + count) - (unit_offset - (cursor + count)))
              (drop (unit_offset - (cursor + count)) rest)
  page-append unit_offset page_end cursor count chunk rest number =
      let skipped = drop (unit_offset - cursor) chunk in
      let n = page_end - cursor - (unit_offset - cursor) in
      let long : length skipped ≡ length chunk - (unit_offset - cursor) =
        length-drop (unit_offset - cursor) chunk in
      let part : min n (length skipped)
          ≡ min (cursor + count) page_end - cursor - (unit_offset - cursor) =
        omega (arith, long, number) in
      let left : n - length skipped
          ≡ page_end - (cursor + count) - (unit_offset - (cursor + count)) =
        omega (arith, long, number) in
      let later : unit_offset - cursor - length chunk ≡ unit_offset - (cursor + count) =
        omega (arith, number) in
      rw (drop-append (unit_offset - cursor) chunk rest) (
        rw (take-append n skipped (drop (unit_offset - cursor - length chunk) rest))
          (rw (← part) (rw (take-min n skipped) (rw (left) (rw later)))))

  -- A shard that the page does not overlap gives nothing to it.
  page-apart :
      (unit_offset page_end cursor count : ℕ) (chunk : List U)
      → count ≡ length chunk
      → (ltb cursor page_end && ltb unit_offset (cursor + count)) ≡ false
      → between (unit_offset - cursor) (min (cursor + count) page_end - cursor) chunk ≡ []
  page-apart unit_offset page_end cursor count chunk number apart =
      let skipped = drop (unit_offset - cursor) chunk in
      let n = min (cursor + count) page_end - cursor - (unit_offset - cursor) in
      take-none (take n skipped)
        (ground (arith, length-take n skipped, length-drop (unit_offset - cursor) chunk))

module _ {ℓ} {U D : Type ℓ} (encode : List U → D) (decode : D → Option (List U)) (sha : D → String)
    (decodes : (us : List U) → decode (encode us) ≡ some us) where
  load_pages-Holds :
      (unit_offset page_end cursor : ℕ) (files : Files sha) (shards : List Shard) (units : List U)
      → Holds encode sha files shards units
      → load_pages decode sha unit_offset page_end cursor shards files
        ≡ done
            (take (page_end - cursor - (unit_offset - cursor)) (drop (unit_offset - cursor) units))
  unfolding load_pages
  load_pages-Holds unit_offset page_end cursor files [] units held = rw held (
      rw (drop-nil {A = U} (unit_offset - cursor))
        (rw (take-nil {A = U} (page_end - cursor - (unit_offset - cursor)))))
  load_pages-Holds unit_offset page_end cursor files (s ∷ shards) units
        (chunk, rest, object, there, content, digest, number, parts, held) =
      let later =
        load_pages-Holds unit_offset page_end (cursor + s.unit_count) files shards rest held in
      rw parts (
        rw (page-append unit_offset page_end cursor s.unit_count chunk rest number)
          (elim (Bool-cases (ltb cursor page_end && ltb unit_offset (cursor + s.unit_count))) [
            | inl overlaps ↦
                (rw overlaps (
                  rw
                    (load_shard_held encode decode sha decodes files s object chunk there content
                      digest)
                    (rw later)))
            | inr apart ↦
                (rw (page-apart unit_offset page_end cursor s.unit_count chunk number apart)
                  (rw apart later))
          ]))

  page-within :
      (unit_offset unit_limit : ℕ) (files : Files sha) (shards : List Shard) (units : List U)
      → Holds encode sha files shards units
      → load_pages decode sha unit_offset
          (min (length units) (unit_offset + unit_limit))
          0
          shards
          files
        ≡ done (slice unit_offset unit_limit units)
  page-within unit_offset unit_limit files shards units held =
      let left = drop unit_offset units in
      let page_end = min (length units) (unit_offset + unit_limit) in
      let long : length left ≡ length units - unit_offset = length-drop unit_offset units in
      let skip : unit_offset - 0 ≡ unit_offset = omega arith in
      let part : page_end - 0 - unit_offset ≡ min unit_limit (length left) = omega (arith, long) in
      load_pages-Holds unit_offset page_end 0 files shards units held
      ∙ rw skip (rw part (ap done (take-min unit_limit left)))

  -- A page of a result that the files hold is the slice of its units.
  pub page_units-Holds :
      (size : ℕ) (object_key sha256 : String) (shards : List Shard) (units inline_units : List U)
      (unit_offset unit_limit : ℕ) (files : Files sha)
      → Holds encode sha files shards units
      → page_units decode sha size
          (reference_of object_key sha256 (length units) shards)
          inline_units
          unit_offset
          unit_limit
          files
        ≡ done (slice unit_offset unit_limit units)
  unfolding page_units reference_of
  page_units-Holds size object_key sha256 [] units inline_units unit_offset unit_limit files held =
      let beyond : leb 0 unit_offset ≡ true = ground arith in
      rw held (
        rw beyond (
          sym (
            ap (λ us. done (take unit_limit us)) (drop-nil {A = U} unit_offset)
            ∙ ap done (take-nil {A = U} unit_limit))))
  page_units-Holds size object_key sha256 (s ∷ shards) units inline_units unit_offset unit_limit
        files held =
      let left = drop unit_offset units in
      let long : length left ≡ length units - unit_offset = length-drop unit_offset units in
      let same = (nat_eqb_iff (suc (length shards)) (suc (length shards))).1 refl in
      elim (Bool-cases (leb (length units) unit_offset)) [
        | inl beyond ↦ rw beyond (
            rw (take-none left (ground (arith, long)))
              (ap done (sym (take-nil {A = U} unit_limit))))
        | inr within ↦
            let page = page-within unit_offset unit_limit files (s ∷ shards) units held in
            rw within (
              rw (length-map (λ (s : Shard). s.key) shards) (
                rw (length-map (λ (s : Shard). s.sha256) shards) (
                  rw (shards_of-reference size object_key sha256 (length units) (s ∷ shards))
                    (rw same page))))
      ]
