-- ===== src/Results/Examples.antt =====
-- Witnesses: results of numbers in shards of two, in files that are lists of numbers.
use scenara.Prelude.{
  String, ℕ, Option, none, some, List, [], ◌∷◌, length, string_eq, ==-iff, ◌≡◌, ◌≢◌, refl, arith,
}
use scenara.Prelude.Dict.{lookup}
use scenara.Store.Examples.Outbox.{ticks, ticks_inj}
use scenara.Results.Objects.{Files, StoredObject, ObjectError, done}
use scenara.Results.Shards.{
  Shard, reference_of, shard_key, store_complete, store_partial, result_units, page_units,
}
use scenara.Results.Holds.{Holds}
use scenara.Results.Written.{json_object, IsFree, shard_key-inj}
use scenara.Results.Roundtrip.{store_complete-result_units, store_partial-page_units}

-- The bytes of a document are the numbers themselves here, and a digest says how many there are.
abbrev encode : List ℕ → List ℕ
encode us = us

abbrev decode : List ℕ → Option (List ℕ)
decode us = some us

abbrev sha : List ℕ → String
sha us = ticks (length us)

abbrev no_files : Files sha
no_files = []

no_files-IsFree : IsFree encode sha ticks "runs/run_1" 0 no_files
unfolding lookup
no_files-IsFree m later = refl

abbrev five_units : List ℕ
five_units = 10 ∷ 20 ∷ 30 ∷ 40 ∷ 50 ∷ []

abbrev complete : Files sha × (List Shard × List ℕ) × Option ObjectError
complete = store_complete encode sha ticks 2 "runs/run_1" five_units no_files

store_complete-result_units_example :
    (complete.2 ≡ none)
    × (result_units decode sha
          (reference_of "runs/run_1/result.json" "digest" 5 complete.1.0)
          complete.1.1
          complete.0
        ≡ done five_units)
store_complete-result_units_example =
    store_complete-result_units encode decode sha ticks ticks_inj (λ us. refl) 2 "runs/run_1"
      "runs/run_1/result.json" "digest" five_units no_files (omega arith) no_files-IsFree

-- A first shard of two units, and the three units that a later partial result adds.
abbrev first_key : String
first_key = shard_key encode sha ticks "runs/run_1/partial" 0

abbrev first_shard : Shard
first_shard = record { key = first_key; sha256 = sha (10 ∷ 20 ∷ []); unit_count = 2 }

abbrev first_object : StoredObject (List ℕ)
first_object = json_object sha (10 ∷ 20 ∷ [])

abbrev first_files : Files sha
first_files = (first_key, first_object) ∷ []

first_files-Holds : Holds encode sha first_files (first_shard ∷ []) (10 ∷ 20 ∷ [])
unfolding lookup
first_files-Holds = (10 ∷ 20 ∷ [], [], first_object, there, refl, refl, refl, refl, refl)
  where
    there : lookup first_key first_files ≡ some first_object
    there = rw ((==-iff first_key first_key).1 refl)

first_files-IsFree : IsFree encode sha ticks "runs/run_1/partial" 1 first_files
unfolding lookup
first_files-IsFree m later =
    let other = shard_key encode sha ticks "runs/run_1/partial" m in
    let apart : first_key ≢ other = λ same.
      omega
        (arith, later, shard_key-inj encode sha ticks ticks_inj "runs/run_1/partial" 0 m same) in
    ground (arith, ==-iff first_key other)

abbrev partial : Files sha × List Shard × Option ObjectError
partial =
    store_partial encode sha ticks 2 "runs/run_1/partial"
      (some (reference_of "index" "digest" 2 (first_shard ∷ []))) five_units first_files

store_partial-page_units_example :
    (partial.2 ≡ none)
    × (page_units decode sha 2 (reference_of "index" "digest" 5 partial.1) [] 1 3 partial.0
        ≡ done (20 ∷ 30 ∷ 40 ∷ []))
store_partial-page_units_example =
    store_partial-page_units encode decode sha ticks ticks_inj (λ us. refl) 2 "runs/run_1/partial"
      "index" "digest" (first_shard ∷ []) (10 ∷ 20 ∷ []) (30 ∷ 40 ∷ 50 ∷ []) [] 1 3 first_files
      (omega arith) first_files-Holds first_files-IsFree
