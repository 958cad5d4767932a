-- ===== src/Store/Pipelines.antt =====
-- Pipeline definitions in the store: `register_pipeline_definition` to
-- `transition_pipeline_definition` of `MemoryStateStore` in
-- scenara/infrastructure/memory_state.py.
pub mod Active
use scenara.Prelude.{
  String, Bool, not, ◌&&◌, Option, none, some, List, map, ◌==◌, string_eq, pair_eq, if◌then◌else◌,
  true, false,
}
use scenara.Prelude.Dict.{Dict, lookup, insert, update_all, values}
use scenara.Prelude.Sort.{sort, str_ltb}
use scenara.Pipeline.Definition.{
  PipelineStatus, status_eq, PipelinePayload, PipelineDefinition, definition_sha256, allows,
}
use scenara.Store.{MemoryStateStore, Reply, ok, conflict}

abbrev pub PipelineKey : Type 0
PipelineKey = String × String

abbrev pub pipeline_key : PipelineDefinition → PipelineKey
pipeline_key p = (p.pipeline_id, p.version)

abbrev pub is_active : PipelineDefinition → Bool
is_active p = p.status == PipelineStatus.active

-- An active version of the pipeline is retired.
abbrev pub retire_active : String → PipelineDefinition → PipelineDefinition
retire_active pipeline_id p =
    if (p.pipeline_id == pipeline_id) && is_active p
    then record p { status = PipelineStatus.retired }
    else p

-- `register_pipeline_definition` finds the other versions by their key.
abbrev pub retire_keyed : String → PipelineKey → PipelineDefinition → PipelineDefinition
retire_keyed pipeline_id k p =
    if (k.0 == pipeline_id) && is_active p then record p { status = PipelineStatus.retired } else p

module _ (hash : PipelinePayload → String) where
  unfoldable pub register_pipeline_definition :
      PipelineDefinition → MemoryStateStore → MemoryStateStore × Reply (Unit {0})
  register_pipeline_definition pipeline s = elim (lookup (pipeline_key pipeline) s.pipelines) [
    | some existing ↦
        if not (definition_sha256 hash existing == definition_sha256 hash pipeline)
        then if is_active pipeline
          then (record s { pipelines = insert (pipeline_key pipeline) pipeline s.pipelines }, ok tt)
          else (s, conflict "pipeline version definition is immutable")
        else (s, ok tt)
    | none ↦
        let others =
          if is_active pipeline
          then update_all (retire_keyed pipeline.pipeline_id) s.pipelines
          else s.pipelines in
        (record s { pipelines = insert (pipeline_key pipeline) pipeline others }, ok tt)
  ]

unfoldable pub get_pipeline_definition :
    String → String → MemoryStateStore → Option PipelineDefinition
get_pipeline_definition pipeline_id version s = lookup (pipeline_id, version) s.pipelines

unfoldable pub list_pipeline_definitions : MemoryStateStore → List PipelineDefinition
list_pipeline_definitions s = values (
    sort
      (λ a b.
        if str_ltb a.0.0 b.0.0 then true else if a.0.0 == b.0.0 then str_ltb a.0.1 b.0.1 else false)
      s.pipelines)

unfoldable pub transition_pipeline_definition :
    String
    → String
    → PipelineStatus
    → MemoryStateStore
    → MemoryStateStore × Reply PipelineDefinition
transition_pipeline_definition pipeline_id version target s =
    elim (lookup (pipeline_id, version) s.pipelines) [
      | none ↦ (s, conflict "pipeline version does not exist")
      | some pipeline ↦
          if not (allows pipeline.status target)
          then (s, conflict "invalid pipeline transition")
          else let others =
              if target == PipelineStatus.active
              then update_all (λ k. retire_active pipeline_id) s.pipelines
              else s.pipelines in
            let updated = record pipeline { status = target } in
            (record s { pipelines = insert (pipeline_id, version) updated others }, ok updated)
    ]
