-- ===== src/Pipeline/Registry/Active.antt =====
-- The active versions in the registry: `register_pipeline` and `transition` of `PipelineRegistry` of
-- scenara/platform/pipeline.py.
use scenara.Prelude.{
  String, ◌≡◌, subst, inl, inr, Bool, false, not, ◌&&◌, some, ◌==◌, string_eq, pair_eq, option_eq,
  ==-iff, Option-cases, Bool-cases, arith,
}
use scenara.Prelude.Dict.{Dict, lookup, has_key, insert, any_entry, any_entry-lookup}
use scenara.Pipeline.Definition.{
  PipelineStatus, status_eq, status_eqb_iff, PipelinePayload, PipelineDefinition, definition_sha256,
  allows,
}
use scenara.Pipeline.Graph.{Checked-cases}
use scenara.Pipeline.Registry.{
  PipelineRegistry, is_active_of, validate, register_pipeline, transition,
}
use scenara.Store.Pipelines.{PipelineKey, pipeline_key}
use scenara.Store.Pipelines.Active.{
  IsSingle, NoneActive, inactive-IsSingle, active-IsSingle, activate-IsSingle,
}

none_found :
    (i : String) (d : Dict PipelineKey PipelineDefinition)
    → any_entry (λ k item. is_active_of i item) d ≡ false
    → NoneActive i d
none_found i d h k p found same active = ground (
  arith,
  any_entry-lookup (λ k item. is_active_of i item) k p d h found,
  ==-iff p.pipeline_id i,
  status_eqb_iff p.status PipelineStatus.active,
)

register-IsSingle :
    (p : PipelineDefinition) (d : Dict PipelineKey PipelineDefinition)
    → IsSingle d
    → ((p.status == PipelineStatus.active)
        && any_entry (λ k item. is_active_of p.pipeline_id item) d)
      ≡ false
    → IsSingle (insert (pipeline_key p) p d)
register-IsSingle p d h free = elim (Bool-cases (p.status == PipelineStatus.active)) [
  | inl active ↦ active-IsSingle d h p (none_found p.pipeline_id d (ground arith))
  | inr idle ↦
      inactive-IsSingle d h p (ground (arith, status_eqb_iff p.status PipelineStatus.active))
]

-- A registration keeps at most one active version of each pipeline in the registry, whether it is
-- accepted or refused.
pub register_pipeline-IsSingle :
    (fullmatch : String → String → Bool) (hash : PipelinePayload → String) (p : PipelineDefinition)
    (r : PipelineRegistry)
    → IsSingle r.pipelines
    → IsSingle (register_pipeline fullmatch hash p r).0.pipelines
unfolding register_pipeline
register_pipeline-IsSingle fullmatch hash p r h =
    elim (Bool-cases (has_key (pipeline_key p) r.pipelines)) [
      | inl known ↦ rw known h
      | inr new ↦
          elim (Bool-cases (
            (p.status == PipelineStatus.active)
            && any_entry (λ k item. is_active_of p.pipeline_id item) r.pipelines)) [
              | inl taken ↦ rw (new, taken) h
              | inr free ↦ elim (Checked-cases (validate fullmatch r.operators p)) [
                | inl (m, refused) ↦ rw (new, free, refused) h
                | inr (order, found) ↦
                    rw (new, free, found) (register-IsSingle p r.pipelines h free)
              ]
            ]
    ]

-- A transition keeps at most one active version of each pipeline in the registry, whether it is
-- accepted or refused.
pub transition-IsSingle :
    (hash : PipelinePayload → String) (i v : String) (target : PipelineStatus)
    (r : PipelineRegistry)
    → IsSingle r.pipelines
    → IsSingle (transition hash i v target r).0.pipelines
transition-IsSingle hash i v target r h = elim (Option-cases (lookup (i, v) r.pipelines)) [
  | inl missing ↦ unfold transition in rw (missing, transition) h
  | inr (p, found) ↦ elim (Bool-cases (not (allows p.status target))) [
    | inl refused ↦ unfold transition in rw (found, transition) (rw refused h)
    | inr allowed ↦
        elim (Bool-cases (not (some (definition_sha256 hash p) == lookup (i, v) r.digests))) [
          | inl mutated ↦ unfold transition in rw (found, transition) (rw allowed (rw mutated h))
          | inr intact ↦ elim (Bool-cases (target == PipelineStatus.active)) [
            | inl up ↦
                unfold transition in
                rw (found, transition)
                  (rw allowed
                    (rw intact (rw up (activate-IsSingle i v target p r.pipelines h found))))
            | inr down ↦
                unfold transition in
                rw (found, transition)
                  (rw allowed (
                    rw intact (
                      rw down (
                        subst (λ k. IsSingle (insert k (record p { status = target }) r.pipelines))
                          (h.keyed (i, v) p found)
                          (inactive-IsSingle r.pipelines h (record p { status = target })
                            (ground (arith, status_eqb_iff target PipelineStatus.active)))))))
          ]
        ]
  ]
]
