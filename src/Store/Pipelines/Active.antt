-- ===== src/Store/Pipelines/Active.antt =====
-- The active versions of a pipeline: `register_pipeline_definition` and
-- `transition_pipeline_definition` of `MemoryStateStore`.
use scenara.Prelude.{
  String, ◌≡◌, ◌≢◌, sym, subst, ap, ◌∙◌, inl, inr, true, not, some, ◌==◌, string_eq, pair_eq,
  ==-iff, Option-cases, Bool-cases, arith,
}
use scenara.Prelude.Dict.{
  Dict, lookup, insert, update_all, lookup-insert, lookup-insert_self, lookup-insert_ne,
  lookup-update_all,
}
use scenara.Pipeline.Definition.{
  PipelineStatus, status_eq, status_eqb_iff, PipelinePayload, PipelineDefinition, definition_sha256,
  allows,
}
use scenara.Store.{MemoryStateStore}
use scenara.Store.Pipelines.{
  PipelineKey, pipeline_key, is_active, retire_active, retire_keyed, register_pipeline_definition,
  transition_pipeline_definition,
}

-- A definition stands under its own key, and no two versions of a pipeline are active.
pub record IsSingle (d : Dict PipelineKey PipelineDefinition) : Type 0 where
  pub keyed : (k : PipelineKey) (p : PipelineDefinition) → lookup k d ≡ some p → pipeline_key p ≡ k
  pub single :
      (j k : PipelineKey) (p q : PipelineDefinition)
      → lookup j d ≡ some p
      → lookup k d ≡ some q
      → p.pipeline_id ≡ q.pipeline_id
      → p.status ≡ PipelineStatus.active
      → q.status ≡ PipelineStatus.active
      → j ≡ k

module _ (d : Dict PipelineKey PipelineDefinition) (h : IsSingle d) (p : PipelineDefinition) where
  -- To write a version that is not active.
  pub inactive-IsSingle : p.status ≢ PipelineStatus.active → IsSingle (insert (pipeline_key p) p d)
  inactive-IsSingle idle = record {
    keyed = λ k q found. elim (Bool-cases (pipeline_key p == k)) [
      | inl same ↦ ground (arith, lookup-insert k (pipeline_key p) p d, ==-iff (pipeline_key p) k)
      | inr other ↦ ground (arith, lookup-insert k (pipeline_key p) p d, h.keyed k q)
    ];
    single = λ j k q r hq hr same qa ra. ground (
      arith,
      lookup-insert j (pipeline_key p) p d,
      lookup-insert k (pipeline_key p) p d,
      h.single j k q r,
    );
  }

-- No version of the pipeline is active.
abbrev pub NoneActive : String → Dict PipelineKey PipelineDefinition → Type 0
NoneActive i d =
    (k : PipelineKey) (p : PipelineDefinition)
    → lookup k d ≡ some p
    → p.pipeline_id ≡ i
    → p.status ≢ PipelineStatus.active

module _ (d : Dict PipelineKey PipelineDefinition) (h : IsSingle d) (p : PipelineDefinition) where
  -- To write a version where no version is active.
  pub active-IsSingle : NoneActive p.pipeline_id d → IsSingle (insert (pipeline_key p) p d)
  active-IsSingle idle = record {
    keyed = λ k q found. elim (Bool-cases (pipeline_key p == k)) [
      | inl same ↦ ground (arith, lookup-insert k (pipeline_key p) p d, ==-iff (pipeline_key p) k)
      | inr other ↦ ground (arith, lookup-insert k (pipeline_key p) p d, h.keyed k q)
    ];
    single = λ j k q r hq hr same qa ra. ground (
      arith,
      lookup-insert j (pipeline_key p) p d,
      lookup-insert k (pipeline_key p) p d,
      ==-iff (pipeline_key p) j,
      ==-iff (pipeline_key p) k,
      idle j q,
      idle k r,
      h.single j k q r,
    );
  }

module _ (i : String) (d : Dict PipelineKey PipelineDefinition) (h : IsSingle d) where
  -- Both ways to retire the active version are the same where definitions stand under their keys.
  retired_from :
      (k : PipelineKey) (p : PipelineDefinition)
      → lookup k (update_all (λ k. retire_active i) d) ≡ some p
      → (q : PipelineDefinition) × (lookup k d ≡ some q) × (p ≡ retire_active i q)
  retired_from k p found = elim (Option-cases (lookup k d)) [
    | inl missing ↦ absurd (ground (arith, lookup-update_all (λ k. retire_active i) k d))
    | inr (q, there) ↦ (q, there, ground (arith, lookup-update_all (λ k. retire_active i) k d))
  ]

  retire-NoneActive : NoneActive i (update_all (λ k. retire_active i) d)
  retire-NoneActive k p found same active =
      let (q, there, made) = retired_from k p found in ground (arith, ==-iff q.pipeline_id i)

  retire-IsSingle : IsSingle (update_all (λ k. retire_active i) d)
  retire-IsSingle = record {
    keyed = λ k p found.
        let (q, there, made) = retired_from k p found in ground (arith, h.keyed k q there);
    single = λ j k p r hp hr same pa ra.
        let (q, q_there, q_made) = retired_from j p hp in
        let (t, t_there, t_made) = retired_from k r hr in
        ground (arith, h.single j k q t q_there t_there);
  }

  keyed-retire_active :
      (k : PipelineKey)
      → lookup k (update_all (retire_keyed i) d) ≡ lookup k (update_all (λ k. retire_active i) d)
  keyed-retire_active k = elim (Option-cases (lookup k d)) [
    | inl missing ↦ ground (
      arith,
      lookup-update_all (retire_keyed i) k d,
      lookup-update_all (λ k. retire_active i) k d,
    )
    | inr (q, there) ↦ ground (
      arith,
      lookup-update_all (retire_keyed i) k d,
      lookup-update_all (λ k. retire_active i) k d,
      h.keyed k q there,
    )
  ]

-- To activate a version where the active one is retired first.
pub activate-IsSingle :
    (i v : String) (target : PipelineStatus) (p : PipelineDefinition)
    (d : Dict PipelineKey PipelineDefinition)
    → IsSingle d
    → lookup (i, v) d ≡ some p
    → IsSingle (insert (i, v) (record p { status = target }) (update_all (λ k. retire_active i) d))
activate-IsSingle i v target p d h found =
    subst
      (λ k.
        IsSingle (insert k (record p { status = target }) (update_all (λ k. retire_active i) d)))
      (h.keyed (i, v) p found)
      (active-IsSingle (update_all (λ k. retire_active i) d) (retire-IsSingle i d h)
        (record p { status = target })
        (subst (λ j. NoneActive j (update_all (λ k. retire_active i) d))
          (sym (ap (λ (k : PipelineKey). k.0) (h.keyed (i, v) p found))) (retire-NoneActive i d h)))

-- The single active version depends on what is looked up only.
IsSingle-lookup :
    (d e : Dict PipelineKey PipelineDefinition)
    → ((k : PipelineKey) → lookup k e ≡ lookup k d)
    → IsSingle d
    → IsSingle e
IsSingle-lookup d e same h = record {
  keyed = λ k p found. h.keyed k p (sym (same k) ∙ found);
  single = λ j k p q hp hq. h.single j k p q (sym (same j) ∙ hp) (sym (same k) ∙ hq);
}

-- A transition keeps at most one active version of each pipeline, whether it is answered or
-- refused.
pub transition_pipeline_definition-IsSingle :
    (i v : String) (target : PipelineStatus) (s : MemoryStateStore)
    → IsSingle s.pipelines
    → IsSingle (transition_pipeline_definition i v target s).0.pipelines
transition_pipeline_definition-IsSingle i v target s h =
    elim (Option-cases (lookup (i, v) s.pipelines)) [
      | inl missing ↦
          unfold transition_pipeline_definition in rw (missing, transition_pipeline_definition) h
      | inr (p, found) ↦ elim (Bool-cases (not (allows p.status target))) [
        | inl refused ↦
            unfold transition_pipeline_definition in
            rw (found, transition_pipeline_definition) (rw refused h)
        | inr allowed ↦ elim (Bool-cases (target == PipelineStatus.active)) [
          | inl up ↦
              unfold transition_pipeline_definition in
              rw (found, transition_pipeline_definition)
                (rw allowed (rw up (activate-IsSingle i v target p s.pipelines h found)))
          | inr down ↦
              unfold transition_pipeline_definition in
              rw (found, transition_pipeline_definition)
                (rw allowed (
                  rw down (
                    subst (λ k. IsSingle (insert k (record p { status = target }) s.pipelines))
                      (h.keyed (i, v) p found)
                      (inactive-IsSingle s.pipelines h (record p { status = target })
                        (ground (arith, status_eqb_iff target PipelineStatus.active))))))
        ]
      ]
    ]

keyed-NoneActive :
    (i : String) (d : Dict PipelineKey PipelineDefinition)
    → IsSingle d
    → NoneActive i (update_all (retire_keyed i) d)
keyed-NoneActive i d h k p found =
    retire-NoneActive i d h k p (sym (keyed-retire_active i d h k) ∙ found)

keyed-IsSingle :
    (i : String) (d : Dict PipelineKey PipelineDefinition)
    → IsSingle d
    → IsSingle (update_all (retire_keyed i) d)
keyed-IsSingle i d h =
    IsSingle-lookup (update_all (λ k. retire_active i) d) (update_all (retire_keyed i) d)
      (keyed-retire_active i d h) (retire-IsSingle i d h)

-- A registration keeps at most one active version of each pipeline, unless it registers an active
-- version anew with another definition.
pub register_pipeline_definition-IsSingle :
    (hash : PipelinePayload → String) (p : PipelineDefinition) (s : MemoryStateStore)
    → IsSingle s.pipelines
    → ((old : PipelineDefinition)
        → lookup (pipeline_key p) s.pipelines ≡ some old
        → p.status ≡ PipelineStatus.active
        → definition_sha256 hash old ≡ definition_sha256 hash p)
    → IsSingle (register_pipeline_definition hash p s).0.pipelines
register_pipeline_definition-IsSingle hash p s h unchanged =
    elim (Option-cases (lookup (pipeline_key p) s.pipelines)) [
      | inr (old, found) ↦
          unfold register_pipeline_definition in
          rw (found, register_pipeline_definition)
            (elim (Bool-cases (not (definition_sha256 hash old == definition_sha256 hash p))) [
              | inl differs ↦ rw differs (elim (Bool-cases (is_active p)) [
                | inl active ↦ absurd (
                    ground (
                      arith,
                      unchanged old found,
                      ==-iff (definition_sha256 hash old) (definition_sha256 hash p),
                    ))
                | inr idle ↦ rw idle h
              ])
              | inr same ↦ rw same h
            ])
      | inl new ↦
          unfold register_pipeline_definition in
          rw (new, register_pipeline_definition)
            (elim (Bool-cases (is_active p)) [
              | inl active ↦ rw active (
                  active-IsSingle (update_all (retire_keyed p.pipeline_id) s.pipelines)
                    (keyed-IsSingle p.pipeline_id s.pipelines h) p
                    (keyed-NoneActive p.pipeline_id s.pipelines h))
              | inr idle ↦ rw idle (
                  inactive-IsSingle s.pipelines h p
                    (ground (arith, status_eqb_iff p.status PipelineStatus.active)))
            ])
    ]

unequal : (a b : String) → a ≢ b → not (a == b) ≡ true
unequal a b h = ground (arith, ==-iff a b)

is_active-true : (p : PipelineDefinition) → p.status ≡ PipelineStatus.active → is_active p ≡ true
is_active-true p h = ground (arith, status_eqb_iff p.status PipelineStatus.active)

-- An active version that is registered anew with another definition, while another version of the
-- pipeline is active, replaces the old one without retiring the version that is active: both are
-- active then.
pub register_pipeline_definition-two_active :
    (hash : PipelinePayload → String) (p old q : PipelineDefinition) (k : PipelineKey)
    (s : MemoryStateStore)
    → lookup (pipeline_key p) s.pipelines ≡ some old
    → definition_sha256 hash old ≢ definition_sha256 hash p
    → p.status ≡ PipelineStatus.active
    → lookup k s.pipelines ≡ some q
    → q.status ≡ PipelineStatus.active
    → q.pipeline_id ≡ p.pipeline_id
    → pipeline_key p ≢ k
    → let s' = (register_pipeline_definition hash p s).0 in
      (lookup (pipeline_key p) s'.pipelines ≡ some p)
      × (lookup k s'.pipelines ≡ some q)
      × ¬ IsSingle s'.pipelines
register_pipeline_definition-two_active hash p old q k s found differs active there also same
      apart =
    unfold register_pipeline_definition in
    let here : lookup (pipeline_key p) (insert (pipeline_key p) p s.pipelines) ≡ some p =
      lookup-insert_self (pipeline_key p) p s.pipelines in
    let other : lookup k (insert (pipeline_key p) p s.pipelines) ≡ some q =
      lookup-insert_ne k (pipeline_key p) p s.pipelines apart ∙ there in
    rw (found, register_pipeline_definition)
      (rw (unequal (definition_sha256 hash old) (definition_sha256 hash p) differs) (
        rw (is_active-true p active) (
          here,
          other,
          λ h. apart (h.single (pipeline_key p) k p q here other (sym same) active also),
        )))
