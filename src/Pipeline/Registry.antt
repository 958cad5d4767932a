-- ===== src/Pipeline/Registry.antt =====
-- `PipelineRegistry` of scenara/platform/pipeline.py, less the execution of operators. An operator is
-- its definition. `hash` is the digest of a payload, `fullmatch` is `re.fullmatch`. A version that is
-- registered has a digest; a missing one, which the source would meet with a `KeyError`, counts as
-- another digest.
pub mod Coverage
pub mod Validation
pub mod Active
use scenara.Prelude.{
  String, ℕ, zero, suc, Bool, true, false, not, ◌&&◌, ◌||◌, Option, none, some, List, [], ◌∷◌, ◌==◌,
  string_eq, pair_eq, option_eq, contains, filter, ltb, nat_eqb, any, length, if◌then◌else◌, map,
}
use Prim.Native.String.{◌++◌ as append}
use scenara.Prelude.Dict.{Dict, lookup, has_key, insert, values, update_all, any_entry}
use scenara.Prelude.Sort.{sort, str_ltb}
use scenara.Models.{Json, JsonObject}
use scenara.Pipeline.Definition.{
  PipelineStatus, status_eq, OperatorDefinition, PipelineNode, PipelineDefinition, PipelinePayload,
  definition_sha256, allows,
}
use scenara.Pipeline.Graph.{
  Checked, valid, pipeline_error, Links, link_nodes, visit, is_empty, ready_nodes,
}

-- `f"{pipeline_id}@{version}"`
abbrev at_version : String → String → String
at_version pipeline_id version = append pipeline_id (append "@" version)

-- `status.value`
abbrev status_value : PipelineStatus → String
status_value PipelineStatus.draft = "draft"
status_value PipelineStatus.validated = "validated"
status_value PipelineStatus.approved = "approved"
status_value PipelineStatus.active = "active"
status_value PipelineStatus.retired = "retired"

-- `", ".join(texts)`
abbrev join : List String → String
join [] = ""
join (x ∷ []) = x
join (x ∷ y ∷ xs) = append x (append ", " (join (y ∷ xs)))

pub record PipelineRegistry : Type 0 where
  pub operators : Dict String OperatorDefinition
  pub pipelines : Dict (String × String) PipelineDefinition
  pub orders : Dict (String × String) (List String)
  pub digests : Dict (String × String) String

unfoldable pub register_operator :
    OperatorDefinition → PipelineRegistry → PipelineRegistry × Checked (Unit {0})
register_operator definition r =
    if has_key definition.operator_id r.operators
    then (r, pipeline_error (append "operator already registered: " definition.operator_id))
    else (record r { operators = insert definition.operator_id definition r.operators }, valid tt)

-- `{node.node_id: node for node in pipeline.nodes}`
abbrev pub nodes_of : List PipelineNode → Dict String PipelineNode → Dict String PipelineNode
nodes_of [] d = d
nodes_of (node ∷ rest) d = nodes_of rest (insert node.node_id node d)

abbrev pub keys_of {ℓ κ} : {K : Type ℓ} {V : Type κ} → Dict K V → List K
keys_of [] = []
keys_of ((k, v) ∷ d) = k ∷ keys_of d

abbrev pub is_subset : List String → List String → Bool
is_subset xs ys = not (any (λ x. not (contains x ys)) xs)

-- The text of a type, `source_type or 'unknown'`.
abbrev type_text : Option String → String
type_text none = "unknown"
type_text (some t) = if t == "" then "unknown" else t

abbrev mismatch : String → String → String → String → String
mismatch node_id input_name expected received = append "type mismatch for " (
    append node_id (
      append "." (
        append input_name
          (append ": expected " (append expected (append ", received " received))))))

-- The loop over the inputs of a node, against the types that its operator declares.
unfoldable pub check_inputs :
    String → Dict String String → Dict String String → Dict String String → Checked (Unit {0})
check_inputs node_id input_types available_types [] = valid tt
check_inputs node_id input_types available_types ((input_name, source) ∷ rest) =
    let rest = check_inputs node_id input_types available_types rest in
    if not (lookup source available_types == lookup input_name input_types)
    then pipeline_error (
        mismatch node_id input_name
          (elim (lookup input_name input_types) [ none ↦ "" | some t ↦ t ])
          (type_text (lookup source available_types)))
    else rest

-- The second loop over the nodes.
unfoldable pub check_contracts :
    Dict String OperatorDefinition → Dict String String → List PipelineNode → Checked (Unit {0})
check_contracts operators available_types [] = valid tt
check_contracts operators available_types (node ∷ rest) = elim (lookup node.operator_id operators) [
  | none ↦ pipeline_error (append "unknown operator: " node.operator_id)
  | some definition ↦
      if not (
        is_subset (keys_of node.inputs) (keys_of definition.input_types)
        && is_subset (keys_of definition.input_types) (keys_of node.inputs))
      then pipeline_error (append "operator inputs do not match contract: " node.operator_id)
      else elim (check_inputs node.node_id definition.input_types available_types node.inputs) [
        | pipeline_error m ↦ pipeline_error m
        | valid u ↦ check_contracts operators available_types rest
      ]
]

-- The order that `_validate` finds in the linked graph, on fuel that is one more than the number of
-- nodes.
abbrev pub order_of : List String → Links → List String
order_of node_ids l =
    visit (suc (length node_ids)) l.children l.dependencies (ready_nodes node_ids l.dependencies) []

unfoldable pub validate :
    (String → String → Bool)
    → Dict String OperatorDefinition
    → PipelineDefinition
    → Checked (List String)
validate fullmatch operators p =
    let node_ids = keys_of (nodes_of p.nodes []) in
    if not (fullmatch "[a-z][a-z0-9_.-]{1,127}" p.pipeline_id)
    then pipeline_error "invalid pipeline_id"
    else if not (fullmatch "\\d+\\.\\d+\\.\\d+(?:-[a-z0-9.-]+)?" p.version)
    then pipeline_error "pipeline version must be semantic"
    else if is_empty p.nodes || ltb 64 (length p.nodes)
    then pipeline_error "pipeline must contain 1-64 nodes"
    else if not (nat_eqb (length node_ids) (length p.nodes))
    then pipeline_error "pipeline node_id values must be unique"
    else elim (link_nodes operators p.domain node_ids p.nodes (record {
      dependencies = [];
      children = [];
      available_types = ("$media.bytes", "bytes") ∷ ("$media.input", "media/input") ∷ [];
    })) [
      | pipeline_error m ↦ pipeline_error m
      | valid l ↦
          if any_entry (λ k items. ltb 16 (length items)) l.children
          then pipeline_error "pipeline fan-out exceeds 16"
          else if not (nat_eqb (length (order_of node_ids l)) (length node_ids))
          then pipeline_error "pipeline contains a cycle"
          else elim (check_contracts operators l.available_types p.nodes) [
            | pipeline_error m ↦ pipeline_error m
            | valid u ↦
                if not (has_key p.output l.available_types)
                then pipeline_error "pipeline output reference is invalid"
                else valid (order_of node_ids l)
          ]
    ]

abbrev pub is_active_of : String → PipelineDefinition → Bool
is_active_of pipeline_id p = (p.pipeline_id == pipeline_id) && (p.status == PipelineStatus.active)

unfoldable pub register_pipeline :
    (String → String → Bool)
    → (PipelinePayload → String)
    → PipelineDefinition
    → PipelineRegistry
    → PipelineRegistry × Checked (Unit {0})
register_pipeline fullmatch hash p r =
    let key : String × String = (p.pipeline_id, p.version) in
    if has_key key r.pipelines
    then (
      r,
      pipeline_error (append "pipeline already registered: " (at_version p.pipeline_id p.version)),
    )
    else if (p.status == PipelineStatus.active)
        && any_entry (λ k item. is_active_of p.pipeline_id item) r.pipelines
    then (r, pipeline_error (append "pipeline already has an active version: " p.pipeline_id))
    else elim (validate fullmatch r.operators p) [
      | pipeline_error m ↦ (r, pipeline_error m)
      | valid order ↦ (
        record r {
          orders = insert key order r.orders;
          pipelines = insert key p r.pipelines;
          digests = insert key (definition_sha256 hash p) r.digests;
        },
        valid tt,
      )
    ]

unfoldable pub pipeline : String → String → Bool → PipelineRegistry → Checked PipelineDefinition
pipeline pipeline_id version active_only r = elim (lookup (pipeline_id, version) r.pipelines) [
  | none ↦ pipeline_error (append "pipeline not found: " (at_version pipeline_id version))
  | some p ↦
      if active_only && not (p.status == PipelineStatus.active)
      then pipeline_error (append "pipeline is not active: " (at_version pipeline_id version))
      else valid p
]

unfoldable pub pipelines : PipelineRegistry → List PipelineDefinition
pipelines r = values r.pipelines

unfoldable pub transition :
    (PipelinePayload → String)
    → String
    → String
    → PipelineStatus
    → PipelineRegistry
    → PipelineRegistry × Checked PipelineDefinition
transition hash pipeline_id version target r =
    let key : String × String = (pipeline_id, version) in
    elim (lookup key r.pipelines) [
      | none ↦ (r, pipeline_error (append "pipeline not found: " (at_version pipeline_id version)))
      | some p ↦
          if not (allows p.status target)
          then (
            r,
            pipeline_error (
                append "invalid pipeline transition: "
                  (append (status_value p.status) (append " -> " (status_value target)))),
          )
          else if not (some (definition_sha256 hash p) == lookup key r.digests)
          then (r, pipeline_error "pipeline definition was mutated after registration")
          else let others =
              if target == PipelineStatus.active
              then update_all
                  (λ k other.
                    if is_active_of pipeline_id other
                    then record other { status = PipelineStatus.retired }
                    else other)
                  r.pipelines
              else r.pipelines in
            let updated = record p { status = target } in
            (record r { pipelines = insert key updated others }, valid updated)
    ]

unfoldable pub validate_run_parameters : PipelineDefinition → JsonObject → Checked (Unit {0})
validate_run_parameters p parameters =
    let unexpected =
      sort str_ltb (filter (λ x. not (contains x p.allowed_parameters)) (keys_of parameters)) in
    if is_empty unexpected
    then valid tt
    else pipeline_error (append "unsupported pipeline parameters: " (join unexpected))
