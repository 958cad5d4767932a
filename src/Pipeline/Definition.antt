-- ===== src/Pipeline/Definition.antt =====
-- The definitions of operators and pipelines of scenara/platform/pipeline.py. A set is a list of
-- which only membership is asked. `hash` stands for SHA-256 over the canonical JSON of a payload,
-- which hashlib and json compute.
use scenara.Prelude.{String, ℕ, Bool, Option, List, true, false, Eq, nat_eq, ◌↔◌, ◌≡◌, arith}
use scenara.Prelude.Dict.{Dict}
use scenara.Models.{Float, Json, JsonObject}

pub data PipelineStatus : Type 0 where
  draft validated approved active retired : PipelineStatus

abbrev pub status_eqb : PipelineStatus → PipelineStatus → Bool
status_eqb PipelineStatus.draft PipelineStatus.draft = true
status_eqb PipelineStatus.validated PipelineStatus.validated = true
status_eqb PipelineStatus.approved PipelineStatus.approved = true
status_eqb PipelineStatus.active PipelineStatus.active = true
status_eqb PipelineStatus.retired PipelineStatus.retired = true
status_eqb _ _ = false

pub status_eqb_iff : (a b : PipelineStatus) → (status_eqb a b ≡ true) ↔ (a ≡ b)
status_eqb_iff a b = ground arith

instance abbrev pub status_eq : Eq PipelineStatus
status_eq = record { test = status_eqb; decides = status_eqb_iff }

pub data FailurePolicy : Type 0 where
  fail retry : FailurePolicy

pub data ResourceClass : Type 0 where
  cpu gpu io : ResourceClass

pub record OperatorDefinition : Type 0 where
  pub operator_id : String
  pub version : String
  pub domain : Option String
  pub input_types : Dict String String
  pub output_types : Dict String String
  pub timeout_seconds : Float
  pub resource_class : ResourceClass
  pub resource_budget : Dict String Float
  pub batchable : Bool
  pub max_batch_size : ℕ
  pub failure_policy : FailurePolicy
  pub max_attempts : ℕ

pub record PipelineNode : Type 0 where
  pub node_id : String
  pub operator_id : String
  pub inputs : Dict String String
  pub parameters : JsonObject

pub data Control : Type 0 where
  boolean integer number select text : Control

pub record PipelineParameterDefinition : Type 0 where
  pub label : String
  pub control : Control
  pub default : Json
  pub minimum : Option Float
  pub maximum : Option Float
  pub step : Option Float
  pub options : List String
  pub placeholder : Option String
  pub advanced : Bool
  pub media_kinds : List String
  pub description : Option String

-- What the digest of a definition covers: all but the status.
pub record PipelinePayload : Type 0 where
  pub pipeline_id : String
  pub version : String
  pub domain : String
  pub nodes : List PipelineNode
  pub output : String
  pub allowed_parameters : List String
  pub parameter_schema : Dict String PipelineParameterDefinition
  pub pausable : Bool

pub record PipelineDefinition : Type 0 where
  pub pipeline_id : String
  pub version : String
  pub domain : String
  pub status : PipelineStatus
  pub nodes : List PipelineNode
  pub output : String
  pub allowed_parameters : List String
  pub parameter_schema : Dict String PipelineParameterDefinition
  pub pausable : Bool

abbrev pub payload : PipelineDefinition → PipelinePayload
payload p = record {
  pipeline_id = p.pipeline_id;
  version = p.version;
  domain = p.domain;
  nodes = p.nodes;
  output = p.output;
  allowed_parameters = p.allowed_parameters;
  parameter_schema = p.parameter_schema;
  pausable = p.pausable;
}

abbrev pub definition_sha256 : (PipelinePayload → String) → PipelineDefinition → String
definition_sha256 hash p = hash (payload p)

-- The status may move along an edge of the life cycle; `allowed[status]` in the source.
unfoldable pub allows : PipelineStatus → PipelineStatus → Bool
allows PipelineStatus.draft PipelineStatus.validated = true
allows PipelineStatus.validated PipelineStatus.approved = true
allows PipelineStatus.validated PipelineStatus.draft = true
allows PipelineStatus.approved PipelineStatus.active = true
allows PipelineStatus.approved PipelineStatus.draft = true
allows PipelineStatus.active PipelineStatus.retired = true
allows _ _ = false
