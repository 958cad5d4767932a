-- ===== src/Pipeline/Examples.antt =====
-- A concrete pipeline of two nodes on which the theorems on the registry apply.
use scenara.Prelude.{
  String, ◌≡◌, refl, Bool, true, false, none, some, List, [], ◌∷◌, ◌≤◌, All, contains, string_eq,
  length, arith,
}
use scenara.Prelude.Dict.{Dict, lookup, has_key, insert, any_entry}
use scenara.Prelude.Sort.{sort}
use scenara.Pipeline.Definition.{
  PipelineStatus, ResourceClass, FailurePolicy, OperatorDefinition, PipelineDefinition,
  PipelineNode, PipelinePayload,
}
use scenara.Pipeline.Graph.{
  valid, Links, add, discard, source_node_of, link_inputs, link_nodes, release, visit, ready_nodes,
}
use scenara.Pipeline.Counts.{occurrences}
use scenara.Pipeline.Registry.{
  nodes_of, keys_of, PipelineRegistry, check_inputs, check_contracts, order_of, validate,
  register_pipeline,
}
use scenara.Pipeline.Registry.Validation.{
  IsTopological, no_links, validate-IsTopological, order_of-ends,
}
use scenara.Pipeline.Registry.Active.{register_pipeline-IsSingle}
use scenara.Store.Pipelines.Active.{IsSingle}

abbrev decode : OperatorDefinition
decode = record {
  operator_id = "media.decode";
  version = "1.0.0";
  domain = none;
  input_types = ("data", "bytes") ∷ [];
  output_types = ("image", "image") ∷ [];
  timeout_seconds = 30;
  resource_class = ResourceClass.cpu;
  resource_budget = [];
  batchable = false;
  max_batch_size = 1;
  failure_policy = FailurePolicy.fail;
  max_attempts = 1;
}

abbrev read : OperatorDefinition
read = record decode {
  operator_id = "ocr.read";
  domain = some "ocr";
  input_types = ("image", "image") ∷ [];
  output_types = ("text", "text") ∷ [];
}

abbrev operators : Dict String OperatorDefinition
operators = ("media.decode", decode) ∷ ("ocr.read", read) ∷ []

-- The node that reads stands first, but runs second.
abbrev ocr : PipelineDefinition
ocr = record {
  pipeline_id = "ocr";
  version = "1.0.0";
  domain = "ocr";
  status = PipelineStatus.active;
  nodes =
      record {
        node_id = "read";
        operator_id = "ocr.read";
        inputs = ("image", "decode.image") ∷ [];
        parameters = [];
      }
      ∷ record {
        node_id = "decode";
        operator_id = "media.decode";
        inputs = ("data", "$media.bytes") ∷ [];
        parameters = [];
      }
      ∷ [];
  output = "read.text";
  allowed_parameters = [];
  parameter_schema = [];
  pausable = false;
}

abbrev fullmatch : String → String → Bool
fullmatch pattern text = true

abbrev digest : PipelinePayload → String
digest p = p.output

accepted : validate fullmatch operators ocr ≡ valid ("decode" ∷ "read" ∷ [])
unfolding validate check_contracts check_inputs link_nodes link_inputs source_node_of add insert
    lookup visit release discard sort has_key any_entry
accepted = refl

validate-IsTopological_example :
    (length {A = String} ("decode" ∷ "read" ∷ []) ≡ length ocr.nodes)
    × All (λ (n : PipelineNode). contains n.node_id ("decode" ∷ "read" ∷ []) ≡ true) ocr.nodes
    × IsTopological ocr.nodes [] ("decode" ∷ "read" ∷ [])
validate-IsTopological_example = validate-IsTopological fullmatch operators ocr accepted

-- Two nodes that need each other: they are linked, and the order stays empty.
abbrev cycle : List PipelineNode
cycle =
    record {
      node_id = "one";
      operator_id = "ocr.read";
      inputs = ("image", "two.text") ∷ [];
      parameters = [];
    }
    ∷ record {
      node_id = "two";
      operator_id = "ocr.read";
      inputs = ("image", "one.text") ∷ [];
      parameters = [];
    }
    ∷ []

abbrev links : Links
links = record {
  dependencies = ("one", "two" ∷ []) ∷ ("two", "one" ∷ []) ∷ [];
  children = ("two", "one" ∷ []) ∷ ("one", "two" ∷ []) ∷ [];
  available_types =
      ("$media.bytes", "bytes")
      ∷ ("$media.input", "media/input")
      ∷ ("one.text", "text")
      ∷ ("two.text", "text")
      ∷ [];
}

cycle_linked : link_nodes operators "ocr" (keys_of (nodes_of cycle [])) cycle no_links ≡ valid links
unfolding link_nodes link_inputs source_node_of add insert lookup
cycle_linked = refl

order_of-ends_example :
    ((x : String) → occurrences x (order_of ("one" ∷ "two" ∷ []) links) ≤ 1)
    × (length (order_of ("one" ∷ "two" ∷ []) links) ≤ 2)
    × (visit 10 links.children links.dependencies
          (ready_nodes ("one" ∷ "two" ∷ []) links.dependencies)
          []
        ≡ order_of ("one" ∷ "two" ∷ []) links)
unfolding insert
order_of-ends_example = order_of-ends operators "ocr" cycle 10 cycle_linked (omega arith)

abbrev empty : PipelineRegistry
empty = record { operators = operators; pipelines = []; orders = []; digests = [] }

empty-IsSingle : IsSingle empty.pipelines
unfolding lookup
empty-IsSingle = record {
  keyed = λ k p h. ground arith;
  single = λ j k p q hp hq same pa qa. ground arith;
}

abbrev registered : PipelineRegistry
registered = (register_pipeline fullmatch digest ocr empty).0

registered-IsSingle : IsSingle registered.pipelines
registered-IsSingle = register_pipeline-IsSingle fullmatch digest ocr empty empty-IsSingle

register_pipeline-IsSingle_example :
    IsSingle
      (register_pipeline fullmatch digest (record ocr { version = "2.0.0" }) registered).0.pipelines
register_pipeline-IsSingle_example =
    register_pipeline-IsSingle fullmatch digest (record ocr { version = "2.0.0" }) registered
      registered-IsSingle
