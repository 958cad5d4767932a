-- ===== src/Pipeline/Graph.antt =====
-- The node graph of a pipeline: `PipelineRegistry._validate` of scenara/platform/pipeline.py. A set
-- is a list without repetition; a `defaultdict` of sets gives the empty set for a missing key.
-- `fullmatch` stands for `re.fullmatch` on a pattern and a text.
use scenara.Prelude.{
  ◌≡◌, ◌⊎◌, inl, inr, refl, String, ℕ, zero, suc, Bool, true, false, not, Option, none, some, List,
  [], ◌∷◌, ◌++◌, ◌==◌, string_eq, option_eq, contains, filter, if◌then◌else◌,
}
use Prim.Native.String.{◌++◌ as append}
use text.Mathlib.Text.{starts_with, find?, get?}
use scenara.Prelude.Dict.{Dict, lookup, insert, values}
use scenara.Prelude.Sort.{sort, str_ltb}
use scenara.Pipeline.Definition.{OperatorDefinition, PipelineNode}

-- A value, or the message of a `PipelineError`.
pub data Checked {ℓ} (A : Type ℓ) : Type ℓ where
  valid : A → Checked A
  pipeline_error : String → Checked A

pub Checked-cases {ℓ} :
    {A : Type ℓ} (c : Checked A)
    → ((m : String) × (c ≡ pipeline_error m)) ⊎ ((a : A) × (c ≡ valid a))
Checked-cases (valid a) = inr (a, refl)
Checked-cases (pipeline_error m) = inl (m, refl)

-- A `defaultdict(set)`.
abbrev pub Sets : Type 0
Sets = Dict String (List String)

abbrev pub set_of : String → Sets → List String
set_of k d = elim (lookup k d) [ none ↦ [] | some xs ↦ xs ]

unfoldable pub add : String → String → Sets → Sets
add k x d = insert k (if contains x (set_of k d) then set_of k d else set_of k d ++ x ∷ []) d

unfoldable pub discard : String → String → Sets → Sets
discard k x d = insert k (filter (λ y. not (y == x)) (set_of k d)) d

-- `source.split(".", 1)[0]`
unfoldable pub source_node_of : String → String
source_node_of source = elim (find? source ".") [
  | none ↦ source
  | some i ↦ elim (get? source 0 i) [ none ↦ source | some front ↦ front ]
]

abbrev pub is_media : String → Bool
is_media source = starts_with source "$media."

-- The variables of the first loop.
pub record Links : Type 0 where
  pub dependencies : Sets
  pub children : Sets
  pub available_types : Dict String String

-- The loop over the inputs of a node.
unfoldable pub link_inputs : List String → String → List String → Links → Checked Links
link_inputs node_ids node_id [] l = valid l
link_inputs node_ids node_id (source ∷ rest) l =
    let source_node = source_node_of source in
    let skipped = link_inputs node_ids node_id rest l in
    let linked = link_inputs node_ids node_id rest (record l {
      dependencies = add node_id source_node l.dependencies;
      children = add source_node node_id l.children;
    }) in
    if is_media source
    then skipped
    else if not (contains source_node node_ids)
    then pipeline_error (append "unknown input source: " source)
    else linked

-- The loop over the outputs of an operator.
abbrev pub link_outputs : String → Dict String String → Dict String String → Dict String String
link_outputs node_id [] available = available
link_outputs node_id ((output_name, output_type) ∷ rest) available =
    link_outputs node_id rest
      (insert (append node_id (append "." output_name)) output_type available)

abbrev pub fits_domain : Option String → String → Bool
fits_domain none domain = true
fits_domain (some d) domain = d == domain

-- The first loop over the nodes.
unfoldable pub link_nodes :
    Dict String OperatorDefinition
    → String
    → List String
    → List PipelineNode
    → Links
    → Checked Links
link_nodes operators domain node_ids [] l = valid l
link_nodes operators domain node_ids (node ∷ rest) l = elim (lookup node.operator_id operators) [
  | none ↦ pipeline_error (append "unknown operator: " node.operator_id)
  | some operator ↦
      if not (fits_domain operator.domain domain)
      then pipeline_error (append "operator domain mismatch: " node.operator_id)
      else elim (link_inputs node_ids node.node_id (values node.inputs) (record l {
        available_types = link_outputs node.node_id operator.output_types l.available_types;
      })) [
        | pipeline_error m ↦ pipeline_error m
        | valid l' ↦ link_nodes operators domain node_ids rest l'
      ]
]

abbrev pub is_empty {ℓ} : {A : Type ℓ} → List A → Bool
is_empty [] = true
is_empty (x ∷ xs) = false

-- The loop over the children of the node that is taken from the queue.
unfoldable pub release : String → List String → Sets → List String → Sets × List String
release current [] dependencies queue = (dependencies, queue)
release current (child ∷ rest) dependencies queue =
    let left = discard child current dependencies in
    release current rest left (if is_empty (set_of child left) then queue ++ child ∷ [] else queue)

-- The loop over the queue, on fuel.
unfoldable pub visit : ℕ → Sets → Sets → List String → List String → List String
visit zero children dependencies queue order = order
visit (suc fuel) children dependencies [] order = order
visit (suc fuel) children dependencies (current ∷ queue) order =
    let (left, waiting) =
      release current (sort str_ltb (set_of current children)) dependencies queue in
    visit fuel children left waiting (order ++ current ∷ [])

abbrev pub ready_nodes : List String → Sets → List String
ready_nodes node_ids dependencies =
    sort str_ltb (filter (λ n. is_empty (set_of n dependencies)) node_ids)
