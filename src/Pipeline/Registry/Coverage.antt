-- ===== src/Pipeline/Registry/Coverage.antt =====
-- The first loop of `PipelineRegistry._validate` of scenara/platform/pipeline.py gives every node the
-- dependencies that its inputs name.
use scenara.Prelude.{
  String, ◌≡◌, inl, inr, true, false, List, [], ◌∷◌, ◌++◌, string_eq, ==-iff, contains, All,
  Bool-cases, Option-cases, if◌then◌else◌, arith,
}
use scenara.Prelude.Dict.{Dict, lookup, values, lookup-insert}
use scenara.Pipeline.Definition.{OperatorDefinition, PipelineNode}
use scenara.Pipeline.Graph.{
  Checked-cases, valid, Links, Sets, set_of, add, is_media, source_node_of, link_inputs,
  link_outputs, fits_domain, link_nodes,
}
use scenara.Pipeline.Topology.{contains-append}

-- The dependencies hold the node of every input that is no medium.
abbrev pub Covers : Sets → String → List String → Type 0
Covers d node_id sources =
    All
      (λ source.
        is_media source ≡ false → contains (source_node_of source) (set_of node_id d) ≡ true)
      sources

abbrev pub CoversAll : Sets → List PipelineNode → Type 0
CoversAll d nodes = All (λ (n : PipelineNode). Covers d n.node_id (values n.inputs)) nodes

abbrev pub Grows : Sets → Sets → Type 0
Grows d d' = (k x : String) → contains x (set_of k d) ≡ true → contains x (set_of k d') ≡ true

add-Grows : (j y : String) (d : Sets) → Grows d (add j y d)
unfolding add
add-Grows j y d k x h = ground (
  arith,
  lookup-insert k j (if contains y (set_of j d) then set_of j d else set_of j d ++ y ∷ []) d,
  contains-append x (set_of j d) (y ∷ []),
  ==-iff j k,
)

add-contains : (j y : String) (d : Sets) → contains y (set_of j (add j y d)) ≡ true
unfolding add
add-contains j y d = ground (
  arith,
  lookup-insert j j (if contains y (set_of j d) then set_of j d else set_of j d ++ y ∷ []) d,
  contains-append y (set_of j d) (y ∷ []),
  ==-iff j j,
  ==-iff y y,
)

Grows-Covers :
    (d d' : Sets) (k : String) (sources : List String)
    → Grows d d'
    → Covers d k sources
    → Covers d' k sources
Grows-Covers d d' k [] grows h = tt
Grows-Covers d d' k (s ∷ sources) grows h =
    ((λ plain. grows k (source_node_of s) (h.0 plain)), Grows-Covers d d' k sources grows h.1)

link_inputs-Covers :
    (ids : List String) (k : String) (sources : List String) (l : Links) {l' : Links}
    → link_inputs ids k sources l ≡ valid l'
    → Grows l.dependencies l'.dependencies × Covers l'.dependencies k sources
unfolding link_inputs
link_inputs-Covers ids k [] l h = (λ j x there. ground (arith, h, there), tt)
link_inputs-Covers ids k (s ∷ sources) l {l'} h = elim (Bool-cases (is_media s)) [
  | inl media ↦
      let (grows, covered) = link_inputs-Covers ids k sources l {l' = l'} (ground arith) in
      (grows, ((λ plain. absurd (ground arith)), covered))
  | inr plain ↦ elim (Bool-cases (contains (source_node_of s) ids)) [
    | inr unknown ↦ absurd (ground arith)
    | inl known ↦
        let next = record l {
          dependencies = add k (source_node_of s) l.dependencies;
          children = add (source_node_of s) k l.children;
        } in
        let (grows, covered) = link_inputs-Covers ids k sources next {l' = l'} (ground arith) in
        (
          (λ j x there. grows j x (add-Grows k (source_node_of s) l.dependencies j x there)),
          (
            (λ u. grows k (source_node_of s) (add-contains k (source_node_of s) l.dependencies)),
            covered,
          ),
        )
  ]
]

Grows-CoversAll :
    (d d' : Sets) (nodes : List PipelineNode) → Grows d d' → CoversAll d nodes → CoversAll d' nodes
Grows-CoversAll d d' [] grows h = tt
Grows-CoversAll d d' (n ∷ nodes) grows h =
    (Grows-Covers d d' n.node_id (values n.inputs) grows h.0, Grows-CoversAll d d' nodes grows h.1)

pub link_nodes-Covers :
    (operators : Dict String OperatorDefinition) (domain : String) (ids : List String)
    (nodes : List PipelineNode) (l : Links) {l' : Links}
    → link_nodes operators domain ids nodes l ≡ valid l'
    → Grows l.dependencies l'.dependencies × CoversAll l'.dependencies nodes
unfolding link_nodes
link_nodes-Covers operators domain ids [] l h = (λ j x there. ground (arith, h, there), tt)
link_nodes-Covers operators domain ids (n ∷ nodes) l {l'} h =
    elim (Option-cases (lookup n.operator_id operators)) [
      | inl missing ↦ absurd (ground arith)
      | inr (o, found) ↦ elim (Bool-cases (fits_domain o.domain domain)) [
        | inr foreign ↦ absurd (ground arith)
        | inl fits ↦
            let start = record l {
              available_types = link_outputs n.node_id o.output_types l.available_types;
            } in
            elim (Checked-cases (link_inputs ids n.node_id (values n.inputs) start)) [
              | inl (m, refused) ↦ absurd (ground arith)
              | inr (next, linked) ↦
                  let (grows, covered) =
                    link_inputs-Covers ids n.node_id (values n.inputs) start {l' = next} linked in
                  let (later, rest) =
                    link_nodes-Covers operators domain ids nodes next {l' = l'} (ground arith) in
                  (
                    (λ j x there. later j x (grows j x there)),
                    (
                      Grows-Covers next.dependencies l'.dependencies n.node_id (values n.inputs)
                          later covered,
                      rest,
                    ),
                  )
            ]
      ]
    ]
