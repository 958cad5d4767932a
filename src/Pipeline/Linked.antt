-- ===== src/Pipeline/Linked.antt =====
-- What the first loop of `PipelineRegistry._validate` of scenara/platform/pipeline.py makes of the nodes:
-- the children of a node are the nodes that need it, each of them once.
use scenara.Prelude.{
  String, ◌≤◌, ◌≡◌, refl, ◌∙◌, subst, inl, inr, true, ◌&&◌, ◌||◌, List, [], ◌∷◌, ◌++◌, ◌==◌,
  string_eq, ==-iff, contains, All, Bool-cases, Option-cases, if◌then◌else◌, arith,
}
use scenara.Prelude.Dict.{
  Dict, lookup, has_key, insert, values, lookup-insert, has_key-insert, IsUnique, insert-IsUnique,
}
use scenara.Pipeline.Definition.{OperatorDefinition, PipelineNode}
use scenara.Pipeline.Graph.{
  Checked-cases, valid, Links, Sets, set_of, add, is_media, source_node_of, link_inputs,
  link_outputs, fits_domain, link_nodes,
}
use scenara.Pipeline.Registry.{nodes_of, keys_of}
use scenara.Pipeline.Topology.{contains-append}
use scenara.Pipeline.Counts.{occurrences, occurrences-append, occurrences-none}

contains-add :
    (j y : String) (d : Sets) (k x : String)
    → contains x (set_of k (add j y d)) ≡ (contains x (set_of k d) || (j == k && x == y))
unfolding add
contains-add j y d k x = ground (
  arith,
  lookup-insert k j (if contains y (set_of j d) then set_of j d else set_of j d ++ y ∷ []) d,
  contains-append x (set_of j d) (y ∷ []),
  ==-iff j k,
  ==-iff x y,
)

-- A set holds nothing twice.
IsSets : Sets → Type 0
IsSets d = (k x : String) → occurrences x (set_of k d) ≤ 1

add-IsSets : (j y : String) (d : Sets) → IsSets d → IsSets (add j y d)
unfolding add occurrences IsSets
add-IsSets j y d h k x = elim (Bool-cases (contains y (set_of j d))) [
  | inl there ↦
      rw there (ground (arith, lookup-insert k j (set_of j d) d, ==-iff j k, h k x, h j x))
  | inr absent ↦ rw absent (
      ground (
        arith,
        lookup-insert k j (set_of j d ++ y ∷ []) d,
        ==-iff j k,
        ==-iff y x,
        h k x,
        h j x,
        occurrences-append x (set_of j d) (y ∷ []),
        occurrences-none y (set_of j d) absent,
      ))
]

module _ (ids : List String) where
  -- The children of a node are nodes that need it, each of them once.
  pub record AreLinked (l : Links) : Type 0 where
    pub linked :
        (s x : String)
        → contains x (set_of s l.children) ≡ true
        → (contains s (set_of x l.dependencies) ≡ true) × (contains x ids ≡ true)
    pub alone : (s x : String) → occurrences x (set_of s l.children) ≤ 1

  link_inputs-AreLinked :
      (k : String) (sources : List String) (l : Links) {l' : Links}
      → contains k ids ≡ true
      → link_inputs ids k sources l ≡ valid l'
      → AreLinked l
      → AreLinked l'
  unfolding link_inputs IsSets
  link_inputs-AreLinked k [] l {l'} known h all =
      let same : l ≡ l' = ground (arith, h) in subst AreLinked same all
  link_inputs-AreLinked k (s ∷ sources) l {l'} known h all = elim (Bool-cases (is_media s)) [
    | inl media ↦ link_inputs-AreLinked k sources l {l' = l'} known (ground arith) all
    | inr plain ↦ elim (Bool-cases (contains (source_node_of s) ids)) [
      | inr unknown ↦ absurd (ground arith)
      | inl there ↦
          let source = source_node_of s in
          let next = record l {
            dependencies = add k source l.dependencies;
            children = add source k l.children;
          } in
          link_inputs-AreLinked k sources next {l' = l'} known (ground arith) (record {
            linked = λ j x child. ground (
              arith,
              child,
              known,
              contains-add source k l.children j x,
              contains-add k source l.dependencies x j,
              all.linked j x,
              ==-iff source j,
              ==-iff j source,
              ==-iff x k,
              ==-iff k x,
            );
            alone = add-IsSets source k l.children all.alone;
          })
    ]
  ]

  pub link_nodes-AreLinked :
      (operators : Dict String OperatorDefinition) (domain : String) (nodes : List PipelineNode)
      (l : Links) {l' : Links}
      → All (λ (n : PipelineNode). contains n.node_id ids ≡ true) nodes
      → link_nodes operators domain ids nodes l ≡ valid l'
      → AreLinked l
      → AreLinked l'
  unfolding link_nodes
  link_nodes-AreLinked operators domain [] l {l'} known h all =
      let same : l ≡ l' = ground (arith, h) in subst AreLinked same all
  link_nodes-AreLinked operators domain (n ∷ nodes) l {l'} known h all =
      elim (Option-cases (lookup n.operator_id operators)) [
        | inl missing ↦ absurd (ground arith)
        | inr (o, found) ↦ elim (Bool-cases (fits_domain o.domain domain)) [
          | inr foreign ↦ absurd (ground arith)
          | inl fits ↦
              let start = record l {
                available_types = link_outputs n.node_id o.output_types l.available_types;
              } in
              elim (Checked-cases (link_inputs ids n.node_id (values n.inputs) start)) [
                | inl (m, refused) ↦ absurd (ground arith)
                | inr (next, linked) ↦
                    link_nodes-AreLinked operators domain nodes next {l' = l'} known.1
                      (ground arith)
                      (link_inputs-AreLinked n.node_id (values n.inputs) start {l' = next} known.0
                        linked (record { linked = all.linked; alone = all.alone }))
              ]
        ]
      ]

contains-keys_of :
    (k : String) (d : Dict String PipelineNode) → contains k (keys_of d) ≡ has_key k d
unfolding has_key
contains-keys_of k [] = refl
contains-keys_of k ((j, n) ∷ d) = ground (arith, contains-keys_of k d, ==-iff j k, ==-iff k j)

occurrences-keys_of :
    (k : String) (d : Dict String PipelineNode) → IsUnique d → occurrences k (keys_of d) ≤ 1
unfolding occurrences
occurrences-keys_of k [] u = omega arith
occurrences-keys_of k ((j, n) ∷ d) u = ground (
  arith,
  occurrences-keys_of k d u.1,
  u.0,
  contains-keys_of j d,
  occurrences-none j (keys_of d),
  ==-iff j k,
)

nodes_of-IsUnique :
    (nodes : List PipelineNode) (d : Dict String PipelineNode)
    → IsUnique d
    → IsUnique (nodes_of nodes d)
nodes_of-IsUnique [] d u = u
nodes_of-IsUnique (n ∷ nodes) d u =
    nodes_of-IsUnique nodes (insert n.node_id n d) (insert-IsUnique n.node_id n d u)

-- The identifiers of the nodes differ.
pub node_ids_differ :
    (nodes : List PipelineNode) (x : String) → occurrences x (keys_of (nodes_of nodes [])) ≤ 1
node_ids_differ nodes x = occurrences-keys_of x (nodes_of nodes []) (nodes_of-IsUnique nodes [] tt)

nodes_of-keeps :
    (nodes : List PipelineNode) (d : Dict String PipelineNode) (k : String)
    → has_key k d ≡ true
    → has_key k (nodes_of nodes d) ≡ true
nodes_of-keeps [] d k h = h
nodes_of-keeps (n ∷ nodes) d k h =
    nodes_of-keeps nodes (insert n.node_id n d) k
      (ground (arith, has_key-insert k n.node_id n d, h))

nodes_of-All :
    (nodes : List PipelineNode) (d : Dict String PipelineNode)
    → All (λ (n : PipelineNode). contains n.node_id (keys_of (nodes_of nodes d)) ≡ true) nodes
nodes_of-All [] d = tt
nodes_of-All (n ∷ nodes) d = (
  contains-keys_of n.node_id (nodes_of nodes (insert n.node_id n d))
      ∙ nodes_of-keeps nodes (insert n.node_id n d) n.node_id
          (ground (arith, has_key-insert n.node_id n.node_id n d, ==-iff n.node_id n.node_id)),
  nodes_of-All nodes (insert n.node_id n d),
)

-- Every node is among the identifiers.
pub node_ids_known :
    (nodes : List PipelineNode)
    → All (λ (n : PipelineNode). contains n.node_id (keys_of (nodes_of nodes [])) ≡ true) nodes
node_ids_known nodes = nodes_of-All nodes []
