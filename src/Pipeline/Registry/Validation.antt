-- ===== src/Pipeline/Registry/Validation.antt =====
-- `PipelineRegistry._validate` of scenara/platform/pipeline.py, as a whole.
use scenara.Prelude.{
  String, ℕ, suc, ◌<◌, ◌≤◌, ◌≡◌, ◌∙◌, ◌==◌, sym, subst, inl, inr, Bool, true, false, List, [], ◌∷◌,
  ◌++◌, string_eq, ==-iff, contains, filter, length, All, Bool-cases, arith,
}
use scenara.Prelude.Dict.{Dict, lookup, values}
use scenara.Prelude.Sort.{str_ltb, All-sort, contains-sort}
use scenara.Pipeline.Definition.{OperatorDefinition, PipelineNode, PipelineDefinition}
use scenara.Pipeline.Graph.{
  Checked-cases, valid, Links, Sets, set_of, is_media, source_node_of, link_nodes, is_empty,
  ready_nodes, visit,
}
use scenara.Pipeline.Registry.{nodes_of, keys_of, order_of, validate}
use scenara.Pipeline.Counts.{occurrences, occurrences-filter, FitsIn, length-FitsIn, FitsIn-full}
use scenara.Pipeline.Visits.{IsTaken, occurrences-sort, visit-FitsIn}
use scenara.Pipeline.Linked.{AreLinked, link_nodes-AreLinked, node_ids_differ, node_ids_known}
use scenara.Pipeline.Topology.{is_empty-true, IsOrdered, visit-IsOrdered, visit-more}
use scenara.Pipeline.Registry.Coverage.{Covers, CoversAll, link_nodes-Covers}

-- Each node of the order comes after the nodes that its inputs name; those of `seen` come before.
abbrev pub IsTopological : List PipelineNode → List String → List String → Type 0
IsTopological nodes seen [] = Unit
IsTopological nodes seen (i ∷ order) =
    All
      (λ (n : PipelineNode).
        n.node_id ≡ i
        → All (λ source. is_media source ≡ false → contains (source_node_of source) seen ≡ true)
            (values n.inputs))
      nodes
    × IsTopological nodes (seen ++ i ∷ []) order

inputs_before :
    (d : Sets) (k : String) (seen sources : List String)
    → ((x : String) → contains x (set_of k d) ≡ true → contains x seen ≡ true)
    → Covers d k sources
    → All (λ source. is_media source ≡ false → contains (source_node_of source) seen ≡ true) sources
inputs_before d k seen [] before h = tt
inputs_before d k seen (s ∷ sources) before h =
    ((λ plain. before (source_node_of s) (h.0 plain)), inputs_before d k seen sources before h.1)

nodes_before :
    (d : Sets) (i : String) (seen : List String) (nodes : List PipelineNode)
    → ((x : String) → contains x (set_of i d) ≡ true → contains x seen ≡ true)
    → CoversAll d nodes
    → All
        (λ (n : PipelineNode).
          n.node_id ≡ i
          → All
              (λ source. is_media source ≡ false → contains (source_node_of source) seen ≡ true)
              (values n.inputs))
        nodes
nodes_before d i seen [] before h = tt
nodes_before d i seen (n ∷ nodes) before h = (
  (λ same.
      inputs_before d n.node_id seen (values n.inputs)
        (subst (λ j. (x : String) → contains x (set_of j d) ≡ true → contains x seen ≡ true)
          (sym same) before)
        h.0),
  nodes_before d i seen nodes before h.1,
)

IsOrdered-IsTopological :
    (d : Sets) (nodes : List PipelineNode) (seen order : List String)
    → CoversAll d nodes
    → IsOrdered d seen order
    → IsTopological nodes seen order
IsOrdered-IsTopological d nodes seen [] covered h = tt
IsOrdered-IsTopological d nodes seen (i ∷ order) covered h = (
  nodes_before d i seen nodes h.0 covered,
  IsOrdered-IsTopological d nodes (seen ++ i ∷ []) order covered h.1,
)

ready_IsReady :
    (d : Sets) (ids : List String)
    → All (λ n. set_of n d ≡ []) (filter (λ n. is_empty (set_of n d)) ids)
ready_IsReady d [] = tt
ready_IsReady d (i ∷ ids) = elim (Bool-cases (is_empty (set_of i d))) [
  | inl empty ↦ rw empty (is_empty-true (set_of i d) empty, ready_IsReady d ids)
  | inr waits ↦ rw waits (ready_IsReady d ids)
]

filter_empty :
    (d : Sets) (n : String) (ids : List String)
    → contains n (filter (λ i. is_empty (set_of i d)) ids) ≡ true
    → set_of n d ≡ []
filter_empty d n [] h = absurd (ground (arith, h))
filter_empty d n (i ∷ ids) h = elim (Bool-cases (is_empty (set_of i d))) [
  | inr waits ↦ filter_empty d n ids (rw waits at h)
  | inl empty ↦ elim (Bool-cases (n == i)) [
    | inl same ↦
        subst (λ j. set_of j d ≡ []) (sym ((==-iff n i).0 same)) (is_empty-true (set_of i d) empty)
    | inr other ↦ filter_empty d n ids (rw other at (rw empty at h))
  ]
]

-- The nodes that wait at the start need nothing.
ready-IsTaken : (ids : List String) (d : Sets) → IsTaken d (ready_nodes ids d)
ready-IsTaken ids d n there =
    filter_empty d n ids
      (sym (contains-sort str_ltb n (filter (λ i. is_empty (set_of i d)) ids)) ∙ there)

ready-FitsIn : (ids : List String) (d : Sets) → FitsIn (ready_nodes ids d) ids
ready-FitsIn ids d x = ground (
  arith,
  occurrences-sort x (filter (λ i. is_empty (set_of i d)) ids),
  occurrences-filter x (λ i. is_empty (set_of i d)) ids,
)

order_of-IsOrdered : (ids : List String) (l : Links) → IsOrdered l.dependencies [] (order_of ids l)
order_of-IsOrdered ids l =
    visit-IsOrdered l.dependencies (suc (length ids)) l.children l.dependencies
      (ready_nodes ids l.dependencies) [] (λ k d wanted. ground (arith, wanted))
      (All-sort str_ltb (λ n. set_of n l.dependencies ≡ []) _ (ready_IsReady l.dependencies ids)) tt

abbrev pub no_links : Links
no_links = record {
  dependencies = [];
  children = [];
  available_types = ("$media.bytes", "bytes") ∷ ("$media.input", "media/input") ∷ [];
}

no_links-AreLinked : (ids : List String) → AreLinked ids no_links
unfolding lookup occurrences
no_links-AreLinked ids = record {
  linked = λ s x h. absurd (ground (arith, h));
  alone = λ s x. omega arith;
}

-- The order is of nodes of the pipeline, none of them twice, on any fuel.
order-FitsIn :
    (operators : Dict String OperatorDefinition) (domain : String) (nodes : List PipelineNode)
    (l : Links)
    → let ids = keys_of (nodes_of nodes []) in
      link_nodes operators domain ids nodes no_links ≡ valid l → FitsIn (order_of ids l) ids
order-FitsIn operators domain nodes l h =
    let ids = keys_of (nodes_of nodes []) in
    let all =
      link_nodes-AreLinked ids operators domain nodes no_links {l' = l} (node_ids_known nodes) h
        (no_links-AreLinked ids) in
    let ready =
      All-sort str_ltb (λ n. set_of n l.dependencies ≡ []) _ (ready_IsReady l.dependencies ids) in
    visit-FitsIn l.dependencies l.children ids (node_ids_differ nodes) (λ s x. all.alone s x)
      (λ s x. all.linked s x) (suc (length ids)) l.dependencies (ready_nodes ids l.dependencies) []
      (λ k d wanted. ground (arith, wanted)) ready (ready-IsTaken ids l.dependencies)
      (ready-FitsIn ids l.dependencies)

All-full :
    (ids order : List String) (nodes : List PipelineNode)
    → ((x : String) → contains x ids ≡ true → contains x order ≡ true)
    → All (λ (n : PipelineNode). contains n.node_id ids ≡ true) nodes
    → All (λ (n : PipelineNode). contains n.node_id order ≡ true) nodes
All-full ids order [] full known = tt
All-full ids order (n ∷ nodes) full known =
    (full n.node_id known.0, All-full ids order nodes full known.1)

-- A pipeline that is accepted is accepted with an order that has every node of it, that is as long as
-- its nodes are many, and in which every node comes after the nodes that its inputs name.
pub validate-IsTopological :
    (fullmatch : String → String → Bool) (operators : Dict String OperatorDefinition)
    (p : PipelineDefinition) {order : List String}
    → validate fullmatch operators p ≡ valid order
    → (length order ≡ length p.nodes)
      × All (λ (n : PipelineNode). contains n.node_id order ≡ true) p.nodes
      × IsTopological p.nodes [] order
unfolding validate
validate-IsTopological fullmatch operators p {order} h =
    let ids = keys_of (nodes_of p.nodes []) in
    elim (Checked-cases (link_nodes operators p.domain ids p.nodes no_links)) [
      | inl (m, refused) ↦ absurd (ground arith)
      | inr (l, linked) ↦
          let (grows, covered) =
            link_nodes-Covers operators p.domain ids p.nodes no_links {l' = l} linked in
          let found : order ≡ order_of ids l = ground arith in
          let count : length order ≡ length p.nodes = ground arith in
          let same : length (order_of ids l) ≡ length ids = ground arith in
          let full =
            FitsIn-full (order_of ids l) ids (order-FitsIn operators p.domain p.nodes l linked)
              same in
          (
            count,
            subst (λ o. All (λ (n : PipelineNode). contains n.node_id o ≡ true) p.nodes) (sym found)
                (All-full ids (order_of ids l) p.nodes full (node_ids_known p.nodes)),
            subst (λ o. IsTopological p.nodes [] o) (sym found)
                (IsOrdered-IsTopological l.dependencies p.nodes [] (order_of ids l) covered
                  (order_of-IsOrdered ids l)),
          )
    ]

-- On every graph that the first loop over the nodes links, with cycles or without, the loop over the
-- queue takes no node twice and ends by itself: its order is at most as long as the nodes are many,
-- and any fuel above their number gives the same order.
pub order_of-ends :
    (operators : Dict String OperatorDefinition) (domain : String) (nodes : List PipelineNode)
    (more : ℕ) {l : Links}
    → let ids = keys_of (nodes_of nodes []) in
      link_nodes operators domain ids nodes no_links ≡ valid l
      → length ids < more
      → ((x : String) → occurrences x (order_of ids l) ≤ 1)
        × (length (order_of ids l) ≤ length ids)
        × (visit more l.children l.dependencies (ready_nodes ids l.dependencies) []
            ≡ order_of ids l)
order_of-ends operators domain nodes more {l} h enough =
    let ids = keys_of (nodes_of nodes []) in
    let fits = order-FitsIn operators domain nodes l h in
    let short = length-FitsIn (order_of ids l) ids fits in
    (
      (λ x. omega (arith, fits x, node_ids_differ nodes x)),
      short,
      visit-more (suc (length ids)) more l.children l.dependencies (ready_nodes ids l.dependencies)
          [] (omega (arith, enough)) (omega (arith, short)),
    )
