-- ===== src/Pipeline/Visits.antt =====
-- The loop over the queue in `PipelineRegistry._validate` of scenara/platform/pipeline.py takes no node
-- twice.
use scenara.Prelude.{
  String, ℕ, zero, suc, ◌≤◌, ◌≡◌, ◌∙◌, sym, subst, inl, inr, true, false, List, [], ◌∷◌, ◌++◌, ◌==◌,
  string_eq, ==-iff, contains, Bool-cases, arith,
}
use mathlib.Core.List.{append_assoc}
use scenara.Prelude.Sort.{sort, str_ltb, count-sort, contains-sort}
use scenara.Pipeline.Graph.{Sets, set_of, is_empty, discard, release, visit}
use scenara.Pipeline.Counts.{
  occurrences, occurrences-count, occurrences-append, occurrences-some, occurrences-none, FitsIn,
}
use scenara.Pipeline.Topology.{
  set_of-discard, discard-empty, contains-append, is_empty-true, IsPending, IsReady, release-keeps,
}

-- A node that is in the order or in the queue needs nothing more.
abbrev pub IsTaken : Sets → List String → Type 0
IsTaken left taken = (n : String) → contains n taken ≡ true → set_of n left ≡ []

-- A child that needs the current node, and is a node.
abbrev Waits : List String → String → Sets → String → Type 0
Waits ids current left child =
    (contains current (set_of child left) ≡ true) × (contains child ids ≡ true)

pub occurrences-sort :
    (x : String) (xs : List String) → occurrences x (sort str_ltb xs) ≡ occurrences x xs
occurrences-sort x xs =
    occurrences-count x (sort str_ltb xs)
    ∙ (count-sort str_ltb (λ y. y == x) xs ∙ sym (occurrences-count x xs))

module _ (needs : Sets) (ids : List String) (current : String) where
  -- A child that waits is not taken yet, so it can be taken.
  take-FitsIn :
      (child : String) (left : Sets) (taken : List String)
      → Waits ids current left child
      → IsTaken left taken
      → FitsIn taken ids
      → FitsIn (taken ++ child ∷ []) ids
  unfolding occurrences
  take-FitsIn child left taken waits idle fits x = elim (Bool-cases (contains child taken)) [
    | inl there ↦ absurd (ground (arith, rw (idle child there) at waits.0))
    | inr absent ↦ ground (
      arith,
      fits x,
      occurrences-append x taken (child ∷ []),
      occurrences-none child taken absent,
      occurrences-some child ids waits.1,
      ==-iff child x,
    )
  ]

  take-IsTaken :
      (child : String) (left : Sets) (taken : List String)
      → set_of child left ≡ []
      → IsTaken left taken
      → IsTaken left (taken ++ child ∷ [])
  take-IsTaken child left taken empty idle n there = elim (Bool-cases (contains n taken)) [
    | inl old ↦ idle n old
    | inr new ↦
        let same : n ≡ child =
          (==-iff n child).0 (ground (arith, there, new, contains-append n taken (child ∷ []))) in
        subst (λ i. set_of i left ≡ []) (sym same) empty
  ]

  -- What another child needs stays.
  discard-Waits :
      (child : String) (rest : List String) (left : Sets) (c : String)
      → ((c : String) → occurrences c (child ∷ rest) ≤ 1)
      → ((c : String) → contains c (child ∷ rest) ≡ true → Waits ids current left c)
      → contains c rest ≡ true
      → Waits ids current (discard child current left) c
  unfolding occurrences
  discard-Waits child rest left c once waits later =
      let before = waits c (ground (arith, later)) in
      elim (Bool-cases (child == c)) [
        | inl same ↦ absurd (ground (arith, once c, occurrences-some c rest later, same))
        | inr other ↦
            let kept : set_of c (discard child current left) ≡ set_of c left =
              rw other at (set_of-discard child c current left) in
            (subst (λ xs. contains current xs ≡ true) (sym kept) before.0, before.1)
      ]

  release-FitsIn :
      (rest : List String) (left : Sets) (queue order : List String)
      → ((c : String) → occurrences c rest ≤ 1)
      → ((c : String) → contains c rest ≡ true → Waits ids current left c)
      → IsTaken left (order ++ queue)
      → FitsIn (order ++ queue) ids
      → let (left', queue') = release current rest left queue in
        IsTaken left' (order ++ queue') × FitsIn (order ++ queue') ids
  unfolding release occurrences
  release-FitsIn [] left queue order once waits idle fits = (idle, fits)
  release-FitsIn (child ∷ rest) left queue order once waits idle fits =
      let next = discard child current left in
      let here = waits child (ground (arith, ==-iff child child)) in
      let once_rest : (c : String) → occurrences c rest ≤ 1 = λ c. ground (arith, once c) in
      let waits_rest : (c : String) → contains c rest ≡ true → Waits ids current next c =
        λ c later. discard-Waits child rest left c once waits later in
      let idle_next : IsTaken next (order ++ queue) =
        λ n there. discard-empty needs child current n left (idle n there) in
      elim (Bool-cases (is_empty (set_of child next))) [
        | inl empty ↦
            let grown = append_assoc order queue (child ∷ []) in
            rw (release, empty)
              (release-FitsIn rest next (queue ++ child ∷ []) order once_rest waits_rest
                (subst (λ taken. IsTaken next taken) grown
                  (take-IsTaken child next (order ++ queue)
                    (is_empty-true (set_of child next) empty) idle_next))
                (subst (λ taken. FitsIn taken ids) grown
                  (take-FitsIn child left (order ++ queue) here idle fits)))
        | inr blocked ↦
            rw (release, blocked)
              (release-FitsIn rest next queue order once_rest waits_rest idle_next fits)
      ]

module _ (needs children : Sets) (ids : List String) (once : (x : String) → occurrences x ids ≤ 1)
    (alone : (s x : String) → occurrences x (set_of s children) ≤ 1)
    (linked : (s x : String)
      → contains x (set_of s children) ≡ true
      → (contains s (set_of x needs) ≡ true) × (contains x ids ≡ true)) where
  -- The node that is taken from the queue is not in the order yet.
  not_in_order :
      (current : String) (queue order : List String)
      → FitsIn (order ++ current ∷ queue) ids
      → contains current order ≡ false
  unfolding occurrences
  not_in_order current queue order fits = elim (Bool-cases (contains current order)) [
    | inr absent ↦ absent
    | inl there ↦ absurd (
        ground (
          arith,
          fits current,
          once current,
          occurrences-append current order (current ∷ queue),
          occurrences-some current order there,
          ==-iff current current,
        ))
  ]

  -- The order that the loop gives, on any fuel, is of nodes of the pipeline, none of them twice.
  pub visit-FitsIn :
      (fuel : ℕ) (left : Sets) (queue order : List String)
      → IsPending needs left order
      → IsReady needs left queue
      → IsTaken left (order ++ queue)
      → FitsIn (order ++ queue) ids
      → FitsIn (visit fuel children left queue order) ids
  unfolding visit
  visit-FitsIn zero left queue order pending ready idle fits x =
      omega (arith, fits x, occurrences-append x order queue)
  visit-FitsIn (suc fuel) left [] order pending ready idle fits x =
      omega (arith, fits x, occurrences-append x order [])
  visit-FitsIn (suc fuel) left (current ∷ queue) order pending ready idle fits x =
      let order' = order ++ current ∷ [] in
      let split : order ++ current ∷ queue ≡ order' ++ queue =
        sym (append_assoc order (current ∷ []) queue) in
      let rest = sort str_ltb (set_of current children) in
      let absent = not_in_order current queue order fits in
      let waits : (c : String) → contains c rest ≡ true → Waits ids current left c = λ c there.
        let (needed, known) =
          linked current c (sym (contains-sort str_ltb c (set_of current children)) ∙ there) in
        (ground (arith, pending c current needed, absent), known) in
      let (idle', fits') =
        release-FitsIn needs ids current rest left queue order'
          (λ c. ground (arith, alone current c, occurrences-sort c (set_of current children))) waits
          (subst (λ taken. IsTaken left taken) split idle)
          (subst (λ taken. FitsIn taken ids) split fits) in
      let (pending', ready') =
        release-keeps needs current rest left queue order'
          (ground (arith, contains-append current order (current ∷ []), ==-iff current current))
          (λ k d wanted. ground (arith, pending k d wanted, contains-append d order (current ∷ [])))
          ready.1 in
      visit-FitsIn fuel _ _ order' pending' ready' idle' fits' x
