-- ===== src/Pipeline/Topology.antt =====
-- The loop over the queue in `PipelineRegistry._validate` of scenara/platform/pipeline.py.
use scenara.Prelude.{
  String, ℕ, zero, suc, ◌+◌, ◌<◌, ◌≤◌, length-append, ◌≡◌, refl, ◌∙◌, inl, inr, true, not, ◌&&◌,
  ◌||◌, List, [], ◌∷◌, ◌++◌, ◌==◌, string_eq, ==-iff, contains, filter, length, All, All-append,
  Bool-cases, if◌then◌else◌, arith,
}
use scenara.Prelude.Dict.{lookup-insert}
use scenara.Prelude.Sort.{sort, str_ltb}
use scenara.Pipeline.Graph.{Sets, set_of, is_empty, discard, release, visit}

contains-filter :
    (d x : String) (xs : List String)
    → contains d (filter (λ y. not (y == x)) xs) ≡ (contains d xs && not (d == x))
contains-filter d x [] = refl
contains-filter d x (y ∷ ys) =
    ground (arith, contains-filter d x ys, ==-iff d y, ==-iff y x, ==-iff d x)

pub contains-append :
    (d : String) (xs ys : List String) → contains d (xs ++ ys) ≡ (contains d xs || contains d ys)
contains-append d [] ys = refl
contains-append d (x ∷ xs) ys = ground (arith, contains-append d xs ys)

pub set_of-discard :
    (j k x : String) (d : Sets)
    → set_of k (discard j x d)
      ≡ (if j == k then filter (λ y. not (y == x)) (set_of j d) else set_of k d)
unfolding discard
set_of-discard j k x d =
    ground (arith, lookup-insert k j (filter (λ y. not (y == x)) (set_of j d)) d)

pub is_empty-true : (xs : List String) → is_empty xs ≡ true → xs ≡ []
is_empty-true [] h = refl
is_empty-true (y ∷ ys) h = absurd (ground arith)

module _ (needs : Sets) where
  -- What a node needs is still to come, or in the order.
  abbrev pub IsPending : Sets → List String → Type 0
  IsPending left order =
      (k d : String)
      → contains d (set_of k needs) ≡ true
      → (contains d (set_of k left) || contains d order) ≡ true

  -- The nodes that wait need nothing more.
  abbrev pub IsReady : Sets → List String → Type 0
  IsReady left queue = All (λ n. set_of n left ≡ []) queue

  discard-IsPending :
      (child current : String) (left : Sets) (order : List String)
      → contains current order ≡ true
      → IsPending left order
      → IsPending (discard child current left) order
  discard-IsPending child current left order there h k d wanted = ground (
    arith,
    h k d wanted,
    set_of-discard child k current left,
    contains-filter d current (set_of child left),
    ==-iff child k,
    ==-iff d current,
  )

  pub discard-empty :
      (child current n : String) (left : Sets)
      → set_of n left ≡ []
      → set_of n (discard child current left) ≡ []
  discard-empty child current n left h =
      set_of-discard child n current left ∙ elim (Bool-cases (child == n)) [
        | inl same ↦ rw same (rw ((==-iff child n).0 same) (rw h))
        | inr other ↦ rw other h
      ]

  discard-IsReady :
      (child current : String) (left : Sets) (queue : List String)
      → IsReady left queue
      → IsReady (discard child current left) queue
  discard-IsReady child current left [] h = tt
  discard-IsReady child current left (n ∷ queue) h =
      (discard-empty child current n left h.0, discard-IsReady child current left queue h.1)

  pub release-keeps :
      (current : String) (children : List String) (left : Sets) (queue order : List String)
      → contains current order ≡ true
      → IsPending left order
      → IsReady left queue
      → let (left', queue') = release current children left queue in
        IsPending left' order × IsReady left' queue'
  unfolding release
  release-keeps current [] left queue order there pending ready = (pending, ready)
  release-keeps current (child ∷ rest) left queue order there pending ready =
      let next = discard child current left in
      let next_pending = discard-IsPending child current left order there pending in
      let next_ready = discard-IsReady child current left queue ready in
      elim (Bool-cases (is_empty (set_of child next))) [
        | inl empty ↦
            rw (release, empty)
              (release-keeps current rest next (queue ++ child ∷ []) order there next_pending (
                All-append (λ n. set_of n next ≡ []) queue (child ∷ []) next_ready
                  (is_empty-true (set_of child next) empty, tt)))
        | inr blocked ↦
            rw (release, blocked)
              (release-keeps current rest next queue order there next_pending next_ready)
      ]

  -- Each node of the order comes after the nodes that it needs; those of `seen` come before.
  abbrev pub IsOrdered : List String → List String → Type 0
  IsOrdered seen [] = Unit
  IsOrdered seen (n ∷ order) =
      ((d : String) → contains d (set_of n needs) ≡ true → contains d seen ≡ true)
      × IsOrdered (seen ++ n ∷ []) order

  IsOrdered-append :
      (seen order : List String) (n : String)
      → IsOrdered seen order
      → ((d : String) → contains d (set_of n needs) ≡ true → contains d (seen ++ order) ≡ true)
      → IsOrdered seen (order ++ n ∷ [])
  IsOrdered-append seen [] n h late =
      ((λ d wanted. ground (arith, late d wanted, contains-append d seen [])), tt)
  IsOrdered-append seen (m ∷ order) n h late = (
    h.0,
    IsOrdered-append (seen ++ m ∷ []) order n h.1 (λ d wanted. ground (
      arith,
      late d wanted,
      contains-append d seen (m ∷ order),
      contains-append d (seen ++ m ∷ []) order,
      contains-append d seen (m ∷ []),
    )),
  )

  -- The loop over the queue puts a node into the order once nothing that it needs is left.
  pub visit-IsOrdered :
      (fuel : ℕ) (children left : Sets) (queue order : List String)
      → IsPending left order
      → IsReady left queue
      → IsOrdered [] order
      → IsOrdered [] (visit fuel children left queue order)
  unfolding visit
  visit-IsOrdered zero children left queue order pending ready h = h
  visit-IsOrdered (suc fuel) children left [] order pending ready h = h
  visit-IsOrdered (suc fuel) children left (current ∷ queue) order pending ready h =
      let (next_pending, next_ready) =
        release-keeps current (sort str_ltb (set_of current children)) left queue
          (order ++ current ∷ [])
          (ground (arith, contains-append current order (current ∷ []), ==-iff current current))
          (λ k d wanted. ground (arith, pending k d wanted, contains-append d order (current ∷ [])))
          ready.1 in
      visit-IsOrdered fuel children _ _ (order ++ current ∷ []) next_pending next_ready (
        IsOrdered-append [] order current h
          (λ d wanted. ground (arith, pending current d wanted, ready.0)))

-- Where the loop has not used up its fuel, any more fuel gives the same order.
pub visit-more :
    (fuel more : ℕ) (children left : Sets) (queue order : List String)
    → fuel ≤ more
    → length (visit fuel children left queue order) < length order + fuel
    → visit more children left queue order ≡ visit fuel children left queue order
unfolding visit
visit-more zero more children left queue order le h = absurd (omega (arith, h))
visit-more (suc fuel) zero children left queue order le h = absurd (omega (arith, le))
visit-more (suc fuel) (suc more) children left [] order le h = refl
visit-more (suc fuel) (suc more) children left (current ∷ queue) order le h =
    let (next, waiting) = release current (sort str_ltb (set_of current children)) left queue in
    visit-more fuel more children next waiting (order ++ current ∷ []) (omega (arith, le))
      (omega (arith, h, length-append order (current ∷ [])))
