-- ===== src/Containers/CommandTree/Execution/Ending.antt =====
-- What has happened when no thread of a CommandTree has a step left.
use yengine.Base.{
  ℕ, zero, suc, ◌≤◌, ◌<◌, ◌≡◌, refl, ap, subst, ◌⊎◌, ◌∙◌, true, false, List, [], ◌∷◌, some, arith,
  length, get_elem?, take, eq→==, ne→==, inl, inr, ℕ_discrete,
}
use yengine.Containers.CommandTree.{CommandNode}
use yengine.Containers.CommandTree.Loops.{count}
use yengine.Containers.CommandTree.Execution.{
  Phase, rooted, enqueued, started, cleared, failing, failed, ran, last, released, counted, stopped,
  passing, Execution, start,
}
use yengine.Containers.CommandTree.Execution.Sums.{
  total, total-get_elem?, total-found, sum_below-one, sum_below-tight, part, part-le, occurrence,
  total-parts, total-sum_below,
}
use yengine.Containers.CommandTree.Execution.Invariant.{IsTree, given, is_child, children_of}
use yengine.Containers.CommandTree.Execution.Steps.{
  is_counted, is_counted-le, is_failed, is_last, has_released, phases, IsSound, is_running,
}
use yengine.Containers.CommandTree.Execution.Reach.{Reaches, Reaches-IsSound}
use yengine.Containers.CommandTree.Execution.Outcome.{
  AreRoots, start-IsSound, total-eq_at, sum_below-le_lt,
}

take-all : (k : ℕ) (l : List ℕ) → length l ≤ k → take k l ≡ l
take-all zero [] h = refl
take-all (suc k) [] h = refl
take-all zero (x ∷ l) h = absurd (omega arith)
take-all (suc k) (x ∷ l) h = ap (λ r. x ∷ r) (take-all k l (omega arith))

true_ne : true ≡ false → ⊥
true_ne h = cc

module _ {C : Type 0} (nodes : List (CommandNode C)) where
  -- No thread has a step to do.
  abbrev pub HasEnded : Execution → Type 0
  HasEnded s =
      (i n : ℕ) (phase : Phase)
      → get_elem? s.threads i ≡ some (n, phase)
      → is_running nodes n phase ≡ false

  -- How a thread ends where no command has failed.
  abbrev pub IsOver : ℕ → Phase → Type 0
  IsOver n phase =
      (phase ≡ released) ⊎ ((k : ℕ) × (phase ≡ passing k) × (length (children_of nodes n) ≤ k))

  IsOver-of :
      (n : ℕ) (phase : Phase)
      → is_running nodes n phase ≡ false
      → is_failed phase ≡ 0
      → IsOver n phase
  IsOver-of n released h f = inl refl
  IsOver-of n (passing k) h f = inr (k, refl, ground (arith, h))
  IsOver-of n failed h f = absurd (omega (arith, f))
  IsOver-of n stopped h f = absurd (omega (arith, f))
  IsOver-of n rooted h f = absurd (true_ne h)
  IsOver-of n enqueued h f = absurd (true_ne h)
  IsOver-of n started h f = absurd (true_ne h)
  IsOver-of n cleared h f = absurd (true_ne h)
  IsOver-of n failing h f = absurd (true_ne h)
  IsOver-of n ran h f = absurd (true_ne h)
  IsOver-of n last h f = absurd (true_ne h)
  IsOver-of n counted h f = absurd (true_ne h)

  over-is_counted : (n : ℕ) (phase : Phase) → IsOver n phase → is_counted phase ≡ 1
  over-is_counted n phase (inl e) = ap is_counted e
  over-is_counted n phase (inr (k, e, h)) = ap is_counted e

  over-has_released : (n : ℕ) (phase : Phase) → IsOver n phase → has_released phase ≡ is_last phase
  over-has_released n phase (inl e) = rw e refl
  over-has_released n phase (inr (k, e, h)) = rw e refl

  -- A thread that is not the last has told each child as often as it is one.
  over-given :
      (c n : ℕ) (phase : Phase)
      → IsOver n phase
      → is_last phase ≡ 0
      → given nodes c (n, phase) ≡ is_child nodes c n
  over-given c n phase (inl e) not_last = absurd (omega (arith, not_last, ap is_last e))
  over-given c n phase (inr (k, e, h)) not_last =
      ap (λ p. given nodes c (n, p)) e ∙ ap (count c) (take-all k (children_of nodes n) h)

  module _ (tree : IsTree nodes) (rank : ℕ → ℕ)
      (acyclic : (c d : ℕ) → 0 < is_child nodes c d → rank d < rank c) (s : Execution)
      (o : IsSound nodes s)
      (over : (i n : ℕ) (phase : Phase) → get_elem? s.threads i ≡ some (n, phase) → IsOver n phase)
      (no_last : phases is_last s.threads ≡ 0) where
    -- What a node with a thread has told a child.
    told_all :
        (c d : ℕ)
        → 0 < total (occurrence d) s.threads
        → is_child nodes c d ≤ total (part (given nodes c) d) s.threads
    told_all c d there =
        let (j, (n, phase), at, one) = total-found (occurrence d) s.threads there in
        let not_last = total-get_elem? (λ t. is_last t.1) s.threads j (n, phase) at in
        let gave = over-given c n phase (over j n phase at) (omega (arith, not_last, no_last)) in
        let bound = total-get_elem? (part (given nodes c) d) s.threads j (n, phase) at in
        elim (ℕ_discrete n d) [
          | yes e ↦
              subst (λ m. is_child nodes c m ≤ total (part (given nodes c) d) s.threads) e
                (ground (arith, bound, gave, eq→== n d e))
          | no ne ↦ absurd (ground (arith, one, ne→== n d ne))
        ]

    -- Every node has a thread, by the rank of a node.
    has_thread : (m c : ℕ) → rank c < m → c < length nodes → 0 < total (occurrence c) s.threads
    has_thread zero c h lt = absurd (omega arith)
    has_thread (suc m) c h lt = elim (ℕ_discrete (total (occurrence c) s.threads) 0) [
      | no ne ↦ omega arith
      | yes free ↦
          let parts = total-parts (given nodes c) (length nodes) s.threads o.orderly.numbers in
          let all =
            sum_below-le_lt (length nodes) (is_child nodes c)
              (λ d. total (part (given nodes c) d) s.threads)
              (λ d below. elim (ℕ_discrete (is_child nodes c d) 0) [
                | yes e ↦ omega (arith, e)
                | no ne ↦
                    let child : 0 < is_child nodes c d = omega arith in
                    told_all c d (has_thread m d (omega (arith, acyclic c d child)) below)
              ]) in
          absurd (omega (arith, parts, all, tree.edges c, (o.orderly.waiting c lt free).1))
    ]

    -- So every node is counted.
    all_finished : length nodes ≤ s.num_nodes_finished
    all_finished =
        let counts = λ (t : ℕ × Phase). is_counted t.1 in
        let ones =
          total-eq_at counts (λ t. 1) s.threads
            (λ i (n, phase) at. over-is_counted n phase (over i n phase at)) in
        let parts = total-parts (λ t. 1) (length nodes) s.threads o.orderly.numbers in
        let all =
          sum_below-le_lt (length nodes) (λ d. 1) (λ d. total (part (λ t. 1) d) s.threads)
            (λ d below. has_thread (suc (rank d)) d (omega arith) below) in
        omega (arith, o.tallied.finished, ones, parts, all, sum_below-one (length nodes))

  -- The number of nodes that are counted.
  counted-le : (s : Execution) → IsSound nodes s → s.num_nodes_finished ≤ length nodes
  counted-le s o =
      let all =
        total-sum_below (λ t. is_counted t.1) (λ m. 1) (length nodes) s.threads o.orderly.numbers
          is_counted-le o.orderly.once in
      omega (arith, o.tallied.finished, sum_below-one (length nodes))

  -- Where all nodes are counted, each has a thread that has counted it.
  counted_each :
      (s : Execution) (c : ℕ)
      → IsSound nodes s
      → s.num_nodes_finished ≡ length nodes
      → c < length nodes
      → (i : ℕ) × (phase : Phase) × (get_elem? s.threads i ≡ some (c, phase))
        × (is_counted phase ≡ 1)
  counted_each s c o full lt =
      let counts = λ (t : ℕ × Phase). is_counted t.1 in
      let parts = total-parts counts (length nodes) s.threads o.orderly.numbers in
      let tight =
        sum_below-tight (length nodes) (λ m. total (part counts m) s.threads) (λ m. 1)
          (λ m. part-le counts (λ m. 1) m s.threads is_counted-le (o.orderly.once m))
          (omega (arith, parts, o.tallied.finished, full, sum_below-one (length nodes))) c lt in
      let (i, (n, phase), at, some_count) =
        total-found (part counts c) s.threads (omega (arith, tight)) in
      elim (ℕ_discrete n c) [
        | no ne ↦ absurd (ground (arith, some_count, ne→== n c ne))
        | yes e ↦ (
          i,
          phase,
          at ∙ ap (λ m. some (m, phase)) e,
          ground (arith, some_count, eq→== n c e, is_counted-le (n, phase)),
        )
      ]

  -- Where the dependencies of a tree that can be executed are acyclic and, from the start with its
  -- roots, no thread has a step left and the return value is 0, every node is counted as finished
  -- by a thread, the counter is the number of nodes, and the semaphore was released exactly once.
  pub ended-Finished :
      (roots : List ℕ) (k : ℕ) (s : Execution) (rank : ℕ → ℕ)
      → IsTree nodes
      → AreRoots nodes roots
      → 0 < length nodes
      → ((c d : ℕ) → 0 < is_child nodes c d → rank d < rank c)
      → Reaches nodes (start (length nodes) roots) k s
      → HasEnded s
      → s.return_value ≡ 0
      → (s.num_nodes_finished ≡ length nodes)
        × (s.releases ≡ 1)
        × ((c : ℕ)
            → c < length nodes
            → (i : ℕ) × (phase : Phase) × (get_elem? s.threads i ≡ some (c, phase))
              × (is_counted phase ≡ 1))
  ended-Finished roots k s rank tree are some_node acyclic r ended ok_value =
      let o =
        (Reaches-IsSound nodes tree some_node _ s k (start-IsSound nodes roots are some_node)
          r).0 in
      let none_failed = o.tallied.failure ok_value in
      let over = λ (i n : ℕ) (phase : Phase) (at : get_elem? s.threads i ≡ some (n, phase)).
        IsOver-of n phase (ended i n phase at) (
          omega
            (arith, none_failed, total-get_elem? (λ t. is_failed t.1) s.threads i (n, phase) at)) in
      let full : s.num_nodes_finished ≡ length nodes =
        elim (ℕ_discrete s.num_nodes_finished (length nodes)) [
          | yes e ↦ e
          | no ne ↦
              let no_last : phases is_last s.threads ≡ 0 =
                o.tallied.ending ∙ rw (ne→== _ _ ne) refl in
              omega (arith, all_finished tree rank acyclic s o over no_last, counted-le s o)
        ] in
      let one : phases is_last s.threads ≡ 1 = o.tallied.ending ∙ rw (eq→== _ _ full) refl in
      let same =
        total-eq_at (λ t. has_released t.1) (λ t. is_last t.1) s.threads
          (λ i (n, phase) at. over-has_released n phase (over i n phase at)) in
      (full, omega (arith, o.tallied.semaphore, same, one), λ c lt. counted_each s c o full lt)
