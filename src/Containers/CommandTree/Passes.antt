-- ===== src/Containers/CommandTree/Passes.antt =====
-- The passes of CommandTree::ConstructTree over all nodes.
use yengine.Base.{
  ℕ, zero, suc, ◌+◌, ◌*◌, ◌≤◌, ◌<◌, ◌^◌, ◌≡◌, refl, sym, ap, ◌∙◌, inl, inr, true, List, [], ◌∷◌,
  ◌++◌, arith, length, replicate, length-append, length-replicate, append-nil, append_assoc, ◌==◌,
  ==_iff, if◌then◌else◌, Bool-cases, Returns, add32, add64,
}
use yengine.Containers.CommandTree.{
  CommandNode, TreeConstructorNode, max_nodes, max_depends, add_child, put_child, count_child,
  assign_child, count_all, assign_all,
}
use yengine.Containers.CommandTree.Loops.{
  iterate, iterate_add, count, AllBelow, Changes, Changes-none, Changes-after, for_each-Changes,
  count_child-StepsBelow, assign_child-StepsBelow,
}

no_dependency : (j : ℕ) (deps : List ℕ) → (length deps == 0) ≡ true → count j deps ≡ 0
no_dependency j [] e = refl
no_dependency j (d ∷ deps) e = absurd (ground (arith, e))

count-le : (j : ℕ) (deps : List ℕ) → count j deps ≤ length deps
count-le j [] = omega arith
count-le j (d ∷ deps) = ground (arith, count-le j deps)

module _ {ℓ} {C : Type ℓ} where
  -- The nodes that depend on a node, of those from an index on: each as often as it names the node.
  abbrev pub dependents : ℕ → ℕ → List (TreeConstructorNode C) → List ℕ
  dependents j index [] = []
  dependents j index (node ∷ nodes) =
      replicate (count j node.dependencies) index ++ dependents j (index + 1) nodes

  -- The indexes of the nodes without dependencies.
  abbrev pub roots_of : ℕ → List (TreeConstructorNode C) → List ℕ
  roots_of index [] = []
  roots_of index (node ∷ nodes) =
      if length node.dependencies == 0
      then index ∷ roots_of (index + 1) nodes
      else roots_of (index + 1) nodes

  abbrev pub num_roots_of : List (TreeConstructorNode C) → ℕ
  num_roots_of [] = 0
  num_roots_of (node ∷ nodes) =
      if length node.dependencies == 0 then suc (num_roots_of nodes) else num_roots_of nodes

  abbrev pub num_dependencies_of : List (TreeConstructorNode C) → ℕ
  num_dependencies_of [] = 0
  num_dependencies_of (node ∷ nodes) = length node.dependencies + num_dependencies_of nodes

  -- How often the nodes name a node.
  abbrev pub demand : ℕ → List (TreeConstructorNode C) → ℕ
  demand j [] = 0
  demand j (node ∷ nodes) = count j node.dependencies + demand j nodes

  -- Every node has at most 8 dependencies, all of them below a limit.
  abbrev pub AreNodes : ℕ → List (TreeConstructorNode C) → Type 0
  AreNodes limit [] = Unit
  AreNodes limit (node ∷ nodes) =
      (length node.dependencies ≤ max_depends)
      × AllBelow limit node.dependencies
      × AreNodes limit nodes

  no_more : (k : ℕ) (n : CommandNode C) → iterate k add_child n ≡ iterate (0 + k) add_child n
  no_more k n = let sum : k ≡ 0 + k = omega arith in ap (λ k. iterate k add_child n) sum

  pub count_all-Changes :
      (places : ℕ) (nodes : List (TreeConstructorNode C)) (ns : List (CommandNode C))
      (total roots : ℕ)
      → AreNodes places nodes
      → length ns ≡ places
      → total + 8 * length nodes < 2 ^ 64
      → roots + length nodes < 2 ^ 64
      → Returns (count_all nodes ns total roots) λ (ns', total', roots').
        Changes (λ j n. iterate (demand j nodes) add_child n) ns ns'
        × (total' ≡ total + num_dependencies_of nodes)
        × (roots' ≡ roots + num_roots_of nodes)
  unfolding count_all
  count_all-Changes places [] ns total roots are sized h k =
      ((ns, total, roots), refl, (Changes-none ns, omega arith, omega arith))
  count_all-Changes places (node ∷ nodes) ns total roots are sized h k =
      elim (Bool-cases (length node.dependencies == 0)) [
        | inl e ↦
            let ((ns', total', roots'), run, (c, t, r)) =
              count_all-Changes places nodes ns total (add64 roots 1) are.2 sized (omega arith)
                (omega arith) in
            (
              (ns', total', roots'),
              rw (e, run) refl,
              (
                Changes-after (Changes-none ns) c
                    (λ j n. rw (no_dependency j node.dependencies e) (no_more (demand j nodes) n)),
                omega (arith, t, (==_iff _ 0).0 e),
                rw e (omega (arith, r)),
              ),
            )
        | inr e ↦
            let (ns1, run1, c1) =
              for_each-Changes places places add_child count_child node.dependencies ns
                (count_child-StepsBelow places) sized are.1 in
            let ((ns', total', roots'), run, (c, t, r)) =
              count_all-Changes places nodes ns1 (add64 total (length node.dependencies)) roots
                are.2 (c1.places ∙ sized) (omega (arith, are.0)) (omega arith) in
            (
              (ns', total', roots'),
              rw (e, run1, run) refl,
              (
                Changes-after c1 c (λ j n.
                    sym (iterate_add (count j node.dependencies) (demand j nodes) add_child n)),
                omega (arith, t, are.0),
                rw e r,
              ),
            )
      ]

  -- The children of a node after the last pass, from an index on.
  abbrev pub assign_to : ℕ → ℕ → List (TreeConstructorNode C) → CommandNode C → CommandNode C
  assign_to j index [] n = n
  assign_to j index (node ∷ nodes) n =
      assign_to j (index + 1) nodes (iterate (count j node.dependencies) (put_child index) n)

  pub assign_all-Changes :
      (places : ℕ) (nodes : List (TreeConstructorNode C)) (index : ℕ) (ns : List (CommandNode C))
      (roots : List ℕ)
      → places ≤ max_nodes
      → AreNodes places nodes
      → length ns ≡ places
      → Returns (assign_all nodes index ns roots) λ (ns', roots').
        Changes (λ j n. assign_to j index nodes n) ns ns' × (roots' ≡ roots ++ roots_of index nodes)
  unfolding assign_all
  assign_all-Changes places [] index ns roots few are sized =
      ((ns, roots), refl, (Changes-none ns, sym (append-nil roots)))
  assign_all-Changes places (node ∷ nodes) index ns roots few are sized =
      elim (Bool-cases (length node.dependencies == 0)) [
        | inl e ↦
            let ((ns', roots'), run, (c, r)) =
              assign_all-Changes places nodes (index + 1) ns (roots ++ index ∷ []) few are.2
                sized in
            (
              (ns', roots'),
              rw (e, run) refl,
              (
                Changes-after (Changes-none ns) c
                    (λ j n. rw (no_dependency j node.dependencies e) refl),
                rw e (r ∙ append_assoc roots (index ∷ []) (roots_of (index + 1) nodes)),
              ),
            )
        | inr e ↦
            let (ns1, run1, c1) =
              for_each-Changes places places (put_child index) (assign_child index)
                node.dependencies ns (assign_child-StepsBelow places index few) sized are.1 in
            let ((ns', roots'), run, (c, r)) =
              assign_all-Changes places nodes (index + 1) ns1 roots few are.2 (c1.places ∙ sized) in
            ((ns', roots'), rw (e, run1, run) refl, (Changes-after c1 c (λ j n. refl), rw e r))
      ]

  iterate-put_child :
      (k index : ℕ) (n : CommandNode C)
      → iterate k (put_child index) n ≡ record n { children = n.children ++ replicate k index }
  unfolding put_child
  iterate-put_child zero index n = ap (λ c. record n { children = c }) (sym (append-nil n.children))
  iterate-put_child (suc k) index n =
      iterate-put_child k index (put_child index n)
      ∙ ap (λ c. record n { children = c })
          (append_assoc n.children (index ∷ []) (replicate k index))

  -- The last pass gives a node its dependents.
  pub assign_to-dependents :
      (j index : ℕ) (nodes : List (TreeConstructorNode C)) (n : CommandNode C)
      → assign_to j index nodes n ≡ record n { children = n.children ++ dependents j index nodes }
  assign_to-dependents j index [] n =
      ap (λ c. record n { children = c }) (sym (append-nil n.children))
  assign_to-dependents j index (node ∷ nodes) n =
      let own = replicate (count j node.dependencies) index in
      ap (assign_to j (index + 1) nodes) (iterate-put_child (count j node.dependencies) index n)
      ∙ assign_to-dependents j (index + 1) nodes (record n { children = n.children ++ own })
      ∙ ap (λ c. record n { children = c })
          (append_assoc n.children own (dependents j (index + 1) nodes))

  pub iterate-add_child :
      (k : ℕ) (n : CommandNode C)
      → n.num_children + k < 2 ^ 32
      → iterate k add_child n ≡ record n { num_children = n.num_children + k }
  unfolding add_child
  iterate-add_child zero n h =
      let sum : n.num_children ≡ n.num_children + 0 = omega arith in
      ap (λ c. record n { num_children = c }) sum
  iterate-add_child (suc k) n h =
      let next : add32 n.num_children 1 ≡ n.num_children + 1 = omega arith in
      let sum : add32 n.num_children 1 + k ≡ n.num_children + suc k = omega arith in
      iterate-add_child k (add_child n) (omega (arith, next))
      ∙ ap (λ c. record n { num_children = c }) sum

  -- A node has as many dependents as the nodes name it.
  pub length-dependents :
      (j index : ℕ) (nodes : List (TreeConstructorNode C))
      → length (dependents j index nodes) ≡ demand j nodes
  length-dependents j index [] = refl
  length-dependents j index (node ∷ nodes) =
      length-append (replicate (count j node.dependencies) index) (dependents j (index + 1) nodes)
      ∙ rw (length-replicate, length-dependents j (index + 1) nodes) refl

  pub demand-le :
      (j places : ℕ) (nodes : List (TreeConstructorNode C))
      → AreNodes places nodes
      → demand j nodes ≤ 8 * length nodes
  demand-le j places [] are = omega arith
  demand-le j places (node ∷ nodes) are =
      omega (arith, count-le j node.dependencies, are.0, demand-le j places nodes are.2)
