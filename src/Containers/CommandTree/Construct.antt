-- ===== src/Containers/CommandTree/Construct.antt =====
-- The tree that CommandTree::ConstructTree puts together.
use mathlib.Core.Option.{some-injective, none-ne-some}
use yengine.Base.{
  ℕ, zero, suc, ◌+◌, ◌*◌, ◌≤◌, ◌<◌, ◌≡◌, ◌≢◌, refl, ap, ◌∙◌, List, [], ◌∷◌, ◌++◌, some, arith,
  length, get_elem?, replicate, eq→==, ne→==, le→leb, ok, Returns, map,
}
use yengine.Containers.CommandTree.{
  CommandNode, CommandTree, initialized, ready_to_execute, TreeConstructorNode, command_node_size,
  pointer_size, max_nodes, add_child, initialize_nodes, construct_tree, max_depends,
}
use yengine.Containers.CommandTree.Loops.{iterate, count}
use yengine.Containers.CommandTree.Passes.{
  AreNodes, dependents, roots_of, num_roots_of, num_dependencies_of, count_all-Changes,
  assign_all-Changes, assign_to-dependents, iterate-add_child, length-dependents, demand-le, demand,
  assign_to,
}

count_replicate_self : (k i : ℕ) → count i (replicate k i) ≡ k
count_replicate_self zero i = refl
count_replicate_self (suc k) i = rw (eq→== i i refl) (ap suc (count_replicate_self k i))

count_replicate_other : (k i j : ℕ) → i ≢ j → count i (replicate k j) ≡ 0
count_replicate_other zero i j ne = refl
count_replicate_other (suc k) i j ne = rw (ne→== i j ne) (count_replicate_other k i j ne)

count-append : (i : ℕ) (xs ys : List ℕ) → count i (xs ++ ys) ≡ count i xs + count i ys
count-append i [] ys = omega arith
count-append i (x ∷ xs) ys = ground (arith, count-append i xs ys)

module _ {ℓ} {C : Type ℓ} where
  -- An index before those counted from is no dependent.
  count-dependents_before :
      (i j index : ℕ) (nodes : List (TreeConstructorNode C))
      → i < index
      → count i (dependents j index nodes) ≡ 0
  count-dependents_before i j index [] h = refl
  count-dependents_before i j index (node ∷ nodes) h =
      count-append i (replicate (count j node.dependencies) index) (dependents j (index + 1) nodes)
      ∙ rw
          (
            count_replicate_other (count j node.dependencies) i index (omega arith),
            count-dependents_before i j (index + 1) nodes (omega arith),
          )
          (omega arith)

  -- A node is a dependent of another as often as it names it.
  pub count-dependents :
      (i j index : ℕ) (nodes : List (TreeConstructorNode C)) (node : TreeConstructorNode C)
      → get_elem? nodes i ≡ some node
      → count (index + i) (dependents j index nodes) ≡ count j node.dependencies
  count-dependents i j index [] node e = absurd (none-ne-some node e)
  count-dependents zero j index (first ∷ nodes) node e =
      let own = count j first.dependencies in
      let at : index + 0 ≡ index = omega arith in
      rw at (
        count-append index (replicate own index) (dependents j (index + 1) nodes)
        ∙ rw
            (
              count_replicate_self own index,
              count-dependents_before index j (index + 1) nodes (omega arith),
            )
            (omega (arith, ap (λ n. count j n.dependencies) (some-injective first node e))))
  count-dependents (suc i) j index (first ∷ nodes) node e =
      let own = count j first.dependencies in
      let at : index + suc i ≡ index + 1 + i = omega arith in
      rw at (
        count-append (index + 1 + i) (replicate own index) (dependents j (index + 1) nodes)
        ∙ rw (count_replicate_other own (index + 1 + i) index (omega arith))
            (omega (arith, count-dependents i j (index + 1) nodes node e)))

  -- CommandNode::Initialize
  abbrev initial : TreeConstructorNode C → CommandNode C
  initial node = record {
    command = node.command;
    children = [];
    num_dependencies_finished = 0;
    num_dependencies = length node.dependencies;
    num_children = 0;
  }

  initialize_nodes-ok :
      (limit : ℕ) (nodes : List (TreeConstructorNode C))
      → AreNodes limit nodes
      → initialize_nodes nodes ≡ ok (map initial nodes)
  unfolding initialize_nodes
  initialize_nodes-ok limit [] are = refl
  initialize_nodes-ok limit (node ∷ nodes) are =
      rw
        (le→leb (length node.dependencies) max_depends are.0, initialize_nodes-ok limit nodes are.2)
        refl

  get_elem?-initial :
      (nodes : List (TreeConstructorNode C)) (j : ℕ) (node : TreeConstructorNode C)
      → get_elem? nodes j ≡ some node
      → get_elem? (map initial nodes) j ≡ some (initial node)
  get_elem?-initial [] j node e = absurd (none-ne-some node e)
  get_elem?-initial (first ∷ nodes) zero node e =
      ap (λ n. some (initial n)) (some-injective first node e)
  get_elem?-initial (first ∷ nodes) (suc j) node e = get_elem?-initial nodes j node e

  length-initial :
      (nodes : List (TreeConstructorNode C)) → length (map initial nodes) ≡ length nodes
  length-initial [] = refl
  length-initial (node ∷ nodes) = ap suc (length-initial nodes)

  -- The command node of a constructor node.
  abbrev pub built : List (TreeConstructorNode C) → ℕ → TreeConstructorNode C → CommandNode C
  built nodes j node = record {
    command = node.command;
    children = dependents j 0 nodes;
    num_dependencies_finished = 0;
    num_dependencies = length node.dependencies;
    num_children = length (dependents j 0 nodes);
  }

  built_node :
      (places : ℕ) (nodes : List (TreeConstructorNode C)) (j : ℕ) (node : TreeConstructorNode C)
      → AreNodes places nodes
      → length nodes ≤ max_nodes
      → assign_to j 0 nodes (iterate (demand j nodes) add_child (initial node)) ≡ built nodes j node
  built_node places nodes j node are few =
      let wanted : 0 + demand j nodes ≡ length (dependents j 0 nodes) =
        omega (arith, length-dependents j 0 nodes) in
      ap (assign_to j 0 nodes) (
        iterate-add_child (demand j nodes) (initial node)
          (omega (arith, demand-le j places nodes are)))
      ∙ assign_to-dependents j 0 nodes (record (initial node) { num_children = 0 + demand j nodes })
      ∙ ap (λ c. record (built nodes j node) { num_children = c }) wanted

  -- The tree is ready to execute, its roots are the nodes without dependencies, and every node has as
  -- children the nodes that name it as a dependency, in order, as often as they name it.
  pub record Constructed (nodes : List (TreeConstructorNode C)) (t : CommandTree C) : Type ℓ where
    pub ready : t.state ≡ ready_to_execute
    pub places : length t.nodes ≡ length nodes
    pub roots : t.root_nodes ≡ roots_of 0 nodes
    pub node :
        (j : ℕ) (node : TreeConstructorNode C)
        → get_elem? nodes j ≡ some node
        → get_elem? t.nodes j ≡ some (built nodes j node)
    pub edges :
        (i j : ℕ) (node other : TreeConstructorNode C)
        → get_elem? nodes i ≡ some node
        → get_elem? nodes j ≡ some other
        → count i (built nodes j other).children ≡ count j node.dependencies

  abbrev pub needed : List (TreeConstructorNode C) → ℕ
  needed nodes =
      command_node_size * length nodes
      + num_roots_of nodes * pointer_size
      + num_dependencies_of nodes * pointer_size

  -- ConstructTree on an initialized tree whose buffer has room returns, for at most 256 nodes of at
  -- most 8 dependencies each, all of them indexes of nodes; the tree is then ready to execute, its
  -- roots are the nodes without dependencies, and every node has as children the nodes that name it
  -- as a dependency, in order, as often as they name it.
  pub construct_tree-Constructed :
      (t : CommandTree C) (nodes : List (TreeConstructorNode C))
      → t.state ≡ initialized
      → length nodes ≤ max_nodes
      → AreNodes (length nodes) nodes
      → needed nodes ≤ t.buffer_size
      → Returns (construct_tree t nodes) (Constructed nodes)
  unfolding construct_tree
  construct_tree-Constructed t nodes at few are room =
      let ((counted, total, roots), run1, (c1, total_is, roots_is)) =
        count_all-Changes (length nodes) nodes (map initial nodes) 0 0 are (length-initial nodes)
          (omega arith) (omega arith) in
      let ((assigned, root_nodes), run2, (c2, roots_are)) =
        assign_all-Changes (length nodes) nodes 0 counted [] few are
          (c1.places ∙ length-initial nodes) in
      (
        record t { state = ready_to_execute; nodes = assigned; root_nodes = root_nodes },
        rw
            (
              at,
              le→leb (command_node_size * length nodes) t.buffer_size (omega arith),
              initialize_nodes-ok (length nodes) nodes are,
              run1,
              le→leb (command_node_size * length nodes + roots * pointer_size) t.buffer_size
                  (omega (arith, roots_is)),
              le→leb
                  (command_node_size * length nodes + roots * pointer_size + total * pointer_size)
                  t.buffer_size (omega (arith, roots_is, total_is)),
              run2,
            )
            refl,
        record {
          ready = refl;
          places = c2.places ∙ c1.places ∙ length-initial nodes;
          roots = roots_are;
          node = λ j node e.
              c2.changed j _ (c1.changed j (initial node) (get_elem?-initial nodes j node e))
              ∙ ap some (built_node (length nodes) nodes j node are few);
          edges = λ i j node other e o.
              let at : i ≡ 0 + i = omega arith in
              ap (λ i. count i (dependents j 0 nodes)) at ∙ count-dependents i j 0 nodes node e;
        },
      )
