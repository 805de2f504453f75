-- ===== src/Containers/CommandTree/Execution/Built.antt =====
-- The tree that ConstructTree leaves is one that can be executed.
use yengine.Base.{
  ℕ, zero, suc, ◌+◌, ◌≤◌, ◌<◌, ◌≡◌, refl, sym, ap, subst, ◌∙◌, List, [], ◌∷◌, ◌++◌, none, some,
  arith, ◌==◌, if◌then◌else◌, length, get_elem?, replicate, dec_lt, Bool-cases, inl, inr,
  get_elem?-some, get_elem?-none, some-length, ok, Returns, Returns-value,
}
use yengine.Containers.CommandTree.Execution.{Execution, cleared, passing, start}
use yengine.Containers.CommandTree.Execution.Reach.{Reaches}
use mathlib.Core.Option.{some-injective, none-ne-some}
use yengine.Containers.CommandTree.{
  CommandTree, TreeConstructorNode, initialized, max_nodes, max_depends, construct_tree,
}
use yengine.Containers.CommandTree.Loops.{count, AllBelow}
use yengine.Containers.CommandTree.Passes.{AreNodes, dependents, roots_of}
use yengine.Containers.CommandTree.Construct.{
  Constructed, built, count-dependents, needed, construct_tree-Constructed,
}
use yengine.Containers.CommandTree.Execution.Sums.{
  sum_below, sum_below-add, sum_below-zero, sum_below-single,
}
use yengine.Containers.CommandTree.Execution.Invariant.{
  IsTree, is_child, children_of, children_of-some, deps_of, deps_of-some,
}
use yengine.Containers.CommandTree.Execution.Outcome.{AreRoots, count-above, commands_in_order}

AllBelow-append : (n : ℕ) (xs ys : List ℕ) → AllBelow n xs → AllBelow n ys → AllBelow n (xs ++ ys)
AllBelow-append n [] ys b c = c
AllBelow-append n (x ∷ xs) ys b c = (b.0, AllBelow-append n xs ys b.1 c)

AllBelow-replicate : (n k x : ℕ) → x < n → AllBelow n (replicate k x)
AllBelow-replicate n zero x h = tt
AllBelow-replicate n (suc k) x h = (h, AllBelow-replicate n k x h)

AllBelow-get_elem? :
    (n : ℕ) (xs : List ℕ) (k x : ℕ) → AllBelow n xs → get_elem? xs k ≡ some x → x < n
AllBelow-get_elem? n [] k x b at = absurd (none-ne-some x at)
AllBelow-get_elem? n (y ∷ xs) zero x b at = subst (λ z. z < n) (some-injective y x at) b.0
AllBelow-get_elem? n (y ∷ xs) (suc k) x b at = AllBelow-get_elem? n xs k x b.1 at

sum_below-eq_lt :
    (n : ℕ) (f g : ℕ → ℕ) → ((m : ℕ) → m < n → f m ≡ g m) → sum_below n f ≡ sum_below n g
sum_below-eq_lt zero f g eq = refl
sum_below-eq_lt (suc n) f g eq =
    omega (arith, eq n (omega arith), sum_below-eq_lt n f g (λ m lt. eq m (omega arith)))

-- Each item of a list counts for one number.
sum_below-count : (n : ℕ) (xs : List ℕ) → AllBelow n xs → sum_below n (λ m. count m xs) ≡ length xs
sum_below-count n [] b = sum_below-zero n
sum_below-count n (x ∷ xs) b =
    let split = sum_below-add n (λ m. if x == m then 1 else 0) (λ m. count m xs) in
    let one = sum_below-single n x 1 b.0 in
    let rest = sum_below-count n xs b.1 in
    let same =
      sum_below-eq_lt n (λ m. count m (x ∷ xs)) (λ m. (if x == m then 1 else 0) + count m xs)
        (λ m lt. ground arith) in
    omega arith

count-get_elem? : (xs : List ℕ) (m d : ℕ) → get_elem? xs m ≡ some d → 0 < count d xs
count-get_elem? [] m d at = absurd (none-ne-some d at)
count-get_elem? (x ∷ xs) zero d at = ground (arith, some-injective x d at)
count-get_elem? (x ∷ xs) (suc m) d at = ground (arith, count-get_elem? xs m d at)

module _ {C : Type 0} where
  AreNodes-get_elem? :
      (limit : ℕ) (nodes : List (TreeConstructorNode C)) (i : ℕ) (node : TreeConstructorNode C)
      → AreNodes limit nodes
      → get_elem? nodes i ≡ some node
      → (length node.dependencies ≤ max_depends) × AllBelow limit node.dependencies
  AreNodes-get_elem? limit [] i node are at = absurd (none-ne-some node at)
  AreNodes-get_elem? limit (first ∷ nodes) zero node are at =
      subst (λ n. (length n.dependencies ≤ max_depends) × AllBelow limit n.dependencies)
        (some-injective first node at) (are.0, are.1)
  AreNodes-get_elem? limit (first ∷ nodes) (suc i) node are at =
      AreNodes-get_elem? limit nodes i node are.2 at

  dependents-AllBelow :
      (n j index : ℕ) (nodes : List (TreeConstructorNode C))
      → index + length nodes ≤ n
      → AllBelow n (dependents j index nodes)
  dependents-AllBelow n j index [] h = tt
  dependents-AllBelow n j index (node ∷ nodes) h =
      AllBelow-append n (replicate (count j node.dependencies) index)
        (dependents j (index + 1) nodes)
        (AllBelow-replicate n (count j node.dependencies) index (omega arith))
        (dependents-AllBelow n j (index + 1) nodes (omega arith))

  roots_of-AllBelow :
      (n index : ℕ) (nodes : List (TreeConstructorNode C))
      → index + length nodes ≤ n
      → AllBelow n (roots_of index nodes)
  roots_of-AllBelow n index [] h = tt
  roots_of-AllBelow n index (node ∷ nodes) h = elim (Bool-cases (length node.dependencies == 0)) [
    | inl e ↦ rw e (omega arith, roots_of-AllBelow n (index + 1) nodes (omega arith))
    | inr e ↦ rw e (roots_of-AllBelow n (index + 1) nodes (omega arith))
  ]

  roots_before :
      (c index : ℕ) (nodes : List (TreeConstructorNode C))
      → c < index
      → count c (roots_of index nodes) ≡ 0
  roots_before c index [] h = refl
  roots_before c index (node ∷ nodes) h =
      ground (arith, roots_before c (index + 1) nodes (omega arith))

  -- A node without dependencies is a root, once.
  count-roots_of :
      (i index : ℕ) (nodes : List (TreeConstructorNode C)) (node : TreeConstructorNode C)
      → get_elem? nodes i ≡ some node
      → count (index + i) (roots_of index nodes) ≡ (if length node.dependencies == 0 then 1 else 0)
  count-roots_of i index [] node at = absurd (none-ne-some node at)
  count-roots_of zero index (first ∷ nodes) node at =
      let here : index + 0 ≡ index = omega arith in
      let same = ap (λ n. length n.dependencies) (some-injective first node at) in
      rw here (ground (arith, roots_before index (index + 1) nodes (omega arith), same))
  count-roots_of (suc i) index (first ∷ nodes) node at =
      let there : index + suc i ≡ index + 1 + i = omega arith in
      rw there (ground (arith, count-roots_of i (index + 1) nodes node at))

  module _ (nodes : List (TreeConstructorNode C)) (t : CommandTree C)
      (built_tree : Constructed nodes t) where
    children-dependents : (j : ℕ) → j < length nodes → children_of t.nodes j ≡ dependents j 0 nodes
    children-dependents j lt =
        let (node, at) = get_elem?-some nodes j lt in
        children_of-some t.nodes j (built nodes j node) (built_tree.node j node at)

    no_node : (j : ℕ) → length nodes ≤ j → get_elem? t.nodes j ≡ none
    no_node j h = get_elem?-none t.nodes j (omega (arith, built_tree.places))

    children-AllBelow : (j : ℕ) → AllBelow (length nodes) (children_of t.nodes j)
    children-AllBelow j = elim (dec_lt j (length nodes)) [
      | yes lt ↦
          subst (AllBelow (length nodes)) (sym (children-dependents j lt))
            (dependents-AllBelow (length nodes) j 0 nodes (omega arith))
      | no ge ↦ rw (no_node j (omega arith), children_of) tt
    ]

    built-deps :
        (c : ℕ) (node : TreeConstructorNode C)
        → get_elem? nodes c ≡ some node
        → deps_of t.nodes c ≡ length node.dependencies
    built-deps c node at = deps_of-some t.nodes c (built nodes c node) (built_tree.node c node at)

    no_deps : (c : ℕ) → length nodes ≤ c → deps_of t.nodes c ≡ 0
    no_deps c h = rw (no_node c h, deps_of) refl

    edges_in :
        (c : ℕ)
        → AreNodes (length nodes) nodes
        → sum_below (length nodes) (is_child t.nodes c) ≡ deps_of t.nodes c
    edges_in c are = elim (dec_lt c (length nodes)) [
      | yes lt ↦
          let (node, at) = get_elem?-some nodes c lt in
          let turned =
            sum_below-eq_lt (length nodes) (is_child t.nodes c) (λ m. count m node.dependencies)
              (λ m below.
                ap (count c) (children-dependents m below)
                ∙ ap (λ i. count i (dependents m 0 nodes)) (omega arith)
                ∙ count-dependents c m 0 nodes node at) in
          turned
          ∙ sum_below-count (length nodes) node.dependencies
              (AreNodes-get_elem? (length nodes) nodes c node are at).1
          ∙ sym (built-deps c node at)
      | no ge ↦
          sum_below-eq_lt (length nodes) (is_child t.nodes c) (λ m. 0)
            (λ m below.
              count-above t.nodes (length nodes) c (children_of t.nodes m) (children-AllBelow m)
                (omega arith))
          ∙ (sum_below-zero (length nodes) ∙ sym (no_deps c (omega arith)))
    ]

  -- What ConstructTree leaves can be executed.
  pub Constructed-IsTree :
      (nodes : List (TreeConstructorNode C)) (t : CommandTree C)
      → Constructed nodes t
      → length nodes ≤ max_nodes
      → AreNodes (length nodes) nodes
      → IsTree t.nodes × AreRoots t.nodes t.root_nodes
  Constructed-IsTree nodes t b few are = (
    record {
      few = omega (arith, b.places);
      counted = λ n node at.
          let (source, is) =
            get_elem?-some nodes n (omega (arith, some-length t.nodes n node at, b.places)) in
          let same = some-injective (built nodes n source) node (sym (b.node n source is) ∙ at) in
          subst (λ c. c.num_children ≡ length c.children) same refl;
      in_range = λ n k c at. omega (
        arith,
        AllBelow-get_elem? (length nodes) (children_of t.nodes n) k c
            (children-AllBelow nodes t b n) at,
        b.places,
      );
      edges = λ c. ap (λ n. sum_below n (is_child t.nodes c)) b.places ∙ edges_in nodes t b c are;
      small = λ c. elim (dec_lt c (length nodes)) [
        | yes lt ↦
            let (node, at) = get_elem?-some nodes c lt in
            omega (
              arith,
              built-deps nodes t b c node at,
              (AreNodes-get_elem? (length nodes) nodes c node are at).0,
            )
        | no ge ↦ omega (arith, no_deps nodes t b c (omega arith))
      ];
    },
    record {
      below =
          subst (λ n. AllBelow n t.root_nodes) (sym b.places)
            (subst (AllBelow (length nodes)) (sym b.roots)
              (roots_of-AllBelow (length nodes) 0 nodes (omega arith)));
      once = λ c lt.
          let (node, at) = get_elem?-some nodes c (omega (arith, b.places)) in
          ap (count c) b.roots
          ∙ ap (λ i. count i (roots_of 0 nodes)) (omega arith)
          ∙ count-roots_of c 0 nodes node at
          ∙ ap (λ d. if d == 0 then 1 else 0) (sym (built-deps nodes t b c node at));
    },
  )

  module _ (t : CommandTree C) (nodes : List (TreeConstructorNode C)) (at : t.state ≡ initialized)
      (few : length nodes ≤ max_nodes) (are : AreNodes (length nodes) nodes)
      (room : needed nodes ≤ t.buffer_size) where
    -- ConstructTree on an initialized tree whose buffer has room returns, for at most 256 nodes of
    -- at most 8 dependencies each, all of them indexes of nodes, a tree that can be executed: the
    -- edges that lead to a node from all nodes are as many as its dependencies, and its roots are
    -- the nodes without any, once each.
    pub construct_tree-IsTree :
        Returns (construct_tree t nodes) λ t'. IsTree t'.nodes × AreRoots t'.nodes t'.root_nodes
    construct_tree-IsTree =
        let (t', run, b) = construct_tree-Constructed t nodes at few are room in
        (t', run, Constructed-IsTree nodes t' b few are)

    -- For a tree that ConstructTree has put together from an initialized tree with room, of at most
    -- 256 nodes and at least one, with at most 8 dependencies each, all of them indexes of nodes:
    -- from the start of its execution with its roots, whatever steps the threads have done and
    -- whatever the commands returned, where a thread is about to run the command of a node, each
    -- dependency that the node was given has run its command and is telling its children.
    pub dependencies_first :
        (t' : CommandTree C) (k : ℕ) (s : Execution) (i c m d : ℕ) (node : TreeConstructorNode C)
        → construct_tree t nodes ≡ ok t'
        → 0 < length nodes
        → Reaches t'.nodes (start (length t'.nodes) t'.root_nodes) k s
        → get_elem? s.threads i ≡ some (c, cleared)
        → get_elem? nodes c ≡ some node
        → get_elem? node.dependencies m ≡ some d
        → (j : ℕ) × (told : ℕ) × (get_elem? s.threads j ≡ some (d, passing told))
    dependencies_first t' k s i c m d node run some_node r running named depends =
        let b =
          Returns-value (Constructed nodes) (construct_tree-Constructed t nodes at few are room)
            run in
        let (tree, roots) = Constructed-IsTree nodes t' b few are in
        let below =
          AllBelow-get_elem? (length nodes) node.dependencies m d
            (AreNodes-get_elem? (length nodes) nodes c node are named).1 depends in
        let child : is_child t'.nodes c d ≡ count d node.dependencies =
          ap (count c) (children-dependents nodes t' b d below)
          ∙ ap (λ i. count i (dependents d 0 nodes)) (omega arith)
          ∙ count-dependents c d 0 nodes node named in
        (commands_in_order t'.nodes t'.root_nodes k s i c tree roots
            (omega (arith, some_node, b.places)) r running).0
          d (omega (arith, below, b.places))
          (omega (arith, child, count-get_elem? node.dependencies m d depends))
