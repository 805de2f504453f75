-- ===== src/Containers/CommandTree/Execution/Tests.antt =====
-- A CommandTree of two nodes, the second of which depends on the first, built and executed.
use yengine.Base.{
  ℕ, zero, suc, ◌+◌, ◌≤◌, ◌<◌, ◌≡◌, refl, subst, false, List, [], ◌∷◌, arith, length, get_elem?, ok,
  some, Returns, Returns-value,
}
use mathlib.Core.Option.{some-injective, none-ne-some}
use yengine.Containers.CommandTree.{
  CommandNode, CommandTree, initialized, ready_to_execute, TreeConstructorNode, initialize_nodes,
  modify, add_child, put_child, count_child, assign_child, for_each, count_all, assign_all,
  construct_tree,
}
use yengine.Containers.CommandTree.Passes.{AreNodes}
use yengine.Containers.CommandTree.Construct.{Constructed, construct_tree-Constructed}
use yengine.Containers.CommandTree.Execution.{
  Phase, rooted, enqueued, started, cleared, ran, last, released, counted, passing, Execution,
  start, node_of, pass_to, step_in, step,
}
use yengine.Containers.CommandTree.Execution.Sums.{sum_below}
use yengine.Containers.CommandTree.Execution.Invariant.{IsTree, is_child, children_of}
use yengine.Containers.CommandTree.Execution.Steps.{is_counted, is_running}
use yengine.Containers.CommandTree.Execution.Reach.{HasStep, Reaches, here, next}
use yengine.Containers.CommandTree.Execution.Outcome.{AreRoots, commands_in_order, Reaches-le}
use yengine.Containers.CommandTree.Execution.Ending.{HasEnded, ended-Finished}
use yengine.Containers.CommandTree.Execution.Built.{
  Constructed-IsTree, construct_tree-IsTree, dependencies_first,
}

program : Unit {0}
unfolding initialize_nodes modify add_child put_child count_child assign_child for_each count_all
    assign_all construct_tree start node_of pass_to step_in step
program = tt

abbrev constructor_nodes : List (TreeConstructorNode ℕ)
constructor_nodes =
    record { command = 10; dependencies = [] } ∷ record { command = 11; dependencies = 0 ∷ [] } ∷ []

abbrev tree_nodes : List (CommandNode ℕ)
tree_nodes =
    record {
      command = 10;
      children = 1 ∷ [];
      num_dependencies_finished = 0;
      num_dependencies = 0;
      num_children = 1;
    }
    ∷ record {
      command = 11;
      children = [];
      num_dependencies_finished = 0;
      num_dependencies = 1;
      num_children = 0;
    }
    ∷ []

abbrev unbuilt : CommandTree ℕ
unbuilt = record { buffer_size = 1000; state = initialized; nodes = []; root_nodes = [] }

abbrev built_tree : CommandTree ℕ
built_tree = record {
  buffer_size = 1000;
  state = ready_to_execute;
  nodes = tree_nodes;
  root_nodes = 0 ∷ [];
}

construct-run : construct_tree unbuilt constructor_nodes ≡ ok built_tree
unfolding program
construct-run = refl

nodes-AreNodes : AreNodes 2 constructor_nodes
nodes-AreNodes = (omega arith, tt, (omega arith, (omega arith, tt), tt))

tree-Constructed : Constructed constructor_nodes built_tree
tree-Constructed =
    Returns-value (Constructed constructor_nodes)
      (construct_tree-Constructed unbuilt constructor_nodes refl (omega arith) nodes-AreNodes
        (omega arith))
      construct-run

tree-IsTree : IsTree tree_nodes × AreRoots tree_nodes (0 ∷ [])
tree-IsTree =
    Constructed-IsTree constructor_nodes built_tree tree-Constructed (omega arith) nodes-AreNodes

abbrev begin : Execution
begin = start 2 (0 ∷ [])

abbrev at_state : List (ℕ × Phase) → List ℕ → ℕ → ℕ → Execution
at_state threads finished num_nodes_finished releases = record {
  finished = finished;
  num_nodes_finished = num_nodes_finished;
  return_value = 0;
  releases = releases;
  threads = threads;
}

reach1 : Reaches tree_nodes begin 1 (at_state ((0, enqueued) ∷ []) (0 ∷ 0 ∷ []) 0 0)
unfolding program
reach1 = next 0 _ _ 0 0 0 rooted here (refl, refl) refl

reach2 : Reaches tree_nodes begin 2 (at_state ((0, started) ∷ []) (0 ∷ 0 ∷ []) 0 0)
unfolding program
reach2 = next 1 _ _ 0 0 0 enqueued reach1 (refl, refl) refl

reach3 : Reaches tree_nodes begin 3 (at_state ((0, cleared) ∷ []) (0 ∷ 0 ∷ []) 0 0)
unfolding program
reach3 = next 2 _ _ 0 0 0 started reach2 (refl, refl) refl

reach4 : Reaches tree_nodes begin 4 (at_state ((0, ran) ∷ []) (0 ∷ 0 ∷ []) 0 0)
unfolding program
reach4 = next 3 _ _ 0 0 0 cleared reach3 (refl, refl) refl

reach5 : Reaches tree_nodes begin 5 (at_state ((0, counted) ∷ []) (0 ∷ 0 ∷ []) 1 0)
unfolding program
reach5 = next 4 _ _ 0 0 0 ran reach4 (refl, refl) refl

reach6 : Reaches tree_nodes begin 6 (at_state ((0, passing 0) ∷ []) (0 ∷ 0 ∷ []) 1 0)
unfolding program
reach6 = next 5 _ _ 0 0 0 counted reach5 (refl, refl) refl

reach7 :
    Reaches tree_nodes begin 7 (at_state ((0, passing 1) ∷ (1, enqueued) ∷ []) (0 ∷ 1 ∷ []) 1 0)
unfolding program
reach7 = next 6 _ _ 0 0 0 (passing 0) reach6 (refl, refl) refl

reach8 : Reaches tree_nodes begin 8 (at_state ((0, passing 1) ∷ (1, started) ∷ []) (0 ∷ 1 ∷ []) 1 0)
unfolding program
reach8 = next 7 _ _ 1 0 1 enqueued reach7 (refl, refl) refl

reach9 : Reaches tree_nodes begin 9 (at_state ((0, passing 1) ∷ (1, cleared) ∷ []) (0 ∷ 0 ∷ []) 1 0)
unfolding program
reach9 = next 8 _ _ 1 0 1 started reach8 (refl, refl) refl

reach10 : Reaches tree_nodes begin 10 (at_state ((0, passing 1) ∷ (1, ran) ∷ []) (0 ∷ 0 ∷ []) 1 0)
unfolding program
reach10 = next 9 _ _ 1 0 1 cleared reach9 (refl, refl) refl

reach11 : Reaches tree_nodes begin 11 (at_state ((0, passing 1) ∷ (1, last) ∷ []) (0 ∷ 0 ∷ []) 2 0)
unfolding program
reach11 = next 10 _ _ 1 0 1 ran reach10 (refl, refl) refl

reach12 :
    Reaches tree_nodes begin 12 (at_state ((0, passing 1) ∷ (1, released) ∷ []) (0 ∷ 0 ∷ []) 2 1)
unfolding program
reach12 = next 11 _ _ 1 0 1 last reach11 (refl, refl) refl

abbrev waiting : Execution
waiting = at_state ((0, passing 1) ∷ (1, cleared) ∷ []) (0 ∷ 0 ∷ []) 1 0

abbrev over : Execution
over = at_state ((0, passing 1) ∷ (1, released) ∷ []) (0 ∷ 0 ∷ []) 2 1

commands_in_order_example :
    ((d : ℕ)
      → d < 2
      → 0 < is_child tree_nodes 1 d
      → (j : ℕ) × (told : ℕ) × (get_elem? waiting.threads j ≡ some (d, passing told)))
    × ((j : ℕ) (phase : Phase) → get_elem? waiting.threads j ≡ some (1, phase) → j ≡ 1)
commands_in_order_example =
    commands_in_order tree_nodes (0 ∷ []) 9 waiting 1 1 tree-IsTree.0 tree-IsTree.1 (omega arith)
      reach9 refl

Reaches-le_example :
    (9 ≤ sum_below 2 (λ n. 6 + length (children_of tree_nodes n)))
    × ((i ret n : ℕ) (phase : Phase)
        → HasStep tree_nodes waiting i n phase
        → (s' : Execution) × (step tree_nodes i ret waiting ≡ ok s'))
Reaches-le_example =
    Reaches-le tree_nodes (0 ∷ []) 9 waiting tree-IsTree.0 tree-IsTree.1 (omega arith) reach9

over-HasEnded : HasEnded tree_nodes over
over-HasEnded zero n phase at =
    subst (λ (t : ℕ × Phase). is_running tree_nodes t.0 t.1 ≡ false)
      (some-injective (0, passing 1) (n, phase) at) refl
over-HasEnded (suc zero) n phase at =
    subst (λ (t : ℕ × Phase). is_running tree_nodes t.0 t.1 ≡ false)
      (some-injective (1, released) (n, phase) at) refl
over-HasEnded (suc (suc i)) n phase at = absurd (none-ne-some (n, phase) at)

-- The rank of a node is its index.
rank_of : (c d : ℕ) → 0 < is_child tree_nodes c d → d < c
rank_of zero zero h = absurd (omega (arith, h))
rank_of (suc c) zero h = omega arith
rank_of c (suc zero) h = absurd (omega (arith, h))
rank_of c (suc (suc d)) h = absurd (omega (arith, h))

ended-Finished_example :
    (over.num_nodes_finished ≡ 2)
    × (over.releases ≡ 1)
    × ((c : ℕ)
        → c < 2
        → (i : ℕ) × (phase : Phase) × (get_elem? over.threads i ≡ some (c, phase))
          × (is_counted phase ≡ 1))
ended-Finished_example =
    ended-Finished tree_nodes (0 ∷ []) 12 over (λ n. n) tree-IsTree.0 tree-IsTree.1 (omega arith)
      rank_of reach12 over-HasEnded refl

construct_tree-IsTree_example :
    Returns
      (construct_tree unbuilt constructor_nodes)
      λ t'. IsTree t'.nodes × AreRoots t'.nodes t'.root_nodes
construct_tree-IsTree_example =
    construct_tree-IsTree unbuilt constructor_nodes refl (omega arith) nodes-AreNodes (omega arith)

dependencies_first_example :
    (j : ℕ) × (told : ℕ) × (get_elem? waiting.threads j ≡ some (0, passing told))
dependencies_first_example =
    dependencies_first unbuilt constructor_nodes refl (omega arith) nodes-AreNodes (omega arith)
      built_tree 9 waiting 1 1 0 0 (record { command = 11; dependencies = 0 ∷ [] }) construct-run
      (omega arith) reach9 refl refl refl
