-- ===== src/Containers/CommandTree/Tests.antt =====
-- A CommandTree of four nodes: the last waits for two that wait for the first.
use yengine.Base.{ℕ, ◌≡◌, refl, List, [], ◌∷◌, arith, ok, fault, assertion, Returns}
use yengine.Containers.CommandTree.{
  CommandTree, uninitialized, initialized, ready_to_execute, TreeConstructorNode, initialize,
  initialize_nodes, modify, add_child, put_child, count_child, assign_child, for_each, count_all,
  assign_all, construct_tree,
}
use yengine.Containers.CommandTree.Construct.{Constructed, construct_tree-Constructed}

program : Unit {0}
unfolding initialize initialize_nodes modify add_child put_child count_child assign_child for_each
    count_all assign_all construct_tree
program = tt

abbrev constructor_nodes : List (TreeConstructorNode ℕ)
constructor_nodes =
    record { command = 10; dependencies = [] }
    ∷ record { command = 11; dependencies = 0 ∷ [] }
    ∷ record { command = 12; dependencies = 0 ∷ [] }
    ∷ record { command = 13; dependencies = 1 ∷ 2 ∷ [] }
    ∷ []

abbrev empty_tree : CommandTree ℕ
empty_tree = record { buffer_size = 1000; state = initialized; nodes = []; root_nodes = [] }

initialize_run :
    initialize 200 16 24 (record empty_tree { buffer_size = 0; state = uninitialized }) 4 7408
    ≡ ok empty_tree
unfolding program
initialize_run = refl

construct_tree_run :
    construct_tree empty_tree constructor_nodes
    ≡ ok (record {
      buffer_size = 1000;
      state = ready_to_execute;
      nodes =
          record {
            command = 10;
            children = 1 ∷ 2 ∷ [];
            num_dependencies_finished = 0;
            num_dependencies = 0;
            num_children = 2;
          }
          ∷ record {
            command = 11;
            children = 3 ∷ [];
            num_dependencies_finished = 0;
            num_dependencies = 1;
            num_children = 1;
          }
          ∷ record {
            command = 12;
            children = 3 ∷ [];
            num_dependencies_finished = 0;
            num_dependencies = 1;
            num_children = 1;
          }
          ∷ record {
            command = 13;
            children = [];
            num_dependencies_finished = 0;
            num_dependencies = 2;
            num_children = 0;
          }
          ∷ [];
      root_nodes = 0 ∷ [];
    })
unfolding program
construct_tree_run = refl

construct_tree_no_node :
    construct_tree empty_tree (record { command = 10; dependencies = 1 ∷ [] } ∷ [])
    ≡ fault assertion
unfolding program
construct_tree_no_node = refl

construct_tree-Constructed_example :
    Returns (construct_tree empty_tree constructor_nodes) (Constructed constructor_nodes)
construct_tree-Constructed_example =
    construct_tree-Constructed empty_tree constructor_nodes refl (omega arith)
      (
        omega arith,
        tt,
        (
          omega arith,
          (omega arith, tt),
          (omega arith, (omega arith, tt), (omega arith, (omega arith, (omega arith, tt)), tt)),
        ),
      )
      (omega arith)
