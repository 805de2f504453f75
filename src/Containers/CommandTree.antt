-- ===== src/Containers/CommandTree.antt =====
-- class CommandTree of ycommon/containers/command_tree.h and command_tree.cpp: how the nodes are put
-- together and the tree is set up.
pub mod Loops
pub mod Passes
pub mod Construct
pub mod Execution
mod Tests
use yengine.Base.{
  ℕ, zero, suc, ◌+◌, ◌-◌, ◌*◌, Bool, true, false, List, [], ◌∷◌, ◌++◌, Option, none, some, leb, ltb,
  ◌==◌, if◌then◌else◌, length, get_elem?, set, Run, ok, fault, Fault, assertion, out_of_range,
  ◌>>=◌, ◌>>◌, require, assert, add32, add64,
}

abbrev pub max_depends : ℕ
max_depends = 8

abbrev pub max_nodes : ℕ
max_nodes = 256

-- sizeof(CommandNode) and sizeof(CommandNode*)
abbrev pub command_node_size : ℕ
command_node_size = 48

abbrev pub pointer_size : ℕ
pointer_size = 8

pub data CommandTreeState : Type 0 where
  uninitialized initialized ready_to_execute executing : CommandTreeState

abbrev pub is_initialized : CommandTreeState → Bool
is_initialized initialized = true
is_initialized _ = false

abbrev pub is_uninitialized : CommandTreeState → Bool
is_uninitialized uninitialized = true
is_uninitialized _ = false

-- `command` is the routine and its argument; mNumDependencies is the length of `dependencies`, the first
-- entries of mDependencies.
pub record TreeConstructorNode {ℓ} (C : Type ℓ) : Type ℓ where
  pub command : C
  pub dependencies : List ℕ

-- A pointer to a node is its index, and `children` has the entries of mChildren that are assigned.
pub record CommandNode {ℓ} (C : Type ℓ) : Type ℓ where
  pub command : C
  pub children : List ℕ
  pub num_dependencies_finished : ℕ
  pub num_dependencies : ℕ
  pub num_children : ℕ

pub record CommandTree {ℓ} (C : Type ℓ) : Type ℓ where
  pub buffer_size : ℕ
  pub state : CommandTreeState
  pub nodes : List (CommandNode C)
  pub root_nodes : List ℕ

module _ {ℓ} {C : Type ℓ} where
  -- The sizes of a ThreadPool, of a Thread and of a RunArgs are the platform's. They move a pointer, so
  -- they are added without going round, here and in `construct_tree`.
  pub initialize : ℕ → ℕ → ℕ → CommandTree C → ℕ → ℕ → Run (CommandTree C)
  initialize thread_pool_size thread_size run_args_size t num_threads buffer_size = do
    assert (is_uninitialized t.state)
    assert (leb thread_pool_size buffer_size)
    let used_buffer = thread_pool_size + (thread_size * num_threads + run_args_size * max_nodes)
    assert (leb used_buffer buffer_size)
    ok (record t { buffer_size = buffer_size - used_buffer; state = initialized })

  -- CommandNode::Initialize of every node
  pub initialize_nodes : List (TreeConstructorNode C) → Run (List (CommandNode C))
  initialize_nodes [] = ok []
  initialize_nodes (node ∷ nodes) = do
    assert (leb (length node.dependencies) max_depends)
    command_nodes ← initialize_nodes nodes
    ok (
        record {
          command = node.command;
          children = [];
          num_dependencies_finished = 0;
          num_dependencies = length node.dependencies;
          num_children = 0;
        }
        ∷ command_nodes)

  -- A change to the node at an index.
  pub modify :
      Fault
      → (CommandNode C → CommandNode C)
      → List (CommandNode C)
      → ℕ
      → Run (List (CommandNode C))
  modify why change command_nodes index = elim (get_elem? command_nodes index) [
    | none ↦ fault why
    | some node ↦ ok (set command_nodes index (change node))
  ]

  -- mNumChildren++
  pub add_child : CommandNode C → CommandNode C
  add_child node = record node { num_children = add32 node.num_children 1 }

  -- mChildren[children_node++] = &command_node
  pub put_child : ℕ → CommandNode C → CommandNode C
  put_child index node = record node { children = node.children ++ index ∷ [] }

  pub count_child : List (CommandNode C) → ℕ → Run (List (CommandNode C))
  count_child = modify assertion add_child

  -- The entry of current_children_nodes_array counts the children that are assigned, so it is the
  -- length of `children`.
  pub assign_child : ℕ → List (CommandNode C) → ℕ → Run (List (CommandNode C))
  assign_child index command_nodes dep_index = do
    require (ltb dep_index max_nodes) out_of_range
    modify out_of_range (put_child index) command_nodes dep_index

  -- for (uint8_t n = 0; n < num_dependencies; ++n)
  pub for_each :
      (List (CommandNode C) → ℕ → Run (List (CommandNode C)))
      → List ℕ
      → List (CommandNode C)
      → Run (List (CommandNode C))
  for_each step [] command_nodes = ok command_nodes
  for_each step (dependency ∷ dependencies) command_nodes = do
    command_nodes' ← step command_nodes dependency
    for_each step dependencies command_nodes'

  -- The first pass: the nodes with their children counted, the number of all dependencies and that of
  -- the root nodes.
  pub count_all :
      List (TreeConstructorNode C)
      → List (CommandNode C)
      → ℕ
      → ℕ
      → Run (List (CommandNode C) × ℕ × ℕ)
  count_all [] command_nodes total roots = ok (command_nodes, total, roots)
  count_all (node ∷ nodes) command_nodes total roots =
      if length node.dependencies == 0
      then count_all nodes command_nodes total (add64 roots 1)
      else do
        command_nodes' ← for_each count_child node.dependencies command_nodes
        count_all nodes command_nodes' (add64 total (length node.dependencies)) roots

  -- The last pass, from the node at an index on: the nodes with their children, and the root nodes.
  pub assign_all :
      List (TreeConstructorNode C)
      → ℕ
      → List (CommandNode C)
      → List ℕ
      → Run (List (CommandNode C) × List ℕ)
  assign_all [] index command_nodes roots = ok (command_nodes, roots)
  assign_all (node ∷ nodes) index command_nodes roots =
      if length node.dependencies == 0
      then assign_all nodes (index + 1) command_nodes (roots ++ index ∷ [])
      else do
        command_nodes' ← for_each (assign_child index) node.dependencies command_nodes
        assign_all nodes (index + 1) command_nodes' roots

  pub construct_tree : CommandTree C → List (TreeConstructorNode C) → Run (CommandTree C)
  construct_tree t nodes = do
    assert (is_initialized t.state)
    assert (leb (command_node_size * length nodes) t.buffer_size)
    command_nodes ← initialize_nodes nodes
    (counted, total, roots) ← count_all nodes command_nodes 0 0
    assert (leb (command_node_size * length nodes + roots * pointer_size) t.buffer_size)
    assert (
        leb (command_node_size * length nodes + roots * pointer_size + total * pointer_size)
          t.buffer_size)
    (assigned, root_nodes) ← assign_all nodes 0 counted []
    ok (record t { state = ready_to_execute; nodes = assigned; root_nodes = root_nodes })
