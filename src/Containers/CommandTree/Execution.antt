-- ===== src/Containers/CommandTree/Execution.antt =====
-- CommandTree::CommandTreeThread of ycommon/containers/command_tree.cpp, and how ExecuteCommands starts
-- it: the steps of the threads in any order. What a step does stands between two accesses to what the
-- threads share.
pub mod Sums
pub mod Invariant
pub mod Passing
pub mod Steps
pub mod Reach
pub mod Outcome
pub mod Ending
pub mod Built
mod Tests
use yengine.Base.{
  ℕ, zero, suc, ◌+◌, ◌^◌, ◌≡◌, Bool, true, false, List, [], ◌∷◌, ◌++◌, map, Option, none, some, ltb,
  ◌==◌, if◌then◌else◌, length, get_elem?, set, replicate, Run, ok, fault, assertion, out_of_range,
  ◌>>=◌, ◌>>◌, assert, add32, word32,
}
use yengine.Containers.CommandTree.{CommandNode, max_nodes}

-- How far CommandTreeThread has come with a node. `rooted` is a root that ExecuteCommands has yet to
-- enqueue, `enqueued` a run that no thread has taken, `failing` and `last` are about to release the
-- semaphore, and `passing i` is about to look at child `i`.
pub data Phase : Type 0 where
  rooted enqueued started cleared failing failed ran last released counted stopped : Phase
  passing : ℕ → Phase

-- `finished` has mNumDependenciesFinished of every node, `releases` is how often the semaphore was
-- released, and a thread has the index of its node.
pub record Execution : Type 0 where
  pub finished : List ℕ
  pub num_nodes_finished : ℕ
  pub return_value : ℕ
  pub releases : ℕ
  pub threads : List (ℕ × Phase)

-- PrepareStart, and the loop over the root nodes
pub start : ℕ → List ℕ → Execution
start num_nodes root_nodes = record {
  finished = replicate num_nodes 0;
  num_nodes_finished = 0;
  return_value = 0;
  releases = 0;
  threads = map (λ root. (root, rooted)) root_nodes;
}

abbrev pub is_enqueued : Phase → ℕ
is_enqueued enqueued = 1
is_enqueued _ = 0

-- The runs that the thread pool holds.
abbrev pub num_enqueued : List (ℕ × Phase) → ℕ
num_enqueued [] = 0
num_enqueued (t ∷ ts) = is_enqueued t.1 + num_enqueued ts

abbrev pub minus_one : ℕ → ℕ
minus_one n = word32 (n + 0xffff_ffff)

module _ {C : Type 0} (nodes : List (CommandNode C)) where
  pub node_of : ℕ → Run (CommandNode C)
  node_of n = elim (get_elem? nodes n) [ none ↦ fault out_of_range | some node ↦ ok node ]

  -- A child that has one more dependency finished, and is enqueued if that was the last.
  pub pass_to : ℕ → Execution → Run Execution
  pass_to child s = do
    dep_node ← node_of child
    num_finished ← elim (get_elem? s.finished child) [ none ↦ fault out_of_range | some n ↦ ok n ]
    let s' = record s { finished = set s.finished child (add32 num_finished 1) }
    if num_finished == minus_one dep_node.num_dependencies
        then (do
          assert (ltb (num_enqueued s.threads) max_nodes)
          ok (record s' { threads = s.threads ++ (child, enqueued) ∷ [] }))
        else ok s'

  -- The next step of the thread at index `i`, which is in a phase; `ret_value` is what the command
  -- returns if it is the step that runs it. A thread that has ended does nothing.
  pub step_in : ℕ → ℕ → Execution → ℕ → Phase → Run Execution
  step_in i ret_value s n rooted = do
    assert (ltb (num_enqueued s.threads) max_nodes)
    ok (record s { threads = set s.threads i (n, enqueued) })
  step_in i ret_value s n enqueued = ok (record s { threads = set s.threads i (n, started) })
  step_in i ret_value s n started =
      ok (record s { threads = set s.threads i (n, cleared); finished = set s.finished n 0 })
  step_in i ret_value s n cleared = ok (
      if ret_value == 0
      then record s { threads = set s.threads i (n, ran) }
      else record s { threads = set s.threads i (n, failing); return_value = ret_value })
  step_in i ret_value s n failing =
      ok (record s { threads = set s.threads i (n, failed); releases = s.releases + 1 })
  step_in i ret_value s n ran =
      let phase = if s.num_nodes_finished == minus_one (length nodes) then last else counted in
      ok (record s {
        threads = set s.threads i (n, phase);
        num_nodes_finished = add32 s.num_nodes_finished 1;
      })
  step_in i ret_value s n last =
      ok (record s { threads = set s.threads i (n, released); releases = s.releases + 1 })
  step_in i ret_value s n counted =
      let phase = if s.return_value == 0 then passing 0 else stopped in
      ok (record s { threads = set s.threads i (n, phase) })
  step_in i ret_value s n (passing k) = do
    node ← node_of n
    if ltb k node.num_children
        then (do
          child ← elim (get_elem? node.children k) [ none ↦ fault out_of_range | some c ↦ ok c ]
          pass_to child (record s { threads = set s.threads i (n, passing (suc k)) }))
        else ok s
  step_in i ret_value s n failed = ok s
  step_in i ret_value s n released = ok s
  step_in i ret_value s n stopped = ok s

  pub step : ℕ → ℕ → Execution → Run Execution
  step i ret_value s = elim (get_elem? s.threads i) [
    | none ↦ fault out_of_range
    | some (n, phase) ↦ step_in i ret_value s n phase
  ]
