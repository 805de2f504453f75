-- ===== src/Containers/CommandTree/Execution/Reach.antt =====
-- What the threads of a CommandTree reach, in any order of their steps.
use yengine.Base.{
  ℕ, zero, suc, ◌+◌, ◌≤◌, ◌<◌, ◌≡◌, refl, ap, subst, ◌⊎◌, ◌∙◌, Bool, true, false, List, [], ◌∷◌,
  ◌++◌, some, arith, ltb, if◌then◌else◌, length, get_elem?, set, take, eq→==, ne→==, lt→ltb, inl,
  inr, ℕ_discrete, get_elem?-some, ok, Returns, Returns-value,
}
use yengine.Containers.CommandTree.{CommandNode}
use yengine.Containers.CommandTree.Execution.{
  Phase, rooted, enqueued, started, cleared, failing, failed, ran, last, released, counted, stopped,
  passing, Execution, node_of, step_in, step,
}
use yengine.Containers.CommandTree.Execution.Sums.{total, total-set, total-append}
use yengine.Containers.CommandTree.Execution.Invariant.{
  IsTree, children_of, children_of-some, NumbersBelow-get_elem?, room,
}
use yengine.Containers.CommandTree.Execution.Passing.{pass_to-IsPassed}
use yengine.Containers.CommandTree.Execution.Steps.{
  IsSound, is_running, same-IsTallied, quiet-IsSound, cleared-IsSound, failing-IsSound,
  releasing-IsSound, counting-IsSound, stopping-IsSound, grown-IsTallied,
}

the_true : false ≡ true → ⊥
the_true h = cc

length-take-suc :
    {A : Type 0} (l : List A) (k : ℕ)
    → k < length l
    → length (take (suc k) l) ≡ suc (length (take k l))
length-take-suc [] k h = absurd (omega arith)
length-take-suc (x ∷ l) zero h = refl
length-take-suc (x ∷ l) (suc k) h = ap suc (length-take-suc l k (omega arith))

-- The node and the phase of a thread that has a step to do.
abbrev pub HasStep : {C : Type 0} → List (CommandNode C) → Execution → ℕ → ℕ → Phase → Type 0
HasStep nodes s i n phase =
    (get_elem? s.threads i ≡ some (n, phase)) × (is_running nodes n phase ≡ true)

-- A state after this many steps of threads that had one to do, whatever the commands returned.
pub data Reaches {C : Type 0} (nodes : List (CommandNode C)) (begin : Execution)
    : ℕ → Execution → Type 0 where
  here : Reaches nodes begin zero begin
  next :
      (k : ℕ) (s s' : Execution) (i ret n : ℕ) (phase : Phase)
      → Reaches nodes begin k s
      → HasStep nodes s i n phase
      → step nodes i ret s ≡ ok s'
      → Reaches nodes begin (suc k) s'

module _ {C : Type 0} (nodes : List (CommandNode C)) where
  -- How many steps a thread has done, of those that lead to its phase.
  abbrev pub progress : ℕ × Phase → ℕ
  progress (n, rooted) = 0
  progress (n, enqueued) = 1
  progress (n, started) = 2
  progress (n, cleared) = 3
  progress (n, failing) = 4
  progress (n, ran) = 4
  progress (n, failed) = 5
  progress (n, last) = 5
  progress (n, counted) = 5
  progress (n, released) = 6
  progress (n, stopped) = 6
  progress (n, passing k) = 6 + length (take k (children_of nodes n))

  abbrev pub work : List (ℕ × Phase) → ℕ
  work threads = total progress threads

  -- What holds after a step.
  abbrev pub IsAfter : Execution → Execution → Type 0
  IsAfter s s' = IsSound nodes s' × (suc (work s.threads) ≤ work s'.threads)

  advance :
      (threads : List (ℕ × Phase)) (i n : ℕ) (phase phase' : Phase)
      → get_elem? threads i ≡ some (n, phase)
      → progress (n, phase') ≡ suc (progress (n, phase))
      → suc (work threads) ≤ work (set threads i (n, phase'))
  advance threads i n phase phase' at e =
      omega (arith, total-set progress threads i (n, phase) (n, phase') at, e)

  grown-work :
      (threads threads' : List (ℕ × Phase))
      → (threads' ≡ threads) ⊎ ((child : ℕ) × (threads' ≡ threads ++ (child, enqueued) ∷ []))
      → work threads ≤ work threads'
  grown-work threads threads' (inl e) = omega (arith, ap work e)
  grown-work threads threads' (inr (child, e)) =
      omega (arith, ap work e, total-append progress threads (child, enqueued))

  pick : (b : Bool) (n : ℕ) → progress (n, if b then last else counted) ≡ 5
  pick true n = refl
  pick false n = refl

  pick_passing : (b : Bool) (n : ℕ) → progress (n, if b then passing 0 else stopped) ≡ 6
  pick_passing true n = refl
  pick_passing false n = refl

module _ {C : Type 0} (nodes : List (CommandNode C)) (tree : IsTree nodes)
    (some_node : 0 < length nodes) where
  -- The next child of a thread that has one left.
  next_child :
      (n k : ℕ)
      → n < length nodes
      → k < length (children_of nodes n)
      → (node : CommandNode C) × (child : ℕ) × (get_elem? nodes n ≡ some node)
        × (ltb k node.num_children ≡ true)
        × (get_elem? node.children k ≡ some child)
        × (get_elem? (children_of nodes n) k ≡ some child)
  next_child n k below lt =
      let (node, at) = get_elem?-some nodes n below in
      let same = children_of-some nodes n node at in
      let inside : k < length node.children = subst (λ l. k < length l) same lt in
      let (child, is) = get_elem?-some node.children k inside in
      (
        node,
        child,
        at,
        lt→ltb _ _ (omega (arith, inside, tree.counted n node at)),
        is,
        ap (λ l. get_elem? l k) same ∙ is,
      )

  passing-IsSound :
      (s : Execution) (i ret n k : ℕ)
      → IsSound nodes s
      → HasStep nodes s i n (passing k)
      → Returns (step_in nodes i ret s n (passing k)) (IsAfter nodes s)
  unfolding step_in node_of
  passing-IsSound s i ret n k o (at, running) =
      let below =
        NumbersBelow-get_elem? (length nodes) s.threads i n (passing k) o.orderly.numbers at in
      let lt : k < length (children_of nodes n) = ground (arith, running) in
      let (node, child, is_node, test, is_child, child_of) = next_child n k below lt in
      let moved = record s { threads = set s.threads i (n, passing (suc k)) } in
      let (s', run, p) =
        pass_to-IsPassed nodes moved s.threads i n k child tree o.orderly at child_of refl in
      let t =
        same-IsTallied nodes tree some_node s.threads i n _ _ _ (passing k) (passing (suc k))
          o.tallied at refl refl refl refl in
      (
        s',
        rw (node_of, is_node, test, is_child) run,
        (
          record {
            orderly = p.orderly;
            tallied =
                rw (p.num_nodes_finished, p.return_value, p.releases)
                  (grown-IsTallied nodes tree some_node moved.threads s'.threads _ _ _ t p.grown);
          },
          omega (
            arith,
            advance nodes s.threads i n (passing k) (passing (suc k)) at
                (omega (arith, length-take-suc (children_of nodes n) k lt)),
            grown-work nodes moved.threads s'.threads p.grown,
          ),
        ),
      )

  step_in-IsSound :
      (s : Execution) (i ret n : ℕ) (phase : Phase)
      → IsSound nodes s
      → HasStep nodes s i n phase
      → Returns (step_in nodes i ret s n phase) (IsAfter nodes s)
  unfolding step_in
  step_in-IsSound s i ret n rooted o (at, running) =
      let free =
        room nodes s.threads i n rooted tree.few o.orderly.numbers o.orderly.once at refl in
      (
        _,
        rw (lt→ltb _ _ free) refl,
        (
          quiet-IsSound nodes tree some_node s i n rooted enqueued o at refl refl refl refl refl,
          advance nodes s.threads i n rooted enqueued at refl,
        ),
      )
  step_in-IsSound s i ret n enqueued o (at, running) = (
    _,
    refl,
    (
      quiet-IsSound nodes tree some_node s i n enqueued started o at refl refl refl refl refl,
      advance nodes s.threads i n enqueued started at refl,
    ),
  )
  step_in-IsSound s i ret n started o (at, running) = (
    _,
    refl,
    (
      cleared-IsSound nodes tree some_node s i n o at,
      advance nodes s.threads i n started cleared at refl,
    ),
  )
  step_in-IsSound s i ret n cleared o (at, running) = elim (ℕ_discrete ret 0) [
    | yes e ↦ (
      _,
      rw (eq→== ret 0 e) refl,
      (
        quiet-IsSound nodes tree some_node s i n cleared ran o at refl refl refl refl refl,
        advance nodes s.threads i n cleared ran at refl,
      ),
    )
    | no ne ↦ (
      _,
      rw (ne→== ret 0 ne) refl,
      (
        failing-IsSound nodes tree some_node s i n ret o at ne,
        advance nodes s.threads i n cleared failing at refl,
      ),
    )
  ]
  step_in-IsSound s i ret n failing o (at, running) = (
    _,
    refl,
    (
      releasing-IsSound nodes tree some_node s i n failing failed o at refl refl refl refl refl,
      advance nodes s.threads i n failing failed at refl,
    ),
  )
  step_in-IsSound s i ret n ran o (at, running) = (
    _,
    refl,
    (
      counting-IsSound nodes tree some_node s i n o at,
      advance nodes s.threads i n ran _ at (pick nodes _ n),
    ),
  )
  step_in-IsSound s i ret n last o (at, running) = (
    _,
    refl,
    (
      releasing-IsSound nodes tree some_node s i n last released o at refl refl refl refl refl,
      advance nodes s.threads i n last released at refl,
    ),
  )
  step_in-IsSound s i ret n counted o (at, running) = (
    _,
    refl,
    (
      stopping-IsSound nodes tree some_node s i n o at,
      advance nodes s.threads i n counted _ at (pick_passing nodes _ n),
    ),
  )
  step_in-IsSound s i ret n (passing k) o h = passing-IsSound s i ret n k o h
  step_in-IsSound s i ret n failed o (at, running) = absurd (the_true running)
  step_in-IsSound s i ret n released o (at, running) = absurd (the_true running)
  step_in-IsSound s i ret n stopped o (at, running) = absurd (the_true running)

  pub step-IsSound :
      (s : Execution) (i ret n : ℕ) (phase : Phase)
      → IsSound nodes s
      → HasStep nodes s i n phase
      → Returns (step nodes i ret s) (IsAfter nodes s)
  unfolding step
  step-IsSound s i ret n phase o h =
      let (s', run, sound) = step_in-IsSound s i ret n phase o h in (s', rw (step, h.0) run, sound)

  pub Reaches-IsSound :
      (begin s : Execution) (k : ℕ)
      → IsSound nodes begin
      → Reaches nodes begin k s
      → IsSound nodes s × (k + work nodes begin.threads ≤ work nodes s.threads)
  Reaches-IsSound begin s zero o here = (o, omega arith)
  Reaches-IsSound begin s (suc k) o (next _ s1 _ i ret n phase r h run) =
      let (o1, done) = Reaches-IsSound begin s1 k o r in
      let (o2, more) = Returns-value (IsAfter nodes s1) (step-IsSound s1 i ret n phase o1 h) run in
      (o2, omega (arith, done, more))
