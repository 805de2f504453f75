-- ===== src/Containers/CommandTree/Execution/Outcome.antt =====
-- What CommandTree::ExecuteCommands brings about: the order of the commands, the end of the threads, and
-- what has happened then.
use yengine.Base.{
  ℕ, zero, suc, ◌+◌, ◌≤◌, ◌<◌, ◌≡◌, refl, sym, ap, ◌∙◌, List, [], ◌∷◌, some, arith, ◌==◌,
  if◌then◌else◌, length, get_elem?, take, eq→==, ne→==, dec_lt, ℕ_discrete, map, ok,
  get_or-replicate, length-replicate,
}
use mathlib.Core.Option.{some-injective, none-ne-some}
use yengine.Containers.CommandTree.{CommandNode}
use yengine.Containers.CommandTree.Loops.{count, AllBelow}
use yengine.Containers.CommandTree.Execution.{
  Phase, rooted, enqueued, started, cleared, failing, failed, ran, last, released, counted, stopped,
  passing, Execution, start, step,
}
use yengine.Containers.CommandTree.Execution.Sums.{
  total, total-get_elem?, total-found, sum_below, sum_below-tight, part, part-le, occurrence,
  NumbersBelow, total-parts, total-sum_below,
}
use yengine.Containers.CommandTree.Execution.Invariant.{
  IsTree, given, is_child, children_of, deps_of, count-take,
}
use yengine.Containers.CommandTree.Execution.Steps.{
  is_counted, is_failed, is_last, has_released, IsSound,
}
use yengine.Containers.CommandTree.Execution.Reach.{
  HasStep, Reaches, progress, step-IsSound, Reaches-IsSound,
}

length-take_le : {A : Type 0} (k : ℕ) (l : List A) → length (take k l) ≤ length l
length-take_le zero l = omega arith
length-take_le (suc k) [] = omega arith
length-take_le (suc k) (x ∷ l) = omega (arith, length-take_le k l)

module _ {B : Type 0} where
  -- Two items of one number at different indexes are two occurrences.
  total-twice :
      (g : B → ℕ) (xs : List B) (i j : ℕ) (x y : B)
      → get_elem? xs i ≡ some x
      → get_elem? xs j ≡ some y
      → 0 < g x
      → 0 < g y
      → total g xs ≤ 1
      → i ≡ j
  total-twice g [] i j x y at_i at_j some_x some_y one = absurd (none-ne-some x at_i)
  total-twice g (z ∷ xs) zero zero x y at_i at_j some_x some_y one = refl
  total-twice g (z ∷ xs) zero (suc j) x y at_i at_j some_x some_y one =
      let first = ap g (some-injective z x at_i) in
      absurd (omega (arith, total-get_elem? g xs j y at_j))
  total-twice g (z ∷ xs) (suc i) zero x y at_i at_j some_x some_y one =
      let first = ap g (some-injective z y at_j) in
      absurd (omega (arith, total-get_elem? g xs i x at_i))
  total-twice g (z ∷ xs) (suc i) (suc j) x y at_i at_j some_x some_y one =
      ap suc (total-twice g xs i j x y at_i at_j some_x some_y (omega arith))

  pub total-eq_at :
      (g h : B → ℕ) (xs : List B)
      → ((i : ℕ) (x : B) → get_elem? xs i ≡ some x → g x ≡ h x)
      → total g xs ≡ total h xs
  total-eq_at g h [] eq = refl
  total-eq_at g h (x ∷ xs) eq =
      omega (arith, eq zero x refl, total-eq_at g h xs (λ i y at. eq (suc i) y at))

pub sum_below-le_lt :
    (n : ℕ) (f g : ℕ → ℕ) → ((m : ℕ) → m < n → f m ≤ g m) → sum_below n f ≤ sum_below n g
sum_below-le_lt zero f g le = omega arith
sum_below-le_lt (suc n) f g le =
    omega (arith, le n (omega arith), sum_below-le_lt n f g (λ m lt. le m (omega arith)))

module _ {C : Type 0} (nodes : List (CommandNode C)) where
  -- The root nodes, each once: those without dependencies.
  pub record AreRoots (roots : List ℕ) : Type 0 where
    pub below : AllBelow (length nodes) roots
    pub once : (c : ℕ) → c < length nodes → count c roots ≡ (if deps_of nodes c == 0 then 1 else 0)

  abbrev pub rooted_at : ℕ → ℕ × Phase
  rooted_at root = (root, rooted)

  start-numbers : (n : ℕ) (roots : List ℕ) → AllBelow n roots → NumbersBelow n (map rooted_at roots)
  start-numbers n [] b = tt
  start-numbers n (r ∷ roots) b = (b.0, start-numbers n roots b.1)

  start-occurrences :
      (c : ℕ) (roots : List ℕ) → total (occurrence c) (map rooted_at roots) ≡ count c roots
  start-occurrences c [] = refl
  start-occurrences c (r ∷ roots) = ground (arith, start-occurrences c roots)

  start-zero :
      (f : ℕ × Phase → ℕ) (roots : List ℕ)
      → ((r : ℕ) → f (r, rooted) ≡ 0)
      → total f (map rooted_at roots) ≡ 0
  start-zero f [] z = refl
  start-zero f (r ∷ roots) z = omega (arith, z r, start-zero f roots z)

  pub count-above : (n c : ℕ) (roots : List ℕ) → AllBelow n roots → n ≤ c → count c roots ≡ 0
  count-above n c [] b h = refl
  count-above n c (r ∷ roots) b h = ground (arith, b.0, count-above n c roots b.1 h)

  pub start-IsSound :
      (roots : List ℕ)
      → AreRoots roots
      → 0 < length nodes
      → IsSound nodes (start (length nodes) roots)
  unfolding start
  start-IsSound roots are some_node =
      let occ = λ (c : ℕ). start-occurrences c roots in
      let giv = λ (c : ℕ). start-zero (given nodes c) roots (λ r. refl) in
      record {
        orderly = record {
          places = length-replicate (length nodes) 0;
          numbers = start-numbers (length nodes) roots are.below;
          once = λ c. elim (dec_lt c (length nodes)) [
            | yes lt ↦ ground (arith, occ c, are.once c lt)
            | no ge ↦
                omega (arith, occ c, count-above (length nodes) c roots are.below (omega arith))
          ];
          waiting = λ c lt free. (
            get_or-replicate (length nodes) c 0 ∙ sym (giv c),
            ground (arith, occ c, are.once c lt, giv c),
          );
          ready = λ c one. elim (dec_lt c (length nodes)) [
            | yes lt ↦ ground (arith, occ c, are.once c lt, giv c)
            | no ge ↦
                absurd
                  (omega (arith, occ c, count-above (length nodes) c roots are.below (omega arith)))
          ];
        };
        tallied = record {
          finished = sym (start-zero (λ t. is_counted t.1) roots (λ r. refl));
          failure = λ e. start-zero (λ t. is_failed t.1) roots (λ r. refl);
          ending =
              start-zero (λ t. is_last t.1) roots (λ r. refl)
              ∙ rw (ne→== 0 (length nodes) (omega arith)) refl;
          semaphore = sym (start-zero (λ t. has_released t.1) roots (λ r. refl));
        };
      }

  -- A thread that tells children has run its command.
  given-passing : (c : ℕ) (t : ℕ × Phase) → 0 < given nodes c t → (k : ℕ) × (t ≡ (t.0, passing k))
  given-passing c (n, rooted) h = absurd (omega (arith, h))
  given-passing c (n, enqueued) h = absurd (omega (arith, h))
  given-passing c (n, started) h = absurd (omega (arith, h))
  given-passing c (n, cleared) h = absurd (omega (arith, h))
  given-passing c (n, failing) h = absurd (omega (arith, h))
  given-passing c (n, failed) h = absurd (omega (arith, h))
  given-passing c (n, ran) h = absurd (omega (arith, h))
  given-passing c (n, last) h = absurd (omega (arith, h))
  given-passing c (n, released) h = absurd (omega (arith, h))
  given-passing c (n, counted) h = absurd (omega (arith, h))
  given-passing c (n, stopped) h = absurd (omega (arith, h))
  given-passing c (n, passing k) h = (k, refl)

  -- Whoever has a thread has been told by all that it depends on.
  told_by :
      (s : Execution) (i c d : ℕ) (phase : Phase)
      → IsTree nodes
      → IsSound nodes s
      → get_elem? s.threads i ≡ some (c, phase)
      → d < length nodes
      → 0 < is_child nodes c d
      → (j : ℕ) × (k : ℕ) × (get_elem? s.threads j ≡ some (d, passing k))
  told_by s i c d phase tree o at lt child =
      let there = total-get_elem? (occurrence c) s.threads i (c, phase) at in
      let own : ◌≡◌ {A = ℕ} (if c == c then 1 else 0) 1 = ground arith in
      let all = o.orderly.ready c (omega (arith, there, own, o.orderly.once c)) in
      let parts = total-parts (given nodes c) (length nodes) s.threads o.orderly.numbers in
      let tight =
        sum_below-tight (length nodes) (λ m. total (part (given nodes c) m) s.threads)
          (is_child nodes c)
          (λ m.
            part-le (given nodes c) (is_child nodes c) m s.threads
              (λ t. count-take c _ (children_of nodes t.0)) (o.orderly.once m))
          (omega (arith, parts, all, tree.edges c)) d lt in
      let (j, t, at_j, gave) =
        total-found (part (given nodes c) d) s.threads (omega (arith, tight)) in
      elim (ℕ_discrete t.0 d) [
        | no ne ↦ absurd (ground (arith, gave, ne→== t.0 d ne))
        | yes e ↦
            let (k, is) = given-passing c t (ground (arith, gave, eq→== t.0 d e)) in
            (j, k, at_j ∙ ap some (is ∙ ap (λ m. (m, passing k)) e))
      ]

  -- From the start of a tree that can be executed, with its roots, whatever steps the threads have
  -- done and whatever the commands returned, where a thread is about to run the command of a node,
  -- every node that it depends on has run its command and is telling its children, and no other
  -- thread is at the node.
  pub commands_in_order :
      (roots : List ℕ) (k : ℕ) (s : Execution) (i c : ℕ)
      → IsTree nodes
      → AreRoots roots
      → 0 < length nodes
      → Reaches nodes (start (length nodes) roots) k s
      → get_elem? s.threads i ≡ some (c, cleared)
      → ((d : ℕ)
          → d < length nodes
          → 0 < is_child nodes c d
          → (j : ℕ) × (told : ℕ) × (get_elem? s.threads j ≡ some (d, passing told)))
        × ((j : ℕ) (phase : Phase) → get_elem? s.threads j ≡ some (c, phase) → j ≡ i)
  commands_in_order roots k s i c tree are some_node r at =
      let o =
        (Reaches-IsSound nodes tree some_node _ s k (start-IsSound roots are some_node) r).0 in
      let own : ◌≡◌ {A = ℕ} (if c == c then 1 else 0) 1 = ground arith in
      (
        λ d lt child. told_by s i c d cleared tree o at lt child,
        λ j phase at_j.
            total-twice (occurrence c) s.threads j i (c, phase) (c, cleared) at_j at
              (omega (arith, own)) (omega (arith, own)) (o.orderly.once c),
      )

  progress-le : (t : ℕ × Phase) → progress nodes t ≤ 6 + length (children_of nodes t.0)
  progress-le (n, rooted) = omega arith
  progress-le (n, enqueued) = omega arith
  progress-le (n, started) = omega arith
  progress-le (n, cleared) = omega arith
  progress-le (n, failing) = omega arith
  progress-le (n, failed) = omega arith
  progress-le (n, ran) = omega arith
  progress-le (n, last) = omega arith
  progress-le (n, released) = omega arith
  progress-le (n, counted) = omega arith
  progress-le (n, stopped) = omega arith
  progress-le (n, passing k) = omega (arith, length-take_le k (children_of nodes n))

  -- From the start of a tree that can be executed, with its roots, the threads do at most six steps
  -- for each node and one for each of its children, and the next step of every thread that has one
  -- returns, so that no run fails to be enqueued.
  pub Reaches-le :
      (roots : List ℕ) (k : ℕ) (s : Execution)
      → IsTree nodes
      → AreRoots roots
      → 0 < length nodes
      → Reaches nodes (start (length nodes) roots) k s
      → (k ≤ sum_below (length nodes) (λ n. 6 + length (children_of nodes n)))
        × ((i ret n : ℕ) (phase : Phase)
            → HasStep nodes s i n phase
            → (s' : Execution) × (step nodes i ret s ≡ ok s'))
  Reaches-le roots k s tree are some_node r =
      let (o, done) =
        Reaches-IsSound nodes tree some_node _ s k (start-IsSound roots are some_node) r in
      let all =
        total-sum_below (progress nodes) (λ n. 6 + length (children_of nodes n)) (length nodes)
          s.threads o.orderly.numbers progress-le o.orderly.once in
      (
        omega arith,
        λ i ret n phase h.
            let (s', run, after) = step-IsSound nodes tree some_node s i ret n phase o h in
            (s', run),
      )
