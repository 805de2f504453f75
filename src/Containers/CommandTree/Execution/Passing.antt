-- ===== src/Containers/CommandTree/Execution/Passing.antt =====
-- A thread of a CommandTree tells a child that its node is finished.
use yengine.Base.{
  ℕ, zero, suc, ◌≤◌, ◌<◌, ◌≡◌, refl, sym, subst, ◌≢◌, ◌∙◌, true, false, List, [], ◌∷◌, ◌++◌, some,
  arith, ◌==◌, if◌then◌else◌, length, get_elem?, get_or, set, eq→==, ne→==, lt→ltb, inl, inr, ◌⊎◌,
  ℕ_discrete, get_or-set, length-set, get_elem?-some, get_elem?-set_self, some-length, Returns,
  add32,
}
use yengine.Containers.CommandTree.{CommandNode, max_nodes}
use yengine.Containers.CommandTree.Execution.{
  Phase, enqueued, passing, num_enqueued, minus_one, Execution, node_of, pass_to,
}
use yengine.Containers.CommandTree.Execution.Sums.{
  total, total-append, total-set, occurrence, NumbersBelow, total-sum_below,
}
use yengine.Containers.CommandTree.Execution.Invariant.{
  IsTree, IsOrderly, given, is_child, children_of, deps_of, deps_of-some, count-take,
  count-take-suc, NumbersBelow-set, NumbersBelow-append, room,
}

get_or-get_elem? : (xs : List ℕ) (i : ℕ) → i < length xs → get_elem? xs i ≡ some (get_or xs i 0)
get_or-get_elem? [] i h = absurd (omega arith)
get_or-get_elem? (x ∷ xs) zero h = refl
get_or-get_elem? (x ∷ xs) (suc i) h = get_or-get_elem? xs i (omega arith)

module _ {C : Type 0} (nodes : List (CommandNode C)) where
  -- A child that has a node to be told of.
  pub record IsTold (finished : List ℕ) (threads threads' : List (ℕ × Phase)) (child : ℕ)
      : Type 0 where
    pub free : total (occurrence child) threads ≡ 0
    pub counter : get_or finished child 0 ≡ total (given nodes child) threads
    pub more : total (given nodes child) threads' ≡ suc (total (given nodes child) threads)
    pub others :
        (c : ℕ) → c ≢ child → total (given nodes c) threads' ≡ total (given nodes c) threads
    pub within : total (given nodes child) threads' ≤ deps_of nodes child
    pub same : (c : ℕ) → total (occurrence c) threads' ≡ total (occurrence c) threads
    pub numbers : NumbersBelow (length nodes) threads'

  pub passing-IsTold :
      (finished : List ℕ) (threads : List (ℕ × Phase)) (i n k child : ℕ)
      → IsTree nodes
      → IsOrderly nodes finished threads
      → get_elem? threads i ≡ some (n, passing k)
      → get_elem? (children_of nodes n) k ≡ some child
      → IsTold finished threads (set threads i (n, passing (suc k))) child
  passing-IsTold finished threads i n k child tree o at is =
      let threads' = set threads i (n, passing (suc k)) in
      let occ =
        λ (c : ℕ). total-set (occurrence c) threads i (n, passing k) (n, passing (suc k)) at in
      let giv =
        λ (c : ℕ). total-set (given nodes c) threads i (n, passing k) (n, passing (suc k)) at in
      let told = λ (c : ℕ). count-take-suc c k (children_of nodes n) child is in
      let numbers =
        NumbersBelow-set (length nodes) threads i n (passing k) (passing (suc k)) o.numbers at in
      let within =
        total-sum_below (given nodes child) (is_child nodes child) (length nodes) threads' numbers
          (λ t. count-take child _ (children_of nodes t.0)) (λ c. omega (arith, occ c, o.once c)) in
      let limit : total (given nodes child) threads' ≤ deps_of nodes child =
        omega (arith, tree.edges child) in
      let self : ◌≡◌ {A = ℕ} (if child == child then 1 else 0) 1 = ground arith in
      let more : total (given nodes child) threads' ≡ suc (total (given nodes child) threads) =
        omega (arith, giv child, told child, self) in
      let free : total (occurrence child) threads ≡ 0 =
        elim (ℕ_discrete (total (occurrence child) threads) 1) [
          | yes one ↦ absurd (omega (arith, o.ready child one))
          | no ne ↦ omega (arith, o.once child)
        ] in
      record {
        free = free;
        counter = (o.waiting child (tree.in_range n k child is) free).0;
        more = more;
        others = λ c ne.
            let other = ne→== c child ne in
            let none_more : ◌≡◌ {A = ℕ} (if c == child then 1 else 0) 0 = rw other refl in
            omega (arith, giv c, told c, none_more);
        within = limit;
        same = λ c. omega (arith, occ c);
        numbers = numbers;
      }

  -- It was not the last.
  told-IsOrderly :
      (finished : List ℕ) (threads threads' : List (ℕ × Phase)) (child m : ℕ)
      → IsOrderly nodes finished threads
      → IsTold finished threads threads' child
      → child < length nodes
      → m ≡ suc (get_or finished child 0)
      → m < deps_of nodes child
      → IsOrderly nodes (set finished child m) threads'
  told-IsOrderly finished threads threads' child m o t lt m_is not_last =
      let write = λ (c : ℕ). get_or-set finished child c m 0 (omega (arith, o.places)) in
      record {
        places = length-set finished child m ∙ o.places;
        numbers = t.numbers;
        once = λ c. omega (arith, t.same c, o.once c);
        waiting = λ c below none_there. elim (ℕ_discrete c child) [
          | yes e ↦ (
            write c ∙ rw (eq→== child c (sym e), e) (omega (arith, m_is, t.counter, t.more)),
            rw e (omega (arith, m_is, t.counter, t.more)),
          )
          | no ne ↦
              let (is, less) = o.waiting c below (omega (arith, t.same c)) in
              (
                write c ∙ rw (ne→== child c (λ e. ne (sym e))) (omega (arith, is, t.others c ne)),
                omega (arith, less, t.others c ne),
              )
        ];
        ready = λ c one. elim (ℕ_discrete c child) [
          | yes e ↦ absurd (
              omega (
                arith,
                t.free,
                subst (λ d. total (occurrence d) threads ≡ 1) e (omega (arith, t.same c)),
              ))
          | no ne ↦ omega (arith, t.others c ne, o.ready c (omega (arith, t.same c)))
        ];
      }

  -- It was the last, and the child is enqueued.
  last_told-IsOrderly :
      (finished : List ℕ) (threads threads' : List (ℕ × Phase)) (child m : ℕ)
      → IsOrderly nodes finished threads
      → IsTold finished threads threads' child
      → child < length nodes
      → m ≡ suc (get_or finished child 0)
      → m ≡ deps_of nodes child
      → IsOrderly nodes (set finished child m) (threads' ++ (child, enqueued) ∷ [])
  last_told-IsOrderly finished threads threads' child m o t lt m_is is_last =
      let write = λ (c : ℕ). get_or-set finished child c m 0 (omega (arith, o.places)) in
      let new : ℕ × Phase = (child, enqueued) in
      let occ = λ (c : ℕ). total-append (occurrence c) threads' new in
      let giv : (c : ℕ)
          → total (given nodes c) (threads' ++ new ∷ []) ≡ total (given nodes c) threads' =
        λ c. omega (arith, total-append (given nodes c) threads' new) in
      let own : ◌≡◌ {A = ℕ} (if child == child then 1 else 0) 1 = ground arith in
      record {
        places = length-set finished child m ∙ o.places;
        numbers = NumbersBelow-append (length nodes) threads' child enqueued t.numbers lt;
        once = λ c. elim (ℕ_discrete c child) [
          | yes e ↦
              subst (λ d. total (occurrence d) (threads' ++ new ∷ []) ≤ 1) (sym e)
                (omega (arith, occ child, own, t.same child, t.free))
          | no ne ↦
              let other : ◌≡◌ {A = ℕ} (if child == c then 1 else 0) 0 =
                rw (ne→== child c (λ e. ne (sym e))) refl in
              omega (arith, occ c, other, t.same c, o.once c)
        ];
        waiting = λ c below none_there. elim (ℕ_discrete c child) [
          | yes e ↦ absurd (
              omega (
                arith,
                own,
                occ child,
                subst (λ d. total (occurrence d) (threads' ++ new ∷ []) ≡ 0) e none_there,
              ))
          | no ne ↦
              let (is, less) = o.waiting c below (omega (arith, occ c, t.same c)) in
              (
                write c
                    ∙ rw (ne→== child c (λ e. ne (sym e)))
                        (omega (arith, is, giv c, t.others c ne)),
                omega (arith, less, giv c, t.others c ne),
              )
        ];
        ready = λ c one. elim (ℕ_discrete c child) [
          | yes e ↦
              subst (λ d. total (given nodes d) (threads' ++ new ∷ []) ≡ deps_of nodes d) (sym e)
                (omega (arith, giv child, m_is, is_last, t.counter, t.more))
          | no ne ↦
              let other : ◌≡◌ {A = ℕ} (if child == c then 1 else 0) 0 =
                rw (ne→== child c (λ e. ne (sym e))) refl in
              omega (arith, giv c, t.others c ne, o.ready c (omega (arith, occ c, other, t.same c)))
        ];
      }

  -- What a thread that tells a child leaves, and whether it enqueues a run.
  pub record IsPassed (s s' : Execution) : Type 0 where
    pub orderly : IsOrderly nodes s'.finished s'.threads
    pub grown :
        (s'.threads ≡ s.threads)
        ⊎ ((child : ℕ) × (s'.threads ≡ s.threads ++ (child, enqueued) ∷ []))
    pub return_value : s'.return_value ≡ s.return_value
    pub num_nodes_finished : s'.num_nodes_finished ≡ s.num_nodes_finished
    pub releases : s'.releases ≡ s.releases

  pub pass_to-IsPassed :
      (s : Execution) (threads : List (ℕ × Phase)) (i n k child : ℕ)
      → IsTree nodes
      → IsOrderly nodes s.finished threads
      → get_elem? threads i ≡ some (n, passing k)
      → get_elem? (children_of nodes n) k ≡ some child
      → s.threads ≡ set threads i (n, passing (suc k))
      → Returns (pass_to nodes child s) (IsPassed s)
  unfolding pass_to node_of
  pass_to-IsPassed s threads i n k child tree o at is threads_are =
      let t = passing-IsTold s.finished threads i n k child tree o at is in
      let lt = tree.in_range n k child is in
      let (node, node_is) = get_elem?-some nodes child lt in
      let deps = deps_of-some nodes child node node_is in
      let old = get_or s.finished child 0 in
      let m = add32 old 1 in
      let m_is : m ≡ suc old = omega (arith, t.counter, t.more, t.within, tree.small child) in
      let read = get_or-get_elem? s.finished child (omega (arith, o.places)) in
      let there =
        get_elem?-set_self threads i (n, passing (suc k))
          (some-length threads i (n, passing k) at) in
      let free_room : num_enqueued s.threads < max_nodes =
        subst (λ ts. num_enqueued ts < max_nodes) (sym threads_are)
          (room nodes (set threads i (n, passing (suc k))) i n (passing (suc k)) tree.few t.numbers
            (λ c. omega (arith, t.same c, o.once c)) there refl) in
      elim (ℕ_discrete m (deps_of nodes child)) [
        | yes is_last ↦
            let test : (old == minus_one node.num_dependencies) ≡ true =
              eq→== _ _ (omega (arith, m_is, is_last, deps, tree.small child)) in
            (
              record s {
                finished = set s.finished child m;
                threads = s.threads ++ (child, enqueued) ∷ [];
              },
              rw (node_of, node_is, read, test, lt→ltb (num_enqueued s.threads) max_nodes free_room)
                  refl,
              record {
                orderly =
                    rw threads_are
                      (last_told-IsOrderly s.finished threads _ child m o t lt m_is is_last);
                grown = inr (child, refl);
                return_value = refl;
                num_nodes_finished = refl;
                releases = refl;
              },
            )
        | no more_left ↦
            let test : (old == minus_one node.num_dependencies) ≡ false = ne→== _ _ (
              omega
                (arith, m_is, more_left, deps, t.counter, t.more, t.within, tree.small child)) in
            (
              record s { finished = set s.finished child m },
              rw (node_of, node_is, read, test) refl,
              record {
                orderly = rw threads_are (
                    told-IsOrderly s.finished threads _ child m o t lt m_is
                      (omega (arith, m_is, t.counter, t.more, t.within, more_left)));
                grown = inl refl;
                return_value = refl;
                num_nodes_finished = refl;
                releases = refl;
              },
            )
      ]
