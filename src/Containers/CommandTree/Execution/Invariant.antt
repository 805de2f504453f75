-- ===== src/Containers/CommandTree/Execution/Invariant.antt =====
-- What holds of the threads of a CommandTree and of the counters of its nodes.
use yengine.Base.{
  ℕ, zero, suc, ◌+◌, ◌≤◌, ◌<◌, ◌≡◌, refl, ap, subst, ◌≢◌, ◌∙◌, List, [], ◌∷◌, ◌++◌, none, some,
  arith, ◌==◌, if◌then◌else◌, length, get_elem?, get_or, set, take,
}
use mathlib.Core.Option.{some-injective, none-ne-some}
use yengine.Containers.CommandTree.{CommandNode, max_nodes, max_depends}
use yengine.Containers.CommandTree.Loops.{count}
use yengine.Containers.CommandTree.Execution.{
  Phase, rooted, enqueued, started, cleared, failing, failed, ran, last, released, counted, stopped,
  passing, is_enqueued, num_enqueued,
}
use yengine.Containers.CommandTree.Execution.Sums.{
  total, total-set, total-get_elem?, sum_below, sum_below-one, occurrence, NumbersBelow,
  total-sum_below,
}

abbrev pub passed : Phase → ℕ
passed (passing k) = k
passed _ = 0

is_enqueued-le : (t : ℕ × Phase) → is_enqueued t.1 ≤ 1
is_enqueued-le (n, rooted) = omega arith
is_enqueued-le (n, enqueued) = omega arith
is_enqueued-le (n, started) = omega arith
is_enqueued-le (n, cleared) = omega arith
is_enqueued-le (n, failing) = omega arith
is_enqueued-le (n, failed) = omega arith
is_enqueued-le (n, ran) = omega arith
is_enqueued-le (n, last) = omega arith
is_enqueued-le (n, released) = omega arith
is_enqueued-le (n, counted) = omega arith
is_enqueued-le (n, stopped) = omega arith
is_enqueued-le (n, passing k) = omega arith

num_enqueued-total : (ts : List (ℕ × Phase)) → num_enqueued ts ≡ total (λ t. is_enqueued t.1) ts
num_enqueued-total [] = refl
num_enqueued-total (t ∷ ts) = omega (arith, num_enqueued-total ts)

module _ {B : Type 0} where
  pub NumbersBelow-set :
      (n : ℕ) (ts : List (ℕ × B)) (i m : ℕ) (b b' : B)
      → NumbersBelow n ts
      → get_elem? ts i ≡ some (m, b)
      → NumbersBelow n (set ts i (m, b'))
  NumbersBelow-set n [] i m b b' h at = tt
  NumbersBelow-set n (t ∷ ts) zero m b b' h at =
      (subst (λ (t : ℕ × B). t.0 < n) (some-injective t (m, b) at) h.0, h.1)
  NumbersBelow-set n (t ∷ ts) (suc i) m b b' h at = (h.0, NumbersBelow-set n ts i m b b' h.1 at)

  pub NumbersBelow-append :
      (n : ℕ) (ts : List (ℕ × B)) (m : ℕ) (b : B)
      → NumbersBelow n ts
      → m < n
      → NumbersBelow n (ts ++ (m, b) ∷ [])
  NumbersBelow-append n [] m b h lt = (lt, tt)
  NumbersBelow-append n (t ∷ ts) m b h lt = (h.0, NumbersBelow-append n ts m b h.1 lt)

  pub NumbersBelow-get_elem? :
      (n : ℕ) (ts : List (ℕ × B)) (i m : ℕ) (b : B)
      → NumbersBelow n ts
      → get_elem? ts i ≡ some (m, b)
      → m < n
  NumbersBelow-get_elem? n [] i m b h at = absurd (none-ne-some (m, b) at)
  NumbersBelow-get_elem? n (t ∷ ts) zero m b h at =
      subst (λ (t : ℕ × B). t.0 < n) (some-injective t (m, b) at) h.0
  NumbersBelow-get_elem? n (t ∷ ts) (suc i) m b h at = NumbersBelow-get_elem? n ts i m b h.1 at

pub count-take : (c : ℕ) (k : ℕ) (l : List ℕ) → count c (take k l) ≤ count c l
count-take c zero l = omega arith
count-take c (suc k) [] = omega arith
count-take c (suc k) (d ∷ l) = ground (arith, count-take c k l)

pub count-take-suc :
    (c k : ℕ) (l : List ℕ) (d : ℕ)
    → get_elem? l k ≡ some d
    → count c (take (suc k) l) ≡ count c (take k l) + (if c == d then 1 else 0)
count-take-suc c k [] d at = absurd (none-ne-some d at)
count-take-suc c zero (e ∷ l) d at = let same = some-injective e d at in ground arith
count-take-suc c (suc k) (e ∷ l) d at = ground (arith, count-take-suc c k l d at)

module _ {C : Type 0} (nodes : List (CommandNode C)) where
  abbrev pub children_of : ℕ → List ℕ
  children_of n = elim (get_elem? nodes n) [ none ↦ [] | some node ↦ node.children ]

  abbrev pub deps_of : ℕ → ℕ
  deps_of n = elim (get_elem? nodes n) [ none ↦ 0 | some node ↦ node.num_dependencies ]

  pub deps_of-some :
      (n : ℕ) (node : CommandNode C)
      → get_elem? nodes n ≡ some node
      → deps_of n ≡ node.num_dependencies
  deps_of-some n node at = rw (at, deps_of) refl

  pub children_of-some :
      (n : ℕ) (node : CommandNode C) → get_elem? nodes n ≡ some node → children_of n ≡ node.children
  children_of-some n node at = rw (at, children_of) refl

  -- How often a thread has told a child that its node is finished.
  abbrev pub given : ℕ → ℕ × Phase → ℕ
  given c t = count c (take (passed t.1) (children_of t.0))

  abbrev pub is_child : ℕ → ℕ → ℕ
  is_child c n = count c (children_of n)

  -- The nodes of a tree as ConstructTree leaves it.
  pub record IsTree : Type 0 where
    pub few : length nodes ≤ max_nodes
    pub counted :
        (n : ℕ) (node : CommandNode C)
        → get_elem? nodes n ≡ some node
        → node.num_children ≡ length node.children
    pub in_range : (n k c : ℕ) → get_elem? (children_of n) k ≡ some c → c < length nodes
    pub edges : (c : ℕ) → sum_below (length nodes) (is_child c) ≡ deps_of c
    pub small : (c : ℕ) → deps_of c ≤ max_depends

  -- No node has two runs. A node without a run lacks a dependency, and its counter has those that are
  -- finished; a node with a run lacks none.
  pub record IsOrderly (finished : List ℕ) (threads : List (ℕ × Phase)) : Type 0 where
    pub places : length finished ≡ length nodes
    pub numbers : NumbersBelow (length nodes) threads
    pub once : (c : ℕ) → total (occurrence c) threads ≤ 1
    pub waiting :
        (c : ℕ)
        → c < length nodes
        → total (occurrence c) threads ≡ 0
        → (get_or finished c 0 ≡ total (given c) threads) × (total (given c) threads < deps_of c)
    pub ready : (c : ℕ) → total (occurrence c) threads ≡ 1 → total (given c) threads ≡ deps_of c

  -- A step that tells no child, and changes the counter of its own node at most.
  pub quiet-IsOrderly :
      (finished finished' : List ℕ) (threads : List (ℕ × Phase)) (i n : ℕ) (phase phase' : Phase)
      → IsOrderly finished threads
      → get_elem? threads i ≡ some (n, phase)
      → passed phase ≡ passed phase'
      → length finished' ≡ length finished
      → ((c : ℕ) → c ≢ n → get_or finished' c 0 ≡ get_or finished c 0)
      → IsOrderly finished' (set threads i (n, phase'))
  quiet-IsOrderly finished finished' threads i n phase phase' o at same_passed same_length same =
      let occ = λ (c : ℕ). total-set (occurrence c) threads i (n, phase) (n, phase') at in
      let giv = λ (c : ℕ). total-set (given c) threads i (n, phase) (n, phase') at in
      let told : (c : ℕ) → given c (n, phase) ≡ given c (n, phase') =
        λ c. ap (λ k. count c (take k (children_of n))) same_passed in
      record {
        places = same_length ∙ o.places;
        numbers = NumbersBelow-set (length nodes) threads i n phase phase' o.numbers at;
        once = λ c. omega (arith, occ c, o.once c);
        waiting = λ c lt none_there.
            let free : total (occurrence c) threads ≡ 0 = omega (arith, occ c) in
            let (finished_is, below) = o.waiting c lt free in
            let there = total-get_elem? (occurrence c) threads i (n, phase) at in
            let ne : c ≢ n = λ e. ground (arith, there, free) in
            (
              same c ne ∙ finished_is ∙ omega (arith, giv c, told c),
              omega (arith, giv c, told c, below),
            );
        ready = λ c one. omega (arith, giv c, told c, o.ready c (omega (arith, occ c)));
      }

  -- At most as many runs are enqueued as there are nodes but the one of a thread that is not.
  pub room :
      (threads : List (ℕ × Phase)) (i n : ℕ) (phase : Phase)
      → length nodes ≤ max_nodes
      → NumbersBelow (length nodes) threads
      → ((c : ℕ) → total (occurrence c) threads ≤ 1)
      → get_elem? threads i ≡ some (n, phase)
      → is_enqueued phase ≡ 0
      → num_enqueued threads < max_nodes
  room threads i n phase few numbers once at not_enqueued =
      let enq = λ (t : ℕ × Phase). is_enqueued t.1 in
      let changed = total-set enq threads i (n, phase) (n, enqueued) at in
      let all =
        total-sum_below enq (λ m. 1) (length nodes) (set threads i (n, enqueued))
          (NumbersBelow-set (length nodes) threads i n phase enqueued numbers at) is_enqueued-le
          (λ c.
            omega
              (arith, once c, total-set (occurrence c) threads i (n, phase) (n, enqueued) at)) in
      omega (arith, num_enqueued-total threads, sum_below-one (length nodes))
