-- ===== src/Containers/CommandTree/Execution/Steps.antt =====
-- Every step of the threads of a CommandTree is one that CommandTreeThread has, and keeps what holds of
-- them.
use yengine.Base.{
  ℕ, suc, ◌+◌, ◌≤◌, ◌<◌, ◌≡◌, refl, sym, subst, ◌≢◌, ◌⊎◌, ◌∙◌, Bool, true, false, List, [], ◌∷◌,
  ◌++◌, some, arith, ltb, ◌==◌, if◌then◌else◌, length, get_elem?, set, eq→==, ne→==, inl, inr,
  ℕ_discrete, get_or-set, length-set, add32,
}
use yengine.Containers.CommandTree.{CommandNode}
use yengine.Containers.CommandTree.Execution.{
  Phase, rooted, enqueued, started, cleared, failing, failed, ran, last, released, counted, stopped,
  passing, minus_one, Execution,
}
use yengine.Containers.CommandTree.Execution.Sums.{
  total, total-append, total-set, sum_below-one, occurrence, total-sum_below,
}
use yengine.Containers.CommandTree.Execution.Invariant.{
  IsTree, IsOrderly, passed, children_of, NumbersBelow-set, NumbersBelow-get_elem?, quiet-IsOrderly,
}

-- The node is counted, its command failed or it stopped for one that did, it was the last, and its
-- thread has released the semaphore.
abbrev pub is_counted : Phase → ℕ
is_counted last = 1
is_counted released = 1
is_counted counted = 1
is_counted stopped = 1
is_counted (passing k) = 1
is_counted _ = 0

abbrev pub is_failed : Phase → ℕ
is_failed failing = 1
is_failed failed = 1
is_failed stopped = 1
is_failed _ = 0

abbrev pub is_last : Phase → ℕ
is_last last = 1
is_last released = 1
is_last _ = 0

abbrev pub has_released : Phase → ℕ
has_released failed = 1
has_released released = 1
has_released _ = 0

pub is_counted-le : (t : ℕ × Phase) → is_counted t.1 ≤ 1
is_counted-le (n, rooted) = omega arith
is_counted-le (n, enqueued) = omega arith
is_counted-le (n, started) = omega arith
is_counted-le (n, cleared) = omega arith
is_counted-le (n, failing) = omega arith
is_counted-le (n, failed) = omega arith
is_counted-le (n, ran) = omega arith
is_counted-le (n, last) = omega arith
is_counted-le (n, released) = omega arith
is_counted-le (n, counted) = omega arith
is_counted-le (n, stopped) = omega arith
is_counted-le (n, passing k) = omega arith

abbrev pub phases : (Phase → ℕ) → List (ℕ × Phase) → ℕ
phases f threads = total (λ t. f t.1) threads

module _ {C : Type 0} (nodes : List (CommandNode C)) where
  -- The counters of the tree are those of its threads.
  pub record IsTallied (threads : List (ℕ × Phase)) (num_finished return_value releases : ℕ)
      : Type 0 where
    pub finished : num_finished ≡ phases is_counted threads
    pub failure : return_value ≡ 0 → phases is_failed threads ≡ 0
    pub ending : phases is_last threads ≡ (if num_finished == length nodes then 1 else 0)
    pub semaphore : releases ≡ phases has_released threads

  pub record IsSound (s : Execution) : Type 0 where
    pub orderly : IsOrderly nodes s.finished s.threads
    pub tallied : IsTallied s.threads s.num_nodes_finished s.return_value s.releases

  abbrev pub is_running : ℕ → Phase → Bool
  is_running n failed = false
  is_running n released = false
  is_running n stopped = false
  is_running n (passing k) = ltb k (length (children_of nodes n))
  is_running n _ = true

  module _ (tree : IsTree nodes) (some_node : 0 < length nodes) where
    -- A step to a phase that counts like the one before.
    pub same-IsTallied :
        (threads : List (ℕ × Phase)) (i n num ret rel : ℕ) (phase phase' : Phase)
        → IsTallied threads num ret rel
        → get_elem? threads i ≡ some (n, phase)
        → is_counted phase ≡ is_counted phase'
        → is_failed phase ≡ is_failed phase'
        → is_last phase ≡ is_last phase'
        → has_released phase ≡ has_released phase'
        → IsTallied (set threads i (n, phase')) num ret rel
    same-IsTallied threads i n num ret rel phase phase' t at counted_same failed_same last_same
          released_same =
        let shift = λ (f : Phase → ℕ). total-set (λ t. f t.1) threads i (n, phase) (n, phase') at in
        record {
          finished = omega (arith, t.finished, shift is_counted, counted_same);
          failure = λ e. omega (arith, t.failure e, shift is_failed, failed_same);
          ending = omega (arith, shift is_last, last_same) ∙ t.ending;
          semaphore = omega (arith, t.semaphore, shift has_released, released_same);
        }

    -- A phase that neither tells a child nor counts otherwise.
    pub quiet-IsSound :
        (s : Execution) (i n : ℕ) (phase phase' : Phase)
        → IsSound s
        → get_elem? s.threads i ≡ some (n, phase)
        → passed phase ≡ passed phase'
        → is_counted phase ≡ is_counted phase'
        → is_failed phase ≡ is_failed phase'
        → is_last phase ≡ is_last phase'
        → has_released phase ≡ has_released phase'
        → IsSound (record s { threads = set s.threads i (n, phase') })
    quiet-IsSound s i n phase phase' o at p c f l r = record {
      orderly =
          quiet-IsOrderly nodes s.finished s.finished s.threads i n phase phase' o.orderly at p refl
            (λ c ne. refl);
      tallied = same-IsTallied s.threads i n _ _ _ phase phase' o.tallied at c f l r;
    }

    pub cleared-IsSound :
        (s : Execution) (i n : ℕ)
        → IsSound s
        → get_elem? s.threads i ≡ some (n, started)
        → IsSound
            (record s { threads = set s.threads i (n, cleared); finished = set s.finished n 0 })
    cleared-IsSound s i n o at =
        let lt = NumbersBelow-get_elem? (length nodes) s.threads i n started o.orderly.numbers at in
        record {
          orderly =
              quiet-IsOrderly nodes s.finished (set s.finished n 0) s.threads i n started cleared
                o.orderly at refl (length-set s.finished n 0)
                (λ c ne.
                  get_or-set s.finished n c 0 0 (omega (arith, o.orderly.places))
                  ∙ rw (ne→== n c (λ e. ne (sym e))) refl);
          tallied =
              same-IsTallied s.threads i n _ _ _ started cleared o.tallied at refl refl refl refl;
        }

    pub failing-IsSound :
        (s : Execution) (i n ret : ℕ)
        → IsSound s
        → get_elem? s.threads i ≡ some (n, cleared)
        → ret ≢ 0
        → IsSound (record s { threads = set s.threads i (n, failing); return_value = ret })
    failing-IsSound s i n ret o at ne =
        let shift =
          λ (f : Phase → ℕ). total-set (λ t. f t.1) s.threads i (n, cleared) (n, failing) at in
        let t = o.tallied in
        record {
          orderly =
              quiet-IsOrderly nodes s.finished s.finished s.threads i n cleared failing o.orderly at
                refl refl (λ c ne. refl);
          tallied = record {
            finished = omega (arith, t.finished, shift is_counted);
            failure = λ e. absurd (ne e);
            ending = omega (arith, shift is_last) ∙ t.ending;
            semaphore = omega (arith, t.semaphore, shift has_released);
          };
        }

    -- The two steps that release the semaphore.
    pub releasing-IsSound :
        (s : Execution) (i n : ℕ) (phase phase' : Phase)
        → IsSound s
        → get_elem? s.threads i ≡ some (n, phase)
        → passed phase ≡ passed phase'
        → is_counted phase ≡ is_counted phase'
        → is_failed phase ≡ is_failed phase'
        → is_last phase ≡ is_last phase'
        → has_released phase' ≡ suc (has_released phase)
        → IsSound (record s { threads = set s.threads i (n, phase'); releases = s.releases + 1 })
    releasing-IsSound s i n phase phase' o at p c f l r =
        let shift =
          λ (f : Phase → ℕ). total-set (λ t. f t.1) s.threads i (n, phase) (n, phase') at in
        let t = o.tallied in
        record {
          orderly =
              quiet-IsOrderly nodes s.finished s.finished s.threads i n phase phase' o.orderly at p
                refl (λ c ne. refl);
          tallied = record {
            finished = omega (arith, t.finished, shift is_counted, c);
            failure = λ e. omega (arith, t.failure e, shift is_failed, f);
            ending = omega (arith, shift is_last, l) ∙ t.ending;
            semaphore = omega (arith, t.semaphore, shift has_released, r);
          };
        }

    -- A thread that has not counted its node leaves the counter below the number of nodes.
    uncounted :
        (s : Execution) (i n : ℕ)
        → IsSound s
        → get_elem? s.threads i ≡ some (n, ran)
        → suc s.num_nodes_finished ≤ length nodes
    uncounted s i n o at =
        let counts = λ (t : ℕ × Phase). is_counted t.1 in
        let changed = total-set counts s.threads i (n, ran) (n, counted) at in
        let all =
          total-sum_below counts (λ m. 1) (length nodes) (set s.threads i (n, counted))
            (NumbersBelow-set (length nodes) s.threads i n ran counted o.orderly.numbers at)
            is_counted-le
            (λ c. omega (
              arith,
              o.orderly.once c,
              total-set (occurrence c) s.threads i (n, ran) (n, counted) at,
            )) in
        omega (arith, sum_below-one (length nodes), o.tallied.finished)

    pub counting-IsSound :
        (s : Execution) (i n : ℕ)
        → IsSound s
        → get_elem? s.threads i ≡ some (n, ran)
        → IsSound (record s {
          threads =
              set s.threads i
                (n, if s.num_nodes_finished == minus_one (length nodes) then last else counted);
          num_nodes_finished = add32 s.num_nodes_finished 1;
        })
    counting-IsSound s i n o at =
        let t = o.tallied in
        let few = tree.few in
        let below = uncounted s i n o at in
        let sum : add32 s.num_nodes_finished 1 ≡ suc s.num_nodes_finished = omega arith in
        let before : phases is_last s.threads ≡ 0 =
          t.ending ∙ rw (ne→== s.num_nodes_finished (length nodes) (omega arith)) refl in
        let orderly = λ (phase : Phase) (p : 0 ≡ passed phase).
          quiet-IsOrderly nodes s.finished s.finished s.threads i n ran phase o.orderly at p refl
            (λ c ne. refl) in
        elim (ℕ_discrete (suc s.num_nodes_finished) (length nodes)) [
          | yes e ↦
              let shift =
                λ (f : Phase → ℕ). total-set (λ t. f t.1) s.threads i (n, ran) (n, last) at in
              let test : (s.num_nodes_finished == minus_one (length nodes)) ≡ true =
                eq→== _ _ (omega arith) in
              let full : (add32 s.num_nodes_finished 1 == length nodes) ≡ true =
                eq→== _ _ (omega arith) in
              rw test (record {
                orderly = orderly last refl;
                tallied = record {
                  finished = omega (arith, t.finished, shift is_counted);
                  failure = λ e. omega (arith, t.failure e, shift is_failed);
                  ending = rw full (omega (arith, shift is_last, before));
                  semaphore = omega (arith, t.semaphore, shift has_released);
                };
              })
          | no ne ↦
              let shift =
                λ (f : Phase → ℕ). total-set (λ t. f t.1) s.threads i (n, ran) (n, counted) at in
              let test : (s.num_nodes_finished == minus_one (length nodes)) ≡ false =
                ne→== _ _ (omega arith) in
              let full : (add32 s.num_nodes_finished 1 == length nodes) ≡ false =
                ne→== _ _ (omega arith) in
              rw test (record {
                orderly = orderly counted refl;
                tallied = record {
                  finished = omega (arith, t.finished, shift is_counted);
                  failure = λ e. omega (arith, t.failure e, shift is_failed);
                  ending = rw full (omega (arith, shift is_last, before));
                  semaphore = omega (arith, t.semaphore, shift has_released);
                };
              })
        ]

    pub stopping-IsSound :
        (s : Execution) (i n : ℕ)
        → IsSound s
        → get_elem? s.threads i ≡ some (n, counted)
        → IsSound (record s {
          threads = set s.threads i (n, if s.return_value == 0 then passing 0 else stopped);
        })
    stopping-IsSound s i n o at = elim (ℕ_discrete s.return_value 0) [
      | yes e ↦
          rw (eq→== _ _ e) (quiet-IsSound s i n counted (passing 0) o at refl refl refl refl refl)
      | no ne ↦
          let shift =
            λ (f : Phase → ℕ). total-set (λ t. f t.1) s.threads i (n, counted) (n, stopped) at in
          let t = o.tallied in
          rw (ne→== _ _ ne) (record {
            orderly =
                quiet-IsOrderly nodes s.finished s.finished s.threads i n counted stopped o.orderly
                  at refl refl (λ c ne. refl);
            tallied = record {
              finished = omega (arith, t.finished, shift is_counted);
              failure = λ e. absurd (ne e);
              ending = omega (arith, shift is_last) ∙ t.ending;
              semaphore = omega (arith, t.semaphore, shift has_released);
            };
          })
    ]

    -- The threads after one is told of a child, with the run that this may enqueue.
    pub grown-IsTallied :
        (threads threads' : List (ℕ × Phase)) (num ret rel : ℕ)
        → IsTallied threads num ret rel
        → (threads' ≡ threads) ⊎ ((child : ℕ) × (threads' ≡ threads ++ (child, enqueued) ∷ []))
        → IsTallied threads' num ret rel
    grown-IsTallied threads threads' num ret rel t (inl e) =
        subst (λ ts. IsTallied ts num ret rel) (sym e) t
    grown-IsTallied threads threads' num ret rel t (inr (child, e)) =
        let grow = λ (f : Phase → ℕ). total-append (λ t. f t.1) threads (child, enqueued) in
        subst (λ ts. IsTallied ts num ret rel) (sym e)
          (record {
            finished = omega (arith, t.finished, grow is_counted);
            failure = λ e. omega (arith, t.failure e, grow is_failed);
            ending = omega (arith, grow is_last) ∙ t.ending;
            semaphore = omega (arith, t.semaphore, grow has_released);
          })
