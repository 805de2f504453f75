-- ===== src/Containers/CommandTree/Loops.antt =====
-- What the loops of CommandTree::ConstructTree over the dependencies of a node change.
use mathlib.Core.Option.{some-injective}
use yengine.Base.{
  ℕ, zero, suc, ◌+◌, ◌≤◌, ◌<◌, ◌≡◌, refl, sym, ap, ◌∙◌, ◌⊎◌, inl, inr, true, false, List, [], ◌∷◌,
  some, arith, length, get_elem?, set, length-set, get_elem?-set, ◌==◌, eq→==, ne→==, lt→ltb,
  if◌then◌else◌, ℕ_discrete, Bool-cases, Run, Fault, Returns, get_elem?-some,
}
use yengine.Containers.CommandTree.{
  CommandNode, max_nodes, modify, add_child, put_child, count_child, assign_child, for_each,
}

abbrev pub iterate {ℓ} : {A : Type ℓ} → ℕ → (A → A) → A → A
iterate zero f x = x
iterate (suc n) f x = iterate n f (f x)

pub iterate_add {ℓ} :
    {A : Type ℓ} (a b : ℕ) (f : A → A) (x : A) → iterate (a + b) f x ≡ iterate b f (iterate a f x)
iterate_add zero b f x = let sum : 0 + b ≡ b = omega arith in ap (λ n. iterate n f x) sum
iterate_add (suc a) b f x =
    let sum : suc a + b ≡ suc (a + b) = omega arith in
    ap (λ n. iterate n f x) sum ∙ iterate_add a b f (f x)

-- How often a number stands in a list.
abbrev pub count : ℕ → List ℕ → ℕ
count j [] = 0
count j (d ∷ ds) = if j == d then suc (count j ds) else count j ds

abbrev pub AllBelow : ℕ → List ℕ → Type 0
AllBelow limit [] = Unit
AllBelow limit (d ∷ ds) = (d < limit) × AllBelow limit ds

module _ {ℓ} {C : Type ℓ} where
  -- The nodes are those of before, each changed as `change` says for its index.
  pub record Changes (change : ℕ → CommandNode C → CommandNode C) (ns ns' : List (CommandNode C))
      : Type ℓ where
    pub places : length ns' ≡ length ns
    pub changed :
        (j : ℕ) (n : CommandNode C) → get_elem? ns j ≡ some n → get_elem? ns' j ≡ some (change j n)

  pub Changes-none : (ns : List (CommandNode C)) → Changes (λ j n. n) ns ns
  Changes-none ns = record { places = refl; changed = λ j n e. e }

  pub Changes-after :
      {f g h : ℕ → CommandNode C → CommandNode C} {ns ns' ns'' : List (CommandNode C)}
      → Changes f ns ns'
      → Changes g ns' ns''
      → ((j : ℕ) (n : CommandNode C) → g j (f j n) ≡ h j n)
      → Changes h ns ns''
  Changes-after {f = f} {h = h} a b e = record {
    places = b.places ∙ a.places;
    changed = λ j n at. b.changed j (f j n) (a.changed j n at) ∙ ap some (e j n);
  }

  abbrev pub at_index : ℕ → (CommandNode C → CommandNode C) → ℕ → CommandNode C → CommandNode C
  at_index d f j n = if j == d then f n else n

  pub modify-Changes :
      (why : Fault) (f : CommandNode C → CommandNode C) (ns : List (CommandNode C)) (d : ℕ)
      → d < length ns
      → Returns (modify why f ns d) (Changes (at_index d f) ns)
  unfolding modify
  modify-Changes why f ns d h =
      let (n, e) = get_elem?-some ns d h in
      (
        set ns d (f n),
        rw (modify, e) refl,
        record {
          places = length-set ns d (f n);
          changed = λ j m at. elim (ℕ_discrete j d) [
            | yes same ↦
                let is : n ≡ m = some-injective n m (sym e ∙ ap (get_elem? ns) (sym same) ∙ at) in
                get_elem?-set ns d j (f n) h
                ∙ rw (eq→== d j (sym same), eq→== j d same) (ap (λ n. some (f n)) is)
            | no apart ↦
                get_elem?-set ns d j (f n) h
                ∙ rw (ne→== d j (λ e. apart (sym e)), ne→== j d apart) at
          ];
        },
      )

  -- A step that changes the node at an index below a limit.
  abbrev pub StepsBelow :
      ℕ
      → ℕ
      → (CommandNode C → CommandNode C)
      → (List (CommandNode C) → ℕ → Run (List (CommandNode C)))
      → Type ℓ
  StepsBelow places limit f step =
      (ns : List (CommandNode C)) (d : ℕ)
      → length ns ≡ places
      → d < limit
      → Returns (step ns d) (Changes (at_index d f) ns)

  once_more :
      (j d : ℕ) (deps : List ℕ) (f : CommandNode C → CommandNode C) (n : CommandNode C)
      → ((j == d) ≡ true) ⊎ ((j == d) ≡ false)
      → iterate (count j deps) f (at_index d f j n) ≡ iterate (count j (d ∷ deps)) f n
  once_more j d deps f n (inl e) = rw e refl
  once_more j d deps f n (inr e) = rw e refl

  pub for_each-Changes :
      (places limit : ℕ) (f : CommandNode C → CommandNode C)
      (step : List (CommandNode C) → ℕ → Run (List (CommandNode C))) (deps : List ℕ)
      (ns : List (CommandNode C))
      → StepsBelow places limit f step
      → length ns ≡ places
      → AllBelow limit deps
      → Returns (for_each step deps ns) (Changes (λ j n. iterate (count j deps) f n) ns)
  unfolding for_each
  for_each-Changes places limit f step [] ns steps sized below = (ns, refl, Changes-none ns)
  for_each-Changes places limit f step (d ∷ deps) ns steps sized below =
      let (ns1, run, c) = steps ns d sized below.0 in
      let (ns2, runs, rest) =
        for_each-Changes places limit f step deps ns1 steps (c.places ∙ sized) below.1 in
      (ns2, rw run runs, Changes-after c rest (λ j n. once_more j d deps f n (Bool-cases (j == d))))

  pub count_child-StepsBelow : (places : ℕ) → StepsBelow places places add_child count_child
  unfolding count_child
  count_child-StepsBelow places ns d sized h = modify-Changes _ add_child ns d (omega arith)

  pub assign_child-StepsBelow :
      (places index : ℕ)
      → places ≤ max_nodes
      → StepsBelow places places (put_child index) (assign_child index)
  unfolding assign_child
  assign_child-StepsBelow places index few ns d sized h =
      rw (lt→ltb d max_nodes (omega arith)) (modify-Changes _ (put_child index) ns d (omega arith))
