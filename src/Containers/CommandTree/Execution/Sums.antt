-- ===== src/Containers/CommandTree/Execution/Sums.antt =====
-- Sums over a list and over the numbers below a bound, as the theorems about the execution count with
-- them.
use yengine.Base.{
  ℕ, zero, suc, ◌+◌, ◌≤◌, ◌<◌, ◌≡◌, refl, sym, ap, subst, List, [], ◌∷◌, ◌++◌, some, arith, ◌==◌,
  if◌then◌else◌, get_elem?, set, eq→==, ne→==, ℕ_discrete,
}
use mathlib.Core.Option.{some-injective, none-ne-some}

module _ {A : Type 0} where
  abbrev pub total : (A → ℕ) → List A → ℕ
  total g [] = 0
  total g (x ∷ xs) = g x + total g xs

  pub total-append : (g : A → ℕ) (xs : List A) (x : A) → total g (xs ++ x ∷ []) ≡ total g xs + g x
  total-append g [] x = omega arith
  total-append g (y ∷ xs) x = omega (arith, total-append g xs x)

  pub total-set :
      (g : A → ℕ) (xs : List A) (i : ℕ) (old new : A)
      → get_elem? xs i ≡ some old
      → total g (set xs i new) + g old ≡ total g xs + g new
  total-set g [] i old new e = absurd (none-ne-some old e)
  total-set g (x ∷ xs) zero old new e = let same = ap g (some-injective x old e) in omega arith
  total-set g (x ∷ xs) (suc i) old new e = omega (arith, total-set g xs i old new e)

  pub total-le : (g h : A → ℕ) (xs : List A) → ((x : A) → g x ≤ h x) → total g xs ≤ total h xs
  total-le g h [] le = omega arith
  total-le g h (x ∷ xs) le = omega (arith, le x, total-le g h xs le)

  pub total-eq : (g h : A → ℕ) (xs : List A) → ((x : A) → g x ≡ h x) → total g xs ≡ total h xs
  total-eq g h [] eq = refl
  total-eq g h (x ∷ xs) eq = omega (arith, eq x, total-eq g h xs eq)

  pub total-get_elem? :
      (g : A → ℕ) (xs : List A) (i : ℕ) (x : A) → get_elem? xs i ≡ some x → g x ≤ total g xs
  total-get_elem? g [] i x e = absurd (none-ne-some x e)
  total-get_elem? g (y ∷ xs) zero x e = let same = ap g (some-injective y x e) in omega arith
  total-get_elem? g (y ∷ xs) (suc i) x e = omega (arith, total-get_elem? g xs i x e)

  -- A sum that is not 0 has an item that counts.
  pub total-found :
      (g : A → ℕ) (xs : List A)
      → 0 < total g xs
      → (i : ℕ) × (x : A) × (get_elem? xs i ≡ some x) × (0 < g x)
  total-found g [] h = absurd (omega arith)
  total-found g (x ∷ xs) h = elim (ℕ_discrete (g x) 0) [
    | yes e ↦ let (i, y, at, some_y) = total-found g xs (omega arith) in (suc i, y, at, some_y)
    | no ne ↦ (zero, x, refl, omega arith)
  ]

-- f 0 + ... + f (n - 1)
abbrev pub sum_below : ℕ → (ℕ → ℕ) → ℕ
sum_below zero f = 0
sum_below (suc n) f = sum_below n f + f n

pub sum_below-le : (n : ℕ) (f g : ℕ → ℕ) → ((m : ℕ) → f m ≤ g m) → sum_below n f ≤ sum_below n g
sum_below-le zero f g le = omega arith
sum_below-le (suc n) f g le = omega (arith, le n, sum_below-le n f g le)

pub sum_below-add :
    (n : ℕ) (f g : ℕ → ℕ) → sum_below n (λ m. f m + g m) ≡ sum_below n f + sum_below n g
sum_below-add zero f g = refl
sum_below-add (suc n) f g = omega (arith, sum_below-add n f g)

pub sum_below-zero : (n : ℕ) → sum_below n (λ m. 0) ≡ 0
sum_below-zero zero = refl
sum_below-zero (suc n) = omega (arith, sum_below-zero n)

pub sum_below-one : (n : ℕ) → sum_below n (λ m. 1) ≡ n
sum_below-one zero = refl
sum_below-one (suc n) = omega (arith, sum_below-one n)

pub sum_below-other : (n k v : ℕ) → n ≤ k → sum_below n (λ m. if k == m then v else 0) ≡ 0
sum_below-other zero k v h = refl
sum_below-other (suc n) k v h = ground (arith, sum_below-other n k v (omega arith))

pub sum_below-single : (n k v : ℕ) → k < n → sum_below n (λ m. if k == m then v else 0) ≡ v
sum_below-single zero k v h = absurd (omega arith)
sum_below-single (suc n) k v h = elim (ℕ_discrete k n) [
  | yes e ↦ ground (arith, sum_below-other n k v (omega arith))
  | no ne ↦ ground (arith, sum_below-single n k v (omega arith))
]

-- Where each part is at most as large and the sums are equal, the parts are.
pub sum_below-tight :
    (n : ℕ) (f g : ℕ → ℕ)
    → ((m : ℕ) → f m ≤ g m)
    → sum_below n f ≡ sum_below n g
    → (m : ℕ) → m < n
    → f m ≡ g m
sum_below-tight zero f g le e m h = absurd (omega arith)
sum_below-tight (suc n) f g le e m h =
    let lower = sum_below-le n f g le in
    let last = le n in
    elim (ℕ_discrete m n) [
      | yes same ↦ rw same (omega arith)
      | no ne ↦ sum_below-tight n f g le (omega arith) m (omega arith)
    ]

module _ {B : Type 0} where
  -- The part of a sum over numbered items that those with one number have.
  abbrev pub part : (ℕ × B → ℕ) → ℕ → ℕ × B → ℕ
  part g m t = if t.0 == m then g t else 0

  abbrev pub NumbersBelow : ℕ → List (ℕ × B) → Type 0
  NumbersBelow n [] = Unit {0}
  NumbersBelow n (t ∷ ts) = (t.0 < n) × NumbersBelow n ts

  abbrev pub occurrence : ℕ → ℕ × B → ℕ
  occurrence m t = if t.0 == m then 1 else 0

  pub total-parts :
      (g : ℕ × B → ℕ) (n : ℕ) (ts : List (ℕ × B))
      → NumbersBelow n ts
      → total g ts ≡ sum_below n (λ m. total (part g m) ts)
  total-parts g n [] b = sym (sum_below-zero n)
  total-parts g n (t ∷ ts) b =
      let split = sum_below-add n (λ m. part g m t) (λ m. total (part g m) ts) in
      let own = sum_below-single n t.0 (g t) b.0 in let rest = total-parts g n ts b.1 in omega arith

  part-zero :
      (g : ℕ × B → ℕ) (m : ℕ) (ts : List (ℕ × B))
      → total (occurrence m) ts ≡ 0
      → total (part g m) ts ≡ 0
  part-zero g m [] h = refl
  part-zero g m (t ∷ ts) h = ground (arith, part-zero g m ts)

  -- A part is at most what its number may have, where the number occurs once.
  pub part-le :
      (g : ℕ × B → ℕ) (f : ℕ → ℕ) (m : ℕ) (ts : List (ℕ × B))
      → ((t : ℕ × B) → g t ≤ f t.0)
      → total (occurrence m) ts ≤ 1
      → total (part g m) ts ≤ f m
  part-le g f m [] le once = omega arith
  part-le g f m (t ∷ ts) le once = elim (ℕ_discrete t.0 m) [
    | yes e ↦
        let one = eq→== t.0 m e in
        let none_left = part-zero g m ts (ground arith) in
        let bound : g t ≤ f m = subst (λ k. g t ≤ f k) e (le t) in ground arith
    | no ne ↦
        let rest = part-le g f m ts le (ground (arith, ne→== t.0 m ne)) in
        ground (arith, ne→== t.0 m ne)
  ]

  pub total-sum_below :
      (g : ℕ × B → ℕ) (f : ℕ → ℕ) (n : ℕ) (ts : List (ℕ × B))
      → NumbersBelow n ts
      → ((t : ℕ × B) → g t ≤ f t.0)
      → ((m : ℕ) → total (occurrence m) ts ≤ 1)
      → total g ts ≤ sum_below n f
  total-sum_below g f n ts b le once =
      let parts = total-parts g n ts b in
      let all = sum_below-le n (λ m. total (part g m) ts) f (λ m. part-le g f m ts le (once m)) in
      omega arith
