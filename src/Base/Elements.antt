-- ===== src/Base/Elements.antt =====
-- What stands at an index of an array, after a write or an append too.
use Prim.Native.Nat.{ℕ, zero, suc, ◌<◌, ◌≤◌}
use mathlib.Core.Path.{◌≡◌, refl, sym, ap}
use mathlib.Core.Logic.{◌≢◌, ◌⊎◌, inl, inr}
use mathlib.Core.List.{List, [], ◌∷◌, ◌++◌}
use mathlib.Core.Option.{none, some, some-injective, none-ne-some}
use native.Mathlib.Omega.{arith}
use yengine.Base.Lists.{length, get_elem?, set}

module _ {ℓ} {A : Type ℓ} where
  pub get_elem?-some : (xs : List A) (i : ℕ) → i < length xs → (x : A) × (get_elem? xs i ≡ some x)
  get_elem?-some [] i h = absurd (omega arith)
  get_elem?-some (x ∷ xs) zero h = (x, refl)
  get_elem?-some (x ∷ xs) (suc i) h = get_elem?-some xs i (omega arith)

  pub get_elem?-none : (xs : List A) (i : ℕ) → length xs ≤ i → get_elem? xs i ≡ none
  get_elem?-none [] i h = refl
  get_elem?-none (x ∷ xs) zero h = absurd (omega arith)
  get_elem?-none (x ∷ xs) (suc i) h = get_elem?-none xs i (omega arith)

  pub some-length : (xs : List A) (i : ℕ) (x : A) → get_elem? xs i ≡ some x → i < length xs
  some-length [] i x e = absurd (none-ne-some x e)
  some-length (y ∷ xs) zero x e = omega arith
  some-length (y ∷ xs) (suc i) x e = omega (arith, some-length xs i x e)

  pub get_elem?-set_ne :
      (xs : List A) (i j : ℕ) (x : A) → i ≢ j → get_elem? (set xs i x) j ≡ get_elem? xs j
  get_elem?-set_ne [] i j x ne = refl
  get_elem?-set_ne (y ∷ xs) zero zero x ne = absurd (ne refl)
  get_elem?-set_ne (y ∷ xs) zero (suc j) x ne = refl
  get_elem?-set_ne (y ∷ xs) (suc i) zero x ne = refl
  get_elem?-set_ne (y ∷ xs) (suc i) (suc j) x ne = get_elem?-set_ne xs i j x (λ e. ne (ap suc e))

  pub get_elem?-set_self :
      (xs : List A) (i : ℕ) (x : A) → i < length xs → get_elem? (set xs i x) i ≡ some x
  get_elem?-set_self [] i x h = absurd (omega arith)
  get_elem?-set_self (y ∷ xs) zero x h = refl
  get_elem?-set_self (y ∷ xs) (suc i) x h = get_elem?-set_self xs i x (omega arith)

  -- What stands at an index after a write.
  pub set-cases :
      (xs : List A) (i j : ℕ) (new x : A)
      → get_elem? (set xs i new) j ≡ some x
      → ((j ≡ i) × (x ≡ new)) ⊎ ((j ≢ i) × (get_elem? xs j ≡ some x))
  set-cases [] i j new x e = absurd (none-ne-some x e)
  set-cases (y ∷ xs) zero zero new x e = inl (refl, sym (some-injective new x e))
  set-cases (y ∷ xs) zero (suc j) new x e = inr (omega arith, e)
  set-cases (y ∷ xs) (suc i) zero new x e = inr (omega arith, e)
  set-cases (y ∷ xs) (suc i) (suc j) new x e = elim (set-cases xs i j new x e) [
    | inl (at, is) ↦ inl (ap suc at, is)
    | inr (ne, old) ↦ inr (omega (arith, ne), old)
  ]

  pub append-cases :
      (xs : List A) (j : ℕ) (new x : A)
      → get_elem? (xs ++ new ∷ []) j ≡ some x
      → (x ≡ new) ⊎ (get_elem? xs j ≡ some x)
  append-cases [] zero new x e = inl (sym (some-injective new x e))
  append-cases [] (suc j) new x e = absurd (none-ne-some x e)
  append-cases (y ∷ xs) zero new x e = inr e
  append-cases (y ∷ xs) (suc j) new x e = append-cases xs j new x e

  pub get_elem?-append_left :
      (xs : List A) (y x : A) (i : ℕ)
      → get_elem? xs i ≡ some x
      → get_elem? (xs ++ y ∷ []) i ≡ some x
  get_elem?-append_left [] y x i e = absurd (none-ne-some x e)
  get_elem?-append_left (z ∷ xs) y x zero e = e
  get_elem?-append_left (z ∷ xs) y x (suc i) e = get_elem?-append_left xs y x i e

  pub get_elem?-append_last : (xs : List A) (y : A) → get_elem? (xs ++ y ∷ []) (length xs) ≡ some y
  get_elem?-append_last [] y = refl
  get_elem?-append_last (x ∷ xs) y = get_elem?-append_last xs y
