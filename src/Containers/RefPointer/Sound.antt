-- ===== src/Containers/RefPointer/Sound.antt =====
-- The counters of the RefPointers and the references that are attached to them agree.
use mathlib.Core.Option.{some-injective}
use yengine.Base.{
  ℕ, ◌<◌, ◌≡◌, ◌≢◌, refl, sym, ap, ◌∙◌, subst, inl, inr, List, some, eq→==, ne→==, ℕ_discrete,
  get_elem?, set, length, get_elem?-set, some-length, set-cases,
}
use yengine.Containers.RefPointer.{RefPointer, RefKind, RefData, World}
use yengine.Containers.RefPointer.Counters.{counter, IsExclusive}
use yengine.Containers.RefPointer.Weights.{attached}

-- An attached reference has the pointer of its RefPointer.
abbrev pub AreFresh : List RefPointer → List RefData → Type 0
AreFresh store refs =
    (r : ℕ) (ref : RefData) (i : ℕ)
    → get_elem? refs r ≡ some ref
    → ref.ref_pointer ≡ some i
    → (p : RefPointer) × (get_elem? store i ≡ some p) × (p.pointer ≡ ref.pointer)

-- Each counter is the number of references of its kind that are attached, and no counter has wrapped.
pub record Sound (w : World) : Type 0 where
  pub counts :
      (k : RefKind) (i : ℕ) (p : RefPointer)
      → get_elem? w.store i ≡ some p
      → counter k p ≡ attached k i w.refs
  pub exclusive : (i : ℕ) (p : RefPointer) → get_elem? w.store i ≡ some p → IsExclusive p
  pub fresh : AreFresh w.store w.refs
  pub few : length w.refs < 256

-- A change of one pointer that leaves the pointer it holds.
set-AreFresh :
    (store : List RefPointer) (i : ℕ) (p p' : RefPointer) (refs : List RefData)
    → get_elem? store i ≡ some p
    → p'.pointer ≡ p.pointer
    → AreFresh store refs
    → AreFresh (set store i p') refs
set-AreFresh store i p p' refs at same fresh r ref j e a =
    let (q, there, is) = fresh r ref j e a in
    elim (ℕ_discrete i j) [
      | yes eq ↦
          let both : p ≡ q = some-injective p q (sym at ∙ ap (get_elem? store) eq ∙ there) in
          (
            p',
            get_elem?-set store i j p' (some-length store i p at) ∙ rw (eq→== i j eq) refl,
            same ∙ ap (λ p. p.pointer) both ∙ is,
          )
      | no ne ↦
          (q, get_elem?-set store i j p' (some-length store i p at) ∙ rw (ne→== i j ne) there, is)
    ]

module _ (w : World) (s : Sound w) (refs' : List RefData) (few : length refs' < 256)
    (fresh : AreFresh w.store refs') where
  -- New references with the same counts.
  pub same-Sound :
      ((k : RefKind) (j : ℕ) → attached k j refs' ≡ attached k j w.refs)
      → Sound (record w { refs = refs' })
  same-Sound same = record {
    counts = λ k i p at. s.counts k i p at ∙ sym (same k i);
    exclusive = s.exclusive;
    fresh = fresh;
    few = few;
  }

  -- A pointer whose counters change with the references.
  pub change-Sound :
      (i : ℕ) (p p' : RefPointer)
      → get_elem? w.store i ≡ some p
      → ((k : RefKind) → counter k p' ≡ attached k i refs')
      → ((k : RefKind) (j : ℕ) → j ≢ i → attached k j refs' ≡ attached k j w.refs)
      → IsExclusive p'
      → p'.pointer ≡ p.pointer
      → Sound (record { store = set w.store i p'; refs = refs' })
  change-Sound i p p' at here there exclusive same = record {
    counts = λ k j q e. elim (set-cases w.store i j p' q e) [
      | inl (eq, is) ↦ ap (counter k) is ∙ here k ∙ ap (λ i. attached k i refs') (sym eq)
      | inr (ne, old) ↦ s.counts k j q old ∙ sym (there k j ne)
    ];
    exclusive = λ j q e. elim (set-cases w.store i j p' q e) [
      | inl (eq, is) ↦ subst IsExclusive (sym is) exclusive
      | inr (ne, old) ↦ s.exclusive j q old
    ];
    fresh = set-AreFresh w.store i p p' refs' at same fresh;
    few = few;
  }
