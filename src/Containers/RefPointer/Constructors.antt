-- ===== src/Containers/RefPointer/Constructors.antt =====
-- The constructors of references, but the moves.
use mathlib.Core.Option.{some-injective}
use yengine.Base.{
  ℕ, ◌<◌, ◌≡◌, refl, sym, subst, ◌⊎◌, inl, inr, [], ◌∷◌, ◌++◌, some, arith, get_elem?, set, length,
  length-set, length-append, Option-cases, Run-cases, ok, ◌>>=◌,
}
use yengine.Containers.RefPointer.{
  RefPointer, RefKind, RefData, World, read_ref, write_ref, read_write_ref, inc_refs, at_pointer,
  at_ref, call, call_if, detached, get_ref, copy_ref,
}
use yengine.Containers.RefPointer.Counters.{is_kind}
use yengine.Containers.RefPointer.Weights.{attached-append, attached-set, weight-detached}
use yengine.Containers.RefPointer.Sound.{Sound, same-Sound}
use yengine.Containers.RefPointer.Calls.{added-Sound, append-AreFresh, detached-AreFresh}

-- The reference that a RefPointer gives out.
abbrev new_ref : RefKind → RefPointer → ℕ → RefData
new_ref kind p i = record { kind = kind; pointer = p.pointer; ref_pointer = some i }

-- A new reference from its RefPointer.
pub get_ref-Sound :
    (kind : RefKind) (i : ℕ) (w w' : World)
    → Sound w
    → length w.refs < 255
    → get_ref kind i w ≡ ok w'
    → Sound w'
unfolding get_ref at_pointer call_if call
get_ref-Sound kind i w w' s few e = elim (Option-cases (get_elem? w.store i)) [
  | inl nothing ↦ absurd (ground (arith, e, nothing))
  | inr (p, at) ↦
      let ref = new_ref kind p i in
      elim (Run-cases (call (inc_refs kind) i w.store)) [
        | inl (store', run) ↦
            let is : w' ≡ record { store = store'; refs = w.refs ++ ref ∷ [] } =
              ground (arith, e, at, run) in
            subst Sound (sym is) (
              added-Sound w ref (w.refs ++ ref ∷ []) store' s (rw length-append (omega arith))
                (append-AreFresh w.store w.refs ref s.fresh (λ j a.
                  subst
                    (λ j.
                      (q : RefPointer) × (get_elem? w.store j ≡ some q) × (q.pointer ≡ p.pointer))
                    (some-injective i j a) (p, at, refl)))
                (λ k j. attached-append k j w.refs ref) run)
        | inr (why, run) ↦ absurd (ground (arith, e, at, run))
      ]
]

pub RefKind-cases : (k : RefKind) → (k ≡ read_ref) ⊎ ((k ≡ write_ref) ⊎ (k ≡ read_write_ref))
RefKind-cases read_ref = inl refl
RefKind-cases write_ref = inr (inl refl)
RefKind-cases read_write_ref = inr (inr refl)

-- A copy of a reference that is counted.
counted_copy-Sound :
    (kind : RefKind) (w w' : World) (r : ℕ) (ref : RefData)
    → Sound w
    → length w.refs < 255
    → get_elem? w.refs r ≡ some ref
    → ref.kind ≡ kind
    → (call_if (inc_refs kind) ref.ref_pointer w.store >>= λ store.
        ok (record { store = store; refs = w.refs ++ ref ∷ [] }))
      ≡ ok w'
    → Sound w'
counted_copy-Sound kind w w' r ref s few at is_kind e =
    elim (Run-cases (call_if (inc_refs kind) ref.ref_pointer w.store)) [
      | inl (store', run) ↦
          let is : w' ≡ record { store = store'; refs = w.refs ++ ref ∷ [] } =
            ground (arith, e, run) in
          subst Sound (sym is) (
            added-Sound w ref (w.refs ++ ref ∷ []) store' s (rw length-append (omega arith))
              (append-AreFresh w.store w.refs ref s.fresh (λ i a. s.fresh r ref i at a))
              (λ k j. attached-append k j w.refs ref)
              (subst (λ k. call_if (inc_refs k) ref.ref_pointer w.store ≡ ok store') (sym is_kind)
                run))
      | inr (why, run) ↦ absurd (ground (arith, e, run))
    ]

-- A reference that goes over to a new one.
passed_on-Sound :
    (w : World) (r : ℕ) (ref : RefData)
    → Sound w
    → length w.refs < 255
    → get_elem? w.refs r ≡ some ref
    → Sound (record w { refs = set w.refs r (detached ref) ++ ref ∷ [] })
passed_on-Sound w r ref s few at =
    let rest = set w.refs r (detached ref) in
    same-Sound w s (rest ++ ref ∷ []) (rw (length-append, length-set) (omega arith))
      (append-AreFresh w.store rest ref (detached-AreFresh w.store w.refs r ref s.fresh)
        (λ i a. s.fresh r ref i at a))
      (λ k j. omega (
        arith,
        attached-append k j rest ref,
        attached-set k j w.refs r ref (detached ref) at,
        weight-detached k j ref,
      ))

-- A copy constructor that ends normally leaves the counters right.
pub copy_ref-Sound :
    (r : ℕ) (w w' : World) → Sound w → length w.refs < 255 → copy_ref r w ≡ ok w' → Sound w'
unfolding copy_ref at_ref
copy_ref-Sound r w w' s few e = elim (Option-cases (get_elem? w.refs r)) [
  | inl nothing ↦ absurd (ground (arith, e, nothing))
  | inr (ref, at) ↦ elim (RefKind-cases ref.kind) [
    | inl is_read ↦
        counted_copy-Sound read_ref w w' r ref s few at is_read
          (rw (copy_ref, at_ref, at, is_read) at e)
    | inr (inl is_write) ↦
        counted_copy-Sound write_ref w w' r ref s few at is_write
          (rw (copy_ref, at_ref, at, is_write) at e)
    | inr (inr is_both) ↦
        let is : record w { refs = set w.refs r (detached ref) ++ ref ∷ [] } ≡ w' =
          ground (arith, rw (copy_ref, at_ref, at, is_both) at e) in
        subst Sound is (passed_on-Sound w r ref s few at)
  ]
]
