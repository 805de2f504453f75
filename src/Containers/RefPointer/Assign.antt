-- ===== src/Containers/RefPointer/Assign.antt =====
-- Assignments between references, and Set of a RefPointer.
use yengine.Base.{
  ℕ, ◌+◌, ◌≡◌, ◌≢◌, refl, sym, ap, ◌∙◌, subst, inl, inr, some, arith, eq→==, ne→==, ==_refl,
  ℕ_discrete, get_elem?, set, length-set, get_elem?-set, Option-cases, Run-cases, ok, ◌>>=◌,
  some-length, set-cases,
}
use yengine.Containers.RefPointer.{
  RefPointer, RefKind, RefData, World, read_ref, write_ref, inc_refs, at_ref, call, call_if,
  detached, reset_ref, assign_ref, take_over, set_pointer, set_ref_pointer,
}
use yengine.Containers.RefPointer.Counters.{counter, is_kind, IsExclusive, every_kind, call-set}
use yengine.Containers.RefPointer.Weights.{
  weight, attached, attached-set, weight-le_attached, weight-detached, weight_here,
}
use yengine.Containers.RefPointer.Sound.{AreFresh, Sound, same-Sound}
use yengine.Containers.RefPointer.Calls.{
  added-Sound, set-AreFresh_ref, detached-AreFresh, is_kind_self, reset_ref-Sound,
}
use yengine.Containers.RefPointer.Constructors.{RefKind-cases}

-- A reference put in the place of a detached one.
module _ (w : World) (s : Sound w) (r other : ℕ) (old ref : RefData)
    (free : get_elem? w.refs r ≡ some (detached old)) (at : get_elem? w.refs other ≡ some ref) where
  put_fresh : AreFresh w.store (set w.refs r ref)
  put_fresh = set-AreFresh_ref w.store w.refs r ref s.fresh (λ i a. s.fresh other ref i at a)

  put_counts :
      (k : RefKind) (j : ℕ) → attached k j (set w.refs r ref) ≡ attached k j w.refs + weight k j ref
  put_counts k j =
      omega (arith, attached-set k j w.refs r (detached old) ref free, weight-detached k j old)

  -- The other reference still stands at its place, which may be the same one.
  put_other : get_elem? (set w.refs r ref) other ≡ some ref
  put_other = elim (ℕ_discrete r other) [
    | yes e ↦
        get_elem?-set w.refs r other ref (some-length w.refs r (detached old) free)
        ∙ rw (eq→== r other e) refl
    | no ne ↦
        get_elem?-set w.refs r other ref (some-length w.refs r (detached old) free)
        ∙ rw (ne→== r other ne) at
  ]

  counted_assign-Sound :
      (kind : RefKind) (w' : World)
      → ref.kind ≡ kind
      → (call_if (inc_refs kind) ref.ref_pointer w.store >>= λ store.
          ok (record { store = store; refs = set w.refs r ref }))
        ≡ ok w'
      → Sound w'
  counted_assign-Sound kind w' is_kind e =
      elim (Run-cases (call_if (inc_refs kind) ref.ref_pointer w.store)) [
        | inl (store', run) ↦
            let is : w' ≡ record { store = store'; refs = set w.refs r ref } =
              ground (arith, e, run) in
            subst Sound (sym is) (
              added-Sound w ref (set w.refs r ref) store' s (rw length-set s.few) put_fresh
                put_counts
                (subst (λ k. call_if (inc_refs k) ref.ref_pointer w.store ≡ ok store') (sym is_kind)
                  run))
        | inr (why, run) ↦ absurd (ground (arith, e, run))
      ]

  passed_assign-Sound : Sound (record w { refs = set (set w.refs r ref) other (detached ref) })
  passed_assign-Sound =
      same-Sound w s (set (set w.refs r ref) other (detached ref))
        (rw (length-set, length-set) s.few)
        (detached-AreFresh w.store (set w.refs r ref) other ref put_fresh)
        (λ k j. omega (
          arith,
          attached-set k j (set w.refs r ref) other ref (detached ref) put_other,
          weight-detached k j ref,
          put_counts k j,
        ))

take_over-Sound :
    (r other : ℕ) (w w' : World) (old : RefData)
    → Sound w
    → get_elem? w.refs r ≡ some (detached old)
    → take_over r other w ≡ ok w'
    → Sound w'
unfolding take_over at_ref
take_over-Sound r other w w' old s free e = elim (Option-cases (get_elem? w.refs other)) [
  | inl nothing ↦ absurd (ground (arith, e, nothing))
  | inr (ref, at) ↦ elim (RefKind-cases ref.kind) [
    | inl is_read ↦
        counted_assign-Sound w s r other old ref free at read_ref w' is_read
          (rw (take_over, at_ref, at, is_read) at e)
    | inr (inl is_write) ↦
        counted_assign-Sound w s r other old ref free at write_ref w' is_write
          (rw (take_over, at_ref, at, is_write) at e)
    | inr (inr is_both) ↦
        let is : record w { refs = set (set w.refs r ref) other (detached ref) } ≡ w' =
          ground (arith, rw (take_over, at_ref, at, is_both) at e) in
        subst Sound is (passed_assign-Sound w s r other old ref free at)
  ]
]

-- operator= that ends normally leaves the counters right.
pub assign_ref-Sound :
    (r other : ℕ) (w w' : World) → Sound w → assign_ref r other w ≡ ok w' → Sound w'
unfolding assign_ref reset_ref at_ref
assign_ref-Sound r other w w' s e = elim (Option-cases (get_elem? w.refs r)) [
  | inl nothing ↦ absurd (ground (arith, e, nothing))
  | inr (old, there) ↦
      let (w1, run, (s1, refs1)) = reset_ref-Sound r w old s there in
      let free : get_elem? w1.refs r ≡ some (detached old) =
        ap (λ refs. get_elem? refs r) refs1
        ∙ get_elem?-set w.refs r r (detached old) (some-length w.refs r old there)
        ∙ rw (==_refl r) refl in
      take_over-Sound r other w1 w' old s1 free (rw (assign_ref, run) at e)
]

nothing_attached :
    (w : World) (i : ℕ) (p : RefPointer)
    → Sound w
    → get_elem? w.store i ≡ some p
    → ((k : RefKind) → counter k p ≡ 0)
    → (r : ℕ) (ref : RefData) → get_elem? w.refs r ≡ some ref
    → ref.ref_pointer ≢ some i
nothing_attached w i p s at unused r ref e here = omega (
  arith,
  s.counts ref.kind i p at,
  unused ref.kind,
  weight-le_attached ref.kind i w.refs r ref e,
  weight_here ref.kind i ref here,
  is_kind_self ref.kind,
)

unused-Sound :
    (i pointer : ℕ) (w : World) (p : RefPointer)
    → Sound w
    → get_elem? w.store i ≡ some p
    → ((k : RefKind) → counter k p ≡ 0)
    → Sound (record w { store = set w.store i (record p { pointer = pointer }) })
unused-Sound i pointer w p s at unused =
    let p' = record p { pointer = pointer } in
    let same = every_kind (λ k. counter k p' ≡ counter k p) refl refl refl in
    record {
      counts = λ k j q there. elim (set-cases w.store i j p' q there) [
        | inl (eq, new) ↦
            ap (counter k) new ∙ same k ∙ s.counts k i p at ∙ ap (λ i. attached k i w.refs) (sym eq)
        | inr (_, old) ↦ s.counts k j q old
      ];
      exclusive = λ j q there. elim (set-cases w.store i j p' q there) [
        | inl (eq, new) ↦
            let x = s.exclusive i p at in
            subst IsExclusive (sym new) (record { no_reader = x.no_reader; alone = x.alone })
        | inr (_, old) ↦ s.exclusive j q old
      ];
      fresh = λ r ref j e a.
          let (q, there, is) = s.fresh r ref j e a in
          elim (ℕ_discrete i j) [
            | yes eq ↦ absurd (nothing_attached w i p s at unused r ref e (a ∙ ap some (sym eq)))
            | no ne ↦ (
              q,
              get_elem?-set w.store i j p' (some-length w.store i p at) ∙ rw (ne→== i j ne) there,
              is,
            )
          ];
      few = s.few;
    }

-- Set that ends normally changes a pointer without references.
pub set_ref_pointer-Sound :
    (i pointer : ℕ) (w w' : World) → Sound w → set_ref_pointer i pointer w ≡ ok w' → Sound w'
unfolding set_ref_pointer set_pointer
set_ref_pointer-Sound i pointer w w' s e = elim (Run-cases (call (set_pointer pointer) i w.store)) [
  | inr (why, run) ↦ absurd (ground (arith, e, run))
  | inl (store', run) ↦
      let (p, p', at, changed, is) = call-set (set_pointer pointer) i w.store store' run in
      let unused =
        every_kind (λ k. counter k p ≡ 0) (ground (arith, changed)) (ground (arith, changed))
          (ground (arith, changed)) in
      let same : p' ≡ record p { pointer = pointer } = ground (arith, changed) in
      let all : w' ≡ record w { store = set w.store i (record p { pointer = pointer }) } =
        ground (arith, e, run, is, same) in
      subst Sound (sym all) (unused-Sound i pointer w p s at unused)
]
