-- ===== src/Containers/RefPointer/Calls.antt =====
-- One reference more, or one less, with its RefPointer's counter.
use mathlib.Core.Option.{none-ne-some}
use yengine.Base.{
  ℕ, ◌+◌, ◌<◌, ◌≡◌, refl, sym, ap, ◌∙◌, subst, inl, inr, List, [], ◌∷◌, ◌++◌, some, arith,
  if◌then◌else◌, get_elem?, set, length, length-set, Option-cases, ok, Returns, set-cases,
  append-cases,
}
use yengine.Containers.RefPointer.{
  RefPointer, RefKind, RefData, World, read_ref, write_ref, read_write_ref, inc_refs, dec_refs,
  at_ref, call_if, detached, reset_ref,
}
use yengine.Containers.RefPointer.Counters.{
  counter, is_kind, inc_refs-OneMore, dec_refs-OneMore, call-set, call-ok,
}
use yengine.Containers.RefPointer.Weights.{
  weight, attached, attached-le, attached-set, weight-le_attached, weight-detached, weight_here,
  weight_elsewhere, weight_nowhere,
}
use yengine.Containers.RefPointer.Sound.{AreFresh, Sound, same-Sound, change-Sound}

pub is_kind_self : (k : RefKind) → ◌≡◌ {A = ℕ} (if is_kind k k then 1 else 0) 1
is_kind_self read_ref = refl
is_kind_self write_ref = refl
is_kind_self read_write_ref = refl

-- A detached reference is of no pointer.
pub detached-AreFresh :
    (store : List RefPointer) (refs : List RefData) (r : ℕ) (ref : RefData)
    → AreFresh store refs
    → AreFresh store (set refs r (detached ref))
detached-AreFresh store refs r ref fresh q x i e a = elim (set-cases refs r q (detached ref) x e) [
  | inl (_, is) ↦ absurd (none-ne-some i (sym (ap (λ x. x.ref_pointer) is) ∙ a))
  | inr (_, old) ↦ fresh q x i old a
]

-- A reference that has the pointer of its RefPointer.
abbrev pub HasPointer : List RefPointer → RefData → Type 0
HasPointer store ref =
    (i : ℕ)
    → ref.ref_pointer ≡ some i
    → (p : RefPointer) × (get_elem? store i ≡ some p) × (p.pointer ≡ ref.pointer)

pub append-AreFresh :
    (store : List RefPointer) (refs : List RefData) (ref : RefData)
    → AreFresh store refs
    → HasPointer store ref
    → AreFresh store (refs ++ ref ∷ [])
append-AreFresh store refs ref fresh has q x i e a = elim (append-cases refs q ref x e) [
  | inl is ↦ subst (HasPointer store) (sym is) has i a
  | inr old ↦ fresh q x i old a
]

pub set-AreFresh_ref :
    (store : List RefPointer) (refs : List RefData) (r : ℕ) (ref : RefData)
    → AreFresh store refs
    → HasPointer store ref
    → AreFresh store (set refs r ref)
set-AreFresh_ref store refs r ref fresh has q x i e a = elim (set-cases refs r q ref x e) [
  | inl (_, is) ↦ subst (HasPointer store) (sym is) has i a
  | inr (_, old) ↦ fresh q x i old a
]

-- One more reference is counted, by a call that ends normally.
pub added-Sound :
    (w : World) (ref : RefData) (refs' : List RefData) (store' : List RefPointer)
    → Sound w
    → length refs' < 256
    → AreFresh w.store refs'
    → ((k : RefKind) (j : ℕ) → attached k j refs' ≡ attached k j w.refs + weight k j ref)
    → call_if (inc_refs ref.kind) ref.ref_pointer w.store ≡ ok store'
    → Sound (record { store = store'; refs = refs' })
unfolding call_if
added-Sound w ref refs' store' s few fresh more e = elim (Option-cases ref.ref_pointer) [
  | inl nowhere ↦
      let run : ok w.store ≡ ok store' =
        subst (λ o. call_if (inc_refs ref.kind) o w.store ≡ ok store') nowhere e in
      let is : w.store ≡ store' = ground (arith, run) in
      subst (λ store. Sound (record { store = store; refs = refs' })) is
        (same-Sound w s refs' few fresh
          (λ k j. omega (arith, more k j, weight_nowhere k j ref nowhere)))
  | inr (i, here) ↦
      let run = subst (λ o. call_if (inc_refs ref.kind) o w.store ≡ ok store') here e in
      let (p, p', at, inc, is) = call-set (inc_refs ref.kind) i w.store store' run in
      let own = weight_here ref.kind i ref here ∙ is_kind_self ref.kind in
      let (o, x) =
        inc_refs-OneMore ref.kind p p'
          (omega (
            arith,
            s.counts ref.kind i p at,
            attached-le ref.kind i refs',
            more ref.kind i,
            own,
            few,
          ))
          (s.exclusive i p at) inc in
      subst (λ store. Sound (record { store = store; refs = refs' })) (sym is)
        (change-Sound w s refs' few fresh i p p' at
          (λ k. omega (arith, o.counted k, s.counts k i p at, more k i, weight_here k i ref here))
          (λ k j ne. omega (arith, more k j, weight_elsewhere k i j ref here ne)) x o.same)
]

-- Where the counters are right, the destructor of a reference fails no assertion, detaches the
-- reference, and leaves the counters right.
pub reset_ref-Sound :
    (r : ℕ) (w : World) (ref : RefData)
    → Sound w
    → get_elem? w.refs r ≡ some ref
    → Returns (reset_ref r w) λ w'. Sound w' × (w'.refs ≡ set w.refs r (detached ref))
unfolding reset_ref at_ref call_if
reset_ref-Sound r w ref s e =
    let refs' = set w.refs r (detached ref) in
    let few : length refs' < 256 = rw length-set s.few in
    let fresh = detached-AreFresh w.store w.refs r ref s.fresh in
    let change = λ (k : RefKind). λ (j : ℕ). attached-set k j w.refs r ref (detached ref) e in
    elim (Option-cases ref.ref_pointer) [
      | inl nowhere ↦ (
        record w { refs = refs' },
        rw (at_ref, e, nowhere) refl,
        (
          same-Sound w s refs' few fresh (λ k j.
              omega (arith, change k j, weight-detached k j ref, weight_nowhere k j ref nowhere)),
          refl,
        ),
      )
      | inr (i, here) ↦
          let (p, at, same) = s.fresh r ref i e here in
          let counted = s.counts ref.kind i p at in
          let own = weight_here ref.kind i ref here ∙ is_kind_self ref.kind in
          let positive : 0 < counter ref.kind p =
            omega (arith, counted, own, weight-le_attached ref.kind i w.refs r ref e) in
          let small : counter ref.kind p < 256 =
            omega (arith, counted, attached-le ref.kind i w.refs, s.few) in
          let (p', run, (o, x)) = dec_refs-OneMore ref.kind p positive small (s.exclusive i p at) in
          (
            record { store = set w.store i p'; refs = refs' },
            rw (at_ref, e, here, call-ok (dec_refs ref.kind) i w.store p p' at run) refl,
            (
              change-Sound w s refs' few fresh i p p' at
                  (λ k. omega (
                    arith,
                    o.counted k,
                    s.counts k i p at,
                    change k i,
                    weight-detached k i ref,
                    weight_here k i ref here,
                  ))
                  (λ k j ne. omega (
                    arith,
                    change k j,
                    weight-detached k j ref,
                    weight_elsewhere k i j ref here ne,
                  ))
                  x (sym o.same),
              refl,
            ),
          )
    ]
