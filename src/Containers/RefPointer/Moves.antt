-- ===== src/Containers/RefPointer/Moves.antt =====
-- The move constructors of the references: what is moved from stays attached.
use yengine.Base.{
  ℕ, ◌≡◌, refl, ◌∙◌, [], ◌∷◌, ◌++◌, some, arith, ne→==, ==_refl, get_elem?, set, length,
  length-append, get_elem?-set, ok, fault, assertion, Fault, ◌>>=◌, some-length,
  get_elem?-append_left, get_elem?-append_last,
}
use yengine.Containers.RefPointer.{
  RefPointer, RefKind, RefData, World, read_ref, write_ref, read_write_ref, dec_refs, dec_read_refs,
  dec_write_refs, dec_read_write_refs, at_pointer, at_ref, call, call_if, detached, reset_ref,
  move_ref,
}
use yengine.Containers.RefPointer.Counters.{counter, dec_refs-OneMore, call-ok}
use yengine.Containers.RefPointer.Weights.{attached}
use yengine.Containers.RefPointer.Sound.{Sound}
use yengine.Containers.RefPointer.Calls.{is_kind_self}

dec_refs_zero : (k : RefKind) (p : RefPointer) → counter k p ≡ 0 → dec_refs k p ≡ fault assertion
unfolding dec_refs dec_read_refs dec_write_refs dec_read_write_refs
dec_refs_zero read_ref p e = ground (arith, e)
dec_refs_zero write_ref p e = ground (arith, e)
dec_refs_zero read_write_ref p e = ground (arith, e)

-- Resetting an attached reference, of which the pointer's counter says how it goes on.
reset_ref-ok :
    (r i : ℕ) (w : World) (ref : RefData) (p p' : RefPointer)
    → get_elem? w.refs r ≡ some ref
    → ref.ref_pointer ≡ some i
    → get_elem? w.store i ≡ some p
    → dec_refs ref.kind p ≡ ok p'
    → reset_ref r w ≡ ok (record { store = set w.store i p'; refs = set w.refs r (detached ref) })
unfolding reset_ref at_ref call_if
reset_ref-ok r i w ref p p' e here at run =
    rw (reset_ref, at_ref, e, here, call-ok (dec_refs ref.kind) i w.store p p' at run) refl

reset_ref-fault :
    (r i : ℕ) (w : World) (ref : RefData) (p : RefPointer) (why : Fault)
    → get_elem? w.refs r ≡ some ref
    → ref.ref_pointer ≡ some i
    → get_elem? w.store i ≡ some p
    → dec_refs ref.kind p ≡ fault why
    → reset_ref r w ≡ fault why
unfolding reset_ref at_ref call_if call at_pointer
reset_ref-fault r i w ref p why e here at run =
    rw (reset_ref, at_ref, e, call_if, here, call, at_pointer, at, run) refl

-- Where the counters are right and the only reference of its kind to a pointer is moved, the
-- destructors of the old and then of the new reference end in a failed assertion.
pub move_ref_twice :
    (r i : ℕ) (w : World) (ref : RefData)
    → Sound w
    → get_elem? w.refs r ≡ some ref
    → ref.ref_pointer ≡ some i
    → attached ref.kind i w.refs ≡ 1
    → (move_ref r w >>= λ w1. reset_ref r w1 >>= λ w2. reset_ref (length w.refs) w2)
      ≡ fault assertion
unfolding move_ref at_ref
move_ref_twice r i w ref s e here only =
    let (p, at, _) = s.fresh r ref i e here in
    let one : counter ref.kind p ≡ 1 = s.counts ref.kind i p at ∙ only in
    let (p', run, (o, _)) =
      dec_refs-OneMore ref.kind p (omega (arith, one)) (omega (arith, one)) (s.exclusive i p at) in
    let none_left : counter ref.kind p' ≡ 0 =
      omega (arith, one, o.counted ref.kind, is_kind_self ref.kind) in
    let refs1 = w.refs ++ ref ∷ [] in
    let lt = some-length w.refs r ref e in
    let first =
      reset_ref-ok r i (record w { refs = refs1 }) ref p p'
        (get_elem?-append_left w.refs ref ref r e) here at run in
    let still_there : get_elem? (set refs1 r (detached ref)) (length w.refs) ≡ some ref =
      get_elem?-set refs1 r (length w.refs) (detached ref) (rw length-append (omega (arith, lt)))
      ∙ rw (ne→== r (length w.refs) (omega (arith, lt))) (get_elem?-append_last w.refs ref) in
    let counted_down : get_elem? (set w.store i p') i ≡ some p' =
      get_elem?-set w.store i i p' (some-length w.store i p at) ∙ rw (==_refl i) refl in
    let second =
      reset_ref-fault (length w.refs) i
        (record { store = set w.store i p'; refs = set refs1 r (detached ref) }) ref p' assertion
        still_there here counted_down (dec_refs_zero ref.kind p' none_left) in
    rw (move_ref, at_ref, e, first, second) refl
