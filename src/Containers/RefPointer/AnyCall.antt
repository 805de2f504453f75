-- ===== src/Containers/RefPointer/AnyCall.antt =====
-- Any call of the references and RefPointers, and what GetData returns.
use yengine.Base.{
  ℕ, ◌<◌, ◌≡◌, sym, ap, inl, inr, some, arith, eq→==, get_elem?, set, length, Option-cases, Run, ok,
  Returns-value,
}
use yengine.Containers.RefPointer.{
  RefPointer, RefKind, RefData, World, at_pointer, at_ref, detached, get_ref, reset_ref, copy_ref,
  assign_ref, set_ref_pointer, get_data,
}
use yengine.Containers.RefPointer.Sound.{Sound}
use yengine.Containers.RefPointer.Calls.{reset_ref-Sound}
use yengine.Containers.RefPointer.Constructors.{copy_ref-Sound, get_ref-Sound}
use yengine.Containers.RefPointer.Assign.{assign_ref-Sound, set_ref_pointer-Sound}

reset_known : (r : ℕ) (w w' : World) → Sound w → reset_ref r w ≡ ok w' → Sound w'
unfolding reset_ref at_ref
reset_known r w w' s e = elim (Option-cases (get_elem? w.refs r)) [
  | inl nothing ↦ absurd (ground (arith, e, nothing))
  | inr (ref, there) ↦
      (Returns-value (λ w'. Sound w' × (w'.refs ≡ set w.refs r (detached ref))) {b = w'}
        (reset_ref-Sound r w ref s there) e).0
]

-- A call of a member function.
pub data Call : Type 0 where
  get : RefKind → ℕ → Call
  copy reset : ℕ → Call
  assign set_to : ℕ → ℕ → Call

unfoldable pub perform_call : Call → World → Run World
perform_call (get kind i) w = get_ref kind i w
perform_call (copy r) w = copy_ref r w
perform_call (reset r) w = reset_ref r w
perform_call (assign r other) w = assign_ref r other w
perform_call (set_to i pointer) w = set_ref_pointer i pointer w

-- Where every counter of every RefPointer is the number of the references of its kind that are
-- attached to it, a reader never stands beside a writer and a read/write reference is alone, and
-- attached references have the pointer of their RefPointer, this still holds after every call that
-- ends normally of the constructors but the moves, of Reset, operator= and Set, with fewer than 255
-- references before.
pub perform_call-Sound :
    (c : Call) (w w' : World) → Sound w → length w.refs < 255 → perform_call c w ≡ ok w' → Sound w'
unfolding perform_call
perform_call-Sound (get kind i) w w' s few e = get_ref-Sound kind i w w' s few e
perform_call-Sound (copy r) w w' s few e = copy_ref-Sound r w w' s few e
perform_call-Sound (reset r) w w' s few e = reset_known r w w' s e
perform_call-Sound (assign r other) w w' s few e = assign_ref-Sound r other w w' s e
perform_call-Sound (set_to i pointer) w w' s few e = set_ref_pointer-Sound i pointer w w' s e

-- Where the counters are right, GetData of an attached reference returns the pointer that its
-- RefPointer has now.
pub get_data-Sound :
    (r : ℕ) (w : World) (ref : RefData) (i : ℕ)
    → Sound w
    → get_elem? w.refs r ≡ some ref
    → ref.ref_pointer ≡ some i
    → (p : RefPointer) × (get_elem? w.store i ≡ some p) × (get_data r w ≡ ok p.pointer)
unfolding get_data at_ref at_pointer
get_data-Sound r w ref i s e a =
    let (p, at, same) = s.fresh r ref i e a in
    (
      p,
      at,
      rw (get_data, at_ref, at_pointer, e, a, at, eq→== p.pointer ref.pointer same)
          (ap ok (sym same)),
    )
