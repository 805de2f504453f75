-- ===== src/Containers/RefPointer.antt =====
-- classes RefPointer, ReadRefData, WriteRefData and ReadWriteRefData of ycommon/containers/ref_pointer.h and
-- ref_pointer.cpp.
pub mod Counters
pub mod Weights
pub mod Sound
pub mod Calls
pub mod Constructors
pub mod Assign
pub mod AnyCall
pub mod Moves
mod Tests
use yengine.Base.{
  ℕ, zero, suc, ◌+◌, ◌-◌, ◌%◌, Bool, true, false, not, ◌&&◌, List, [], ◌∷◌, ◌++◌, Option, none,
  some, ◌==◌, if◌then◌else◌, get_elem?, set, Run, ok, fault, out_of_range, ◌>>=◌, ◌>>◌, assert,
}

-- The counters have 8 bits. `pointer` is an address, 0 for nullptr.
pub record RefPointer : Type 0 where
  pub read_refs : ℕ
  pub write_refs : ℕ
  pub read_write_refs : ℕ
  pub pointer : ℕ

-- The classes of references.
pub data RefKind : Type 0 where
  read_ref write_ref read_write_ref : RefKind

-- mRefPointer is an index in the store, none for nullptr.
pub record RefData : Type 0 where
  pub kind : RefKind
  pub pointer : ℕ
  pub ref_pointer : Option ℕ

abbrev pub add8 : ℕ → ℕ → ℕ
add8 a b = (a + b) % 256

abbrev pub sub8 : ℕ → ℕ → ℕ
sub8 a b = (a + 256 - b % 256) % 256

pub inc_read_refs : RefPointer → Run RefPointer
inc_read_refs p = do
  assert (p.write_refs == 0)
  assert (p.read_write_refs == 0)
  ok (record p { read_refs = add8 p.read_refs 1 })

pub dec_read_refs : RefPointer → Run RefPointer
dec_read_refs p = do
  assert (not (p.read_refs == 0))
  ok (record p { read_refs = sub8 p.read_refs 1 })

pub inc_write_refs : RefPointer → Run RefPointer
inc_write_refs p = do
  assert (p.read_refs == 0)
  assert (p.read_write_refs == 0)
  ok (record p { write_refs = add8 p.write_refs 1 })

pub dec_write_refs : RefPointer → Run RefPointer
dec_write_refs p = do
  assert (not (p.write_refs == 0))
  ok (record p { write_refs = sub8 p.write_refs 1 })

pub inc_read_write_refs : RefPointer → Run RefPointer
inc_read_write_refs p = do
  assert (p.read_refs == 0)
  assert (p.write_refs == 0)
  assert (p.read_write_refs == 0)
  ok (record p { read_write_refs = add8 p.read_write_refs 1 })

pub dec_read_write_refs : RefPointer → Run RefPointer
dec_read_write_refs p = do
  assert (not (p.read_write_refs == 0))
  ok (record p { read_write_refs = sub8 p.read_write_refs 1 })

-- Reset and Set of a RefPointer
pub set_pointer : ℕ → RefPointer → Run RefPointer
set_pointer pointer p = do
  assert (p.read_refs == 0)
  assert (p.write_refs == 0)
  assert (p.read_write_refs == 0)
  ok (record p { pointer = pointer })

-- The call for the class of a reference.
pub inc_refs : RefKind → RefPointer → Run RefPointer
inc_refs read_ref = inc_read_refs
inc_refs write_ref = inc_write_refs
inc_refs read_write_ref = inc_read_write_refs

pub dec_refs : RefKind → RefPointer → Run RefPointer
dec_refs read_ref = dec_read_refs
dec_refs write_ref = dec_write_refs
dec_refs read_write_ref = dec_read_write_refs

-- The RefPointers of a program and its references, those that are reset or destroyed among them.
pub record World : Type 0 where
  pub store : List RefPointer
  pub refs : List RefData

pub at_pointer : List RefPointer → ℕ → Run RefPointer
at_pointer store i = elim (get_elem? store i) [ none ↦ fault out_of_range | some p ↦ ok p ]

pub at_ref : List RefData → ℕ → Run RefData
at_ref refs r = elim (get_elem? refs r) [ none ↦ fault out_of_range | some ref ↦ ok ref ]

-- A call of the RefPointer at an index.
pub call : (RefPointer → Run RefPointer) → ℕ → List RefPointer → Run (List RefPointer)
call f i store = do p ← at_pointer store i; p' ← f p; ok (set store i p')

-- if (mRefPointer) mRefPointer->...
pub call_if : (RefPointer → Run RefPointer) → Option ℕ → List RefPointer → Run (List RefPointer)
call_if f none store = ok store
call_if f (some i) store = call f i store

-- GetReadRef, GetWriteRef and GetReadWriteRef: a new reference.
pub get_ref : RefKind → ℕ → World → Run World
get_ref kind i w = do
  p ← at_pointer w.store i
  store ← call (inc_refs kind) i w.store
  ok (record {
    store = store;
    refs = w.refs ++ record { kind = kind; pointer = p.pointer; ref_pointer = some i } ∷ [];
  })

-- BaseRefData::Reset
abbrev pub detached : RefData → RefData
detached ref = record ref { pointer = 0; ref_pointer = none }

-- Reset, and the destructors
pub reset_ref : ℕ → World → Run World
reset_ref r w = do
  ref ← at_ref w.refs r
  store ← call_if (dec_refs ref.kind) ref.ref_pointer w.store
  ok (record { store = store; refs = set w.refs r (detached ref) })

-- The copy constructors of ReadRefData and WriteRefData
abbrev pub copy_counted : RefKind → RefData → World → Run World
copy_counted kind ref w = do
  store ← call_if (inc_refs kind) ref.ref_pointer w.store
  ok (record { store = store; refs = w.refs ++ ref ∷ [] })

-- The copy constructor of ReadWriteRefData, which detaches what it copies.
abbrev pub copy_passed_on : ℕ → RefData → World → World
copy_passed_on r ref w = record w { refs = set w.refs r (detached ref) ++ ref ∷ [] }

-- The copy constructor of the reference's class.
pub copy_ref : ℕ → World → Run World
copy_ref r w = do
  ref ← at_ref w.refs r
  elim ref.kind [ read_write_ref ↦ ok (copy_passed_on r ref w) | kind ↦ copy_counted kind ref w ]

-- The move constructors: `other` has a name, so BaseRefData is constructed as a copy, and nothing is
-- counted.
pub move_ref : ℕ → World → Run World
move_ref r w = do ref ← at_ref w.refs r; ok (record w { refs = w.refs ++ ref ∷ [] })

-- operator= of ReadRefData and WriteRefData after Reset
abbrev pub assign_counted : RefKind → ℕ → RefData → World → Run World
assign_counted kind r ref w = do
  store ← call_if (inc_refs kind) ref.ref_pointer w.store
  ok (record { store = store; refs = set w.refs r ref })

-- operator= of ReadWriteRefData after Reset
abbrev pub assign_passed_on : ℕ → ℕ → RefData → World → World
assign_passed_on r other ref w = record w { refs = set (set w.refs r ref) other (detached ref) }

-- What operator= of the class of the other reference does after Reset.
pub take_over : ℕ → ℕ → World → Run World
take_over r other w = do
  ref ← at_ref w.refs other
  elim ref.kind [
    | read_write_ref ↦ ok (assign_passed_on r other ref w)
    | kind ↦ assign_counted kind r ref w
  ]

-- operator= of two references, which may be the same one: the other is read after the reset.
pub assign_ref : ℕ → ℕ → World → Run World
assign_ref r other w = do w' ← reset_ref r w; take_over r other w'

-- GetData
pub get_data : ℕ → World → Run ℕ
get_data r w = do
  ref ← at_ref w.refs r
  elim ref.ref_pointer [
    | none ↦ ok ref.pointer
    | some i ↦ (do p ← at_pointer w.store i; assert (p.pointer == ref.pointer); ok ref.pointer)
  ]

-- Set of a RefPointer, and operator= from an address
pub set_ref_pointer : ℕ → ℕ → World → Run World
set_ref_pointer i pointer w = do
  store ← call (set_pointer pointer) i w.store
  ok (record w { store = store })
