-- ===== src/Containers/RefPointer/Tests.antt =====
-- Two RefPointers and their references.
use mathlib.Core.Option.{some-injective, none-ne-some}
use yengine.Base.{
  ℕ, zero, suc, ◌≡◌, refl, sym, ap, [], ◌∷◌, some, arith, get_elem?, set, ok, fault, assertion,
  Returns, ◌>>=◌,
}
use yengine.Containers.RefPointer.{
  RefPointer, RefKind, RefData, World, read_ref, write_ref, read_write_ref, inc_read_refs,
  dec_read_refs, inc_write_refs, dec_write_refs, inc_read_write_refs, dec_read_write_refs,
  set_pointer, inc_refs, dec_refs, at_pointer, at_ref, call, call_if, detached, get_ref, reset_ref,
  copy_ref, move_ref, take_over, assign_ref, get_data, set_ref_pointer,
}
use yengine.Containers.RefPointer.Counters.{counter, IsExclusive}
use yengine.Containers.RefPointer.Sound.{Sound}
use yengine.Containers.RefPointer.Calls.{reset_ref-Sound}
use yengine.Containers.RefPointer.AnyCall.{get, copy, perform_call, perform_call-Sound}
use yengine.Containers.RefPointer.Moves.{move_ref_twice}

program : Unit {0}
unfolding inc_read_refs dec_read_refs inc_write_refs dec_write_refs inc_read_write_refs
    dec_read_write_refs set_pointer inc_refs dec_refs at_pointer at_ref call call_if get_ref
    reset_ref copy_ref move_ref take_over assign_ref get_data set_ref_pointer perform_call
program = tt

abbrev unused : World
unused = record {
  store = record { read_refs = 0; write_refs = 0; read_write_refs = 0; pointer = 100 } ∷ [];
  refs = [];
}

abbrev own : RefData
own = record { kind = read_ref; pointer = 100; ref_pointer = some 0 }

abbrev one_reader : World
one_reader = record {
  store = record { read_refs = 1; write_refs = 0; read_write_refs = 0; pointer = 100 } ∷ [];
  refs = own ∷ [];
}

abbrev two_readers : World
two_readers = record {
  store = record { read_refs = 2; write_refs = 0; read_write_refs = 0; pointer = 100 } ∷ [];
  refs = own ∷ own ∷ [];
}

unused_counts :
    (k : RefKind) (i : ℕ) (p : RefPointer) → get_elem? unused.store i ≡ some p → counter k p ≡ 0
unused_counts read_ref zero p e = sym (ap (counter read_ref) (some-injective _ p e))
unused_counts write_ref zero p e = sym (ap (counter write_ref) (some-injective _ p e))
unused_counts read_write_ref zero p e = sym (ap (counter read_write_ref) (some-injective _ p e))
unused_counts k (suc i) p e = absurd (none-ne-some p e)

unused_pointers : (i : ℕ) (p : RefPointer) → get_elem? unused.store i ≡ some p → IsExclusive p
unused_pointers zero p e =
    let none_written = ap (λ p. p.write_refs) (some-injective _ p e) in
    let none_both = ap (λ p. p.read_write_refs) (some-injective _ p e) in
    record {
      no_reader = λ h. absurd (omega (arith, none_written));
      alone = λ h. absurd (omega (arith, none_both));
    }
unused_pointers (suc i) p e = absurd (none-ne-some p e)

unused-Sound : Sound unused
unused-Sound = record {
  counts = unused_counts;
  exclusive = unused_pointers;
  fresh = λ r ref i e. absurd (none-ne-some ref e);
  few = omega arith;
}

get_run : perform_call (get read_ref 0) unused ≡ ok one_reader
unfolding program
get_run = refl

one_reader-Sound : Sound one_reader
one_reader-Sound =
    perform_call-Sound (get read_ref 0) unused one_reader unused-Sound (omega arith) get_run

copy_run : perform_call (copy 0) one_reader ≡ ok two_readers
unfolding program
copy_run = refl

writer_run : get_ref write_ref 0 one_reader ≡ fault assertion
unfolding program
writer_run = refl

self_assign_run :
    assign_ref 0 0 one_reader ≡ ok (record { store = unused.store; refs = detached own ∷ [] })
unfolding program
self_assign_run = refl

perform_call-Sound_example : Sound two_readers
perform_call-Sound_example =
    perform_call-Sound (copy 0) one_reader two_readers one_reader-Sound (omega arith) copy_run

reset_ref-Sound_example :
    Returns (reset_ref 0 one_reader) λ w. Sound w × (w.refs ≡ set one_reader.refs 0 (detached own))
reset_ref-Sound_example = reset_ref-Sound 0 one_reader own one_reader-Sound refl

move_ref_twice_example :
    (move_ref 0 one_reader >>= λ w1. reset_ref 0 w1 >>= λ w2. reset_ref 1 w2) ≡ fault assertion
move_ref_twice_example = move_ref_twice 0 0 one_reader own one_reader-Sound refl refl refl
