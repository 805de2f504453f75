-- ===== src/Containers/MemBuffer/Tests.antt =====
-- MemBuffer over 64 bytes at the address 100.
use yengine.Base.{◌+◌, ◌≡◌, refl, true, [], ◌∷◌, arith, ok, Returns}
use yengine.Containers.MemBuffer.{
  MemBuffer, reset, init, clear, allocate, allocate_aligned, free, open_scratch_pad,
  close_scratch_pad,
}
use yengine.Containers.MemBuffer.Allocation.{IsValid, Aligned, allocate_aligned-Aligned}
use yengine.Containers.MemBuffer.Layout.{
  Block, Reaches, initialized, allocated, allocated_aligned, opened, AreApart,
}
use yengine.Containers.MemBuffer.Apart.{Reaches-AreApart}
use yengine.Containers.MemBuffer.ScratchPad.{close-open_scratch_pad}
use yengine.Headers.Macros.{and_bits, is_power_of_2, round_down, round_up}

program : Unit {0}
unfolding reset init clear allocate allocate_aligned free open_scratch_pad close_scratch_pad
    and_bits is_power_of_2 round_down round_up
program = tt

abbrev fresh : MemBuffer
fresh = record { buffer = 100; used_buffer_size = 0; used_scratch_pad_size = 0; buffer_size = 64 }

abbrev used : MemBuffer
used = record fresh { used_buffer_size = 20 }

fresh-IsValid : IsValid fresh
fresh-IsValid = record { supplied = omega arith; room = omega arith; in_memory = omega arith }

used-IsValid : IsValid used
used-IsValid = record { supplied = omega arith; room = omega arith; in_memory = omega arith }

round_up_run : round_up 13 8 ≡ 16
unfolding program
round_up_run = refl

eight_is_power : is_power_of_2 8 ≡ true
unfolding program
eight_is_power = refl

init_run : init 100 64 ≡ ok fresh
unfolding program
init_run = refl

allocate_run : allocate fresh 20 ≡ (100, used)
unfolding program
allocate_run = refl

allocate_more_run : allocate used 8 ≡ (120, record fresh { used_buffer_size = 28 })
unfolding program
allocate_more_run = refl

allocate_aligned_run : allocate_aligned used 5 8 ≡ ok (120, record fresh { used_buffer_size = 33 })
unfolding program
allocate_aligned_run = refl

allocate_aligned-Aligned_example :
    Returns (allocate_aligned used 5 8) λ (address, b'). Aligned used used-IsValid 5 8 address b'
allocate_aligned-Aligned_example =
    allocate_aligned-Aligned used used-IsValid 5 8 eight_is_power (omega arith) (omega arith)

abbrev front : Block
front = record { start = 100; size = 20 }

abbrev second : Block
second = record { start = 120; size = 8 }

-- An aligned block of 8 bytes behind the one that is there, and a scratch pad of 16 bytes.
third_run : allocate_aligned used 8 8 ≡ ok (120, record fresh { used_buffer_size = 36 })
unfolding program
third_run = refl

abbrev third : Block
third = record { start = 120; size = 16 }

abbrev padded : MemBuffer
padded = record fresh { used_buffer_size = 36; used_scratch_pad_size = 16 }

padded-Reaches : Reaches 100 64 16 padded (third ∷ front ∷ []) (16 ∷ [])
unfolding program
padded-Reaches =
    opened (record fresh { used_buffer_size = 36 }) (third ∷ front ∷ []) [] 16
      (allocated_aligned used (front ∷ []) [] 8 8 120 (record fresh { used_buffer_size = 36 })
        (allocated fresh [] [] 20 100 used (initialized fresh init_run) allocate_run (omega arith))
        (omega arith) (omega arith) third_run (omega arith))
      (omega arith)

Reaches-AreApart_example : IsValid padded × AreApart 100 (100 + 36) (third ∷ front ∷ [])
Reaches-AreApart_example =
    Reaches-AreApart 100 64 16 padded (third ∷ front ∷ []) (16 ∷ []) (omega arith) (omega arith)
      (omega arith) padded-Reaches

close-open_scratch_pad_example :
    (let (pad, b') = open_scratch_pad used 16 in close_scratch_pad b' pad ≡ used)
close-open_scratch_pad_example = close-open_scratch_pad used 16 used-IsValid (omega arith)
