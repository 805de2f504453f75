-- ===== src/Containers/MemBuffer/ScratchPad.antt =====
-- What a ScratchPad takes of its MemBuffer, and where its memory lies.
use yengine.Base.{ℕ, ◌+◌, ◌*◌, ◌^◌, ◌≤◌, ◌<◌, ◌≡◌, arith}
use yengine.Containers.MemBuffer.{MemBuffer, open_scratch_pad, close_scratch_pad}
use yengine.Containers.MemBuffer.Allocation.{IsValid, HasRoom}

module _ (b : MemBuffer) (v : IsValid b) (n : ℕ) where
  pub open_room :
      HasRoom b n
      → open_scratch_pad b n ≡ (
        record {
          scratch_pad_memory = b.buffer + b.used_scratch_pad_size + n;
          scratch_pad_size = n;
        },
        record b { used_scratch_pad_size = b.used_scratch_pad_size + n },
      )
  unfolding open_scratch_pad
  open_room h = ground (arith, v.in_memory)

  pub open_full :
      b.buffer_size + n < 2 ^ 64
      → ¬ HasRoom b n
      → open_scratch_pad b n ≡ (record { scratch_pad_memory = 0; scratch_pad_size = 0 }, b)
  unfolding open_scratch_pad
  open_full fits h = ground (arith, v.in_memory, v.room)

-- Opening a scratch pad on a valid buffer and closing it gives the buffer back, whether there was
-- room or not, where the size of the buffer and of the pad together fit 64 bits.
pub close-open_scratch_pad :
    (b : MemBuffer) (n : ℕ)
    → IsValid b
    → b.buffer_size + n < 2 ^ 64
    → (let (pad, b') = open_scratch_pad b n in close_scratch_pad b' pad ≡ b)
unfolding open_scratch_pad close_scratch_pad
close-open_scratch_pad b n v fits = ground (arith, v.in_memory, v.room)

-- Where a valid buffer has room and the scratch pads take less than what is allocated, the memory
-- of the new pad begins inside the allocated blocks.
pub open_scratch_pad_overlaps :
    (b : MemBuffer) (n : ℕ)
    → IsValid b
    → HasRoom b n
    → b.used_scratch_pad_size + n < b.used_buffer_size
    → (b.buffer ≤ (open_scratch_pad b n).0.scratch_pad_memory)
      × ((open_scratch_pad b n).0.scratch_pad_memory < b.buffer + b.used_buffer_size)
open_scratch_pad_overlaps b n v h small = rw (open_room b v n h) (omega arith, omega arith)

-- A scratch pad that fits an unused valid buffer and takes more than half of it reaches behind its
-- end.
pub open_scratch_pad_behind :
    (b : MemBuffer) (n : ℕ)
    → IsValid b
    → b.used_buffer_size + b.used_scratch_pad_size ≡ 0
    → n ≤ b.buffer_size
    → b.buffer_size < 2 * n
    → b.buffer + b.buffer_size
      < (open_scratch_pad b n).0.scratch_pad_memory + (open_scratch_pad b n).0.scratch_pad_size
open_scratch_pad_behind b n v unused fits large = rw (open_room b v n (omega arith)) (omega arith)

-- In a valid buffer, a scratch pad of a 64-bit size that makes the sum of the sizes in use reach
-- 2^64 is granted at that size.
pub open_scratch_pad_wraps :
    (b : MemBuffer) (n : ℕ)
    → IsValid b
    → n < 2 ^ 64
    → 2 ^ 64 ≤ b.used_buffer_size + b.used_scratch_pad_size + n
    → (open_scratch_pad b n).0.scratch_pad_size ≡ n
unfolding open_scratch_pad
open_scratch_pad_wraps b n v h wraps = ground (arith, v.room, v.in_memory)
