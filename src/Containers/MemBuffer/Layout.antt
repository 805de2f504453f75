-- ===== src/Containers/MemBuffer/Layout.antt =====
-- The blocks of a MemBuffer that are given out at a time: they lie one behind the other from the front of
-- the buffer, so no two overlap.
use yengine.Base.{ℕ, ◌+◌, ◌≤◌, ◌<◌, ◌≡◌, ◌≢◌, List, [], ◌∷◌, arith, ok}
use yengine.Containers.MemBuffer.{
  MemBuffer, init, allocate, allocate_aligned, free, Pad, open_scratch_pad, close_scratch_pad,
}

-- The address and the size of a block.
pub record Block : Type 0 where
  pub start : ℕ
  pub size : ℕ

-- A buffer after Init and these calls: the blocks in use and the sizes of the scratch pads that are
-- open, the newest first. Blocks are freed and pads closed in the reverse order. No call asks for more
-- than `largest` bytes where it says so; the block of an aligned Allocate is the bytes that it takes, with
-- those for the alignment.
pub data Reaches (buffer buffer_size largest : ℕ) : MemBuffer → List Block → List ℕ → Type 0 where
  initialized :
      (b : MemBuffer) → init buffer buffer_size ≡ ok b → Reaches buffer buffer_size largest b [] []
  allocated :
      (b : MemBuffer) (blocks : List Block) (pads : List ℕ) (n address : ℕ) (b' : MemBuffer)
      → Reaches buffer buffer_size largest b blocks pads
      → allocate b n ≡ (address, b')
      → address ≢ 0
      → Reaches buffer buffer_size largest b' (record { start = address; size = n } ∷ blocks) pads
  allocated_aligned :
      (b : MemBuffer) (blocks : List Block) (pads : List ℕ) (n alignment address : ℕ)
      (b' : MemBuffer)
      → Reaches buffer buffer_size largest b blocks pads
      → 0 < alignment
      → n + alignment ≤ largest
      → allocate_aligned b n alignment ≡ ok (address, b')
      → address ≢ 0
      → Reaches buffer buffer_size largest b'
          (record { start = b.buffer + b.used_buffer_size; size = n + alignment } ∷ blocks)
          pads
  freed :
      (b : MemBuffer) (block : Block) (blocks : List Block) (pads : List ℕ) (b' : MemBuffer)
      → Reaches buffer buffer_size largest b (block ∷ blocks) pads
      → free b block.size ≡ ok b'
      → Reaches buffer buffer_size largest b' blocks pads
  opened :
      (b : MemBuffer) (blocks : List Block) (pads : List ℕ) (n : ℕ)
      → Reaches buffer buffer_size largest b blocks pads
      → n ≤ largest
      → Reaches buffer buffer_size largest
          (open_scratch_pad b n).1
          blocks
          ((open_scratch_pad b n).0.scratch_pad_size ∷ pads)
  closed :
      (b : MemBuffer) (blocks : List Block) (pads : List ℕ) (pad : Pad)
      → Reaches buffer buffer_size largest b blocks (pad.scratch_pad_size ∷ pads)
      → Reaches buffer buffer_size largest (close_scratch_pad b pad) blocks pads

abbrev pub sum : List ℕ → ℕ
sum [] = 0
sum (n ∷ ns) = n + sum ns

-- From `base` up to `end` the blocks lie one behind the other.
abbrev pub IsLaid : ℕ → ℕ → List Block → Type 0
IsLaid base end [] = end ≡ base
IsLaid base end (block ∷ blocks) = (block.start + block.size ≡ end) × IsLaid base block.start blocks

abbrev pub All : (Block → Type 0) → List Block → Type 0
All P [] = Unit
All P (block ∷ blocks) = P block × All P blocks

-- Every block lies in the range, and before every newer one.
abbrev pub AreApart : ℕ → ℕ → List Block → Type 0
AreApart base end [] = Unit
AreApart base end (block ∷ blocks) =
    (base ≤ block.start)
    × (block.start + block.size ≤ end)
    × All (λ older. older.start + older.size ≤ block.start) blocks
    × AreApart base block.start blocks

pub IsLaid-le : (base end : ℕ) (blocks : List Block) → IsLaid base end blocks → base ≤ end
IsLaid-le base end [] laid = omega (arith, laid)
IsLaid-le base end (block ∷ blocks) laid =
    omega (arith, laid.0, IsLaid-le base block.start blocks laid.1)

IsLaid-All :
    (base end bound : ℕ) (blocks : List Block)
    → IsLaid base end blocks
    → end ≤ bound
    → All (λ older. older.start + older.size ≤ bound) blocks
IsLaid-All base end bound [] laid h = tt
IsLaid-All base end bound (block ∷ blocks) laid h =
    (omega (arith, laid.0), IsLaid-All base block.start bound blocks laid.1 (omega (arith, laid.0)))

pub IsLaid-AreApart :
    (base end : ℕ) (blocks : List Block) → IsLaid base end blocks → AreApart base end blocks
IsLaid-AreApart base end [] laid = tt
IsLaid-AreApart base end (block ∷ blocks) laid = (
  IsLaid-le base block.start blocks laid.1,
  omega (arith, laid.0),
  IsLaid-All base block.start block.start blocks laid.1 (omega arith),
  IsLaid-AreApart base block.start blocks laid.1,
)
