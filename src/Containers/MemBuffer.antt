-- ===== src/Containers/MemBuffer.antt =====
-- classes MemBuffer and MemBuffer::ScratchPad of ycommon/containers/mem_buffer.h and mem_buffer.cpp.
pub mod Allocation
pub mod Layout
pub mod Apart
pub mod ScratchPad
mod Tests
use yengine.Base.{
  ℕ, ◌+◌, ◌-◌, Bool, true, false, not, leb, ltb, ◌==◌, if◌then◌else◌, Run, ok, fault, ◌>>=◌, ◌>>◌,
  assert, add64, sub64,
}
use yengine.Headers.Macros.{is_power_of_2, round_up}

-- `buffer` is an address, 0 for nullptr.
pub record MemBuffer : Type 0 where
  pub buffer : ℕ
  pub used_buffer_size : ℕ
  pub used_scratch_pad_size : ℕ
  pub buffer_size : ℕ

-- MemBuffer(), and Reset
pub reset : MemBuffer
reset = record { buffer = 0; used_buffer_size = 0; used_scratch_pad_size = 0; buffer_size = 0 }

pub init : ℕ → ℕ → Run MemBuffer
init buffer buffer_size = do
  assert (not (buffer == 0))
  ok (record {
    buffer = buffer;
    used_buffer_size = 0;
    used_scratch_pad_size = 0;
    buffer_size = buffer_size;
  })

pub clear : MemBuffer → MemBuffer
clear b = record b { used_buffer_size = 0; used_scratch_pad_size = 0 }

abbrev pub allocated_total_space : MemBuffer → ℕ
allocated_total_space b = add64 b.used_buffer_size b.used_scratch_pad_size

abbrev pub free_space : MemBuffer → ℕ
free_space b = sub64 b.buffer_size (allocated_total_space b)

pub allocate : MemBuffer → ℕ → ℕ × MemBuffer
allocate b allocation_size = if ltb (free_space b) allocation_size then (0, b) else (
  add64 b.buffer b.used_buffer_size,
  record b { used_buffer_size = add64 b.used_buffer_size allocation_size },
)

-- Allocate with an alignment
pub allocate_aligned : MemBuffer → ℕ → ℕ → Run (ℕ × MemBuffer)
allocate_aligned b allocation_size alignment = do
  assert (is_power_of_2 alignment)
  let (buffer, b') = allocate b (add64 allocation_size alignment)
  ok (round_up buffer alignment, b')

pub free : MemBuffer → ℕ → Run MemBuffer
free b allocation_size = do
  assert (leb allocation_size b.used_buffer_size)
  ok (record b { used_buffer_size = sub64 b.used_buffer_size allocation_size })

pub record Pad : Type 0 where
  pub scratch_pad_memory : ℕ
  pub scratch_pad_size : ℕ

-- ScratchPad(buffer, scratch_pad_size)
pub open_scratch_pad : MemBuffer → ℕ → Pad × MemBuffer
open_scratch_pad b scratch_pad_size =
    let new_size = add64 (add64 scratch_pad_size b.used_buffer_size) b.used_scratch_pad_size in
    let used = add64 b.used_scratch_pad_size scratch_pad_size in
    if leb new_size b.buffer_size
    then (
      record { scratch_pad_memory = add64 b.buffer used; scratch_pad_size = scratch_pad_size },
      record b { used_scratch_pad_size = used },
    )
    else (record { scratch_pad_memory = 0; scratch_pad_size = 0 }, b)

-- ~ScratchPad()
pub close_scratch_pad : MemBuffer → Pad → MemBuffer
close_scratch_pad b pad = record b {
  used_scratch_pad_size = sub64 b.used_scratch_pad_size pad.scratch_pad_size;
}
