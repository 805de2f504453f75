-- ===== src/Containers/MemBuffer/Allocation.antt =====
-- What each allocation of a MemBuffer answers.
use yengine.Base.{
  ℕ, ◌+◌, ◌-◌, ◌^◌, ◌%◌, ◌≤◌, ◌<◌, ◌≡◌, refl, sym, ◌∙◌, true, arith, leb, if◌then◌else◌, ok, fault,
  assertion, Returns, add64,
}
use yengine.Containers.MemBuffer.{MemBuffer, init, free_space, allocate, allocate_aligned, free}
use yengine.Headers.Macros.{is_power_of_2, round_up, round_up_lem}
use native.Mathlib.Nat.{mod-eq_of_lt}

-- What is given out fits the buffer, and the buffer fits the address space.
pub record IsValid (b : MemBuffer) : Type 0 where
  pub supplied : 0 < b.buffer
  pub room : b.used_buffer_size + b.used_scratch_pad_size ≤ b.buffer_size
  pub in_memory : b.buffer + b.buffer_size < 2 ^ 64

-- So many bytes are left.
abbrev pub HasRoom : MemBuffer → ℕ → Type 0
HasRoom b n = b.used_buffer_size + b.used_scratch_pad_size + n ≤ b.buffer_size

-- Init of an address range that does not wrap leaves a valid buffer, of which nothing is given out.
pub init-IsValid :
    (buffer buffer_size : ℕ)
    → 0 < buffer
    → buffer + buffer_size < 2 ^ 64
    → Returns (init buffer buffer_size) λ b. IsValid b × (free_space b ≡ buffer_size)
unfolding init
init-IsValid buffer buffer_size supplied h = (
  record {
    buffer = buffer;
    used_buffer_size = 0;
    used_scratch_pad_size = 0;
    buffer_size = buffer_size;
  },
  ground (arith, supplied),
  (record { supplied = supplied; room = omega arith; in_memory = h }, omega arith),
)

module _ (b : MemBuffer) (v : IsValid b) where
  -- Allocate answers the next address of the buffer where there is room, and nullptr where there is not.
  pub allocate_room :
      (n : ℕ)
      → HasRoom b n
      → allocate b n
        ≡ (b.buffer + b.used_buffer_size, record b { used_buffer_size = b.used_buffer_size + n })
  unfolding allocate
  allocate_room n h = ground (arith, v.in_memory)

  pub allocate_full : (n : ℕ) → ¬ HasRoom b n → allocate b n ≡ (0, b)
  unfolding allocate
  allocate_full n h = ground (arith, v.in_memory, v.room)

  pub allocated-IsValid :
      (n : ℕ) → HasRoom b n → IsValid (record b { used_buffer_size = b.used_buffer_size + n })
  allocated-IsValid n h = record {
    supplied = v.supplied;
    room = omega arith;
    in_memory = v.in_memory;
  }

  -- Free of the last bytes allocated takes them back, and more cannot be freed.
  pub free_lem :
      (n : ℕ)
      → free b n ≡ (
          if leb n b.used_buffer_size
          then ok (record b { used_buffer_size = b.used_buffer_size - n })
          else fault assertion)
  unfolding free
  free_lem n = ground (arith, v.in_memory, v.room)

  -- Where there is room, a block of the size asked for at a multiple of the alignment, between the old
  -- and the new end of the allocations.
  pub record Aligned (n alignment address : ℕ) (b' : MemBuffer) : Type 0 where
    pub valid : IsValid b'
    pub aligned : address % alignment ≡ 0
    pub after : b.buffer + b.used_buffer_size ≤ address
    pub before : address + n ≤ b'.buffer + b'.used_buffer_size

  -- In a valid buffer with room for the block and the alignment, an aligned Allocate for a power of
  -- two returns a multiple of it from which the whole block lies in the newly allocated part, and
  -- leaves the buffer valid.
  pub allocate_aligned-Aligned :
      (n alignment : ℕ)
      → is_power_of_2 alignment ≡ true
      → 0 < alignment
      → HasRoom b (n + alignment)
      → Returns (allocate_aligned b n alignment) λ (address, b'). Aligned n alignment address b'
  unfolding allocate_aligned
  allocate_aligned-Aligned n alignment is_power positive h =
      let total : add64 n alignment ≡ n + alignment = omega (arith, v.in_memory) in
      let rounded =
        round_up_lem (b.buffer + b.used_buffer_size) alignment is_power positive
          (omega (arith, v.in_memory)) in
      (
        (
          round_up (b.buffer + b.used_buffer_size) alignment,
          record b { used_buffer_size = b.used_buffer_size + (n + alignment) },
        ),
        rw (is_power, total, allocate_room (n + alignment) h) refl,
        record {
          valid = allocated-IsValid (n + alignment) h;
          aligned = rounded.0;
          after = rounded.1;
          before = omega (arith, rounded.2);
        },
      )

  -- In a valid buffer without room for the block and the alignment, an aligned Allocate for a power
  -- of two returns nullptr and leaves the buffer as it is, where the sum of the block and the
  -- alignment fits 64 bits.
  pub allocate_aligned_full :
      (n alignment : ℕ)
      → is_power_of_2 alignment ≡ true
      → 0 < alignment
      → n + alignment < 2 ^ 64
      → ¬ HasRoom b (n + alignment)
      → allocate_aligned b n alignment ≡ ok (0, b)
  unfolding allocate_aligned
  allocate_aligned_full n alignment is_power positive fits h =
      let total : add64 n alignment ≡ n + alignment = omega (arith, fits) in
      let rounded = round_up_lem 0 alignment is_power positive (omega (arith, fits)) in
      let zero_address : round_up 0 alignment ≡ 0 =
        sym (mod-eq_of_lt {n = round_up 0 alignment} {m = alignment} (omega (arith, rounded.2)))
        ∙ rounded.0 in
      rw (is_power, total, allocate_full (n + alignment) h, zero_address) refl
