-- ===== src/Containers/MemBuffer/Apart.antt =====
-- A MemBuffer keeps its blocks apart through its calls.
use yengine.Base.{
  ℕ, ◌+◌, ◌-◌, ◌^◌, ◌<◌, ◌≡◌, refl, sym, subst, ap, ◌∙◌, ◌≢◌, List, [], ◌∷◌, arith, dec_le, ok, inl,
  inr, Bool-cases, ok-injective, fault-ne-ok, add64, sub64,
}
use yengine.Containers.MemBuffer.{
  MemBuffer, init, allocate, allocate_aligned, free, Pad, open_scratch_pad, close_scratch_pad,
}
use yengine.Headers.Macros.{is_power_of_2}
use yengine.Containers.MemBuffer.ScratchPad.{open_room, open_full}
use yengine.Containers.MemBuffer.Allocation.{
  IsValid, allocate_room, allocate_full, allocate_aligned_full, allocated-IsValid, free_lem,
}
use yengine.Containers.MemBuffer.Layout.{
  Block, Reaches, initialized, allocated, allocated_aligned, freed, opened, closed, sum, IsLaid,
  AreApart, IsLaid-le, IsLaid-AreApart,
}

-- What the steps keep up.
record Laid (buffer buffer_size : ℕ) (b : MemBuffer) (blocks : List Block) (pads : List ℕ)
    : Type 0 where
  valid : IsValid b
  same_buffer : b.buffer ≡ buffer
  same_size : b.buffer_size ≡ buffer_size
  laid : IsLaid buffer (buffer + b.used_buffer_size) blocks
  padded : b.used_scratch_pad_size ≡ sum pads

module _ (buffer buffer_size largest : ℕ) where
  allocated-Laid :
      (b : MemBuffer) (blocks : List Block) (pads : List ℕ) (n address : ℕ) (b' : MemBuffer)
      → Laid buffer buffer_size b blocks pads
      → allocate b n ≡ (address, b')
      → address ≢ 0
      → Laid buffer buffer_size b' (record { start = address; size = n } ∷ blocks) pads
  allocated-Laid b blocks pads n address b' l e supplied =
      elim (dec_le (b.used_buffer_size + b.used_scratch_pad_size + n) b.buffer_size) [
        | yes room ↦
            subst
              (λ r. Laid buffer buffer_size r.1 (record { start = r.0; size = n } ∷ blocks) pads)
              (sym (allocate_room b l.valid n room) ∙ e)
              (record {
                valid = allocated-IsValid b l.valid n room;
                same_buffer = l.same_buffer;
                same_size = l.same_size;
                laid = (omega (arith, l.same_buffer), rw l.same_buffer l.laid);
                padded = l.padded;
              })
        | no full ↦ absurd (supplied (ap (λ r. r.0) (sym e ∙ allocate_full b l.valid n full)))
      ]

  aligned-Laid :
      (b : MemBuffer) (blocks : List Block) (pads : List ℕ) (n alignment address : ℕ)
      (b' : MemBuffer)
      → Laid buffer buffer_size b blocks pads
      → 0 < alignment
      → n + alignment < 2 ^ 64
      → allocate_aligned b n alignment ≡ ok (address, b')
      → address ≢ 0
      → Laid buffer buffer_size b'
          (record { start = b.buffer + b.used_buffer_size; size = n + alignment } ∷ blocks)
          pads
  unfolding allocate_aligned
  aligned-Laid b blocks pads n alignment address b' l positive fits e supplied =
      elim (Bool-cases (is_power_of_2 alignment)) [
        | inr other ↦ absurd (fault-ne-ok (rw other at e))
        | inl power ↦
            elim (dec_le (b.used_buffer_size + b.used_scratch_pad_size + (n + alignment))
              b.buffer_size) [
                | no full ↦ absurd (
                    supplied (
                      ap (λ (r : ℕ × MemBuffer). r.0)
                        (ok-injective _ _ (
                          sym e
                          ∙ allocate_aligned_full b l.valid n alignment power positive fits full))))
                | yes room ↦
                    let total : add64 n alignment ≡ n + alignment = omega (arith, fits) in
                    let out =
                      ok-injective _ _
                        (rw (power, total, allocate_room b l.valid (n + alignment) room) at e) in
                    subst
                      (λ (r : ℕ × MemBuffer).
                        Laid buffer buffer_size r.1
                          (record { start = b.buffer + b.used_buffer_size; size = n + alignment }
                            ∷ blocks)
                          pads)
                      out
                      (record {
                        valid = allocated-IsValid b l.valid (n + alignment) room;
                        same_buffer = l.same_buffer;
                        same_size = l.same_size;
                        laid = (omega (arith, l.same_buffer), rw l.same_buffer l.laid);
                        padded = l.padded;
                      })
              ]
      ]

  freed-Laid :
      (b : MemBuffer) (block : Block) (blocks : List Block) (pads : List ℕ) (b' : MemBuffer)
      → Laid buffer buffer_size b (block ∷ blocks) pads
      → free b block.size ≡ ok b'
      → Laid buffer buffer_size b' blocks pads
  freed-Laid b block blocks pads b' l e =
      let behind = IsLaid-le buffer block.start blocks l.laid.1 in
      let end = l.laid.0 in
      let after : b' ≡ record b { used_buffer_size = b.used_buffer_size - block.size } =
        ground (arith, free_lem b l.valid block.size, e, end, behind, l.same_buffer) in
      subst (λ b. Laid buffer buffer_size b blocks pads) (sym after)
        (record {
          valid = record {
            supplied = l.valid.supplied;
            room = omega (arith, l.valid.room);
            in_memory = l.valid.in_memory;
          };
          same_buffer = l.same_buffer;
          same_size = l.same_size;
          laid = subst (λ end. IsLaid buffer end blocks) (omega arith) l.laid.1;
          padded = l.padded;
        })

  opened-Laid :
      (b : MemBuffer) (blocks : List Block) (pads : List ℕ) (n : ℕ)
      → Laid buffer buffer_size b blocks pads
      → buffer_size + n < 2 ^ 64
      → Laid buffer buffer_size
          (open_scratch_pad b n).1
          blocks
          ((open_scratch_pad b n).0.scratch_pad_size ∷ pads)
  opened-Laid b blocks pads n l h =
      elim (dec_le (b.used_buffer_size + b.used_scratch_pad_size + n) b.buffer_size) [
        | yes room ↦ rw (open_room b l.valid n room) (record {
          valid = record {
            supplied = l.valid.supplied;
            room = omega (arith, room);
            in_memory = l.valid.in_memory;
          };
          same_buffer = l.same_buffer;
          same_size = l.same_size;
          laid = l.laid;
          padded = omega (arith, l.padded);
        })
        | no full ↦ rw (open_full b l.valid n (omega (arith, h, l.same_size)) full) (record {
          valid = l.valid;
          same_buffer = l.same_buffer;
          same_size = l.same_size;
          laid = l.laid;
          padded = omega (arith, l.padded);
        })
      ]

  initialized-Laid :
      (b : MemBuffer)
      → 0 < buffer
      → buffer + buffer_size < 2 ^ 64
      → init buffer buffer_size ≡ ok b
      → Laid buffer buffer_size b [] []
  unfolding init
  initialized-Laid b supplied fits e =
      let start : b ≡ record {
        buffer = buffer;
        used_buffer_size = 0;
        used_scratch_pad_size = 0;
        buffer_size = buffer_size;
      } =
        ground (arith, e, supplied) in
      subst (λ b. Laid buffer buffer_size b [] []) (sym start)
        (record {
          valid = record { supplied = supplied; room = omega arith; in_memory = fits };
          same_buffer = refl;
          same_size = refl;
          laid = omega arith;
          padded = refl;
        })

  closed-Laid :
      (b : MemBuffer) (blocks : List Block) (pads : List ℕ) (pad : Pad)
      → Laid buffer buffer_size b blocks (pad.scratch_pad_size ∷ pads)
      → Laid buffer buffer_size (close_scratch_pad b pad) blocks pads
  unfolding close_scratch_pad
  closed-Laid b blocks pads pad l =
      let rest : sub64 b.used_scratch_pad_size pad.scratch_pad_size ≡ sum pads =
        omega (arith, l.padded, l.valid.room, l.valid.in_memory) in
      record {
        valid = record {
          supplied = l.valid.supplied;
          room = omega (arith, rest, l.padded, l.valid.room);
          in_memory = l.valid.in_memory;
        };
        same_buffer = l.same_buffer;
        same_size = l.same_size;
        laid = l.laid;
        padded = rest;
      }

  Reaches-Laid :
      (b : MemBuffer) (blocks : List Block) (pads : List ℕ)
      → 0 < buffer
      → buffer + buffer_size < 2 ^ 64
      → buffer_size + largest < 2 ^ 64
      → Reaches buffer buffer_size largest b blocks pads
      → Laid buffer buffer_size b blocks pads
  Reaches-Laid _ _ _ supplied fits asked (initialized b e) = initialized-Laid b supplied fits e
  Reaches-Laid _ _ _ supplied fits asked (allocated a blocks pads n address b r e given) =
      allocated-Laid a blocks pads n address b (Reaches-Laid a blocks pads supplied fits asked r) e
        given
  Reaches-Laid _ _ _ supplied fits asked
        (allocated_aligned a blocks pads n alignment address b r positive few e given) =
      let l = Reaches-Laid a blocks pads supplied fits asked r in
      aligned-Laid a blocks pads n alignment address b l positive (omega arith) e given
  Reaches-Laid _ _ _ supplied fits asked (freed a block blocks pads b r e) =
      freed-Laid a block blocks pads b (Reaches-Laid a (block ∷ blocks) pads supplied fits asked r)
        e
  Reaches-Laid _ _ _ supplied fits asked (opened a blocks pads n r h) =
      opened-Laid a blocks pads n (Reaches-Laid a blocks pads supplied fits asked r) (omega arith)
  Reaches-Laid _ _ _ supplied fits asked (closed a blocks pads pad r) =
      closed-Laid a blocks pads pad
        (Reaches-Laid a blocks (pad.scratch_pad_size ∷ pads) supplied fits asked r)

  -- From Init of a range of addresses that starts above 0 and ends below 2^64 on, through any
  -- Allocate, with an alignment or without, Free and scratch pads in reverse order, where no
  -- scratch pad and no block with its alignment asks for more than a bound whose sum with the size
  -- of the buffer stays below 2^64, the buffer stays valid, so that no more is in use than it has,
  -- the blocks in use, with the bytes for their alignment, lie in the allocated part of the buffer,
  -- and no two of them overlap.
  pub Reaches-AreApart :
      (b : MemBuffer) (blocks : List Block) (pads : List ℕ)
      → 0 < buffer
      → buffer + buffer_size < 2 ^ 64
      → buffer_size + largest < 2 ^ 64
      → Reaches buffer buffer_size largest b blocks pads
      → IsValid b × AreApart b.buffer (b.buffer + b.used_buffer_size) blocks
  Reaches-AreApart b blocks pads supplied fits asked r =
      let l = Reaches-Laid b blocks pads supplied fits asked r in
      (
        l.valid,
        rw l.same_buffer (IsLaid-AreApart buffer (buffer + b.used_buffer_size) blocks l.laid),
      )
