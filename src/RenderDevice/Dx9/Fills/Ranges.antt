-- ===== src/RenderDevice/Dx9/Fills/Ranges.antt =====
-- Which fills of the buffers end in an assertion.
use yengine.Base.{
  ℕ, ◌+◌, ◌^◌, ◌≤◌, ◌<◌, ◌≡◌, refl, false, List, [], ◌∷◌, ltb, if◌then◌else◌, ok, fault, assertion,
  arith, Bool-cases, inl, inr, eq→==, not_lt→ltb, add32,
}
use yengine.RenderDevice.DataArray.{DataArray, is_used, get}
use yengine.RenderDevice.DataArray.Items.{get-lt, put_value}
use yengine.RenderDevice.Dx9.{VertBuffData, IndexBuffData, RenderDevice, used_item, D3d}
use yengine.RenderDevice.Dx9.Fills.{
  can_fill, sum32, fill_vertex_buffer_interleaved, fill_vertex_buffer, fill_index_buffer,
}

-- YASSERT of the id, with the item that is under it whether it is used or not.
used_item_lem :
    {A : Type 0} (a : DataArray A) (id : ℕ) (x : A)
    → get a id ≡ ok x
    → used_item a id ≡ (if is_used a id then ok x else fault assertion)
unfolding used_item
used_item_lem a id x h = elim (Bool-cases (is_used a id)) [
  | inl e ↦ rw (e, h) refl
  | inr e ↦ rw e refl
]

pub sum32_one : (stride : ℕ) → stride < 2 ^ 32 → sum32 (stride ∷ []) 0 ≡ stride
unfolding sum32
sum32_one stride h = omega arith

module _ {S : Type 0} (direct3d : D3d S) where
  -- FillIndexBuffer fails an assertion wherever the indexes to fill lie in the index buffer, where
  -- its number of indexes fits 32 bits.
  pub fill_index_buffer_in_range :
      (id count buffer_size vertex_offset index_offset : ℕ) (buffer : List ℕ) (w : RenderDevice S)
      (b : IndexBuffData)
      → get w.index_buffers id ≡ ok b
      → index_offset + count ≤ b.total_count
      → b.total_count < 2 ^ 32
      → fill_index_buffer direct3d id count buffer buffer_size vertex_offset index_offset w
        ≡ fault assertion
  unfolding fill_index_buffer
  fill_index_buffer_in_range id count buffer_size vertex_offset index_offset buffer w b h fits
        word =
      let small : ltb b.total_count (add32 index_offset count) ≡ false =
        not_lt→ltb _ _ (omega arith) in
      elim (Bool-cases (is_used w.index_buffers id)) [
        | inr e ↦ rw (used_item_lem w.index_buffers id b h, e) refl
        | inl e ↦ elim (Bool-cases (can_fill b.usage)) [
          | inr f ↦ rw (used_item_lem w.index_buffers id b h, e, f) refl
          | inl f ↦ rw (used_item_lem w.index_buffers id b h, e, f, small) refl
        ]
      ]

  interleaved_whole_stride :
      (id count index_offset : ℕ) (strides sizes : List ℕ) (buffers : List (List ℕ))
      (w : RenderDevice S) (b : VertBuffData)
      → get w.vertex_buffers id ≡ ok b
      → sum32 strides 0 ≡ b.stride
      → fill_vertex_buffer_interleaved direct3d id count strides buffers sizes index_offset w
        ≡ fault assertion
  unfolding fill_vertex_buffer_interleaved
  interleaved_whole_stride id count index_offset strides sizes buffers w b h whole =
      let new =
        if ltb b.count (add32 index_offset count) then add32 index_offset count else b.count in
      let stored =
        put_value w.vertex_buffers id (record b { count = new }) (get-lt w.vertex_buffers id b h) in
      elim (Bool-cases (is_used w.vertex_buffers id)) [
        | inr e ↦ rw (used_item_lem w.vertex_buffers id b h, e) refl
        | inl e ↦ elim (Bool-cases (can_fill b.usage)) [
          | inr f ↦ rw (used_item_lem w.vertex_buffers id b h, e, f) refl
          | inl f ↦ elim (Bool-cases (ltb b.total_count (add32 index_offset count))) [
            | inr g ↦ rw (used_item_lem w.vertex_buffers id b h, e, f, g) refl
            | inl g ↦
                rw (used_item_lem w.vertex_buffers id b h, e, f, g, stored, eq→== _ _ whole) refl
          ]
        ]
      ]

  pub fill_vertex_buffer-fault :
      (id count buffer_size index_offset : ℕ) (buffer : List ℕ) (w : RenderDevice S)
      (b : VertBuffData)
      → get w.vertex_buffers id ≡ ok b
      → b.stride < 2 ^ 32
      → fill_vertex_buffer direct3d id count buffer buffer_size index_offset w ≡ fault assertion
  unfolding fill_vertex_buffer
  fill_vertex_buffer-fault id count buffer_size index_offset buffer w b h word =
      let inner =
        interleaved_whole_stride id count index_offset (b.stride ∷ []) (buffer_size ∷ [])
          (buffer ∷ []) w b h (sum32_one b.stride word) in
      elim (Bool-cases (is_used w.vertex_buffers id)) [
        | inr e ↦ rw (used_item_lem w.vertex_buffers id b h, e) refl
        | inl e ↦ rw (used_item_lem w.vertex_buffers id b h, e) inner
      ]

  -- For a vertex buffer whose stride fits 32 bits, FillVertexBuffer always fails an assertion, and
  -- so does FillVertexBufferInterleaved where the strides add up to that of the buffer.
  pub fill_vertex_buffers_stop :
      (id count buffer_size index_offset : ℕ) (buffer : List ℕ) (strides sizes : List ℕ)
      (buffers : List (List ℕ)) (w : RenderDevice S) (b : VertBuffData)
      → get w.vertex_buffers id ≡ ok b
      → b.stride < 2 ^ 32
      → sum32 strides 0 ≡ b.stride
      → (fill_vertex_buffer direct3d id count buffer buffer_size index_offset w ≡ fault assertion)
        × (fill_vertex_buffer_interleaved direct3d id count strides buffers sizes index_offset w
            ≡ fault assertion)
  fill_vertex_buffers_stop id count buffer_size index_offset buffer strides sizes buffers w b h word
        whole =
      (
        fill_vertex_buffer-fault id count buffer_size index_offset buffer w b h word,
        interleaved_whole_stride id count index_offset strides sizes buffers w b h whole,
      )
