-- ===== src/RenderDevice/Dx9/Creates/Filled.antt =====
-- A buffer is never created with data.
use yengine.Base.{
  ℕ, ◌*◌, word32, ◌^◌, ◌<◌, ◌≡◌, refl, ◌⊎◌, inl, inr, List, ◌==◌, Run, ok, assertion, Stops,
  Stops-bind, Stops-first, Bool-cases, ok-bind, ok-injective, arith, lt→ltb, not_lt→ltb, subst,
  dec_lt,
}
use yengine.RenderDevice.DataArray.{DataArray, get, put, allocate_id}
use yengine.RenderDevice.DataArray.Items.{get-put}
use yengine.RenderDevice.Dx9.{
  UsageType, usage_invalid, usage_immutable, usage_static, usage_dynamic, usage_system,
  VertBuffData, IndexBuffData, RenderDevice, D3d, no_id16, invoke, create_index_buffer_call,
  create_vertex_buffer_call,
}
use yengine.RenderDevice.Dx9.Fills.Ranges.{fill_index_buffer_in_range, fill_vertex_buffer-fault}
use yengine.RenderDevice.Dx9.Creates.{
  fill_created, set_vertex_buffer_usage, set_index_buffer_usage, create_vertex_buffer,
  create_index_buffer, new_vertex_buffer, new_index_buffer, write_usage_of, pool_of,
}

module _ {S : Type 0} where
  -- The switch stops if the fill does after the usage is set.
  fill_created-Stops :
      (direct3d : D3d S) (set_usage : UsageType → RenderDevice S → Run (RenderDevice S))
      (fill : RenderDevice S → Run (RenderDevice S)) (size : ℕ) (type : UsageType)
      (w : RenderDevice S)
      → ((t : UsageType) (w1 : RenderDevice S) → set_usage t w ≡ ok w1 → Stops (fill w1))
      → (0 < size) ⊎ (type ≡ usage_immutable)
      → Stops (fill_created direct3d set_usage fill size type w)
  unfolding fill_created
  fill_created-Stops d set_usage fill size usage_immutable w h given = elim (dec_lt 0 size) [
    | yes some_data ↦ rw (lt→ltb 0 size some_data) (
        Stops-bind (set_usage usage_static w) _
          (λ w1 e. Stops-first (fill w1) _ (h usage_static w1 e)))
    | no none_left ↦ rw (not_lt→ltb 0 size none_left) (assertion, refl)
  ]
  fill_created-Stops d set_usage fill size usage_static w h given = elim given [
    | inl some_data ↦
        rw (lt→ltb 0 size some_data)
          (Stops-bind (set_usage usage_static w) _ (λ w1 e. h usage_static w1 e))
    | inr e ↦ absurd (cc)
  ]
  fill_created-Stops d set_usage fill size usage_dynamic w h given = elim given [
    | inl some_data ↦
        rw (lt→ltb 0 size some_data)
          (Stops-bind (set_usage usage_dynamic w) _ (λ w1 e. h usage_dynamic w1 e))
    | inr e ↦ absurd (cc)
  ]
  fill_created-Stops d set_usage fill size usage_invalid w h given = (assertion, refl)
  fill_created-Stops d set_usage fill size usage_system w h given = (assertion, refl)

module _ {S : Type 0} (direct3d : D3d S) where
  set_index_buffer_usage-get :
      (id : ℕ) (t : UsageType) (w w1 : RenderDevice S) (b : IndexBuffData)
      → get w.index_buffers id ≡ ok b
      → set_index_buffer_usage direct3d id t w ≡ ok w1
      → get w1.index_buffers id ≡ ok (record b { usage = t })
  unfolding set_index_buffer_usage
  set_index_buffer_usage-get id t w w1 b h e =
      let (table, stored, last) =
        ok-bind (put w.index_buffers id (record b { usage = t })) _ (rw h at e) in
      subst (λ v. get v.index_buffers id ≡ ok (record b { usage = t })) (ok-injective _ _ last)
        (get-put w.index_buffers table id (record b { usage = t }) stored)

  new_index_buffer-Stops :
      (type : UsageType) (count : ℕ) (buffer : List ℕ) (buffer_size id : ℕ)
      (table : DataArray IndexBuffData) (w : RenderDevice S)
      → count < 2 ^ 32
      → (0 < buffer_size) ⊎ (type ≡ usage_immutable)
      → Stops (new_index_buffer direct3d type count buffer buffer_size id table w)
  unfolding new_index_buffer
  new_index_buffer-Stops type count buffer buffer_size id table w word given =
      Stops-bind
        (invoke direct3d
          (create_index_buffer_call (word32 (count * 2)) (write_usage_of type) (pool_of type)) w)
        _
        λ (pointer, w1) _.
          Stops-bind
            (put table id (record {
              index_buffer = pointer;
              usage = usage_invalid;
              total_count = count;
              count = 0;
            }))
            _
            λ table' stored. Stops-first _ _ (
              fill_created-Stops direct3d _ _ _ type _
                (λ t w2 set. (
                  assertion,
                  fill_index_buffer_in_range direct3d id count buffer_size 0 0 buffer w2 _
                      (set_index_buffer_usage-get id t _ w2 _ (get-put table table' id _ stored)
                        set)
                      (omega arith) word,
                ))
                given)

  create_index_buffer-Stops :
      (type : UsageType) (count : ℕ) (buffer : List ℕ) (buffer_size : ℕ) (w : RenderDevice S)
      → count < 2 ^ 32
      → (0 < buffer_size) ⊎ (type ≡ usage_immutable)
      → Stops (create_index_buffer direct3d type count buffer buffer_size w)
  unfolding create_index_buffer
  create_index_buffer-Stops type count buffer buffer_size w word given =
      Stops-bind (allocate_id _ _ w.index_buffers) _ λ (id, table) _.
        elim (Bool-cases (id == no_id16)) [
          | inl e ↦ rw e (assertion, refl)
          | inr e ↦
              rw e (new_index_buffer-Stops type count buffer buffer_size id table w word given)
        ]

  set_vertex_buffer_usage-get :
      (id : ℕ) (t : UsageType) (w w1 : RenderDevice S) (b : VertBuffData)
      → get w.vertex_buffers id ≡ ok b
      → set_vertex_buffer_usage direct3d id t w ≡ ok w1
      → get w1.vertex_buffers id ≡ ok (record b { usage = t })
  unfolding set_vertex_buffer_usage
  set_vertex_buffer_usage-get id t w w1 b h e =
      let (table, stored, last) =
        ok-bind (put w.vertex_buffers id (record b { usage = t })) _ (rw h at e) in
      subst (λ v. get v.vertex_buffers id ≡ ok (record b { usage = t })) (ok-injective _ _ last)
        (get-put w.vertex_buffers table id (record b { usage = t }) stored)

  new_vertex_buffer-Stops :
      (type : UsageType) (stride count : ℕ) (buffer : List ℕ) (buffer_size id : ℕ)
      (table : DataArray VertBuffData) (w : RenderDevice S)
      → stride < 2 ^ 32
      → (0 < buffer_size) ⊎ (type ≡ usage_immutable)
      → Stops (new_vertex_buffer direct3d type stride count buffer buffer_size id table w)
  unfolding new_vertex_buffer
  new_vertex_buffer-Stops type stride count buffer buffer_size id table w word given =
      Stops-bind
        (invoke direct3d
          (create_vertex_buffer_call (word32 (stride * count)) (write_usage_of type) (pool_of type))
          w)
        _
        λ (pointer, w1) _.
          Stops-bind
            (put table id (record {
              vertex_buffer = pointer;
              usage = usage_invalid;
              stride = stride;
              total_count = count;
              count = 0;
            }))
            _
            λ table' stored. Stops-first _ _ (
              fill_created-Stops direct3d _ _ _ type _
                (λ t w2 set. (
                  assertion,
                  fill_vertex_buffer-fault direct3d id count buffer_size 0 buffer w2 _
                      (set_vertex_buffer_usage-get id t _ w2 _ (get-put table table' id _ stored)
                        set)
                      word,
                ))
                given)

  create_vertex_buffer-Stops :
      (type : UsageType) (stride count : ℕ) (buffer : List ℕ) (buffer_size : ℕ) (w : RenderDevice S)
      → stride < 2 ^ 32
      → (0 < buffer_size) ⊎ (type ≡ usage_immutable)
      → Stops (create_vertex_buffer direct3d type stride count buffer buffer_size w)
  unfolding create_vertex_buffer
  create_vertex_buffer-Stops type stride count buffer buffer_size w word given =
      Stops-bind (allocate_id _ _ w.vertex_buffers) _ λ (id, table) _.
        elim (Bool-cases (id == no_id16)) [
          | inl e ↦ rw e (assertion, refl)
          | inr e ↦
              rw e
                (new_vertex_buffer-Stops type stride count buffer buffer_size id table w word given)
        ]

  -- Where data is given or the usage is immutable, neither CreateVertexBuffer nor CreateIndexBuffer
  -- returns, for a stride and a count that fit 32 bits.
  pub create_buffers_stop :
      (type : UsageType) (stride count : ℕ) (buffer : List ℕ) (buffer_size : ℕ) (w : RenderDevice S)
      → stride < 2 ^ 32
      → count < 2 ^ 32
      → (0 < buffer_size) ⊎ (type ≡ usage_immutable)
      → Stops (create_vertex_buffer direct3d type stride count buffer buffer_size w)
        × Stops (create_index_buffer direct3d type count buffer buffer_size w)
  create_buffers_stop type stride count buffer buffer_size w stride_word count_word given = (
    create_vertex_buffer-Stops type stride count buffer buffer_size w stride_word given,
    create_index_buffer-Stops type count buffer buffer_size w count_word given,
  )
