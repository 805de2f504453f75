-- ===== src/Renderer/RenderDeviceState/Slots.antt =====
-- The fields of a RenderDeviceState by their slots.
use yengine.Base.{
  ℕ, ◌<◌, ◌≡◌, ◌≢◌, refl, ap, Option, some, arith, get_elem?, set, length, get_elem?-some,
  get_elem?-set_ne, get_elem?-set_self,
}
use yengine.Renderer.RenderDeviceState.{
  RenderDeviceState, Slot, view_port, blend_state, vertex_decl, vertex_shader, pixel_shader,
  index_stream, vertex_stream, render_target, vertex_sampler_state, pixel_sampler_state,
  vertex_texture, pixel_texture, unset8, unset16,
}

-- The id that is kept for a slot, none behind the end of an array.
unfoldable pub get : RenderDeviceState → Slot → Option ℕ
get s view_port = some s.set_view_port
get s blend_state = some s.set_blend_state_id
get s vertex_decl = some s.set_vertex_decl
get s vertex_shader = some s.set_vertex_shader
get s pixel_shader = some s.set_pixel_shader
get s index_stream = some s.set_index_stream
get s vertex_stream = some s.set_vertex_stream
get s (render_target i) = get_elem? s.set_render_target_ids i
get s (vertex_sampler_state i) = get_elem? s.set_vertex_sampler_state i
get s (pixel_sampler_state i) = get_elem? s.set_pixel_sampler_state i
get s (vertex_texture i) = get_elem? s.set_vertex_texture_arg i
get s (pixel_texture i) = get_elem? s.set_pixel_texture_arg i

unfoldable pub put : RenderDeviceState → Slot → ℕ → RenderDeviceState
put s view_port id = record s { set_view_port = id }
put s blend_state id = record s { set_blend_state_id = id }
put s vertex_decl id = record s { set_vertex_decl = id }
put s vertex_shader id = record s { set_vertex_shader = id }
put s pixel_shader id = record s { set_pixel_shader = id }
put s index_stream id = record s { set_index_stream = id }
put s vertex_stream id = record s { set_vertex_stream = id }
put s (render_target i) id = record s { set_render_target_ids = set s.set_render_target_ids i id }
put s (vertex_sampler_state i) id = record s {
  set_vertex_sampler_state = set s.set_vertex_sampler_state i id;
}
put s (pixel_sampler_state i) id = record s {
  set_pixel_sampler_state = set s.set_pixel_sampler_state i id;
}
put s (vertex_texture i) id = record s {
  set_vertex_texture_arg = set s.set_vertex_texture_arg i id;
}
put s (pixel_texture i) id = record s { set_pixel_texture_arg = set s.set_pixel_texture_arg i id }

-- What Reset puts into a slot.
abbrev pub unset : Slot → ℕ
unset view_port = unset8
unset blend_state = unset8
unset vertex_decl = unset8
unset vertex_shader = unset8
unset pixel_shader = unset8
unset index_stream = unset16
unset vertex_stream = unset16
unset (render_target i) = unset8
unset (vertex_sampler_state i) = unset8
unset (pixel_sampler_state i) = unset8
unset (vertex_texture i) = unset16
unset (pixel_texture i) = unset16

-- The index of a slot is one of its array.
abbrev pub InBounds : Slot → Type 0
InBounds (render_target i) = i < 4
InBounds (vertex_sampler_state i) = i < 4
InBounds (pixel_sampler_state i) = i < 32
InBounds (vertex_texture i) = i < 4
InBounds (pixel_texture i) = i < 32
InBounds _ = Unit

-- The arrays have the lengths of their declarations.
pub record IsSized (s : RenderDeviceState) : Type 0 where
  pub render_target_places : length s.set_render_target_ids ≡ 4
  pub vertex_sampler_state_places : length s.set_vertex_sampler_state ≡ 4
  pub pixel_sampler_state_places : length s.set_pixel_sampler_state ≡ 32
  pub vertex_texture_places : length s.set_vertex_texture_arg ≡ 4
  pub pixel_texture_places : length s.set_pixel_texture_arg ≡ 32

-- A write to a slot changes no other slot.
pub get-put_ne :
    (s : RenderDeviceState) (a b : Slot) (id : ℕ) → a ≢ b → get (put s a id) b ≡ get s b
unfolding get put
get-put_ne s view_port view_port id ne = absurd (ne refl)
get-put_ne s view_port _ id ne = refl
get-put_ne s blend_state blend_state id ne = absurd (ne refl)
get-put_ne s blend_state _ id ne = refl
get-put_ne s vertex_decl vertex_decl id ne = absurd (ne refl)
get-put_ne s vertex_decl _ id ne = refl
get-put_ne s vertex_shader vertex_shader id ne = absurd (ne refl)
get-put_ne s vertex_shader _ id ne = refl
get-put_ne s pixel_shader pixel_shader id ne = absurd (ne refl)
get-put_ne s pixel_shader _ id ne = refl
get-put_ne s index_stream index_stream id ne = absurd (ne refl)
get-put_ne s index_stream _ id ne = refl
get-put_ne s vertex_stream vertex_stream id ne = absurd (ne refl)
get-put_ne s vertex_stream _ id ne = refl
get-put_ne s (render_target i) (render_target j) id ne =
    get_elem?-set_ne s.set_render_target_ids i j id (λ e. ne (ap render_target e))
get-put_ne s (render_target i) _ id ne = refl
get-put_ne s (vertex_sampler_state i) (vertex_sampler_state j) id ne =
    get_elem?-set_ne s.set_vertex_sampler_state i j id (λ e. ne (ap vertex_sampler_state e))
get-put_ne s (vertex_sampler_state i) _ id ne = refl
get-put_ne s (pixel_sampler_state i) (pixel_sampler_state j) id ne =
    get_elem?-set_ne s.set_pixel_sampler_state i j id (λ e. ne (ap pixel_sampler_state e))
get-put_ne s (pixel_sampler_state i) _ id ne = refl
get-put_ne s (vertex_texture i) (vertex_texture j) id ne =
    get_elem?-set_ne s.set_vertex_texture_arg i j id (λ e. ne (ap vertex_texture e))
get-put_ne s (vertex_texture i) _ id ne = refl
get-put_ne s (pixel_texture i) (pixel_texture j) id ne =
    get_elem?-set_ne s.set_pixel_texture_arg i j id (λ e. ne (ap pixel_texture e))
get-put_ne s (pixel_texture i) _ id ne = refl

-- A slot in bounds has what was written to it.
pub get-put :
    (s : RenderDeviceState) (a : Slot) (id : ℕ)
    → IsSized s
    → InBounds a
    → get (put s a id) a ≡ some id
unfolding get put
get-put s (render_target i) id sized h =
    get_elem?-set_self s.set_render_target_ids i id (omega (arith, sized.render_target_places))
get-put s (vertex_sampler_state i) id sized h =
    get_elem?-set_self s.set_vertex_sampler_state i id
      (omega (arith, sized.vertex_sampler_state_places))
get-put s (pixel_sampler_state i) id sized h =
    get_elem?-set_self s.set_pixel_sampler_state i id
      (omega (arith, sized.pixel_sampler_state_places))
get-put s (vertex_texture i) id sized h =
    get_elem?-set_self s.set_vertex_texture_arg i id (omega (arith, sized.vertex_texture_places))
get-put s (pixel_texture i) id sized h =
    get_elem?-set_self s.set_pixel_texture_arg i id (omega (arith, sized.pixel_texture_places))
get-put s view_port id sized h = refl
get-put s blend_state id sized h = refl
get-put s vertex_decl id sized h = refl
get-put s vertex_shader id sized h = refl
get-put s pixel_shader id sized h = refl
get-put s index_stream id sized h = refl
get-put s vertex_stream id sized h = refl

pub get-InBounds :
    (s : RenderDeviceState) (a : Slot) → IsSized s → InBounds a → (id : ℕ) × (get s a ≡ some id)
unfolding get
get-InBounds s (render_target i) sized h =
    get_elem?-some s.set_render_target_ids i (omega (arith, sized.render_target_places))
get-InBounds s (vertex_sampler_state i) sized h =
    get_elem?-some s.set_vertex_sampler_state i (omega (arith, sized.vertex_sampler_state_places))
get-InBounds s (pixel_sampler_state i) sized h =
    get_elem?-some s.set_pixel_sampler_state i (omega (arith, sized.pixel_sampler_state_places))
get-InBounds s (vertex_texture i) sized h =
    get_elem?-some s.set_vertex_texture_arg i (omega (arith, sized.vertex_texture_places))
get-InBounds s (pixel_texture i) sized h =
    get_elem?-some s.set_pixel_texture_arg i (omega (arith, sized.pixel_texture_places))
get-InBounds s view_port sized h = (s.set_view_port, refl)
get-InBounds s blend_state sized h = (s.set_blend_state_id, refl)
get-InBounds s vertex_decl sized h = (s.set_vertex_decl, refl)
get-InBounds s vertex_shader sized h = (s.set_vertex_shader, refl)
get-InBounds s pixel_shader sized h = (s.set_pixel_shader, refl)
get-InBounds s index_stream sized h = (s.set_index_stream, refl)
get-InBounds s vertex_stream sized h = (s.set_vertex_stream, refl)
