-- ===== src/Renderer/RenderDeviceState/Writes.antt =====
-- What a write to a slot and Reset leave in a RenderDeviceState.
use mathlib.Core.Option.{some-injective, none-ne-some}
use yengine.Base.{ℕ, zero, suc, ◌≡◌, refl, sym, ◌∙◌, some, get_elem?, length-set, replicate}
use yengine.Renderer.RenderDeviceState.{
  RenderDeviceState, Slot, view_port, blend_state, vertex_decl, vertex_shader, pixel_shader,
  index_stream, vertex_stream, render_target, vertex_sampler_state, pixel_sampler_state,
  vertex_texture, pixel_texture, unset8, unset16, reset,
}
use yengine.Renderer.RenderDeviceState.Slots.{get, put, unset, IsSized}

pub put-IsSized : (s : RenderDeviceState) (a : Slot) (id : ℕ) → IsSized s → IsSized (put s a id)
unfolding put
put-IsSized s (render_target i) id sized = record {
  render_target_places = length-set s.set_render_target_ids i id ∙ sized.render_target_places;
  vertex_sampler_state_places = sized.vertex_sampler_state_places;
  pixel_sampler_state_places = sized.pixel_sampler_state_places;
  vertex_texture_places = sized.vertex_texture_places;
  pixel_texture_places = sized.pixel_texture_places;
}
put-IsSized s (vertex_sampler_state i) id sized = record {
  render_target_places = sized.render_target_places;
  vertex_sampler_state_places =
      length-set s.set_vertex_sampler_state i id ∙ sized.vertex_sampler_state_places;
  pixel_sampler_state_places = sized.pixel_sampler_state_places;
  vertex_texture_places = sized.vertex_texture_places;
  pixel_texture_places = sized.pixel_texture_places;
}
put-IsSized s (pixel_sampler_state i) id sized = record {
  render_target_places = sized.render_target_places;
  vertex_sampler_state_places = sized.vertex_sampler_state_places;
  pixel_sampler_state_places =
      length-set s.set_pixel_sampler_state i id ∙ sized.pixel_sampler_state_places;
  vertex_texture_places = sized.vertex_texture_places;
  pixel_texture_places = sized.pixel_texture_places;
}
put-IsSized s (vertex_texture i) id sized = record {
  render_target_places = sized.render_target_places;
  vertex_sampler_state_places = sized.vertex_sampler_state_places;
  pixel_sampler_state_places = sized.pixel_sampler_state_places;
  vertex_texture_places = length-set s.set_vertex_texture_arg i id ∙ sized.vertex_texture_places;
  pixel_texture_places = sized.pixel_texture_places;
}
put-IsSized s (pixel_texture i) id sized = record {
  render_target_places = sized.render_target_places;
  vertex_sampler_state_places = sized.vertex_sampler_state_places;
  pixel_sampler_state_places = sized.pixel_sampler_state_places;
  vertex_texture_places = sized.vertex_texture_places;
  pixel_texture_places = length-set s.set_pixel_texture_arg i id ∙ sized.pixel_texture_places;
}
put-IsSized s view_port id sized = record {
  render_target_places = sized.render_target_places;
  vertex_sampler_state_places = sized.vertex_sampler_state_places;
  pixel_sampler_state_places = sized.pixel_sampler_state_places;
  vertex_texture_places = sized.vertex_texture_places;
  pixel_texture_places = sized.pixel_texture_places;
}
put-IsSized s blend_state id sized = record {
  render_target_places = sized.render_target_places;
  vertex_sampler_state_places = sized.vertex_sampler_state_places;
  pixel_sampler_state_places = sized.pixel_sampler_state_places;
  vertex_texture_places = sized.vertex_texture_places;
  pixel_texture_places = sized.pixel_texture_places;
}
put-IsSized s vertex_decl id sized = record {
  render_target_places = sized.render_target_places;
  vertex_sampler_state_places = sized.vertex_sampler_state_places;
  pixel_sampler_state_places = sized.pixel_sampler_state_places;
  vertex_texture_places = sized.vertex_texture_places;
  pixel_texture_places = sized.pixel_texture_places;
}
put-IsSized s vertex_shader id sized = record {
  render_target_places = sized.render_target_places;
  vertex_sampler_state_places = sized.vertex_sampler_state_places;
  pixel_sampler_state_places = sized.pixel_sampler_state_places;
  vertex_texture_places = sized.vertex_texture_places;
  pixel_texture_places = sized.pixel_texture_places;
}
put-IsSized s pixel_shader id sized = record {
  render_target_places = sized.render_target_places;
  vertex_sampler_state_places = sized.vertex_sampler_state_places;
  pixel_sampler_state_places = sized.pixel_sampler_state_places;
  vertex_texture_places = sized.vertex_texture_places;
  pixel_texture_places = sized.pixel_texture_places;
}
put-IsSized s index_stream id sized = record {
  render_target_places = sized.render_target_places;
  vertex_sampler_state_places = sized.vertex_sampler_state_places;
  pixel_sampler_state_places = sized.pixel_sampler_state_places;
  vertex_texture_places = sized.vertex_texture_places;
  pixel_texture_places = sized.pixel_texture_places;
}
put-IsSized s vertex_stream id sized = record {
  render_target_places = sized.render_target_places;
  vertex_sampler_state_places = sized.vertex_sampler_state_places;
  pixel_sampler_state_places = sized.pixel_sampler_state_places;
  vertex_texture_places = sized.vertex_texture_places;
  pixel_texture_places = sized.pixel_texture_places;
}

get_elem?-replicate : (n i a id : ℕ) → get_elem? (replicate n a) i ≡ some id → id ≡ a
get_elem?-replicate zero i a id e = absurd (none-ne-some id e)
get_elem?-replicate (suc n) zero a id e = sym (some-injective a id e)
get_elem?-replicate (suc n) (suc i) a id e = get_elem?-replicate n i a id e

-- Reset leaves every slot unset.
pub reset-unset : (a : Slot) (id : ℕ) → get reset a ≡ some id → id ≡ unset a
unfolding get reset
reset-unset (render_target i) id e = get_elem?-replicate 4 i unset8 id e
reset-unset (vertex_sampler_state i) id e = get_elem?-replicate 4 i unset8 id e
reset-unset (pixel_sampler_state i) id e = get_elem?-replicate 32 i unset8 id e
reset-unset (vertex_texture i) id e = get_elem?-replicate 4 i unset16 id e
reset-unset (pixel_texture i) id e = get_elem?-replicate 32 i unset16 id e
reset-unset view_port id e = sym (some-injective unset8 id e)
reset-unset blend_state id e = sym (some-injective unset8 id e)
reset-unset vertex_decl id e = sym (some-injective unset8 id e)
reset-unset vertex_shader id e = sym (some-injective unset8 id e)
reset-unset pixel_shader id e = sym (some-injective unset8 id e)
reset-unset index_stream id e = sym (some-injective unset16 id e)
reset-unset vertex_stream id e = sym (some-injective unset16 id e)

pub reset-IsSized : IsSized reset
unfolding reset
reset-IsSized = record {
  render_target_places = refl;
  vertex_sampler_state_places = refl;
  pixel_sampler_state_places = refl;
  vertex_texture_places = refl;
  pixel_texture_places = refl;
}
