-- ===== src/Renderer/RenderDeviceState/Tests.antt =====
-- RenderDeviceState over a device that keeps what it is told.
use yengine.Base.{
  Run, assert, ltb, some, ◌>>=◌, ◌>>◌, ℕ, ◌+◌, ◌≡◌, refl, List, [], ◌∷◌, arith, set, replicate, ok,
  fault, out_of_range,
}
use yengine.Renderer.RenderDeviceState.{
  RenderDeviceState, Slot, Stage, view_port, pixel_texture, read, reset, set_registers,
  activate_view_port, activate_blend_state, activate_render_target, activate_vertex_decl,
  activate_vertex_shader, activate_pixel_shader, activate_index_stream, activate_vertex_stream,
  activate_vertex_float_arg, activate_pixel_float_arg, activate_vertex_sampler_state,
  activate_pixel_sampler_state, activate_vertex_texture, activate_pixel_texture,
}
use yengine.Renderer.RenderDeviceState.Slots.{get, InBounds, IsSized}
use yengine.Renderer.RenderDeviceState.Writes.{reset-IsSized}
use yengine.Renderer.RenderDeviceState.Sync.{
  perform, perform_all, tell_all, changes, last_ids, kept_ids, beside, perform_all-changes,
}
use yengine.Renderer.RenderDeviceState.Registers.{activate_vertex_float_arg_part}

-- The device keeps what it is told, the last first, and fails an assertion where an id is not in use.
abbrev activate : Slot → ℕ → List (Slot × ℕ) → Run (List (Slot × ℕ))
activate slot id told = do assert (ltb id 8); ok ((slot, id) ∷ told)

program : Unit {0}
unfolding read reset set_registers activate_view_port activate_blend_state activate_render_target
    activate_vertex_decl activate_vertex_shader activate_pixel_shader activate_index_stream
    activate_vertex_stream activate_vertex_float_arg activate_pixel_float_arg
    activate_vertex_sampler_state activate_pixel_sampler_state activate_vertex_texture
    activate_pixel_texture perform
program = tt

abbrev calls : List (Slot × ℕ)
calls = (view_port, 3) ∷ (pixel_texture 31, 7) ∷ (view_port, 3) ∷ (pixel_texture 31, 6) ∷ []

perform_all-run :
    (s : RenderDeviceState) × (perform_all activate calls reset []
      ≡ ok (s, (pixel_texture 31, 6) ∷ (pixel_texture 31, 7) ∷ (view_port, 3) ∷ []))
unfolding program perform_all
perform_all-run = (_, refl)

perform_all-changes_example :
    (s' : RenderDeviceState) × ((d : List (Slot × ℕ))
      → perform_all activate calls reset d
        ≡ (tell_all activate (changes (kept_ids reset) calls) d >>= beside activate s'))
    × IsSized s'
    × ((slot : Slot) → InBounds slot → get s' slot ≡ some (last_ids (kept_ids reset) calls slot))
    × (last_ids (kept_ids reset) (changes (kept_ids reset) calls) ≡ last_ids (kept_ids reset) calls)
perform_all-changes_example =
    perform_all-changes activate calls reset reset-IsSized
      (tt, (omega arith, (tt, (omega arith, tt))))

-- The device counts what it is told of constants.
abbrev count : Stage → ℕ → ℕ → ℕ → ℕ
count stage reg id told = told + 1

float_arg_run :
    activate_vertex_float_arg count reset 0 2 3 5
    ≡ ok (
      record reset { set_vertex_float_arg = set (set (set (replicate 32 0xffff) 2 5) 3 5) 4 5 },
      1,
    )
unfolding program
float_arg_run = refl

float_arg_behind : activate_vertex_float_arg count reset 0 30 3 5 ≡ fault out_of_range
unfolding program
float_arg_behind = refl

activate_vertex_float_arg_part_example :
    activate_vertex_float_arg count
      (record reset { set_vertex_float_arg = set (set (set (replicate 32 0xffff) 2 5) 3 5) 4 5 })
      1
      (2 + 1)
      2
      5
    ≡ ok (
      record reset { set_vertex_float_arg = set (set (set (replicate 32 0xffff) 2 5) 3 5) 4 5 },
      1,
    )
unfolding program
activate_vertex_float_arg_part_example =
    activate_vertex_float_arg_part count reset 0 2 3 5 1 2
      (record reset { set_vertex_float_arg = set (set (set (replicate 32 0xffff) 2 5) 3 5) 4 5 }, 1)
      (omega arith) (omega arith) float_arg_run
