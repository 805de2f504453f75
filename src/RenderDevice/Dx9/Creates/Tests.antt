-- ===== src/RenderDevice/Dx9/Creates/Tests.antt =====
-- CreateRenderTarget at the render device of Example.
use yengine.Base.{ℕ, ◌≡◌, refl, arith, true, [], ◌∷◌, ok}
use yengine.Headers.AtomicNumberMask.{get_cnt, get_num, construct_value, construct_next_value}
use yengine.Containers.AtomicMemPool
use yengine.Containers.AtomicMemPool.{Item, value, AtomicMemPool, num_items}
use yengine.RenderDevice.DataArray.{DataArray, get, put, allocate_id}
use yengine.RenderDevice.DataArray.Table.{IsTable}
use yengine.RenderDevice.Dx9.{
  RenderDevice, SurfaceData, surface_init, texture_init, TextureData, entry, invoke,
  texture_formats, usage_system, format_r32f,
}
use yengine.RenderDevice.Dx9.Creates.{create_render_target, new_render_target, ids8, ids16}
use yengine.RenderDevice.Dx9.Creates.Surfaces.{create_render_target_misplaced}
use yengine.RenderDevice.Dx9.Example.{direct3d, world, first_used, first_used-IsTable, back_buffer}

program : Unit {0}
unfolding get_cnt get_num construct_value construct_next_value AtomicMemPool.load
    AtomicMemPool.allocate get put allocate_id entry invoke texture_formats create_render_target
    new_render_target
program = tt

abbrev new_texture : TextureData
new_texture = record {
  texture = 1;
  usage = usage_system;
  format = format_r32f;
  width = 64;
  height = 64;
  mips = 1;
}

abbrev both_used : DataArray SurfaceData
both_used = record {
  pool = record (world.surfaces.pool) {
    memory = value back_buffer ∷ value surface_init ∷ [];
    used_indexes = 2;
  };
  used = true ∷ true ∷ [];
}

-- The back buffer's place now has the surface of the new render target.
abbrev after : RenderDevice ℕ
after = record world {
  d3d = 3;
  textures = first_used new_texture texture_init;
  surfaces = record both_used {
    pool = record both_used.pool {
      memory = value (record { surface = 2; texture_id = 0 }) ∷ value surface_init ∷ [];
    };
  };
}

create_render_target-run : create_render_target direct3d 64 64 1 world ≡ ok (1, after)
unfolding program
create_render_target-run = refl

textures-run :
    allocate_id ids16 texture_init world.textures ≡ ok (0, first_used texture_init texture_init)
unfolding program
textures-run = refl

surfaces-run : allocate_id ids8 surface_init world.surfaces ≡ ok (1, both_used)
unfolding program
surfaces-run = refl

surfaces-IsTable : IsTable ids8 world.surfaces
surfaces-IsTable = first_used-IsTable ids8 back_buffer surface_init (omega arith)

create_render_target_misplaced_example :
    (get after.surfaces 1 ≡ ok surface_init)
    × ((pointer : ℕ) × (get after.surfaces 0 ≡ ok (record { surface = pointer; texture_id = 0 })))
create_render_target_misplaced_example =
    create_render_target_misplaced direct3d 64 64 0 1 1 (first_used texture_init texture_init)
      both_used world after textures-run surfaces-run surfaces-IsTable (λ e. absurd (omega arith))
      create_render_target-run
