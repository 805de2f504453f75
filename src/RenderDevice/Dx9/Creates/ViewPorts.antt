-- ===== src/RenderDevice/Dx9/Creates/ViewPorts.antt =====
-- CreateViewPort adds a view port to the table.
use yengine.Base.{
  ℕ, ◌<◌, ◌≡◌, refl, ◌≢◌, ◌⊎◌, inl, inr, true, Option, none, some, ◌==◌, if◌then◌else◌, length, ok,
  fault, assertion, assert, not, ap, sym, ok-bind, ok-injective, Returns, Bool-cases, eq→==, ne→==,
  ◌∙◌, ℕ_discrete,
}
use yengine.RenderDevice.DataArray.{is_used, allocate_id, put}
use yengine.RenderDevice.DataArray.Table.{IsTable, view}
use yengine.RenderDevice.DataArray.Allocation.{allocate_id-view}
use yengine.RenderDevice.DataArray.Writes.{put-view, view-get}
use yengine.RenderDevice.Dx9.{ViewPortData, view_port_init, RenderDevice, D3d, no_id8}
use yengine.RenderDevice.Dx9.Creates.{ids8, create_view_port}

overwrite :
    {A : Type 0} (a b c : ℕ → Option A) (id : ℕ) (x y : A)
    → ((j : ℕ) → b j ≡ (if id == j then some x else a j))
    → ((j : ℕ) → c j ≡ (if id == j then some y else b j))
    → (j : ℕ) → c j ≡ (if id == j then some y else a j)
overwrite a b c id x y f g j = elim (Bool-cases (id == j)) [
  | inl e ↦ rw (g j, e) refl
  | inr e ↦ rw (g j, e, f j, e) refl
]

module _ {S : Type 0} (direct3d : D3d S) where
  -- From a table of view ports, CreateViewPort either returns an id that is not -1 and was not in
  -- use, and leaves a table in which the id has the shape that was given and nothing else has
  -- changed, nor has another part of the device; or it fails an assertion, and then every id was in
  -- use.
  pub create_view_port-view :
      (shape : ViewPortData) (w : RenderDevice S)
      → IsTable ids8 w.view_ports
      → (Returns (create_view_port direct3d shape w) λ (id, w').
          IsTable ids8 w'.view_ports
          × (id ≢ no_id8)
          × (view w.view_ports id ≡ none)
          × ((j : ℕ) → view w'.view_ports j ≡ (if id == j then some shape else view w.view_ports j))
          × (w' ≡ record w { view_ports = w'.view_ports }))
        ⊎ ((create_view_port direct3d shape w ≡ fault assertion)
            × ((j : ℕ) → j < length w.view_ports.used → is_used w.view_ports j ≡ true))
  unfolding create_view_port
  create_view_port-view shape w t =
      let ((id, table), run, (t1, fresh, new, full)) =
        allocate_id-view ids8 view_port_init w.view_ports t refl in
      elim (ℕ_discrete id no_id8) [
        | yes e ↦ inr (rw (run, eq→== _ _ e) refl, λ j. (full e j).1)
        | no ne ↦
            let used =
              (view-get table id view_port_init (new ne id ∙ rw (eq→== id id refl) refl)).0 in
            let (table', stored, (t2, written)) = put-view ids8 table id shape t1 used in
            inl (
              (id, record w { view_ports = table' }),
              rw (run, ne→== _ _ ne, stored) refl,
              (
                t2,
                ne,
                fresh ne,
                overwrite (view w.view_ports) (view table) (view table') id view_port_init shape
                    (new ne) written,
                refl,
              ),
            )
      ]

  -- Direct3D is not called.
  pub create_view_port_d3d :
      (shape : ViewPortData) (w : RenderDevice S) (out : ℕ × RenderDevice S)
      → create_view_port direct3d shape w ≡ ok out
      → out.1.d3d ≡ w.d3d
  unfolding create_view_port
  create_view_port_d3d shape w out run =
      let ((id, table), allocated, run1) =
        ok-bind (allocate_id ids8 view_port_init w.view_ports) _ run in
      let (u, some_id, run2) = ok-bind (assert (not (id == no_id8))) _ run1 in
      let (table', written, last) = ok-bind (put table id shape) _ run2 in
      ap (λ (o : ℕ × RenderDevice S). o.1.d3d) (sym (ok-injective _ _ last))
