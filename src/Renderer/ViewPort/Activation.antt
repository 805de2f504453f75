-- ===== src/Renderer/ViewPort/Activation.antt =====
-- What is under the ids of a view port.
use yengine.Base.{
  ℕ, ◌≡◌, refl, ◌≢◌, true, false, not, some, Run, ok, fault, assertion, Returns, eq→==, ne→==,
  ==_refl, ◌∙◌, ℕ_discrete, subst, ok-bind, ok-injective,
}
use yengine.RenderDevice.Dx9.{ViewPortData}
use yengine.Renderer.Dimensions.{Floats}
use yengine.Renderer.RenderDeviceState.{RenderDeviceState, Slot}
use yengine.Renderer.Resources.{Resources, Laws, select, store_id, release_ids}
use yengine.Renderer.Resources.Ids.{Owns, release_ids_twice, released-dead, ids-ne}
use yengine.Renderer.Resources.Changes.{
  create-Owns, modify-Owns, select-store, new_apart, select-IsOwn, select-not-apart,
}
use yengine.Renderer.ViewPort.{ViewPort, shape_of, release, prepare, activate}

module _ {D : Type 0} {device : Resources ViewPortData D} {modify : ℕ → ViewPortData → D → Run D}
    (laws : Laws device modify) where
  open device use {none_id, create}
  open laws use {held, modify_unused}

  abbrev pub current : ViewPort → ℕ
  current v = select v.active_index v.view_port_ids

  -- A prepared view port: what the other id led to is as it was.
  pub record IsPrepared (shape : ViewPortData) (v : ViewPort) (d : D) (v' : ViewPort) (d' : D)
      : Type 0 where
    pub owns : Owns laws d' v'.view_port_ids
    pub clean : v'.dirty ≡ false
    pub shown : held d' (current v') ≡ some shape
    pub other : held d' (current v) ≡ held d (current v)
    pub flipped : v'.active_index ≡ not v.active_index

  pub prepare-IsPrepared :
      (floats : Floats) (frame : ℕ × ℕ) (v : ViewPort) (d : D)
      → Owns laws d v.view_port_ids
      → ((x : ViewPortData) → Returns (create x d) (λ _. Unit {0}))
      → Returns
          (prepare device modify floats frame v d)
          λ (v', d'). IsPrepared (shape_of floats frame v) v d v' d'
  unfolding prepare
  prepare-IsPrepared floats frame v d o room =
      let shape = shape_of floats frame v in
      let index = not v.active_index in
      let id = select index v.view_port_ids in
      elim (ℕ_discrete id none_id) [
        | yes e ↦
            let ((new, d'), run, _) = room shape in
            let (o', new_view, fresh, ne) =
              create-Owns laws index v.view_port_ids shape d d' new o run in
            (
              (
                record v {
                  dirty = false;
                  active_index = index;
                  view_port_ids = store_id index new v.view_port_ids;
                },
                d',
              ),
              rw (eq→== id none_id e, run) refl,
              record {
                owns = o';
                clean = refl;
                shown =
                    rw (select-store laws index new v.view_port_ids)
                      (new_view new ∙ rw (==_refl new) refl);
                other =
                    new_view (current v)
                    ∙ rw
                        (ne→== new (current v) (
                          new_apart laws d new (current v)
                            (select-IsOwn laws v.active_index v.view_port_ids d o) ne fresh))
                        refl;
                flipped = refl;
              },
            )
        | no ne ↦
            let (d', run, (o', new_view)) = modify-Owns laws index v.view_port_ids shape d o ne in
            (
              (record v { dirty = false; active_index = index }, d'),
              rw (ne→== id none_id ne, run) refl,
              record {
                owns = o';
                clean = refl;
                shown = new_view id ∙ rw (==_refl id) refl;
                other =
                    new_view (current v)
                    ∙ rw
                        (ne→== id (current v)
                          (select-not-apart laws v.active_index v.view_port_ids d o ne))
                        refl;
                flipped = refl;
              },
            )
      ]

  released_faults :
      (floats : Floats) (frame : ℕ × ℕ) (tell : Slot → ℕ → D → Run D) (v : ViewPort)
      (s : RenderDeviceState) (d d' : D)
      → Owns laws d v.view_port_ids
      → select (not v.active_index) v.view_port_ids ≢ none_id
      → release_ids device v.view_port_ids d ≡ ok d'
      → (release device (record v { dirty = true }) d' ≡ fault assertion)
        × (activate device modify floats frame tell (record v { dirty = true }) s d'
            ≡ fault assertion)
  unfolding release activate prepare
  released_faults floats frame tell v s d d' o used run =
      let index = not v.active_index in
      let (ready, dead) = released-dead laws index d d' v.view_port_ids o used run in
      let twice =
        release_ids_twice laws d d' v.view_port_ids o (ids-ne laws index v.view_port_ids used)
          run in
      let id = select index v.view_port_ids in
      let unused =
        modify_unused id (shape_of floats frame (record v { dirty = true })) d' ready dead in
      (rw twice refl, rw (ne→== id none_id used, unused) refl)

  -- After Release of a view port that owns its ids and whose id that is not current is not -1,
  -- another Release fails an assertion, and so does Activate.
  pub release_twice :
      (floats : Floats) (frame : ℕ × ℕ) (tell : Slot → ℕ → D → Run D) (v v' : ViewPort)
      (s : RenderDeviceState) (d d' : D)
      → Owns laws d v.view_port_ids
      → select (not v.active_index) v.view_port_ids ≢ none_id
      → release device v d ≡ ok (v', d')
      → (release device v' d' ≡ fault assertion)
        × (activate device modify floats frame tell v' s d' ≡ fault assertion)
  unfolding release
  release_twice floats frame tell v v' s d d' o used h =
      let (d2, run, last) = ok-bind (release_ids device v.view_port_ids d) _ h in
      let out = ok-injective _ _ last in
      subst
        (λ (o : ViewPort × D).
          (release device o.0 o.1 ≡ fault assertion)
          × (activate device modify floats frame tell o.0 s o.1 ≡ fault assertion))
        out (released_faults floats frame tell v s d d2 o used run)
