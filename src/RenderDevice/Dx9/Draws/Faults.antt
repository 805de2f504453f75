-- ===== src/RenderDevice/Dx9/Draws/Faults.antt =====
-- No draw call of render_device_dx9.cpp reaches Direct3D.
use yengine.Base.{
  ℕ, ◌≡◌, refl, sym, subst, true, ◌==◌, leb, if◌then◌else◌, get_or, Stops, fault, assertion,
  division_by_zero, out_of_range, arith, Bool-cases, inl, inr, dec_le, le→leb, not_le→leb,
  get_elem?-none,
}
use yengine.RenderDevice.Dx9.{RenderDevice, DrawPoints, divide_by, subtract, no_id16, D3d, entry}
use yengine.RenderDevice.Dx9.Draws.{
  is_zero, num_primitives_of, activate_draw_primitive, draw, draw_instanced, draw_indexed,
  draw_indexed_instanced, primitive_draw_types,
}

zero_points :
    (p : DrawPoints) (n : ℕ) → is_zero p ≡ true → num_primitives_of p n ≡ fault division_by_zero
unfolding is_zero num_primitives_of
zero_points (divide_by k) n e = rw e refl
zero_points (subtract k) n e = absurd (ground arith)

module _ {S : Type 0} (direct3d : D3d S) where
  -- Draw.
  draw-fault :
      (start n : ℕ) (w : RenderDevice S)
      → draw direct3d start n w
        ≡ (if is_zero w.draw_points then fault division_by_zero else fault assertion)
  unfolding draw
  draw-fault start n w = elim (Bool-cases (is_zero w.draw_points)) [
    | inl e ↦ rw (e, zero_points w.draw_points n e) refl
    | inr e ↦ rw e refl
  ]

  draw_indexed-fault :
      (start n offset : ℕ) (w : RenderDevice S)
      → draw_indexed direct3d start n offset w ≡ (
          if is_zero w.draw_points
          then (if get_or w.activated_streams 0 no_id16 == no_id16
              then fault assertion
              else fault division_by_zero)
          else fault assertion)
  unfolding draw_indexed
  draw_indexed-fault start n offset w = elim (Bool-cases (is_zero w.draw_points)) [
    | inl e ↦ elim (Bool-cases (get_or w.activated_streams 0 no_id16 == no_id16)) [
      | inl f ↦ rw (e, f) refl
      | inr f ↦ rw (e, f, zero_points w.draw_points n e) refl
    ]
    | inr e ↦ rw e refl
  ]

  draw_indexed-Stops :
      (start n offset : ℕ) (w : RenderDevice S) → Stops (draw_indexed direct3d start n offset w)
  draw_indexed-Stops start n offset w =
      subst Stops (sym (draw_indexed-fault start n offset w))
        (elim (Bool-cases (is_zero w.draw_points)) [
          | inl e ↦ elim (Bool-cases (get_or w.activated_streams 0 no_id16 == no_id16)) [
            | inl f ↦ rw (e, f) (assertion, refl)
            | inr f ↦ rw (e, f) (division_by_zero, refl)
          ]
          | inr e ↦ rw e (assertion, refl)
        ])

  activate-fault :
      (p : ℕ) (w : RenderDevice S)
      → activate_draw_primitive p w ≡ (if leb 6 p then fault out_of_range else fault assertion)
  unfolding activate_draw_primitive entry primitive_draw_types
  activate-fault p w = elim (dec_le 6 p) [
    | yes h ↦ rw (le→leb 6 p h, get_elem?-none primitive_draw_types p h) refl
    | no h ↦ rw (not_le→leb 6 p h) refl
  ]

  -- Draw and DrawInstanced divide by zero where no points per primitive are set and fail an
  -- assertion otherwise, so neither returns; DrawIndexed and DrawIndexedInstanced do not return
  -- either; ActivateDrawPrimitive fails an assertion for each of the six primitives and leaves its
  -- table for any other.
  pub draw_calls-fault :
      (a b c d e : ℕ) (w : RenderDevice S)
      → (draw direct3d a b w
          ≡ (if is_zero w.draw_points then fault division_by_zero else fault assertion))
        × (draw_instanced direct3d a b c d w
            ≡ (if is_zero w.draw_points then fault division_by_zero else fault assertion))
        × Stops (draw_indexed direct3d a b c w)
        × Stops (draw_indexed_instanced direct3d a b c d e w)
        × (activate_draw_primitive a w ≡ (if leb 6 a then fault out_of_range else fault assertion))
  unfolding draw_instanced draw_indexed_instanced
  draw_calls-fault a b c d e w = (
    draw-fault a b w,
    draw-fault _ _ w,
    draw_indexed-Stops a b c w,
    draw_indexed-Stops _ _ e w,
    activate-fault a w,
  )
