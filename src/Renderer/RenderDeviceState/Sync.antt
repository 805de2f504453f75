-- ===== src/Renderer/RenderDeviceState/Sync.antt =====
-- The render device is told exactly the calls that change what a slot was last told.
use yengine.Base.{
  ℕ, ◌≡◌, refl, sym, ap, inl, inr, ◌∙◌, subst, List, [], ◌∷◌, none, some, ◌==◌, eq→==, ne→==,
  ℕ_discrete, if◌then◌else◌, get_elem?, Option-cases, Run, ok, fault, out_of_range, ◌>>=◌, ite,
}
use yengine.Renderer.RenderDeviceState.{
  RenderDeviceState, Slot, view_port, blend_state, vertex_decl, vertex_shader, pixel_shader,
  index_stream, vertex_stream, render_target, vertex_sampler_state, pixel_sampler_state,
  vertex_texture, pixel_texture, read, activate_view_port, activate_blend_state,
  activate_vertex_decl, activate_vertex_shader, activate_pixel_shader, activate_index_stream,
  activate_vertex_stream, activate_render_target, activate_vertex_sampler_state,
  activate_pixel_sampler_state, activate_vertex_texture, activate_pixel_texture,
}
use yengine.Renderer.RenderDeviceState.Slots.{
  get, put, unset, InBounds, IsSized, get-put, get-put_ne, get-InBounds,
}
use yengine.Renderer.RenderDeviceState.Writes.{put-IsSized}

pub Slot-discrete : Discrete Slot
Slot-discrete = hlevel ℕ_discrete

-- What follows a read of an array.
read_lem {ℓ} :
    {X : Type ℓ} (ids : List ℕ) (index : ℕ) (next : ℕ → Run X)
    → (read ids index >>= next)
      ≡ elim (get_elem? ids index) [ none ↦ fault out_of_range | some old ↦ next old ]
unfolding read
read_lem ids index next = elim (Option-cases (get_elem? ids index)) [
  | inl e ↦ rw (read, e) refl
  | inr (old, e) ↦ rw (read, e) refl
]

module _ {D : Type 0} (activate : Slot → ℕ → D → Run D) where
  -- The member function for a slot.
  unfoldable pub perform : Slot → ℕ → RenderDeviceState → D → Run (RenderDeviceState × D)
  perform view_port id s d = activate_view_port activate s d id
  perform blend_state id s d = activate_blend_state activate s d id
  perform vertex_decl id s d = activate_vertex_decl activate s d id
  perform vertex_shader id s d = activate_vertex_shader activate s d id
  perform pixel_shader id s d = activate_pixel_shader activate s d id
  perform index_stream id s d = activate_index_stream activate s d id
  perform vertex_stream id s d = activate_vertex_stream activate s d id
  perform (render_target i) id s d = activate_render_target activate s d i id
  perform (vertex_sampler_state i) id s d = activate_vertex_sampler_state activate s d i id
  perform (pixel_sampler_state i) id s d = activate_pixel_sampler_state activate s d i id
  perform (vertex_texture i) id s d = activate_vertex_texture activate s d i id
  perform (pixel_texture i) id s d = activate_pixel_texture activate s d i id

  -- Every member function is this, for its slot.
  cached : Slot → ℕ → RenderDeviceState → D → Run (RenderDeviceState × D)
  cached slot id s d = elim (get s slot) [
    | none ↦ fault out_of_range
    | some old ↦ if old == id then ok (s, d) else do d' ← activate slot id d; ok (put s slot id, d')
  ]

  perform_lem :
      (slot : Slot) (id : ℕ) (s : RenderDeviceState) (d : D)
      → perform slot id s d ≡ cached slot id s d
  unfolding perform cached get put activate_view_port activate_blend_state activate_vertex_decl
      activate_vertex_shader activate_pixel_shader activate_index_stream activate_vertex_stream
      activate_render_target activate_vertex_sampler_state activate_pixel_sampler_state
      activate_vertex_texture activate_pixel_texture
  perform_lem view_port id s d = refl
  perform_lem blend_state id s d = refl
  perform_lem vertex_decl id s d = refl
  perform_lem vertex_shader id s d = refl
  perform_lem pixel_shader id s d = refl
  perform_lem index_stream id s d = refl
  perform_lem vertex_stream id s d = refl
  perform_lem (render_target i) id s d = read_lem s.set_render_target_ids i _
  perform_lem (vertex_sampler_state i) id s d = read_lem s.set_vertex_sampler_state i _
  perform_lem (pixel_sampler_state i) id s d = read_lem s.set_pixel_sampler_state i _
  perform_lem (vertex_texture i) id s d = read_lem s.set_vertex_texture_arg i _
  perform_lem (pixel_texture i) id s d = read_lem s.set_pixel_texture_arg i _

  unfoldable pub perform_all : List (Slot × ℕ) → RenderDeviceState → D → Run (RenderDeviceState × D)
  unfolding perform
  perform_all [] s d = ok (s, d)
  perform_all ((slot, id) ∷ calls) s d = do (s', d') ← perform slot id s d; perform_all calls s' d'

  -- The same calls without a RenderDeviceState.
  unfoldable pub tell_all : List (Slot × ℕ) → D → Run D
  tell_all [] d = ok d
  tell_all ((slot, id) ∷ calls) d = do d' ← activate slot id d; tell_all calls d'

-- Every index is in its array.
abbrev pub AreInBounds : List (Slot × ℕ) → Type 0
AreInBounds [] = Unit
AreInBounds ((slot, id) ∷ calls) = InBounds slot × AreInBounds calls

-- The ids of the slots when one is told an id, and after calls.
abbrev pub update : (Slot → ℕ) → Slot → ℕ → Slot → ℕ
update ids slot id other = ite (Slot-discrete slot other) id (ids other)

abbrev pub last_ids : (Slot → ℕ) → List (Slot × ℕ) → Slot → ℕ
last_ids ids [] = ids
last_ids ids ((slot, id) ∷ calls) = last_ids (update ids slot id) calls

-- The calls that give a slot another id than it has by then.
abbrev pub changes : (Slot → ℕ) → List (Slot × ℕ) → List (Slot × ℕ)
changes ids [] = []
changes ids ((slot, id) ∷ calls) =
    let rest = changes (update ids slot id) calls in
    if ids slot == id then rest else (slot, id) ∷ rest

-- The ids that are kept.
abbrev pub kept_ids : RenderDeviceState → Slot → ℕ
kept_ids s slot = elim (get s slot) [ none ↦ unset slot | some id ↦ id ]

update_same : (ids : Slot → ℕ) (slot : Slot) (id : ℕ) → ids slot ≡ id → update ids slot id ≡ ids
update_same ids slot id e i other =
    (elim (Slot-discrete slot other) as (λ c. ite c id (ids other) ≡ ids other) [
      | yes same ↦ sym e ∙ ap ids same
      | no apart ↦ refl
    ])
      i

-- The calls that change something leave the same ids as all of them.
last_ids-changes :
    (ids : Slot → ℕ) (calls : List (Slot × ℕ))
    → last_ids ids (changes ids calls) ≡ last_ids ids calls
last_ids-changes ids [] = refl
last_ids-changes ids ((slot, id) ∷ calls) =
    let rest = last_ids-changes (update ids slot id) calls in
    elim (ℕ_discrete (ids slot) id) [
      | yes e ↦ rw (eq→== _ _ e) (
          ap (λ before. last_ids before (changes (update ids slot id) calls))
            (sym (update_same ids slot id e))
          ∙ rest)
      | no ne ↦ rw (ne→== _ _ ne) rest
    ]

-- The struct keeps these ids.
record Keeps (s : RenderDeviceState) (ids : Slot → ℕ) : Type 0 where
  sized : IsSized s
  kept : (slot : Slot) → InBounds slot → get s slot ≡ some (ids slot)

put-Keeps :
    (s : RenderDeviceState) (ids : Slot → ℕ) (slot : Slot) (id : ℕ)
    → Keeps s ids
    → InBounds slot
    → Keeps (put s slot id) (update ids slot id)
put-Keeps s ids slot id k h = record {
  sized = put-IsSized s slot id k.sized;
  kept = λ other within.
      elim (Slot-discrete slot other)
        as (λ c. get (put s slot id) other ≡ some (ite c id (ids other))) [
          | yes same ↦ ap (get (put s slot id)) (sym same) ∙ get-put s slot id k.sized h
          | no apart ↦ get-put_ne s slot other id apart ∙ k.kept other within
        ];
}

module _ {D : Type 0} (activate : Slot → ℕ → D → Run D) where
  -- The struct beside what the device has come to.
  abbrev pub beside : RenderDeviceState → D → Run (RenderDeviceState × D)
  beside s d = ok (s, d)

  then_same :
      (calls told : List (Slot × ℕ)) (s s' : RenderDeviceState)
      → ((d : D) → perform_all activate calls s d ≡ (tell_all activate told d >>= beside s'))
      → (m : Run D)
      → (m >>= beside s >>= λ x. perform_all activate calls x.0 x.1)
        ≡ (m >>= tell_all activate told >>= beside s')
  then_same calls told s s' same (ok d) = same d
  then_same calls told s s' same (fault why) = refl

  perform_all-Keeps :
      (calls : List (Slot × ℕ)) (s : RenderDeviceState) (ids : Slot → ℕ)
      → Keeps s ids
      → AreInBounds calls
      → (s' : RenderDeviceState) × ((d : D)
          → perform_all activate calls s d
            ≡ (tell_all activate (changes ids calls) d >>= beside s'))
        × Keeps s' (last_ids ids calls)
  unfolding perform_all tell_all cached
  perform_all-Keeps [] s ids k are = (s, λ d. refl, k)
  perform_all-Keeps ((slot, id) ∷ calls) s ids k are = elim (ℕ_discrete (ids slot) id) [
    | yes e ↦
        let same = update_same ids slot id e in
        let (s', run, k') = perform_all-Keeps calls s ids k are.1 in
        (
          s',
          λ d.
              rw (perform_lem activate slot id s d, cached, k.kept slot are.0, eq→== _ _ e)
                (run d
                  ∙ ap (λ ids. tell_all activate (changes ids calls) d >>= beside s') (sym same)),
          subst (λ ids. Keeps s' (last_ids ids calls)) (sym same) k',
        )
    | no ne ↦
        let (s', run, k') =
          perform_all-Keeps calls (put s slot id) (update ids slot id)
            (put-Keeps s ids slot id k are.0) are.1 in
        (
          s',
          λ d.
              rw (perform_lem activate slot id s d, cached, k.kept slot are.0, ne→== _ _ ne)
                (then_same calls (changes (update ids slot id) calls) (put s slot id) s' run
                  (activate slot id d)),
          k',
        )
  ]

  kept_ids-Keeps : (s : RenderDeviceState) → IsSized s → Keeps s (kept_ids s)
  kept_ids-Keeps s sized = record {
    sized = sized;
    kept = λ slot within.
        let (id, e) = get-InBounds s slot sized within in e ∙ ap some (sym (rw (kept_ids, e) refl));
  }

  -- From a struct with arrays of their declared lengths, any calls of the member functions other
  -- than the two for constants, with indexes in the arrays, end, faults of the device included, as
  -- telling the device only the calls that change the id of their slot does; the struct then keeps
  -- for each slot the id that it was told last or had before, and the calls that the device is told
  -- leave the same last ids as all the calls.
  pub perform_all-changes :
      (calls : List (Slot × ℕ)) (s : RenderDeviceState)
      → IsSized s
      → AreInBounds calls
      → (s' : RenderDeviceState) × ((d : D)
          → perform_all activate calls s d
            ≡ (tell_all activate (changes (kept_ids s) calls) d >>= beside s'))
        × IsSized s'
        × ((slot : Slot) → InBounds slot → get s' slot ≡ some (last_ids (kept_ids s) calls slot))
        × (last_ids (kept_ids s) (changes (kept_ids s) calls) ≡ last_ids (kept_ids s) calls)
  perform_all-changes calls s sized are =
      let (s', run, k) = perform_all-Keeps calls s (kept_ids s) (kept_ids-Keeps s sized) are in
      (s', run, k.sized, k.kept, last_ids-changes (kept_ids s) calls)
