-- ===== src/Renderer/RenderDeviceState/Registers.antt =====
-- The constant registers of a RenderDeviceState.
use yengine.Base.{
  ℕ, zero, suc, ◌+◌, ◌≤◌, ◌<◌, ◌≡◌, ◌≢◌, ◌⊎◌, refl, sym, ap, ◌∙◌, inl, Bool, true, false, not, ◌||◌,
  ◌&&◌, List, none, some, arith, ◌==◌, eq→==, ne→==, ℕ_discrete, if◌then◌else◌, get_elem?, length,
  length-set, get_elem?-set, set, ok, Returns, Returns-value, get_elem?-some,
}
use yengine.Renderer.RenderDeviceState.{
  RenderDeviceState, Stage, vertex_stage, read, set_registers, activate_vertex_float_arg,
}

-- So many registers from one on have an id.
abbrev pub HaveId : List ℕ → ℕ → ℕ → ℕ → Type 0
HaveId ids reg num_regs id = (i : ℕ) → reg ≤ i → i < reg + num_regs → get_elem? ids i ≡ some id

-- Whether they all have it.
abbrev pub all_have : List ℕ → ℕ → ℕ → ℕ → Bool
all_have ids reg zero id = true
all_have ids reg (suc left) id = elim (get_elem? ids reg) [
  | none ↦ false
  | some old ↦ old == id && all_have ids (reg + 1) left id
]

-- What setting registers leaves: the id in each of them, and the others as they were.
pub record Filled (ids : List ℕ) (reg num_regs id : ℕ) (ids' : List ℕ) : Type 0 where
  pub places : length ids' ≡ length ids
  pub filled : HaveId ids' reg num_regs id
  pub others : (i : ℕ) → (i < reg) ⊎ (reg + num_regs ≤ i) → get_elem? ids' i ≡ get_elem? ids i

all_have-set :
    (ids : List ℕ) (at reg left id : ℕ)
    → at < reg
    → at < length ids
    → all_have (set ids at id) reg left id ≡ all_have ids reg left id
all_have-set ids at reg zero id h l = refl
all_have-set ids at reg (suc left) id h l =
    ground
      (arith, get_elem?-set ids at reg id l, all_have-set ids at (reg + 1) left id (omega arith) l)

not_and : (a b : Bool) → (not a || not b) ≡ not (a && b)
not_and true b = refl
not_and false b = refl

-- The ids after the loop has been at one register.
abbrev set_register : List ℕ → ℕ → ℕ → ℕ → List ℕ
set_register ids reg old id = if old == id then ids else set ids reg id

record Written (ids : List ℕ) (reg id : ℕ) (ids' : List ℕ) : Type 0 where
  places : length ids' ≡ length ids
  here : get_elem? ids' reg ≡ some id
  others : (i : ℕ) → i ≢ reg → get_elem? ids' i ≡ get_elem? ids i
  later : (left : ℕ) → all_have ids' (reg + 1) left id ≡ all_have ids (reg + 1) left id

set_register-Written :
    (ids : List ℕ) (reg old id : ℕ)
    → reg < length ids
    → get_elem? ids reg ≡ some old
    → Written ids reg id (set_register ids reg old id)
set_register-Written ids reg old id h e = elim (ℕ_discrete old id) [
  | yes same ↦ rw (eq→== _ _ same) (record {
    places = refl;
    here = e ∙ ap some same;
    others = λ i ne. refl;
    later = λ left. refl;
  })
  | no apart ↦ rw (ne→== _ _ apart) (record {
    places = length-set ids reg id;
    here = get_elem?-set ids reg reg id h ∙ rw (eq→== reg reg refl) refl;
    others = λ i ne. get_elem?-set ids reg i id h ∙ rw (ne→== reg i (λ e. ne (sym e))) refl;
    later = λ left. all_have-set ids reg (reg + 1) left id (omega arith) h;
  })
]

reports :
    (ids ids1 : List ℕ) (reg left id old : ℕ) (update : Bool)
    → get_elem? ids reg ≡ some old
    → Written ids reg id ids1
    → update ≡ not (all_have ids1 (reg + 1) left id)
    → (not (old == id) || update) ≡ not (all_have ids reg (suc left) id)
reports ids ids1 reg left id old update e w says =
    rw (says, w.later left, all_have, e) (not_and (old == id) (all_have ids (reg + 1) left id))

Written-Filled :
    (ids ids1 ids2 : List ℕ) (reg left id : ℕ)
    → Written ids reg id ids1
    → Filled ids1 (reg + 1) left id ids2
    → Filled ids reg (suc left) id ids2
Written-Filled ids ids1 ids2 reg left id w f = record {
  places = f.places ∙ w.places;
  filled = λ i a b. elim (ℕ_discrete i reg) [
    | yes e ↦ f.others i (inl (omega arith)) ∙ ap (get_elem? ids1) e ∙ w.here
    | no ne ↦ f.filled i (omega arith) (omega arith)
  ];
  others = λ i o. f.others i (omega arith) ∙ w.others i (omega arith);
}

-- The loop ends normally over registers that there are, and reports whether one of them had another id.
pub set_registers-Filled :
    (ids : List ℕ) (reg num_regs id : ℕ)
    → reg + num_regs ≤ length ids
    → Returns (set_registers ids reg num_regs id) λ (update, ids').
      (update ≡ not (all_have ids reg num_regs id)) × Filled ids reg num_regs id ids'
unfolding set_registers read
set_registers-Filled ids reg zero id h = (
  (false, ids),
  refl,
  (refl, record { places = refl; filled = λ i a b. absurd (omega arith); others = λ i o. refl }),
)
set_registers-Filled ids reg (suc left) id h =
    let (old, e) = get_elem?-some ids reg (omega arith) in
    let w = set_register-Written ids reg old id (omega arith) e in
    let ((update, ids'), run, (says, f)) =
      set_registers-Filled (set_register ids reg old id) (reg + 1) left id
        (omega (arith, w.places)) in
    (
      (not (old == id) || update, ids'),
      rw (read, e, run) refl,
      (
        reports ids (set_register ids reg old id) reg left id old update e w says,
        Written-Filled ids (set_register ids reg old id) ids' reg left id w f,
      ),
    )

pub set_registers-HaveId :
    (ids : List ℕ) (reg num_regs id : ℕ)
    → HaveId ids reg num_regs id
    → set_registers ids reg num_regs id ≡ ok (false, ids)
unfolding set_registers read
set_registers-HaveId ids reg zero id have = refl
set_registers-HaveId ids reg (suc left) id have =
    let rest =
      set_registers-HaveId ids (reg + 1) left id (λ i a b. have i (omega arith) (omega arith)) in
    let here = have reg (omega arith) (omega arith) in rw (read, here, eq→== id id refl, rest) refl

not_if {ℓ} : {A : Type ℓ} (b : Bool) (x y : A) → (if not b then x else y) ≡ (if b then y else x)
not_if true x y = refl
not_if false x y = refl

again :
    {D : Type 0} (activate_constants : Stage → ℕ → ℕ → D → D) (s : RenderDeviceState) (d : D)
    (reg num_regs id : ℕ)
    → HaveId s.set_vertex_float_arg reg num_regs id
    → activate_vertex_float_arg activate_constants s d reg num_regs id ≡ ok (s, d)
unfolding activate_vertex_float_arg
again activate_constants s d reg num_regs id have =
    rw (set_registers-HaveId s.set_vertex_float_arg reg num_regs id have) refl

module _ {D : Type 0} (activate_constants : Stage → ℕ → ℕ → D → D) (s : RenderDeviceState)
    (d : D) where
  pub activate_vertex_float_arg-Filled :
      (reg num_regs id : ℕ)
      → reg + num_regs ≤ length s.set_vertex_float_arg
      → Returns (activate_vertex_float_arg activate_constants s d reg num_regs id) λ (s', d').
        (d' ≡ (
          if all_have s.set_vertex_float_arg reg num_regs id
          then d
          else activate_constants vertex_stage reg id d))
        × Filled s.set_vertex_float_arg reg num_regs id s'.set_vertex_float_arg
  unfolding activate_vertex_float_arg
  activate_vertex_float_arg-Filled reg num_regs id h =
      let ((update, ids), run, (says, f)) =
        set_registers-Filled s.set_vertex_float_arg reg num_regs id h in
      (
        (
          record s { set_vertex_float_arg = ids },
          if update then activate_constants vertex_stage reg id d else d,
        ),
        rw run refl,
        (rw says (not_if (all_have s.set_vertex_float_arg reg num_regs id) _ _), f),
      )

  -- After an ActivateVertexFloatArg over registers that there are has ended normally, a call for
  -- the same id over some of these registers changes neither the state nor the device, at whichever
  -- of them it starts.
  pub activate_vertex_float_arg_part :
      (reg num_regs id skip part : ℕ) (p : RenderDeviceState × D)
      → reg + num_regs ≤ length s.set_vertex_float_arg
      → skip + part ≤ num_regs
      → activate_vertex_float_arg activate_constants s d reg num_regs id ≡ ok p
      → activate_vertex_float_arg activate_constants p.0 p.1 (reg + skip) part id ≡ ok p
  activate_vertex_float_arg_part reg num_regs id skip part p h l e =
      let (_, f) =
        Returns-value
          (λ (s', d').
            (d' ≡ (
              if all_have s.set_vertex_float_arg reg num_regs id
              then d
              else activate_constants vertex_stage reg id d))
            × Filled s.set_vertex_float_arg reg num_regs id s'.set_vertex_float_arg)
          {b = p} (activate_vertex_float_arg-Filled reg num_regs id h) e in
      again activate_constants p.0 p.1 (reg + skip) part id
        (λ i a b. f.filled i (omega arith) (omega arith))
