-- ===== src/Containers/RefPointer/Counters.antt =====
-- What the counters of a RefPointer allow, and what a call does to them.
use yengine.Base.{
  ℕ, ◌+◌, ◌-◌, ◌<◌, ◌≡◌, refl, sym, inl, inr, Bool, true, false, List, some, arith, if◌then◌else◌,
  get_elem?, set, Option-cases, Run-cases, subst, Run, ok, Returns,
}
use yengine.Containers.RefPointer.{
  RefPointer, RefKind, read_ref, write_ref, read_write_ref, inc_read_refs, dec_read_refs,
  inc_write_refs, dec_write_refs, inc_read_write_refs, dec_read_write_refs, inc_refs, dec_refs,
  at_pointer, call,
}

abbrev pub counter : RefKind → RefPointer → ℕ
counter read_ref p = p.read_refs
counter write_ref p = p.write_refs
counter read_write_ref p = p.read_write_refs

abbrev pub is_kind : RefKind → RefKind → Bool
is_kind read_ref read_ref = true
is_kind write_ref write_ref = true
is_kind read_write_ref read_write_ref = true
is_kind _ _ = false

pub every_kind {ℓ} :
    (P : RefKind → Type ℓ) → P read_ref → P write_ref → P read_write_ref → (k : RefKind) → P k
every_kind P r w b read_ref = r
every_kind P r w b write_ref = w
every_kind P r w b read_write_ref = b

-- There is no reader beside a writer, and a read/write reference is alone.
pub record IsExclusive (p : RefPointer) : Type 0 where
  pub no_reader : 0 < p.write_refs → p.read_refs ≡ 0
  pub alone :
      0 < p.read_write_refs → (p.read_write_refs ≡ 1) × (p.read_refs ≡ 0) × (p.write_refs ≡ 0)

-- The second pointer has one reference more of a kind, and is the first otherwise.
pub record OneMore (kind : RefKind) (p p' : RefPointer) : Type 0 where
  pub counted : (k : RefKind) → counter k p' ≡ counter k p + (if is_kind k kind then 1 else 0)
  pub same : p'.pointer ≡ p.pointer

pub inc_refs-OneMore :
    (kind : RefKind) (p p' : RefPointer)
    → counter kind p < 255
    → IsExclusive p
    → inc_refs kind p ≡ ok p'
    → OneMore kind p p' × IsExclusive p'
unfolding inc_refs inc_read_refs inc_write_refs inc_read_write_refs
inc_refs-OneMore read_ref p p' h x e =
    let z0 : p.write_refs ≡ 0 = ground (arith, e) in
    let z1 : p.read_write_refs ≡ 0 = ground (arith, e) in
    let is : p' ≡ record p { read_refs = p.read_refs + 1 } = ground (arith, e, h) in
    subst (λ p'. OneMore read_ref p p' × IsExclusive p') (sym is)
      (
        record { counted = every_kind _ (omega arith) (omega arith) (omega arith); same = refl },
        record {
          no_reader = λ some_writer. omega (arith, z0, z1);
          alone = λ some_ref. (omega (arith, z0, z1), omega (arith, z0, z1), omega (arith, z0, z1));
        },
      )
inc_refs-OneMore write_ref p p' h x e =
    let z0 : p.read_refs ≡ 0 = ground (arith, e) in
    let z1 : p.read_write_refs ≡ 0 = ground (arith, e) in
    let is : p' ≡ record p { write_refs = p.write_refs + 1 } = ground (arith, e, h) in
    subst (λ p'. OneMore write_ref p p' × IsExclusive p') (sym is)
      (
        record { counted = every_kind _ (omega arith) (omega arith) (omega arith); same = refl },
        record {
          no_reader = λ some_writer. omega (arith, z0, z1);
          alone = λ some_ref. (omega (arith, z0, z1), omega (arith, z0, z1), omega (arith, z0, z1));
        },
      )
inc_refs-OneMore read_write_ref p p' h x e =
    let z0 : p.read_refs ≡ 0 = ground (arith, e) in
    let z1 : p.write_refs ≡ 0 = ground (arith, e) in
    let z2 : p.read_write_refs ≡ 0 = ground (arith, e) in
    let is : p' ≡ record p { read_write_refs = p.read_write_refs + 1 } = ground (arith, e, h) in
    subst (λ p'. OneMore read_write_ref p p' × IsExclusive p') (sym is)
      (
        record { counted = every_kind _ (omega arith) (omega arith) (omega arith); same = refl },
        record {
          no_reader = λ some_writer. omega (arith, z0, z1, z2);
          alone = λ some_ref.
              (omega (arith, z0, z1, z2), omega (arith, z0, z1, z2), omega (arith, z0, z1, z2));
        },
      )

pub dec_refs-OneMore :
    (kind : RefKind) (p : RefPointer)
    → 0 < counter kind p
    → counter kind p < 256
    → IsExclusive p
    → Returns (dec_refs kind p) λ p'. OneMore kind p' p × IsExclusive p'
unfolding dec_refs dec_read_refs dec_write_refs dec_read_write_refs
dec_refs-OneMore read_ref p h l x = (
  record p { read_refs = p.read_refs - 1 },
  ground (arith, h, l),
  (
    record { counted = every_kind _ (omega arith) (omega arith) (omega arith); same = refl },
    record {
      no_reader = λ w. ground (arith, x, x.no_reader, x.alone);
      alone = λ b. ground (arith, x.alone);
    },
  ),
)
dec_refs-OneMore write_ref p h l x = (
  record p { write_refs = p.write_refs - 1 },
  ground (arith, h, l),
  (
    record { counted = every_kind _ (omega arith) (omega arith) (omega arith); same = refl },
    record {
      no_reader = λ w. ground (arith, x, x.no_reader, x.alone);
      alone = λ b. ground (arith, x.alone);
    },
  ),
)
dec_refs-OneMore read_write_ref p h l x = (
  record p { read_write_refs = p.read_write_refs - 1 },
  ground (arith, h, l),
  (
    record { counted = every_kind _ (omega arith) (omega arith) (omega arith); same = refl },
    record {
      no_reader = λ w. ground (arith, x, x.no_reader, x.alone);
      alone = λ b. ground (arith, x.alone);
    },
  ),
)

-- A call that ends normally changes one pointer of the store.
pub call-set :
    (f : RefPointer → Run RefPointer) (i : ℕ) (store store' : List RefPointer)
    → call f i store ≡ ok store'
    → (p : RefPointer) × (p' : RefPointer) × (get_elem? store i ≡ some p)
      × (f p ≡ ok p')
      × (store' ≡ set store i p')
unfolding call at_pointer
call-set f i store store' e = elim (Option-cases (get_elem? store i)) [
  | inl nothing ↦ absurd (ground (arith, e, nothing))
  | inr (p, at) ↦ elim (Run-cases (f p)) [
    | inl (p', run) ↦ (p, p', at, run, ground (arith, e, at, run))
    | inr (why, run) ↦ absurd (ground (arith, e, at, run))
  ]
]

pub call-ok :
    (f : RefPointer → Run RefPointer) (i : ℕ) (store : List RefPointer) (p p' : RefPointer)
    → get_elem? store i ≡ some p
    → f p ≡ ok p'
    → call f i store ≡ ok (set store i p')
unfolding call at_pointer
call-ok f i store p p' at e = rw (at_pointer, at, e) refl
