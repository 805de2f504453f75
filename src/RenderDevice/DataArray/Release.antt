-- ===== src/RenderDevice/DataArray/Release.antt =====
-- ReleaseID of DataArray takes an item out of the table.
use yengine.Base.{
  ℕ, ◌<◌, ◌≡◌, refl, ◌≢◌, true, false, none, some, arith, ◌==◌, if◌then◌else◌, length, get_elem?,
  get_or, set, Returns, Run, ok, length-set, get_elem?-set_ne, get_or-set, lt→ltb, not_le→leb,
  le→leb, ne→==, eq→==, ◌∙◌, sym, dec_lt, Bool-cases, inl, inr, ℕ_discrete,
}
use mathlib.Core.Option.{none-ne-some, some-injective}
use yengine.Containers.MemPool.Indexes.{Indexes, IsLive, give}
use yengine.Containers.AtomicMemPool.{value, AtomicMemPool, num_items}
use yengine.Containers.AtomicMemPool.Refine.{Refines, remove-Refines_lem}
use yengine.RenderDevice.DataArray.{DataArray, is_used, release_id}
use yengine.RenderDevice.DataArray.Items.{get_value, put_value}
use yengine.RenderDevice.DataArray.Table.{
  view, Marks, IsTable, write-Refines, unused-view, same-view, IsLive-is_used,
}

module _ {A : Type 0} {D : Type 0} (release : A → D → Run (A × D)) where
  -- An id that is not in use.
  pub release_id_unused :
      (a : DataArray A) (id : ℕ) (d : D)
      → is_used a id ≡ false
      → release_id release a id d ≡ ok (false, a, d)
  unfolding release_id
  release_id_unused a id d e = elim (dec_lt id (length a.used)) [
    | yes h ↦
        let flag : get_or a.used id false ≡ false = rw (lt→ltb _ _ h) at e in
        rw (not_le→leb (length a.used) id (omega arith), flag) refl
    | no h ↦ rw (le→leb (length a.used) id (omega arith)) refl
  ]

  -- The flags after an id is released.
  released-Marks :
      (a : DataArray A) (s : Indexes) (pool : AtomicMemPool A) (id : ℕ)
      → Marks a s
      → IsLive s id
      → Refines pool (give s id)
      → ((j : ℕ) → j ≢ id → get_elem? pool.memory j ≡ get_elem? a.pool.memory j)
      → Marks (record { pool = pool; used = set a.used id false }) (give s id)
  unfolding give
  released-Marks a s pool id m live r same =
      let lt : id < length a.used = omega (arith, live.0, m.pool.in_total, m.size) in
      record {
        pool = r;
        size = length-set a.used id false ∙ m.size;
        marked = λ j l.
            ground (arith, get_or-set a.used id j false false lt, m.marked j (l.0, l.1.1), l.1.0);
        live = λ j h marked. elim (ℕ_discrete j id) [
          | yes e ↦ absurd (ground (arith, get_or-set a.used id j false false lt))
          | no ne ↦
              let l = m.live j h (ground (arith, get_or-set a.used id j false false lt, ne)) in
              (l.0, (ne, l.1))
        ];
        holds = λ j l. let (x, at) = m.holds j (l.0, l.1.1) in (x, rw (same j l.1.0) at);
      }

  -- In a table, ReleaseID of an id in use returns true, provided that Release of an item in the
  -- state it is given ends normally on what stands there; the id then is no longer in use, while
  -- nothing else changes.
  pub release_id-view :
      (ids : ℕ) (a : DataArray A) (id : ℕ) (d d' : D) (x x' : A)
      → IsTable ids a
      → view a id ≡ some x
      → release x d ≡ ok (x', d')
      → Returns (release_id release a id d) λ (done, a', d'').
        (done ≡ true)
        × (d'' ≡ d')
        × IsTable ids a'
        × ((j : ℕ) → view a' j ≡ (if id == j then none else view a j))
  unfolding release_id give
  release_id-view ids a id d d' x x' t at run = elim (Bool-cases (is_used a id)) [
    | inr e ↦ absurd (none-ne-some x (rw e at at))
    | inl e ↦
        let s = t.indexes in
        let m = t.marks in
        let live = IsLive-is_used a s id m e in
        let lt : id < length a.used = omega (arith, live.0, m.pool.in_total, m.size) in
        let in_pool : id < num_items a.pool =
          omega (arith, live.0, m.pool.in_total, m.pool.total) in
        let written = record a.pool { memory = set a.pool.memory id (value x') } in
        let r1 = write-Refines a.pool s id x' m.pool live in
        let (pool, removed, (r2, rest)) = remove-Refines_lem written s id r1 live in
        let (y, held) = m.holds id live in
        let same = λ (j : ℕ) (ne : j ≢ id).
          rest j ne ∙ get_elem?-set_ne a.pool.memory id j (value x') (λ e. ne (sym e)) in
        let a' : DataArray A = record { pool = pool; used = set a.used id false } in
        let m' = released-Marks a s pool id m live r2 same in
        let y-x : y ≡ x = some-injective y x (rw (e, held) at at) in
        (
          (true, a', d'),
          rw
              (
                not_le→leb (length a.used) id (omega arith),
                m.marked id live,
                get_value a id y held,
                y-x,
                run,
                put_value (record a { used = set a.used id false }) id x' in_pool,
                removed,
              )
              refl,
          (
            refl,
            refl,
            record { indexes = give s id; marks = m'; fits = t.fits },
            λ j. elim (ℕ_discrete id j) [
              | yes e ↦ rw (eq→== id j e) (unused-view a' (give s id) j m' (λ l. l.1.0 (sym e)))
              | no ne ↦ rw (ne→== id j ne) (
                  same-view a a' s (give s id) j m m' (λ l. (l.0, ((λ e. ne (sym e)), l.1)))
                    (λ l. (l.0, l.1.1)) (same j (λ e. ne (sym e))))
            ],
          ),
        )
  ]
