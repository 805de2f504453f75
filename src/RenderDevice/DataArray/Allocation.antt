-- ===== src/RenderDevice/DataArray/Allocation.antt =====
-- AllocateID of DataArray puts a new item into the table.
use yengine.Base.{
  ℕ, ◌-◌, ◌%◌, ◌<◌, ◌≡◌, refl, ◌≢◌, true, false, none, some, arith, ◌==◌, if◌then◌else◌, length,
  get_elem?, set, none32, Returns, ok, length-set, get_elem?-set_ne, get_elem?-set_self, get_or-set,
  ne→==, eq→==, ◌∙◌, sym, subst, ap, ℕ_discrete,
}
use native.Mathlib.Nat.{mod-eq_of_lt}
use yengine.Containers.MemPool.Indexes.{Indexes, IsLive}
use yengine.Containers.MemPool.Ownership.{Granted}
use yengine.Containers.AtomicMemPool.{value, AtomicMemPool, allocate}
use yengine.Containers.AtomicMemPool.Refine.{Refines, allocate-Granted_lem}
use yengine.RenderDevice.DataArray.{DataArray, is_used, allocate_id}
use yengine.RenderDevice.DataArray.Table.{
  view, Marks, IsTable, write-Refines, is_used-IsLive, unused-view, used-view, same-view,
}

module _ {A : Type 0} where
  -- What AllocateID leaves of a table, where the index of the pool is not -1.
  allocated-Marks :
      (a : DataArray A) (s s' : Indexes) (pool : AtomicMemPool A) (i : ℕ) (x : A)
      → Marks a s
      → Refines pool s'
      → Granted s i s'
      → pool.memory ≡ a.pool.memory
      → Marks
          (record {
            pool = record pool { memory = set pool.memory i (value x) };
            used = set a.used i true;
          })
          s'
  allocated-Marks a s s' pool i x m r g same =
      let lt : i < length a.used = omega (arith, m.size, g.in_range) in
      record {
        pool = write-Refines pool s' i x r g.is_live;
        size = length-set a.used i true ∙ m.size ∙ sym g.total;
        marked = λ j live. elim (ℕ_discrete j i) [
          | yes e ↦ ground (arith, get_or-set a.used i j true false lt)
          | no ne ↦
              ground (arith, get_or-set a.used i j true false lt, m.marked j (g.only j ne live))
        ];
        live = λ j h marked. elim (ℕ_discrete j i) [
          | yes e ↦ subst (IsLive s') (sym e) g.is_live
          | no ne ↦ g.others j (
              m.live j (omega (arith, g.total))
                (ground (arith, get_or-set a.used i j true false lt, ne)))
        ];
        holds = λ j live. elim (ℕ_discrete j i) [
          | yes e ↦ (
            x,
            rw e (
                get_elem?-set_self pool.memory i (value x)
                  (omega (arith, g.in_range, g.total, r.total))),
          )
          | no ne ↦
              let (y, at) = m.holds j (g.only j ne live) in
              (y, rw (get_elem?-set_ne pool.memory i j (value x) (λ e. ne (sym e)), same) at)
        ];
      }

  -- AllocateID, where the pool has an index left.
  allocated-view :
      (ids : ℕ) (initial : A) (a : DataArray A) (t : IsTable ids a) (s' : Indexes)
      (pool : AtomicMemPool A) (i : ℕ)
      → Refines pool s'
      → Granted t.indexes i s'
      → pool.memory ≡ a.pool.memory
      → allocate a.pool ≡ ok (i, pool)
      → Returns (allocate_id ids initial a) λ (id, a').
        IsTable ids a'
        × (id ≢ ids - 1)
        × (view a id ≡ none)
        × ((j : ℕ) → view a' j ≡ (if id == j then some initial else view a j))
  unfolding allocate_id
  allocated-view ids initial a t s' pool i r g same run =
      let m = t.marks in
      let id : i % ids ≡ i = mod-eq_of_lt (omega (arith, g.in_range, t.fits)) in
      let a' : DataArray A = record {
        pool = record pool { memory = set pool.memory i (value initial) };
        used = set a.used i true;
      } in
      let m' = allocated-Marks a t.indexes s' pool i initial m r g same in
      let lt : i < length pool.memory = omega (arith, g.in_range, g.total, r.total) in
      (
        (i, a'),
        rw (run, id, ne→== i none32 (omega (arith, g.in_range, m.pool.word))) refl,
        (
          record { indexes = s'; marks = m'; fits = omega (arith, g.total, t.fits) },
          omega (arith, g.in_range, t.fits),
          unused-view a t.indexes i m g.was_free,
          λ j. elim (ℕ_discrete i j) [
            | yes e ↦ rw (eq→== i j e) (
                subst (λ k. view a' k ≡ some initial) e
                  (used-view a' s' i initial m' g.is_live
                    (get_elem?-set_self pool.memory i (value initial) lt)))
            | no ne ↦ rw (ne→== i j ne) (
                same-view a a' t.indexes s' j m m' (g.others j) (g.only j (λ e. ne (sym e))) (
                  get_elem?-set_ne pool.memory i j (value initial) ne
                  ∙ ap (λ l. get_elem? l j) same))
          ],
        ),
      )

  -- In a table whose ids leave -1 free, AllocateID returns; it answers -1 only if every id is in
  -- use and then changes nothing in use, and any other id was not in use and now leads to the item
  -- as Init leaves it, while nothing else changes.
  pub allocate_id-view :
      (ids : ℕ) (initial : A) (a : DataArray A)
      → IsTable ids a
      → none32 % ids ≡ ids - 1
      → Returns (allocate_id ids initial a) λ (id, a').
        IsTable ids a'
        × (id ≢ ids - 1 → view a id ≡ none)
        × (id ≢ ids - 1 → (j : ℕ) → view a' j ≡ (if id == j then some initial else view a j))
        × (id ≡ ids - 1
            → (j : ℕ) → (view a' j ≡ view a j) × (j < length a.used → is_used a j ≡ true))
  unfolding allocate_id
  allocate_id-view ids initial a t none-id =
      let m = t.marks in
      let ((i, pool), run, (s', r, granted, full, kept, same)) =
        allocate-Granted_lem a.pool t.indexes m.pool in
      elim (ℕ_discrete i none32) [
        | yes no_index ↦
            let m' : Marks (record a { pool = pool }) t.indexes = record {
              pool = subst (Refines pool) (kept no_index) r;
              size = m.size;
              marked = m.marked;
              live = m.live;
              holds = λ j live. let (x, at) = m.holds j live in (x, rw same at);
            } in
            (
              (ids - 1, record a { pool = pool }),
              rw (run, no_index, none-id) refl,
              (
                record { indexes = t.indexes; marks = m'; fits = t.fits },
                λ ne. absurd (ne refl),
                λ ne. absurd (ne refl),
                λ _ j. (
                  rw same refl,
                  λ lt. is_used-IsLive a t.indexes j m (full no_index j (omega (arith, m.size))),
                ),
              ),
            )
        | no index ↦
            let (out, eq, (t', ne, fresh, new)) =
              allocated-view ids initial a t s' pool i r (granted index) same run in
            (out, eq, (t', λ _. fresh, λ _. new, λ e. absurd (ne e)))
      ]
