-- ===== src/RenderDevice/DataArray/Writes.antt =====
-- Items of a table of DataArray that are read and written under their ids.
use yengine.Base.{
  ℕ, ◌<◌, ◌≡◌, refl, true, false, Option, none, some, arith, ◌==◌, if◌then◌else◌, get_elem?, set,
  Returns, ok, get_elem?-set_ne, get_elem?-set_self, ne→==, eq→==, ◌∙◌, sym, subst, ap, Bool-cases,
  inl, inr, ℕ_discrete,
}
use mathlib.Core.Option.{none-ne-some, some-injective}
use yengine.Containers.MemPool.Indexes.{Indexes, IsLive}
use yengine.Containers.AtomicMemPool.{Item, value, link, num_items}
use yengine.RenderDevice.DataArray.{DataArray, is_used, get, put}
use yengine.RenderDevice.DataArray.Table.{
  value_of, view, Marks, IsTable, write-Refines, IsLive-is_used, used-view, same-view,
}
use yengine.RenderDevice.DataArray.Items.{get_value, put_value}

module _ {A : Type 0} where
  value_of-get :
      (item : Option (Item A)) (a : DataArray A) (id : ℕ) (x : A)
      → get_elem? a.pool.memory id ≡ item
      → value_of item ≡ some x
      → get a id ≡ ok x
  value_of-get none a id x e h = absurd (none-ne-some x h)
  value_of-get (some (link n)) a id x e h = absurd (none-ne-some x h)
  value_of-get (some (value y)) a id x e h =
      get_value a id x (e ∙ ap (λ v. some (value v)) (some-injective y x h))

  written-Marks :
      (a : DataArray A) (s : Indexes) (id : ℕ) (x : A)
      → Marks a s
      → IsLive s id
      → Marks (record a { pool = record a.pool { memory = set a.pool.memory id (value x) } }) s
  written-Marks a s id x m live = record {
    pool = write-Refines a.pool s id x m.pool live;
    size = m.size;
    marked = m.marked;
    live = m.live;
    holds = λ j l. elim (ℕ_discrete id j) [
      | yes e ↦ (
        x,
        subst (λ k. get_elem? (set a.pool.memory id (value x)) k ≡ some (value x)) e
            (get_elem?-set_self a.pool.memory id (value x)
              (omega (arith, live.0, m.pool.in_total, m.pool.total))),
      )
      | no ne ↦
          let (y, at) = m.holds j l in (y, get_elem?-set_ne a.pool.memory id j (value x) ne ∙ at)
    ];
  }

  -- What stands under an id in use can be read.
  pub view-get :
      (a : DataArray A) (id : ℕ) (x : A)
      → view a id ≡ some x
      → (is_used a id ≡ true) × (get a id ≡ ok x)
  unfolding get
  view-get a id x h = elim (Bool-cases (is_used a id)) [
    | inr e ↦ absurd (none-ne-some x (rw e at h))
    | inl e ↦ (e, value_of-get (get_elem? a.pool.memory id) a id x refl (rw e at h))
  ]

  -- A write to an id in use.
  pub put-view :
      (ids : ℕ) (a : DataArray A) (id : ℕ) (x : A)
      → IsTable ids a
      → is_used a id ≡ true
      → Returns
          (put a id x)
          λ a'. IsTable ids a' × ((j : ℕ) → view a' j ≡ (if id == j then some x else view a j))
  put-view ids a id x t e =
      let m = t.marks in
      let s = t.indexes in
      let live = IsLive-is_used a s id m e in
      let lt : id < num_items a.pool = omega (arith, live.0, m.pool.in_total, m.pool.total) in
      let a' : DataArray A = record a {
        pool = record a.pool { memory = set a.pool.memory id (value x) };
      } in
      let m' = written-Marks a s id x m live in
      (
        a',
        put_value a id x lt,
        (
          record { indexes = s; marks = m'; fits = t.fits },
          λ j. elim (ℕ_discrete id j) [
            | yes same ↦ rw (eq→== id j same) (
                subst (λ k. view a' k ≡ some x) same
                  (used-view a' s id x m' live (get_elem?-set_self a.pool.memory id (value x) lt)))
            | no ne ↦ rw (ne→== id j ne) (
                same-view a a' s s j m m' (λ l. l) (λ l. l)
                  (get_elem?-set_ne a.pool.memory id j (value x) ne))
          ],
        ),
      )

  -- An id under which nothing is in use.
  pub view-none :
      (ids : ℕ) (a : DataArray A) (id : ℕ) → IsTable ids a → view a id ≡ none → is_used a id ≡ false
  view-none ids a id t h = elim (Bool-cases (is_used a id)) [
    | inr e ↦ e
    | inl e ↦
        let (x, at) = t.marks.holds id (IsLive-is_used a t.indexes id t.marks e) in
        absurd (
          none-ne-some x (
            sym h
            ∙ used-view a t.indexes id x t.marks (IsLive-is_used a t.indexes id t.marks e) at))
  ]
