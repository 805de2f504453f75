-- ===== src/RenderDevice/DataArray/Setup.antt =====
-- Init of DataArray leaves a table without an item in use.
use yengine.Base.{
  ℕ, ◌≤◌, ◌<◌, ◌≡◌, ◌∙◌, false, List, none, arith, length, replicate, none32, ok, ap, ok-bind,
  ok-injective, subst, sym, get_or-replicate, length-replicate,
}
use yengine.Containers.AtomicMemPool
use yengine.Containers.AtomicMemPool.{Item}
use yengine.Containers.AtomicMemPool.Setup.{initial, init-ok, initial-Refines}
use yengine.Containers.MemPool.Setup.{all_free}
use yengine.RenderDevice.DataArray.{DataArray, init}
use yengine.RenderDevice.DataArray.Table.{view, Marks, IsTable, unused-view}

module _ {A : Type 0} where
  abbrev pub unused : ℕ → ℕ → List (Item A) → DataArray A
  unused buffer item_size items = record {
    pool = initial buffer item_size items;
    used = replicate (length items) false;
  }

  pub unused-Marks :
      (buffer item_size : ℕ) (items : List (Item A))
      → length items ≤ none32
      → Marks (unused buffer item_size items) (all_free (length items))
  unused-Marks buffer item_size items few = record {
    pool = initial-Refines buffer item_size items few;
    size = length-replicate (length items) false;
    marked = λ i live. absurd (omega (arith, live.0));
    live = λ i h marked. absurd (cc (marked, get_or-replicate (length items) i false));
    holds = λ i live. absurd (omega (arith, live.0));
  }

  -- A successful Init over fewer items than ids and than an index can count leaves a table without an
  -- item in use.
  pub init-IsTable :
      (ids buffer buffer_size item_size : ℕ) (items : List (Item A)) (a : DataArray A)
      → length items < ids
      → length items ≤ none32
      → init buffer buffer_size item_size items ≡ ok a
      → IsTable ids a × ((id : ℕ) → view a id ≡ none)
  unfolding init
  init-IsTable ids buffer buffer_size item_size items a fits few e =
      let (pool, run, last) = ok-bind (AtomicMemPool.init buffer buffer_size item_size items) _ e in
      let m = unused-Marks buffer item_size items few in
      let same : unused buffer item_size items ≡ a =
        ap (λ p. record { pool = p; used = replicate (length items) false })
          (sym (init-ok buffer buffer_size item_size items pool run))
        ∙ ok-injective _ _ last in
      subst (λ b. IsTable ids b × ((id : ℕ) → view b id ≡ none)) same
        (
          record { indexes = all_free (length items); marks = m; fits = fits },
          λ id.
              unused-view _ (all_free (length items)) id m (λ live. absurd (omega (arith, live.0))),
        )
