-- ===== src/RenderDevice/DataArray/Table.antt =====
-- DataArray is a table of the items in use, under their ids.
use yengine.Base.{
  ℕ, ◌<◌, ◌≡◌, refl, true, false, Option, none, some, arith, if◌then◌else◌, length, get_elem?,
  get_or, set, length-set, lt→ltb, ◌∙◌, dec_lt, Bool-cases, inl, inr,
}
use yengine.Containers.MemPool.Indexes.{Indexes, IsLive}
use yengine.Containers.AtomicMemPool.{Item, value, link, AtomicMemPool}
use yengine.Containers.AtomicMemPool.Refine.{Refines, set-IsChain}
use yengine.RenderDevice.DataArray.{DataArray, is_used}

the_false : true ≡ false → ⊥
the_false h = cc

module _ {A : Type 0} where
  abbrev pub value_of : Option (Item A) → Option A
  value_of none = none
  value_of (some (link n)) = none
  value_of (some (value x)) = some x

  -- The item in use under an id.
  abbrev pub view : DataArray A → ℕ → Option A
  view a id = if is_used a id then value_of (get_elem? a.pool.memory id) else none

  -- The flags tell which indexes the pool has handed out, and each of these holds a value.
  pub record Marks (a : DataArray A) (s : Indexes) : Type 0 where
    pub pool : Refines a.pool s
    pub size : length a.used ≡ s.total
    pub marked : (i : ℕ) → IsLive s i → get_or a.used i false ≡ true
    pub live : (i : ℕ) → i < s.total → get_or a.used i false ≡ true → IsLive s i
    pub holds : (i : ℕ) → IsLive s i → (x : A) × (get_elem? a.pool.memory i ≡ some (value x))

  -- A table whose ids leave -1 free.
  pub record IsTable (ids : ℕ) (a : DataArray A) : Type 0 where
    pub indexes : Indexes
    pub marks : Marks a indexes
    pub fits : indexes.total < ids

  -- A value written to an index that is handed out.
  pub write-Refines :
      (p : AtomicMemPool A) (s : Indexes) (i : ℕ) (x : A)
      → Refines p s
      → IsLive s i
      → Refines (record p { memory = set p.memory i (value x) }) s
  write-Refines p s i x r live = record {
    chain = set-IsChain p.memory i (value x) s.free _ live.1 r.chain;
    below = r.below;
    distinct = r.distinct;
    used = r.used;
    total = length-set p.memory i (value x) ∙ r.total;
    in_total = r.in_total;
    word = r.word;
  }

  pub used_lt : (a : DataArray A) (s : Indexes) (i : ℕ) → Marks a s → IsLive s i → i < s.total
  used_lt a s i m live = omega (arith, live.0, m.pool.in_total)

  -- An id in use.
  pub is_used-IsLive :
      (a : DataArray A) (s : Indexes) (i : ℕ) → Marks a s → IsLive s i → is_used a i ≡ true
  is_used-IsLive a s i m live =
      rw (lt→ltb i (length a.used) (omega (arith, m.size, used_lt a s i m live)), m.marked i live)
        refl

  pub IsLive-is_used :
      (a : DataArray A) (s : Indexes) (i : ℕ) → Marks a s → is_used a i ≡ true → IsLive s i
  IsLive-is_used a s i m e = elim (dec_lt i (length a.used)) [
    | yes h ↦ m.live i (omega (arith, m.size)) (rw (lt→ltb _ _ h) at e)
    | no h ↦ absurd (ground (arith, h, e))
  ]

  pub unused-view :
      (a : DataArray A) (s : Indexes) (i : ℕ) → Marks a s → ¬ IsLive s i → view a i ≡ none
  unused-view a s i m free = elim (Bool-cases (is_used a i)) [
    | inl e ↦ absurd (free (IsLive-is_used a s i m e))
    | inr e ↦ rw e refl
  ]

  pub used-view :
      (a : DataArray A) (s : Indexes) (i : ℕ) (x : A)
      → Marks a s
      → IsLive s i
      → get_elem? a.pool.memory i ≡ some (value x)
      → view a i ≡ some x
  used-view a s i x m live at = rw (is_used-IsLive a s i m live, at) refl

  -- Two arrays with flags for the same ids, and the same item under one.
  pub same-view :
      (a a' : DataArray A) (s s' : Indexes) (i : ℕ)
      → Marks a s
      → Marks a' s'
      → (IsLive s i → IsLive s' i)
      → (IsLive s' i → IsLive s i)
      → get_elem? a'.pool.memory i ≡ get_elem? a.pool.memory i
      → view a' i ≡ view a i
  same-view a a' s s' i m m' to from same = elim (Bool-cases (is_used a i)) [
    | inl e ↦
        let live = IsLive-is_used a s i m e in
        rw (e, is_used-IsLive a' s' i m' (to live), same) refl
    | inr e ↦
        let free =
          λ (live : IsLive s' i). the_false (rw (is_used-IsLive a s i m (from live)) at e) in
        rw e (unused-view a' s' i m' free)
  ]
