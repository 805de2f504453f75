-- ===== src/RenderDevice/DataArray/Items.antt =====
-- Reads and writes of an item of DataArray.
use yengine.Base.{
  ℕ, ◌<◌, ◌≡◌, refl, ◌≢◌, some, arith, get_elem?, set, ok-injective, ok, fault, Fault,
  get_elem?-none, get_elem?-set_ne, get_elem?-set_self, lt→ltb, not_lt→ltb, sym, dec_lt,
}
use yengine.Containers.AtomicMemPool.{value, num_items}
use yengine.RenderDevice.DataArray.{DataArray, get, put}

fault_ok : {B : Type 0} {why : Fault} {x : B} → fault why ≡ ok x → ⊥
fault_ok h = cc

module _ {A : Type 0} where
  pub get_value :
      (a : DataArray A) (i : ℕ) (x : A)
      → get_elem? a.pool.memory i ≡ some (value x)
      → get a i ≡ ok x
  unfolding get
  get_value a i x at = rw (at, get) refl

  pub put_value :
      (a : DataArray A) (i : ℕ) (x : A)
      → i < num_items a.pool
      → put a i x
        ≡ ok (record a { pool = record a.pool { memory = set a.pool.memory i (value x) } })
  unfolding put
  put_value a i x h = rw (lt→ltb _ _ h) refl

  pub put-ok :
      (a a' : DataArray A) (i : ℕ) (x : A)
      → put a i x ≡ ok a'
      → (i < num_items a.pool)
        × (a' ≡ record a { pool = record a.pool { memory = set a.pool.memory i (value x) } })
  unfolding put
  put-ok a a' i x h = elim (dec_lt i (num_items a.pool)) [
    | yes lt ↦ (lt, sym (ok-injective _ _ (rw (lt→ltb _ _ lt) at h)))
    | no ge ↦ absurd (fault_ok (rw (not_lt→ltb _ _ ge) at h))
  ]

  -- What was written can be read.
  pub get-put : (a a' : DataArray A) (i : ℕ) (x : A) → put a i x ≡ ok a' → get a' i ≡ ok x
  get-put a a' i x h =
      let (lt, e) = put-ok a a' i x h in
      rw e (get_value _ i x (get_elem?-set_self a.pool.memory i (value x) lt))

  pub get-put_ne :
      (a a' : DataArray A) (i j : ℕ) (x : A) → put a i x ≡ ok a' → i ≢ j → get a' j ≡ get a j
  unfolding get
  get-put_ne a a' i j x h ne =
      let (lt, e) = put-ok a a' i x h in
      rw (e, get, get_elem?-set_ne a.pool.memory i j (value x) ne) refl

  pub get-lt : (a : DataArray A) (i : ℕ) (x : A) → get a i ≡ ok x → i < num_items a.pool
  unfolding get
  get-lt a i x h = elim (dec_lt i (num_items a.pool)) [
    | yes lt ↦ lt
    | no ge ↦ absurd (fault_ok (rw (get_elem?-none a.pool.memory i (omega arith), get) at h))
  ]
