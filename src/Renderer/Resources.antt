-- ===== src/Renderer/Resources.antt =====
-- What the classes of yengine/renderer ask of the resources of one kind of the render device
-- (yengine/render_device/render_device.h), and how they keep two ids of them.
pub mod Ids
pub mod Changes
pub mod Forgetting
use yengine.Base.{
  ℕ, ◌≡◌, ◌≢◌, Bool, true, false, not, Option, none, some, ◌==◌, if◌then◌else◌, Run, ok, fault,
  assertion, ◌>>=◌, Returns,
}

-- Create... and Release... of a resource that is created from an `A`, over the state `D` of the device; an
-- id that the device never gives out.
pub record Resources (A D : Type 0) : Type 0 where
  pub none_id : ℕ
  pub create : A → D → Run (ℕ × D)
  pub release : ℕ → D → Run D

-- What a device keeps to whose resources can be set by a function `modify`, such as SetViewPort; `held` is
-- what there is under an id. An id is used once, and one that is not in use fails an assertion.
pub record Laws {A D : Type 0} (device : Resources A D) (modify : ℕ → A → D → Run D) : Type 1 where
  pub IsReady : D → Type 0
  pub held : D → ℕ → Option A
  pub create_law :
      (x : A) (d d' : D) (id : ℕ)
      → IsReady d
      → device.create x d ≡ ok (id, d')
      → IsReady d'
        × (id ≢ device.none_id)
        × (held d id ≡ none)
        × ((j : ℕ) → held d' j ≡ (if id == j then some x else held d j))
  pub release_law :
      (id : ℕ) (x : A) (d : D)
      → IsReady d
      → held d id ≡ some x
      → Returns
          (device.release id d)
          λ d'. IsReady d' × ((j : ℕ) → held d' j ≡ (if id == j then none else held d j))
  pub release_unused :
      (id : ℕ) (d : D) → IsReady d → held d id ≡ none → device.release id d ≡ fault assertion
  pub modify_law :
      (id : ℕ) (old x : A) (d : D)
      → IsReady d
      → held d id ≡ some old
      → Returns
          (modify id x d)
          λ d'. IsReady d' × ((j : ℕ) → held d' j ≡ (if id == j then some x else held d j))
  pub modify_unused :
      (id : ℕ) (x : A) (d : D) → IsReady d → held d id ≡ none → modify id x d ≡ fault assertion

-- An array of two ids, by the index 0 or 1, which `!` turns into the other.
abbrev pub select : Bool → ℕ × ℕ → ℕ
select false ids = ids.0
select true ids = ids.1

abbrev pub store_id : Bool → ℕ → ℕ × ℕ → ℕ × ℕ
store_id false id ids = (id, ids.1)
store_id true id ids = (ids.0, id)

module _ {A D : Type 0} (device : Resources A D) where
  open device use {none_id, release}

  -- if (id != INVALID) Release(id), and that loop over the two ids
  pub release_one : ℕ → D → Run D
  release_one id d = if id == none_id then ok d else release id d

  pub release_ids : ℕ × ℕ → D → Run D
  release_ids ids d = do d1 ← release_one ids.0 d; release_one ids.1 d1

  -- A loop over the two ids that also sets them to INVALID leaves these.
  abbrev pub no_ids : ℕ × ℕ
  no_ids = (none_id, none_id)

  -- The same for one place, and for both, in the classes that set a place to INVALID when its id is
  -- released.
  pub clear_one : Bool → ℕ × ℕ → D → Run ((ℕ × ℕ) × D)
  clear_one index ids d =
      if select index ids == none_id
      then ok (ids, d)
      else do d' ← release (select index ids) d; ok (store_id index none_id ids, d')

  pub clear_ids : ℕ × ℕ → D → Run ((ℕ × ℕ) × D)
  clear_ids ids d = do (ids', d') ← clear_one false ids d; clear_one true ids' d'
