-- ===== src/Renderer/Resources/Forgetting.antt =====
-- A Release that sets the ids to INVALID.
use yengine.Base.{
  ℕ, ◌≡◌, refl, sym, ap, Bool, true, false, Run, ok, ==_refl, fault, ℕ_discrete, eq→==, ne→==,
  ◌>>=◌,
}
use yengine.Renderer.Resources.{
  Resources, select, store_id, no_ids, release_one, release_ids, clear_one, clear_ids,
}

module _ {A D : Type 0} (device : Resources A D) where
  open device use {none_id, release}

  store_same :
      (index : Bool) (ids : ℕ × ℕ) → select index ids ≡ none_id → store_id index none_id ids ≡ ids
  store_same false ids e = λ i. (sym e i, ids.1)
  store_same true ids e = λ i. (ids.0, sym e i)

  abbrev pub with_ids : ℕ × ℕ → D → Run ((ℕ × ℕ) × D)
  with_ids ids d = ok (ids, d)

  clear_one_lem :
      (index : Bool) (ids : ℕ × ℕ) (d : D)
      → clear_one device index ids d
        ≡ (release_one device (select index ids) d >>= with_ids (store_id index none_id ids))
  unfolding clear_one release_one
  clear_one_lem index ids d = elim (ℕ_discrete (select index ids) none_id) [
    | yes e ↦
        rw (eq→== (select index ids) none_id e)
          (ap (λ ids. with_ids ids d) (sym (store_same index ids e)))
    | no ne ↦ rw (ne→== (select index ids) none_id ne) refl
  ]

  then_second :
      (ids : ℕ × ℕ) (m : Run D)
      → (m >>= with_ids (none_id, ids.1) >>= λ r. clear_one device true r.0 r.1)
        ≡ (m >>= release_one device ids.1 >>= with_ids (no_ids device))
  then_second ids (ok d) = clear_one_lem true (none_id, ids.1) d
  then_second ids (fault why) = refl

  -- The loop that forgets the ids does to the device what the loop does that keeps them.
  pub clear_ids_lem :
      (ids : ℕ × ℕ) (d : D)
      → clear_ids device ids d ≡ (release_ids device ids d >>= with_ids (no_ids device))
  unfolding clear_ids release_ids
  clear_ids_lem ids d =
      rw (clear_one_lem false ids d) (then_second ids (release_one device ids.0 d))

  -- Where no id is kept, nothing is released.
  pub clear_ids_none : (d : D) → clear_ids device (no_ids device) d ≡ ok (no_ids device, d)
  unfolding clear_ids clear_one
  clear_ids_none d = rw (==_refl none_id) (rw (==_refl none_id) refl)
