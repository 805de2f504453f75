-- ===== src/Renderer/Resources/Changes.antt =====
-- The two ids of an object after one is created, or what it leads to is modified.
use yengine.Base.{
  ℕ, ◌≡◌, refl, sym, ◌≢◌, inl, inr, Bool, true, false, not, Option, none, some, Run, ◌==◌,
  if◌then◌else◌, ok, Returns, eq→==, ne→==, ==_refl, ◌∙◌, ℕ_discrete, ap,
}
use mathlib.Core.Option.{none-ne-some}
use yengine.Renderer.Resources.{Resources, Laws, select, store_id}
use yengine.Renderer.Resources.Ids.{IsOwn, Owns}

module _ {A D : Type 0} {device : Resources A D} {modify : ℕ → A → D → Run D}
    (laws : Laws device modify) where
  open device use {none_id, create}
  open laws use {IsReady, held, create_law, modify_law}

  -- A new resource beside the others.
  abbrev pub with : ℕ → A → (ℕ → Option A) → ℕ → Option A
  with id x view j = if id == j then some x else view j

  with_self : (id : ℕ) (x : A) (view : ℕ → Option A) → with id x view id ≡ some x
  with_self id x view = rw (==_refl id) refl

  kept_own :
      (d d' : D) (id other : ℕ) (x : A)
      → IsOwn laws d other
      → ((j : ℕ) → held d' j ≡ with id x (held d) j)
      → IsOwn laws d' other
  kept_own d d' id other x (inl e) new = inl e
  kept_own d d' id other x (inr (y, at)) new = elim (ℕ_discrete id other) [
    | yes e ↦ inr (x, new other ∙ rw (eq→== id other e) refl)
    | no ne ↦ inr (y, new other ∙ rw (ne→== id other ne) at)
  ]

  pub new_apart :
      (d : D) (id other : ℕ) → IsOwn laws d other → id ≢ none_id → held d id ≡ none → id ≢ other
  new_apart d id other (inl e) ne fresh same = ne (same ∙ e)
  new_apart d id other (inr (y, at)) ne fresh same =
      none-ne-some y (sym fresh ∙ (ap (held d) same ∙ at))

  -- An id is created and stored in the place of one that is INVALID.
  pub create-Owns :
      (b : Bool) (ids : ℕ × ℕ) (x : A) (d d' : D) (id : ℕ)
      → Owns laws d ids
      → create x d ≡ ok (id, d')
      → Owns laws d' (store_id b id ids)
        × ((j : ℕ) → held d' j ≡ with id x (held d) j)
        × (held d id ≡ none)
        × (id ≢ none_id)
  create-Owns false ids x d d' id o run =
      let (ready, ne, fresh, new) = create_law x d d' id o.ready run in
      (
        record {
          ready = ready;
          first = inr (x, new id ∙ with_self id x (held d));
          second = kept_own d d' id ids.1 x o.second new;
          apart = λ e. absurd (new_apart d id ids.1 o.second ne fresh e);
        },
        new,
        fresh,
        ne,
      )
  create-Owns true ids x d d' id o run =
      let (ready, ne, fresh, new) = create_law x d d' id o.ready run in
      (
        record {
          ready = ready;
          first = kept_own d d' id ids.0 x o.first new;
          second = inr (x, new id ∙ with_self id x (held d));
          apart = λ e. absurd (new_apart d id ids.0 o.first ne fresh (sym e));
        },
        new,
        fresh,
        ne,
      )

  pub select-IsOwn :
      (b : Bool) (ids : ℕ × ℕ) (d : D) → Owns laws d ids → IsOwn laws d (select b ids)
  select-IsOwn false ids d o = o.first
  select-IsOwn true ids d o = o.second

  -- The other id is another one.
  pub select-apart :
      (b : Bool) (ids : ℕ × ℕ) (d : D)
      → Owns laws d ids
      → select b ids ≢ none_id
      → select b ids ≢ select (not b) ids
  select-apart false ids d o ne e = ne (o.apart e)
  select-apart true ids d o ne e = ne (e ∙ o.apart (sym e))

  pub select-not-apart :
      (b : Bool) (ids : ℕ × ℕ) (d : D)
      → Owns laws d ids
      → select (not b) ids ≢ none_id
      → select (not b) ids ≢ select b ids
  select-not-apart false ids d o ne e = ne (e ∙ o.apart (sym e))
  select-not-apart true ids d o ne e = ne (o.apart e)

  pub select-store : (b : Bool) (id : ℕ) (ids : ℕ × ℕ) → select b (store_id b id ids) ≡ id
  select-store false id ids = refl
  select-store true id ids = refl

  pub select-store_not :
      (b : Bool) (id : ℕ) (ids : ℕ × ℕ) → select (not b) (store_id b id ids) ≡ select (not b) ids
  select-store_not false id ids = refl
  select-store_not true id ids = refl

  -- What an id leads to is modified.
  pub modify-Owns :
      (b : Bool) (ids : ℕ × ℕ) (x : A) (d : D)
      → Owns laws d ids
      → select b ids ≢ none_id
      → Returns
          (modify (select b ids) x d)
          λ d'. Owns laws d' ids × ((j : ℕ) → held d' j ≡ with (select b ids) x (held d) j)
  modify-Owns b ids x d o ne = elim (select-IsOwn b ids d o) [
    | inl e ↦ absurd (ne e)
    | inr (old, at) ↦
        let (d', run, (ready, new)) = modify_law (select b ids) old x d o.ready at in
        (
          d',
          run,
          (
            record {
              ready = ready;
              first = kept_own d d' (select b ids) ids.0 x o.first new;
              second = kept_own d d' (select b ids) ids.1 x o.second new;
              apart = o.apart;
            },
            new,
          ),
        )
  ]
