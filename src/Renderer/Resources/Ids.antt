-- ===== src/Renderer/Resources/Ids.antt =====
-- The two ids of an object, while they are its own.
use yengine.Base.{
  ℕ, ◌≡◌, refl, sym, ◌≢◌, ◌⊎◌, inl, inr, Bool, true, false, not, ◌&&◌, Option, none, some, Run,
  ◌==◌, if◌then◌else◌, ok, fault, assertion, Returns, Bool-cases, eq→==, ne→==, ==_refl,
  ok-injective, ◌∙◌, ℕ_discrete, ap, subst,
}
use yengine.Renderer.Resources.{Resources, Laws, select, release_one, release_ids}

pair_eq : {a b : ℕ} {ids : ℕ × ℕ} → ids.0 ≡ a → ids.1 ≡ b → ids ≡ (a, b)
pair_eq e f = λ i. (e i, f i)

hidden :
    {A : Type 0} (o : Option A) (b : Bool) {c : Bool}
    → c ≡ true
    → (if b then none else if c then none else o) ≡ none
hidden o true e = refl
hidden o false e = rw e refl

module _ {A D : Type 0} {device : Resources A D} {modify : ℕ → A → D → Run D}
    (laws : Laws device modify) where
  open device use {none_id, release}
  open laws use {IsReady, held, release_law, release_unused}

  -- An id that is INVALID or leads to a resource.
  abbrev pub IsOwn : D → ℕ → Type 0
  IsOwn d id = (id ≡ none_id) ⊎ ((x : A) × (held d id ≡ some x))

  pub record Owns (d : D) (ids : ℕ × ℕ) : Type 0 where
    pub ready : IsReady d
    pub first : IsOwn d ids.0
    pub second : IsOwn d ids.1
    pub apart : ids.0 ≡ ids.1 → ids.0 ≡ none_id

  -- An index is an id that is not INVALID.
  abbrev pub is_id : ℕ → ℕ → Bool
  is_id id j = not (id == none_id) && id == j

  -- The resources without the one under an id.
  abbrev pub without : ℕ → (ℕ → Option A) → ℕ → Option A
  without id view j = if is_id id j then none else view j

  pub release_one-Returns :
      (d : D) (id : ℕ)
      → IsReady d
      → IsOwn d id
      → Returns
          (release_one device id d)
          λ d'. IsReady d' × ((j : ℕ) → held d' j ≡ without id (held d) j)
  unfolding release_one
  release_one-Returns d id ready (inl e) =
      let test = eq→== id none_id e in (d, rw test refl, (ready, λ j. rw test refl))
  release_one-Returns d id ready (inr (x, at)) = elim (Bool-cases (id == none_id)) [
    | inl e ↦ (d, rw e refl, (ready, λ j. rw e refl))
    | inr e ↦
        let (d', run, (ready', gone)) = release_law id x d ready at in
        (d', rw e run, (ready', λ j. rw e (gone j)))
  ]

  is_id_self : (id : ℕ) → id ≢ none_id → is_id id id ≡ true
  is_id_self id ne = rw (ne→== id none_id ne, ==_refl id) refl

  pub is_id_none : (id j : ℕ) → id ≡ none_id → is_id id j ≡ false
  is_id_none id j e = rw (eq→== id none_id e) refl

  pub is_id_ne : (id j : ℕ) → id ≢ j → is_id id j ≡ false
  is_id_ne id j ne = elim (Bool-cases (id == none_id)) [
    | inl e ↦ rw e refl
    | inr e ↦ rw (e, ne→== id j ne) refl
  ]

  -- The first id is not the second, unless both are INVALID.
  first_apart : (d : D) (ids : ℕ × ℕ) → Owns d ids → ids.1 ≢ none_id → is_id ids.0 ids.1 ≡ false
  first_apart d ids o ne = elim (ℕ_discrete ids.0 ids.1) [
    | yes e ↦ absurd (ne (sym e ∙ o.apart e))
    | no other ↦ is_id_ne ids.0 ids.1 other
  ]

  second_own :
      (d d1 : D) (ids : ℕ × ℕ)
      → Owns d ids
      → ((j : ℕ) → held d1 j ≡ without ids.0 (held d) j)
      → IsOwn d1 ids.1
  second_own d d1 ids o gone = elim (ℕ_discrete ids.1 none_id) [
    | yes e ↦ inl e
    | no ne ↦ elim o.second [
      | inl e ↦ inl e
      | inr (x, at) ↦ inr (x, gone ids.1 ∙ rw (first_apart d ids o ne) at)
    ]
  ]

  -- Both ids are released, and no other resource.
  pub release_ids-Returns :
      (d : D) (ids : ℕ × ℕ)
      → Owns d ids
      → Returns
          (release_ids device ids d)
          λ d'. IsReady d' × ((j : ℕ) → held d' j ≡ without ids.1 (without ids.0 (held d)) j)
  unfolding release_ids
  release_ids-Returns d ids o =
      let (d1, run1, (ready1, gone1)) = release_one-Returns d ids.0 o.ready o.first in
      let second = second_own d d1 ids o gone1 in
      let (d2, run2, (ready2, gone2)) = release_one-Returns d1 ids.1 ready1 second in
      (
        d2,
        rw (run1, run2) refl,
        (ready2, λ j. gone2 j ∙ ap (λ o. if is_id ids.1 j then none else o) (gone1 j)),
      )

  release_one_dead :
      (d : D) (id : ℕ)
      → IsReady d
      → id ≢ none_id
      → held d id ≡ none
      → release_one device id d ≡ fault assertion
  unfolding release_one
  release_one_dead d id ready ne at = rw (ne→== id none_id ne, release_unused id d ready at) refl

  release_one_none : (d : D) (id : ℕ) → id ≡ none_id → release_one device id d ≡ ok d
  unfolding release_one
  release_one_none d id e = rw (eq→== id none_id e) refl

  dead_at :
      (b : Bool) (ids : ℕ × ℕ)
      → select b ids ≢ none_id
      → (before after : ℕ → Option A) → ((j : ℕ) → after j ≡ without ids.1 (without ids.0 before) j)
      → after (select b ids) ≡ none
  dead_at false ids ne before after gone =
      gone ids.0 ∙ hidden _ (is_id ids.1 ids.0) (is_id_self ids.0 ne)
  dead_at true ids ne before after gone = gone ids.1 ∙ rw (is_id_self ids.1 ne) refl

  again :
      (d d2 : D) (ids : ℕ × ℕ)
      → Owns d ids
      → ids ≢ (none_id, none_id)
      → IsReady d2
      → ((j : ℕ) → held d2 j ≡ without ids.1 (without ids.0 (held d)) j)
      → release_ids device ids d2 ≡ fault assertion
  unfolding release_ids
  again d d2 ids o ne ready gone = elim (ℕ_discrete ids.0 none_id) [
    | no first ↦
        let dead : held d2 ids.0 ≡ none =
          gone ids.0 ∙ hidden _ (is_id ids.1 ids.0) (is_id_self ids.0 first) in
        rw (release_one_dead d2 ids.0 ready first dead) refl
    | yes e ↦
        let second : ids.1 ≢ none_id = λ f. ne (pair_eq e f) in
        let dead : held d2 ids.1 ≡ none = gone ids.1 ∙ rw (is_id_self ids.1 second) refl in
        rw (release_one_none d2 ids.0 e, release_one_dead d2 ids.1 ready second dead) refl
  ]

  -- Ids that are released but kept fail an assertion when they are released again.
  pub release_ids_twice :
      (d d' : D) (ids : ℕ × ℕ)
      → Owns d ids
      → ids ≢ (none_id, none_id)
      → release_ids device ids d ≡ ok d'
      → release_ids device ids d' ≡ fault assertion
  release_ids_twice d d' ids o ne run =
      let (d2, run2, (ready, gone)) = release_ids-Returns d ids o in
      let same = ok-injective _ _ (sym run2 ∙ run) in
      subst (λ v. release_ids device ids v ≡ fault assertion) same (again d d2 ids o ne ready gone)

  -- An id that was released leads to nothing.
  pub released-dead :
      (b : Bool) (d d' : D) (ids : ℕ × ℕ)
      → Owns d ids
      → select b ids ≢ none_id
      → release_ids device ids d ≡ ok d'
      → IsReady d' × (held d' (select b ids) ≡ none)
  released-dead b d d' ids o ne run =
      let (d2, run2, (ready, gone)) = release_ids-Returns d ids o in
      subst (λ v. IsReady v × (held v (select b ids) ≡ none)) (ok-injective _ _ (sym run2 ∙ run))
        (ready, dead_at b ids ne (held d) (held d2) gone)

  pub select_both : (b : Bool) (id : ℕ) → select b (id, id) ≡ id
  select_both false id = refl
  select_both true id = refl

  pub ids-ne : (b : Bool) (ids : ℕ × ℕ) → select b ids ≢ none_id → ids ≢ (none_id, none_id)
  ids-ne b ids ne e = ne (ap (select b) e ∙ select_both b none_id)
