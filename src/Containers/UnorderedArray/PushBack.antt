-- ===== src/Containers/UnorderedArray/PushBack.antt =====
-- TypedUnorderedArray::PushBack, and the clients that follow where items move.
use mathlib.Core.Option.{some-injective}
use yengine.Base.{
  ℕ, ◌+◌, ◌≤◌, ◌<◌, ◌≡◌, refl, sym, ap, ◌∙◌, ◌≢◌, inl, inr, List, some, arith, length, get_elem?,
  set, take, memcpy, length-set, get_elem?-set, ==_refl, eq→==, ne→==, le→leb, Bool-cases, leb,
  ℕ_discrete, ok, Returns, none32, fault, out_of_range, get_elem?-some, get_elem?-none,
}
use yengine.Containers.UnorderedArray.{
  UnorderedArray, total_size, allocate, remove, notify, push_back, item_at,
}
use yengine.Containers.UnorderedArray.Refine.{
  IsValid, Swapped, remove-Swapped, Follows, allocate_lem,
}

module _ {ℓ κ} {A : Type ℓ} {S : Type κ} where
  allocate_room :
      (a : UnorderedArray A S)
      → IsValid a
      → a.item_count < total_size a
      → allocate a ≡ (a.item_count, record a { item_count = a.item_count + 1 })
  allocate_room a v h = rw (allocate_lem a v, ne→== a.item_count (total_size a) (omega arith)) refl

  item_at-ok :
      (a : UnorderedArray A S) (i : ℕ) (x : A) → get_elem? a.memory i ≡ some x → item_at a i ≡ ok x
  unfolding item_at
  item_at-ok a i x at = rw (item_at, at) refl

  item_at-none :
      (a : UnorderedArray A S) (i : ℕ) → total_size a ≤ i → item_at a i ≡ fault out_of_range
  unfolding item_at
  item_at-none a i h = rw (item_at, get_elem?-none a.memory i h) refl

  notify_set :
      (a : UnorderedArray A S) (callback : ℕ → ℕ → S → S) (old new : ℕ)
      → a.pre_swap_item_callback ≡ some callback
      → notify a old new ≡ callback old new a.callback_arg
  unfolding notify
  notify_set a callback old new e = rw e refl

module _ {ℓ κ ι} {A : Type ℓ} {S : Type κ} {K : Type ι} where
  found :
      (position : S → K → ℕ) (callback : ℕ → ℕ → S → S) (a : UnorderedArray A S) (index : ℕ)
      (a' : UnorderedArray A S) (key : K)
      → Follows position callback
      → a.pre_swap_item_callback ≡ some callback
      → Swapped a index a'
      → index < a.item_count
      → position a.callback_arg key < a.item_count
      → position a.callback_arg key ≢ index
      → (position a'.callback_arg key < a'.item_count)
        × (get_elem? a'.memory (position a'.callback_arg key)
            ≡ get_elem? a.memory (position a.callback_arg key))
  found position callback a index a' key follows set r h k ne =
      elim (ℕ_discrete index a'.item_count) [
        | yes e ↦
            let told : a'.callback_arg ≡ a.callback_arg = r.told ∙ rw (eq→== _ _ e) refl in
            rw told (
              omega (arith, r.count),
              r.item (position a.callback_arg key) (omega (arith, r.count))
                  ∙ rw (ne→== _ _ ne) refl,
            )
        | no apart ↦
            let told : a'.callback_arg ≡ callback a'.item_count index a.callback_arg =
              r.told ∙ rw (ne→== _ _ apart) (notify_set a callback a'.item_count index set) in
            let moved = follows.moved a'.item_count index a.callback_arg key in
            elim (ℕ_discrete (position a.callback_arg key) a'.item_count) [
              | yes at ↦
                  let there : position a'.callback_arg key ≡ index =
                    rw told (moved ∙ rw (eq→== _ _ at) refl) in
                  rw there (
                    omega (arith, r.count),
                    r.item index (omega (arith, r.count)) ∙ rw (==_refl index, at) refl,
                  )
              | no other ↦
                  let there : position a'.callback_arg key ≡ position a.callback_arg key =
                    rw told (moved ∙ rw (ne→== _ _ other) refl) in
                  rw there (
                    omega (arith, r.count),
                    r.item (position a.callback_arg key) (omega (arith, r.count))
                        ∙ rw (ne→== _ _ ne) refl,
                  )
            ]
      ]

  -- In a valid array whose callback keeps the positions of the items by their keys, Remove of the
  -- index of an item returns, and a key that led to an item other than the removed one leads to the
  -- same item afterwards.
  pub remove-Follows :
      (position : S → K → ℕ) (callback : ℕ → ℕ → S → S) (a : UnorderedArray A S) (index : ℕ)
      → Follows position callback
      → IsValid a
      → a.pre_swap_item_callback ≡ some callback
      → index < a.item_count
      → Returns (remove a index) λ a'.
        (key : K)
        → position a.callback_arg key < a.item_count
        → position a.callback_arg key ≢ index
        → (position a'.callback_arg key < a'.item_count)
          × (get_elem? a'.memory (position a'.callback_arg key)
              ≡ get_elem? a.memory (position a.callback_arg key))
  unfolding notify
  remove-Follows position callback a index follows v set h =
      let (a', run, r) = remove-Swapped a index v h in
      (a', run, λ key k ne. found position callback a index a' key follows set r h k ne)

module _ {κ} {S : Type κ} where
  -- What a successful PushBack leaves: the item's first 8 bytes at the new last place, before the bytes
  -- that stood there, and every other place as it was.
  pub record Pushed (a : UnorderedArray (List ℕ) S) (item : List ℕ) (index : ℕ)
      (a' : UnorderedArray (List ℕ) S) : Type κ where
    pub valid : IsValid a'
    pub last : index ≡ a.item_count
    pub count : a'.item_count ≡ a.item_count + 1
    pub stored :
        (old : List ℕ)
        → get_elem? a.memory index ≡ some old
        → get_elem? a'.memory index ≡ some (memcpy old (take 8 item))
    pub others : (i : ℕ) → i ≢ index → get_elem? a'.memory i ≡ get_elem? a.memory i

  -- In a valid array with a place left, PushBack of an item of at least 8 bytes returns, and stores
  -- its first 8 bytes at the new last place, before the bytes that stood there, and nothing at
  -- another place.
  pub push_back-Pushed :
      (a : UnorderedArray (List ℕ) S) (item : List ℕ)
      → IsValid a
      → a.item_count < total_size a
      → 8 ≤ length item
      → Returns (push_back a item) λ (index, a'). Pushed a item index a'
  unfolding push_back
  push_back-Pushed a item v h l =
      let (old, at) = get_elem?-some a.memory a.item_count h in
      let allocated = allocate_room a v h in
      (
        (
          a.item_count,
          record a {
            memory = set a.memory a.item_count (memcpy old (take 8 item));
            item_count = a.item_count + 1;
          },
        ),
        rw
            (
              le→leb 8 (length item) l,
              allocated,
              item_at-ok (record a { item_count = a.item_count + 1 }) a.item_count old at,
            )
            refl,
        record {
          valid = record {
            in_places = rw length-set (omega arith);
            narrow = rw length-set v.narrow;
          };
          last = refl;
          count = refl;
          stored = λ other e.
              get_elem?-set a.memory a.item_count a.item_count (memcpy old (take 8 item)) h
              ∙ rw (==_refl a.item_count)
                  (ap (λ o. some (memcpy o (take 8 item))) (some-injective _ _ (sym at ∙ e)));
          others = λ i ne.
              get_elem?-set a.memory a.item_count i (memcpy old (take 8 item)) h
              ∙ rw (ne→== a.item_count i (λ e. ne (sym e))) refl;
        },
      )

  -- PushBack has the same outcome for two items of at least 8 bytes if their first 8 bytes agree.
  pub push_back-take :
      (a : UnorderedArray (List ℕ) S) (item other : List ℕ)
      → 8 ≤ length item
      → 8 ≤ length other
      → take 8 item ≡ take 8 other
      → push_back a item ≡ push_back a other
  unfolding push_back
  push_back-take a item other h k e =
      rw (le→leb 8 (length item) h, le→leb 8 (length other) k, e) refl

  -- PushBack on a valid array that is full runs into an access out of range.
  pub push_back_full :
      (a : UnorderedArray (List ℕ) S) (item : List ℕ)
      → IsValid a
      → a.item_count ≡ total_size a
      → push_back a item ≡ fault out_of_range
  unfolding push_back
  push_back_full a item v full =
      let allocated : allocate a ≡ (none32, a) = rw (allocate_lem a v, eq→== _ _ full) refl in
      elim (Bool-cases (leb 8 (length item))) [
        | inl long ↦
            let nothing = item_at-none a none32 (omega (arith, v.narrow)) in
            rw (allocated, long, nothing) refl
        | inr short ↦ rw short refl
      ]
