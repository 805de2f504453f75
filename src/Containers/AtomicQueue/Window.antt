-- ===== src/Containers/AtomicQueue/Window.antt =====
-- The items of an AtomicQueue in its places, going round at the end of the buffer.
use yengine.Base.{
  ℕ, suc, ◌+◌, ◌<◌, ◌≡◌, ◌⊎◌, List, [], ◌∷◌, ◌++◌, some, arith, length, get_elem?, set, length-set,
  get_elem?-set,
}
use yengine.Containers.AtomicQueue.Positions.{next_slot}

module _ {ℓ} {A : Type ℓ} where
  -- From a place on the memory holds these items.
  abbrev pub Holds : List A → ℕ → List A → Type ℓ
  Holds memory slot [] = Unit
  Holds memory slot (x ∷ xs) =
      (get_elem? memory slot ≡ some x) × Holds memory (next_slot (length memory) slot) xs

-- Place `end` is `count` places on from `slot`, counted round a buffer of `places`.
abbrev pub IsOn : ℕ → ℕ → ℕ → ℕ → Type 0
IsOn places slot count end = (slot + count ≡ end) ⊎ (slot + count ≡ end + places)

pub next_slot-lt : (places slot : ℕ) → slot < places → next_slot places slot < places
next_slot-lt places slot h = ground arith

pub IsOn-next :
    (places slot count end : ℕ)
    → slot < places
    → end < places
    → IsOn places slot (suc count) end
    → IsOn places (next_slot places slot) count end
IsOn-next places slot count end h k on = ground arith

module _ {ℓ} {A : Type ℓ} where
  -- A write behind the items adds the item at their end.
  pub set-Holds :
      (memory : List A) (slot end : ℕ) (x : A) (items : List A)
      → slot < length memory
      → end < length memory
      → length items < length memory
      → IsOn (length memory) slot (length items) end
      → Holds memory slot items
      → Holds (set memory end x) slot (items ++ x ∷ [])
  set-Holds memory slot end x [] h k few on held =
      (ground (arith, get_elem?-set memory end slot x k, on), tt)
  set-Holds memory slot end x (y ∷ items) h k few on held = (
    ground (arith, get_elem?-set memory end slot x k, on, held.0),
    rw length-set (
        set-Holds memory (next_slot (length memory) slot) end x items
          (next_slot-lt (length memory) slot h) k (omega arith)
          (IsOn-next (length memory) slot (length items) end h k on) held.1),
  )
