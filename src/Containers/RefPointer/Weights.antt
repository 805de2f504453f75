-- ===== src/Containers/RefPointer/Weights.antt =====
-- How many references of a kind are attached to a RefPointer.
use mathlib.Core.Option.{some-injective, none-ne-some}
use yengine.Base.{
  ℕ, zero, suc, ◌+◌, ◌≤◌, ◌≡◌, ◌≢◌, refl, ap, Bool, true, false, ◌&&◌, List, [], ◌∷◌, ◌++◌, Option,
  none, some, arith, ◌==◌, ==_refl, ne→==, if◌then◌else◌, get_elem?, set, length,
}
use yengine.Containers.RefPointer.{RefData, RefKind, detached}
use yengine.Containers.RefPointer.Counters.{is_kind}

abbrev pub is_attached : ℕ → Option ℕ → Bool
is_attached i none = false
is_attached i (some j) = i == j

-- One for a reference of a kind that is attached to a pointer.
abbrev pub weight : RefKind → ℕ → RefData → ℕ
weight k i ref = if is_kind k ref.kind && is_attached i ref.ref_pointer then 1 else 0

abbrev pub attached : RefKind → ℕ → List RefData → ℕ
attached k i [] = 0
attached k i (ref ∷ refs) = weight k i ref + attached k i refs

pub weight-le : (k : RefKind) (i : ℕ) (ref : RefData) → weight k i ref ≤ 1
weight-le k i ref = ground arith

pub attached-le : (k : RefKind) (i : ℕ) (refs : List RefData) → attached k i refs ≤ length refs
attached-le k i [] = omega arith
attached-le k i (ref ∷ refs) = omega (arith, weight-le k i ref, attached-le k i refs)

pub attached-append :
    (k : RefKind) (i : ℕ) (refs : List RefData) (ref : RefData)
    → attached k i (refs ++ ref ∷ []) ≡ attached k i refs + weight k i ref
attached-append k i [] ref = omega arith
attached-append k i (first ∷ refs) ref = omega (arith, attached-append k i refs ref)

-- A write exchanges the weight of one reference.
pub attached-set :
    (k : RefKind) (i : ℕ) (refs : List RefData) (r : ℕ) (old new : RefData)
    → get_elem? refs r ≡ some old
    → attached k i (set refs r new) + weight k i old ≡ attached k i refs + weight k i new
attached-set k i [] r old new e = absurd (none-ne-some old e)
attached-set k i (ref ∷ refs) zero old new e =
    omega (arith, ap (weight k i) (some-injective ref old e))
attached-set k i (ref ∷ refs) (suc r) old new e = omega (arith, attached-set k i refs r old new e)

pub weight-le_attached :
    (k : RefKind) (i : ℕ) (refs : List RefData) (r : ℕ) (ref : RefData)
    → get_elem? refs r ≡ some ref
    → weight k i ref ≤ attached k i refs
weight-le_attached k i [] r ref e = absurd (none-ne-some ref e)
weight-le_attached k i (first ∷ refs) zero ref e =
    omega (arith, ap (weight k i) (some-injective first ref e))
weight-le_attached k i (first ∷ refs) (suc r) ref e =
    omega (arith, weight-le_attached k i refs r ref e)

-- A detached reference counts nowhere.
pub weight-detached : (k : RefKind) (i : ℕ) (ref : RefData) → weight k i (detached ref) ≡ 0
weight-detached k i ref = ground arith

and_true : (b : Bool) → ◌≡◌ {A = ℕ} (if b && true then 1 else 0) (if b then 1 else 0)
and_true true = refl
and_true false = refl

and_false : (b : Bool) → ◌≡◌ {A = ℕ} (if b && false then 1 else 0) 0
and_false true = refl
and_false false = refl

pub weight_here :
    (k : RefKind) (i : ℕ) (ref : RefData)
    → ref.ref_pointer ≡ some i
    → weight k i ref ≡ (if is_kind k ref.kind then 1 else 0)
weight_here k i ref e = rw (e, ==_refl i) (and_true (is_kind k ref.kind))

pub weight_elsewhere :
    (k : RefKind) (i j : ℕ) (ref : RefData) → ref.ref_pointer ≡ some i → j ≢ i → weight k j ref ≡ 0
weight_elsewhere k i j ref e ne = rw (e, ne→== j i ne) (and_false (is_kind k ref.kind))

pub weight_nowhere :
    (k : RefKind) (j : ℕ) (ref : RefData) → ref.ref_pointer ≡ none → weight k j ref ≡ 0
weight_nowhere k j ref e = rw e (and_false (is_kind k ref.kind))
