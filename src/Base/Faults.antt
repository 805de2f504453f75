-- ===== src/Base/Faults.antt =====
-- A run that may stop. `assertion` is a failed YASSERT or YDEBUG_CHECK (ycommon/utils/assert.h),
-- which breaks into the debugger, and YFATAL; the others are what C++ leaves undefined.
use mathlib.Core.Path.{◌≡◌, refl, subst}
use mathlib.Core.Logic.{◌⊎◌, inl, inr}
use mathlib.Core.Bool.{Bool, true, false}

pub data Fault : Type 0 where
  assertion out_of_range division_by_zero : Fault

pub data Run {ℓ} (A : Type ℓ) : Type ℓ where
  ok : A → Run A
  fault : Fault → Run A

-- The next step runs where the first has ended normally.
infixl 5 ◌>>=◌
abbrev pub ◌>>=◌ {ℓ κ} : {A : Type ℓ} {B : Type κ} → Run A → (A → Run B) → Run B
fault why >>= next = fault why
ok value >>= next = next value

-- For a step whose value says nothing.
infixl 5 ◌>>◌
abbrev pub ◌>>◌ {ℓ} : {B : Type ℓ} → Run (Unit {0}) → Run B → Run B
check >> next = check >>= λ _. next

abbrev pub require : Bool → Fault → Run (Unit {0})
require true e = ok tt
require false e = fault e

-- YASSERT(cond, ...)
abbrev pub assert : Bool → Run (Unit {0})
assert b = require b assertion

-- The run ends normally, in a value that satisfies `P`.
module _ {ℓ κ} {A : Type ℓ} where
  abbrev pub Returns : Run A → (A → Type κ) → Type (ℓ ⊔ κ)
  Returns run Q = (value : A) × (run ≡ ok value) × Q value

-- The run does not end normally.
module _ {ℓ} {A : Type ℓ} where
  abbrev pub Stops : Run A → Type ℓ
  Stops run = (why : Fault) × (run ≡ fault why)

-- What a run ends in is known by evaluation.
pub Returns-value {ℓ κ} :
    {A : Type ℓ} (P : A → Type κ) {r : Run A} {b : A} → Returns r P → r ≡ ok b → P b
Returns-value P (a, e, h) f = subst P (cc) h

pub Run-cases {ℓ} :
    {A : Type ℓ} (r : Run A) → ((a : A) × (r ≡ ok a)) ⊎ ((why : Fault) × (r ≡ fault why))
Run-cases (ok a) = inl (a, refl)
Run-cases (fault why) = inr (why, refl)

-- A run stops if its first step does, or whatever that leaves does.
pub Stops-bind {ℓ κ} :
    {A : Type ℓ} {B : Type κ} (run : Run A) (next : A → Run B)
    → ((a : A) → run ≡ ok a → Stops (next a))
    → Stops (run >>= next)
Stops-bind (ok a) next h = h a refl
Stops-bind (fault why) next h = (why, refl)

-- The steps of a run that ends normally do so.
pub ok-bind {ℓ κ} :
    {A : Type ℓ} {B : Type κ} (run : Run A) (next : A → Run B) {b : B}
    → (run >>= next) ≡ ok b
    → (a : A) × (run ≡ ok a) × (next a ≡ ok b)
ok-bind (ok a) next h = (a, refl, h)
ok-bind (fault why) next h = cc

pub assert-ok : (b : Bool) {t : Unit {0}} → assert b ≡ ok t → b ≡ true
assert-ok true h = refl
assert-ok false h = cc

pub Stops-first {ℓ κ} :
    {A : Type ℓ} {B : Type κ} (run : Run A) (next : A → Run B) → Stops run → Stops (run >>= next)
Stops-first run next (why, e) = rw e (why, refl)

pub ok-injective {ℓ} : {A : Type ℓ} (a b : A) → ok a ≡ ok b → a ≡ b
ok-injective a b h = cc

pub fault-ne-ok {ℓ} : {A : Type ℓ} {why : Fault} {a : A} → fault why ≡ ok a → ⊥
fault-ne-ok h = cc
