-- ===== src/Common/Panic.antt =====
-- Code that may stop the kernel: `none` is a failed ASSERT, a PANIC or NOT_REACHED.
use mathlib.Core.Path.{◌≡◌}
use mathlib.Core.Bool.{Bool, true, false}
use mathlib.Core.Option.{Option, none, some}

infixl 5 ◌>>=◌ ◌>>◌
abbrev pub ◌>>=◌ {ℓ κ} : {A : Type ℓ} {B : Type κ} → Option A → (A → Option B) → Option B
none >>= f = none
some a >>= f = f a

abbrev pub ◌>>◌ {κ} : {B : Type κ} → Option (Unit {0}) → Option B → Option B
m >> k = m >>= λ _. k

-- The ASSERT macro.
abbrev pub assert : Bool → Option (Unit {0})
assert true = some tt
assert false = none

-- An ASSERT that holds is passed.
pub assert_passes {κ} :
    {B : Type κ} (b : Bool) (m : Option B) → b ≡ true → (assert b >>= λ _. m) ≡ m
assert_passes b m h = rw h
