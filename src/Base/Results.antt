-- ===== src/Base/Results.antt =====
-- What a call of the C code comes to: a value, a panic of the program's own, or a fault, where
-- the C code has no defined behaviour.
use mathlib.Core.Bool.{Bool, true, false}
use mette.Base.Bools.{if◌then◌else◌}
use mathlib.Core.Option.{Option, none, some}

-- The messages of `vm_panic` in `src/vm`.
pub data Panic : Type 0 where
  stack_alloc_failed stack_mmap_failed : Panic
  stack_overflow stack_underflow : Panic
  unknown_opcode no_locals local_out_of_bounds no_ncalls : Panic
  context_alloc_failed : Panic
  input_too_short invalid_input header_read_failed : Panic
  module_alloc_failed image_alloc_failed body_read_failed : Panic
  ncalls_alloc_failed ncalls_read_failed unresolved_thunk : Panic

-- `bad_access`: a load or store outside mapped memory or through a null pointer.
-- `div_error`: a division that the processor refuses. `bad_shift`: a shift by 32 or more.
pub data Fault : Type 0 where
  bad_access div_error bad_shift : Fault

pub data Result {ℓ} (A : Type ℓ) : Type ℓ where
  ok : A → Result A
  panic : Panic → Result A
  fault : Fault → Result A

infixl 5 ◌>>=◌ ◌>>◌
abbrev pub ◌>>=◌ {ℓ κ} : {A : Type ℓ} {B : Type κ} → Result A → (A → Result B) → Result B
ok a >>= f = f a
panic p >>= f = panic p
fault e >>= f = fault e

abbrev pub ◌>>◌ {ℓ} : {B : Type ℓ} → Result (Unit {0}) → Result B → Result B
m >> k = m >>= λ _. k

-- A check of the code that panics if it fails.
abbrev pub require : Bool → Panic → Result (Unit {0})
require true p = ok tt
require false p = panic p

-- A value that is there, or an access fault.
abbrev pub access {ℓ} : {A : Type ℓ} → Option A → Result A
access none = fault bad_access
access (some a) = ok a

-- `P` holds of the value, if the call returns one.
abbrev pub Returns {ℓ κ} : {A : Type ℓ} → (A → Type κ) → Result A → Type κ
Returns P (ok a) = P a
Returns P (panic _) = Unit
Returns P (fault _) = Unit

pub Returns-bind {ℓ κ μ ν} :
    {A : Type ℓ} {B : Type κ} (P : A → Type μ) (Q : B → Type ν) (m : Result A) (f : A → Result B)
    → Returns P m
    → ((a : A) → P a → Returns Q (f a))
    → Returns Q (m >>= f)
Returns-bind P Q (ok a) f h k = k a h
Returns-bind P Q (panic p) f h k = tt
Returns-bind P Q (fault e) f h k = tt

pub Returns-if {ℓ κ} :
    {A : Type ℓ} (P : A → Type κ) (b : Bool) (m n : Result A)
    → Returns P m
    → Returns P n
    → Returns P (if b then m else n)
Returns-if P true m n h k = h
Returns-if P false m n h k = k

pub Returns_mono {ℓ κ μ} :
    {A : Type ℓ} (P : A → Type κ) (Q : A → Type μ) (m : Result A)
    → ((a : A) → P a → Q a)
    → Returns P m
    → Returns Q m
Returns_mono P Q (ok a) f h = f a h
Returns_mono P Q (panic p) f h = tt
Returns_mono P Q (fault e) f h = tt
