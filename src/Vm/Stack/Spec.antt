-- ===== src/Vm/Stack/Spec.antt =====
-- The contract of a VM stack: a list of operands, the topmost first, of bounded length.
use mette.Base.{ℕ, ◌+◌, ltb, if◌then◌else◌, List, ◌++◌, length, take, drop}
use mette.Base.{Result, ok, panic, stack_overflow, stack_underflow}

module _ {ℓ} {A : Type ℓ} where
  unfoldable pub push_all : ℕ → List A → List A → Result (List A)
  push_all capacity src s =
      if ltb capacity (length s + length src) then panic stack_overflow else ok (src ++ s)

  unfoldable pub pop_all : ℕ → List A → Result (List A × List A)
  pop_all count s =
      if ltb (length s) count then panic stack_underflow else ok (take count s, drop count s)
