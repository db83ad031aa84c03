-- ===== src/Base/Digits.antt =====
-- The recursion on binary digits that the native bit operations stand for.
use Prim.Native.Nat.{ℕ, zero, suc, ◌/◌, ◌≤◌, digits}
use mathlib.Core.Path.{◌≡◌, refl}
use native.Mathlib.Omega.{arith}

module _ (rest : ℕ → ℕ) (digit : ℕ → ℕ → ℕ) where
  abbrev pub run : ℕ → ℕ → ℕ → ℕ
  run fuel a b = digits rest digit fuel a b

  -- Once the count covers the first operand it does not matter.
  pub run_stable : (k m a b : ℕ) → a ≤ k → a ≤ m → run k a b ≡ run m a b
  run_stable zero zero a b hk hm = refl
  run_stable zero (suc m) zero b hk hm = refl
  run_stable zero (suc m) (suc a) b hk hm = absurd (omega arith)
  run_stable (suc k) zero zero b hk hm = refl
  run_stable (suc k) zero (suc a) b hk hm = absurd (omega arith)
  run_stable (suc k) (suc m) zero b hk hm = refl
  run_stable (suc k) (suc m) (suc a) b hk hm =
      let half = run_stable k m (suc a / 2) (b / 2) (omega arith) (omega arith) in omega arith
