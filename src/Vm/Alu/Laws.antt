-- ===== src/Vm/Alu/Laws.antt =====
-- The results of src/vm/vm_core.c's arithmetic are 32-bit words, and its divisions are those
-- of the integers.
use mette.Base.{ℕ, ◌-◌, ◌/◌, ◌%◌, ◌^◌, ◌≤◌, ◌<◌, arith, Bool, true, false}
use mette.Base.{Result, Returns, ◌==◌, ◌&&◌, if◌then◌else◌, abs32}
use mette.Base.{fault, div_error}
use native.Mathlib.Nat.{div-le_self}
use mette.Vm.Memory.{Target, i386, mips}
use mette.Vm.Alu.{mulu, muls, divu, divs, lsl, lsr, asr, flag, is_neg, signed_by}

abbrev pub AreWords : ℕ × ℕ → Type 0
AreWords p = (p.0 < 2 ^ 32) × (p.1 < 2 ^ 32)

signed_by-lt : (b : Bool) (m : ℕ) → m ≤ 2 ^ 31 → signed_by b m < 2 ^ 32
signed_by-lt true m h = omega arith
signed_by-lt false m h = omega arith

abs32-le : (w : ℕ) → w < 2 ^ 32 → abs32 w ≤ 2 ^ 31
abs32-le w h = ground arith

checked :
    {A : Type 0} (P : A → Type 0) (b : Bool) (r : Result A)
    → Returns P r
    → Returns P (if b then fault div_error else r)
checked P true r h = tt
checked P false r h = h

module _ (a b : ℕ) (ha : a < 2 ^ 32) (hb : b < 2 ^ 32) where
  pub mulu-AreWords : (t : Target) (junk : ℕ) → junk < 2 ^ 32 → AreWords (mulu t junk a b)
  unfolding mulu
  mulu-AreWords i386 junk h = omega arith
  mulu-AreWords mips junk h = omega arith

  pub muls-AreWords : (t : Target) (junk : ℕ) → junk < 2 ^ 32 → AreWords (muls t junk a b)
  unfolding muls
  muls-AreWords i386 junk h = omega arith
  muls-AreWords mips junk h = omega arith

  pub divu-AreWords : Returns AreWords (divu a b)
  unfolding divu
  divu-AreWords = grind arith

  pub divs-AreWords : Returns AreWords (divs a b)
  unfolding divs
  divs-AreWords = checked AreWords (b == 0) _ (
      checked AreWords (a == 2 ^ 31 && b == 2 ^ 32 - 1) _ (
        signed_by-lt (is_neg a) (abs32 a % abs32 b) (omega (arith, abs32-le a ha)),
        signed_by-lt _ (abs32 a / abs32 b)
            (omega (arith, abs32-le a ha, div-le_self (abs32 a) (abs32 b))),
      ))

  pub lsl-lt : Returns (λ v. v < 2 ^ 32) (lsl a b)
  unfolding lsl
  lsl-lt = ground arith

  pub lsr-lt : Returns (λ v. v < 2 ^ 32) (lsr a b)
  unfolding lsr
  lsr-lt = grind arith

  pub asr-lt : Returns (λ v. v < 2 ^ 32) (asr a b)
  unfolding asr
  asr-lt = ground arith

pub flag-lt : (b : Bool) → flag b < 2 ^ 32
flag-lt true = omega arith
flag-lt false = omega arith
