-- ===== src/Vm/Step/Valid.antt =====
-- The invariant of the machine: every value that an instruction can reach is a 32-bit word,
-- both stacks are within their regions, and the locals are as many as they claim.
use mette.Base.{ℕ, ◌<◌, ◌^◌, ◌≡◌, Option, none, some, length, All}
use mette.Vm.Memory.Laws.{IsBytes}
use mette.Vm.Stack.Items.{Holds}
use mette.Vm.Context.{Context, Frame, Locals, World}

abbrev pub IsWord : ℕ → Type 0
IsWord v = v < 2 ^ 32

pub record IsLocals (l : Locals) : Type 0 where
  pub counted : l.count ≡ length l.cells
  pub words : All IsWord l.cells

-- A null pointer, or valid locals.
abbrev pub AreLocals : Option Locals → Type 0
AreLocals none = Unit
AreLocals (some l) = IsLocals l

abbrev pub IsFrame : Option Frame → Type 0
IsFrame none = Unit
IsFrame (some f) = IsWord f.return_pc × AreLocals f.locals

pub record IsValid (c : Context) : Type 0 where
  pub operands : Holds IsWord c.dstack
  pub frames : Holds IsFrame c.cstack
  pub pc_word : IsWord c.pc
  pub locals_valid : AreLocals c.locals
  pub bytes : IsBytes c.memory

abbrev pub IsWorld : World → Type 0
IsWorld w = (i : ℕ) → IsWord (w.junk i)
