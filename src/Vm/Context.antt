-- ===== src/Vm/Context.antt =====
-- The state of the machine: src/vm/vm_internal.h, src/vm/vm_loader.h and the call frames of
-- src/vm/vm_core.c. A pointer to locals or to a frame is the object that it points to: each
-- is allocated by one instruction, has one owner at a time, and is freed by another.
use mette.Base.{ℕ, Bool, true, false, Option, none, List}
use mette.Base.{Result, ok, panic, ◌>>=◌, context_alloc_failed}
use mette.Vm.Memory.{Memory}
use mette.Vm.Stack
use mette.Vm.Stack.{Stack}

-- `vm_locals_t`.
pub record Locals : Type 0 where
  pub count : ℕ
  pub cells : List ℕ

-- `vm_callframe_t`. `none` is the null pointer.
pub record Frame : Type 0 where
  pub return_pc : ℕ
  pub locals : Option Locals
  pub dstack_top : ℕ

-- `vm_module_t`. The table holds code addresses; `next` is never read.
pub record LoadedModule : Type 0 where
  pub base : ℕ
  pub entry : ℕ
  pub ncalls_table : Option (List ℕ)

-- `vm_context_t`, with the memory that loads and stores of bytecode act on. The regions of the
-- two stacks are not part of that memory.
pub record Context : Type 0 where
  pub dstack : Stack ℕ
  pub cstack : Stack (Option Frame)
  pub pc : ℕ
  pub locals : Option Locals
  pub loaded : LoadedModule
  pub memory : Memory

-- What the surroundings decide during a step: whether its allocation succeeds, and what
-- uninitialised words hold.
pub record World : Type 0 where
  pub granted : Bool
  pub junk : ℕ → ℕ

-- `vm_context_create`. `allocated` says whether each `vm_alloc` and `vm_mmap` succeeds.
unfoldable pub context_create : Bool → Bool → Bool → LoadedModule → Memory → Result Context
context_create false stack_allocated mapped loaded memory = panic context_alloc_failed
context_create true stack_allocated mapped loaded memory = do
  dstack ← Stack.create 0 stack_allocated mapped 65536
  cstack ← Stack.create none stack_allocated mapped 8192
  ok (record {
    dstack = dstack;
    cstack = cstack;
    pc = loaded.entry;
    locals = none;
    loaded = loaded;
    memory = memory;
  })
