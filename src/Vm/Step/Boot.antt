-- ===== src/Vm/Step/Boot.antt =====
-- The machine that src/main.c makes and runs: `vm_context_create`, then `vm_step` for ever.
use mette.Vm.Memory.{Memory}
use mette.Vm.Stack
use mette.Vm.Stack.{Stack}
use mette.Vm.Context.{Context}
