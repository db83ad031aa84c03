-- ===== src/Vm/Memory/RoundTrip.antt =====
-- A word or half word that bytecode stores, by the loads and stores of src/vm/vm_core.c.
use mette.Base.{ℕ, add32}
use mette.Vm.Memory.{Memory}
use mette.Vm.Memory.{update}

-- The memory after a store of four bytes.
abbrev pub stored : Memory → ℕ → ℕ → ℕ → ℕ → ℕ → Memory
stored m addr v0 v1 v2 v3 =
    update (update (update (update m addr v0) (add32 addr 1) v1) (add32 addr 2) v2) (add32 addr 3)
      v3
