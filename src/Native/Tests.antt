-- ===== src/Native/Tests.antt =====
-- Native procedures on small machines.
use mette.Base.{ℕ, ◌^◌, ◌-◌, ◌≡◌, refl, true, Option, none, some, List, [], ◌∷◌}
use mette.Base.{Result, ok, ◌>>=◌}
use mette.Vm.Memory.{i386, Memory, store16, load16}
use mette.Vm.Stack.{Stack, pop3, push}
use mette.Vm.Stack.Refine.{contents}
use mette.Vm.Context.{Context, Frame, World}
use mette.Native.Act.{Host, args, call, store, load, give}
use mette.Native.Strbuf.{alloc, get_size, free, set_length}
use mette.Native.Io
use mette.Native.Sockets
use mette.Native.Table.{Proc, procedure, call_native}

-- A kernel and an allocator that refuse everything with -1.
abbrev refusing : Host
refusing c m = ok (2 ^ 32 - 1, m)

-- NCALL 0.
abbrev code : List ℕ
code = 46 ∷ 0 ∷ 0 ∷ []

abbrev zero_memory : Memory
zero_memory addr = some 0

abbrev operands : Stack ℕ
operands = record { bottom = 4; limit = 0; top = 2; mem = 0 ∷ 0 ∷ 0x01020304 ∷ 6 ∷ [] }

abbrev frames : Stack (Option Frame)
frames = record { bottom = 2; limit = 0; top = 2; mem = none ∷ none ∷ [] }

abbrev machine : Memory → Context
machine m = record {
  dstack = operands;
  cstack = frames;
  pc = 0;
  locals = none;
  loaded = record { base = 0; entry = 0; ncalls_table = some (100 ∷ []) };
  memory = m;
}

abbrev operands_after : Result (Unit {0} × Context) → Result (List ℕ)
operands_after r = r >>= λ p. ok (contents p.1.dstack)

-- A read that fails leaves two results.
failed_read :
    operands_after (procedure i386 refusing true Proc.io_read (machine zero_memory))
    ≡ ok (0xFFFFFFFF ∷ 0 ∷ [])
unfolding procedure Io.io_read args pop3 alloc call store store16 get_size load load16 free give
    push set_length
failed_read = refl

abbrev linked : ℕ → Option Proc
linked addr = some Proc.rtl_nswapl

abbrev zeros : World
zeros = record { granted = true; junk = λ i. 0 }

swapped :
    (call_native i386 refusing true linked 100 (machine zero_memory) >>= λ c.
    ok (contents c.dstack))
    ≡ ok (0x04030201 ∷ 6 ∷ [])
unfolding call_native Sockets.nswapl args pop3 give push Sockets.rtl_htonl
swapped = refl
