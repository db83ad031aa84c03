-- ===== src/Lib.antt =====
-- mette is a small virtual machine with its assembler. The assembler `vma` turns a program in
-- assembly language into a module file; the machine loads a module file, binds its native calls
-- to procedures of the host, and executes its bytecode. Both sides share one table of
-- instructions, from which a generator makes the opcode bytes and the dispatch table.
--
-- Files, and the code that each models:
--   Base           what the components share: Boolean tests, lists with native indices, machine
--                  words, bit operations as arithmetic, and `Result` for what a C call comes to:
--                  a value, a panic of the program, or a fault where C defines nothing.
--   Arch           src/vm_arch/vm_opcodes.in and vm_gen_opcodes.c: the instruction table, the
--                  opcode bytes, the order of the dispatch table.
--   Vm.Stack       src/vm/vm_stack.c. A region is a list of words, pointers are indices into it.
--                  Vm.Stack.Spec is the specification: a list of operands of bounded length.
--   Vm.Memory      src/vm/vm_misc.h, and the loads and stores of bytecode. Memory is a function
--                  from addresses to bytes, with `none` where nothing is mapped.
--   Vm.Context     src/vm/vm_internal.h, vm_loader.h, and the call frames of vm_core.c.
--   Vm.Alu         the multiplications, divisions, shifts and comparisons of src/vm/vm_core.c.
--   Vm.Step        `vm_step` of src/vm/vm_core.c: one function for each instruction with effects
--                  of its own, `exec` for the labels of the dispatch, `vm_step` for the whole, and
--                  `run` for the loop of src/main.c. Vm.Step.Valid states the invariant; Kept,
--                  Moves and Invariant prove it; Leaves and Balance are about the stack depth.
--   Vm.Thunks      src/vm/vm_thunks.c, the search for a native procedure by its hash, and the
--                  hashes, from src/vm/vm_gen_thunks.pl.
--   Vm.Loader      src/vm/vm_loader.c. The file is the interface `Files`; `Regular` in
--                  Vm.Loader.Image is what is relied on for a regular file.
--   Vma.Syntax     the data of src/vma/vma.h. Expression nodes stand in a list, in the order of
--                  their allocation, and a pointer to one is its place.
--   Vma.Symtab     the symbol tables of src/vma/vma_asm.c.
--   Vma.Eval       the evaluation of expressions in src/vma/vma_asm.c, with the error counter of
--                  vma_misc.c, which ends the program at the 21st error.
--   Vma.Define     `vma_symbol_define` of src/vma/vma_misc.c.
--   Vma.Pass1      sizes, alignment and addresses of src/vma/vma_asm.c.
--   Vma.Emit       the bytes of each instruction, `vma_emit_insn` of src/vma/vma_asm.c.
--   Vma.Out        `vma_generate` of src/vma/vma_out.c.
--                  Vma.Out.Extent and Vma.Out.Assembled follow a program from pass 1 to the loader.
--                  Vma.Out.Hash compares its hashes with those of src/vm/vm_gen_thunks.pl.
--   Link           relative addresses, as the assembler writes and the machine reads them.
--   Rtl            the runtime library: Rtl.Xstring src/sysdep/xstring.c, Rtl.Strbuf
--                  src/rtl/rtl_strbuf.c, and Rtl.Convert, Rtl.Print and Rtl.Format
--                  src/rtl/rtl_print.c: numbers as text, the buffered writer, the loop over a
--                  format.
--   Rtl.Arena      the memory of the allocator, src/rtl/rtl_memory.c: words at addresses, its
--                  variables, and the program break.
--   Rtl.Memory     `rtl_alloc`, `rtl_free` and `xmem_grow`. Rtl.Memory.Chain reads the free list
--                  as a list of slots, and Rtl.Memory.Spec says on such lists what a call does;
--                  Walk, Take, Use and Alloc follow `rtl_alloc`, Grow, Break and Total the
--                  growth of the arena, Place, Merge, Upward and Free `rtl_free`.
--   Rtl.Realloc    `rtl_realloc`.
--   Native         src/vm_thunks, the procedures that NCALL calls: Native.Act what the macros of
--                  src/vm/vm_thunks.h let them do, Native.Strbuf the string buffers of
--                  src/rtl/rtl_strbuf.c at addresses of the machine's memory, Native.Io, Rtl, Select
--                  and Sockets the procedures, Native.Table a call by its address. Native.Uses is
--                  what a part of a procedure may do to the machine; Prims, Parts, Served and Balance
--                  prove it of each.
--   Each module named Tests runs definitions on small inputs.
--
-- How the parts meet: `vm_step` finds an instruction by `offtab` of Arch and its operand count in
-- the two high bits of the opcode byte; `load_fd` gets `lookup_thunk` as an argument; the image
-- that `load_fd` reads is the file that `generate` writes, and Vma.Out composes the two.
--
-- Choices. The targets are i386 (little-endian) and MIPS (big-endian), both of 32 bits. Words are
-- native numbers below 2^32 with the wrap-around written out. What an allocation answers, and what
-- uninitialised words hold, is an argument of each step. A pointer to locals or to a call frame is
-- the object that it points to, since each has one owner at a time. Native procedures are an
-- argument of a step, which `call_native` of Native.Table fills; the kernel and the allocator are
-- in turn an argument, `Host`, of these. The memory that `vm_alloc` grants is an argument too. In
-- the assembler a symbol reference keeps its name only until its first use, as in the union of the
-- source: the name read afterwards is an argument, `stale`. Evaluation runs on fuel, which bounds
-- the depth of the recursion; a constant that refers to itself exhausts any fuel, as it exhausts
-- the stack of the program. The loop over a format has one round more than the format has
-- characters, and that is enough; the digits of a 32-bit number are at most 32. In the allocator
-- `sys_brk` is an argument, and `BrkLaws` is what is relied on; a walk along the free list has a
-- round for each unit of the address space, and the loop of `rtl_alloc` one for each page. Its
-- words stand at multiples of 4, and an access outside the arena is a fault.
--
-- Not modelled: debug output; the assembler's command line, lexer and parser; the text of the
-- generated tables; system calls, and the two native procedures that print with arguments from the
-- stack; the big integers of src/imp, whose core is assembly.
pub mod Arch
pub mod Base
pub mod Link
pub mod Native
pub mod Rtl
pub mod Vm
pub mod Vma
