-- ===== src/Vm/Step/Leaves.antt =====
-- How each instruction of src/vm/vm_core.c leaves the data stack and how much it pushes.
use mette.Base.{ℕ, ◌≡◌, ◌≢◌, refl, Bool, true, false}
use mette.Base.{Option, none, some, length, get_elem?}
use mette.Base.{Result, ok, panic, fault, ◌>>=◌, access, Returns, Returns-bind, Returns-if}
use mette.Base.{add32}
use mette.Arch.{Opcode, info}
use mette.Vm.Memory.{Target, load8, load16, load32, store8, store16, store32, fetch32_ua}
use mette.Vm.Stack
use mette.Vm.Stack.{Stack}
use mette.Vm.Alu
use mette.Vm.Context.{Context, Frame, World}
use mette.Vm.Step.{Done, op_locals, op_ldloc, op_stloc, branch, op_call, op_ret, op_icall, exec}
use mette.Vm.Step.{save_frame, restore_frame, checked_locals}

-- The instruction leaves the data stack to the pushes, and asks for `n` of them.
abbrev pub Leaves : Stack ℕ → ℕ → Done → Type 0
Leaves s n d = (d.ctx.dstack ≡ s) × (length d.pushed ≡ n)

-- However a value comes about, the rest of the instruction is reached with some value.
after {ℓ} :
    {A : Type ℓ} (s : Stack ℕ) (n : ℕ) (r : Result A) (f : A → Result Done)
    → ((a : A) → Returns (Leaves s n) (f a))
    → Returns (Leaves s n) (r >>= f)
after s n (ok a) f h = h a
after s n (panic _) f h = tt
after s n (fault _) f h = tt

abbrev SameOperands : Stack ℕ → Context → Type 0
SameOperands s c = c.dstack ≡ s

save_frame-dstack :
    (granted : Bool) (ctx : Context) (pc : ℕ)
    → Returns (SameOperands ctx.dstack) (save_frame granted ctx pc)
unfolding save_frame
save_frame-dstack true ctx pc = pushed (Stack.push ctx.cstack _)
  where
    pushed :
        (r : Result (Stack (Option Frame)))
        → Returns
            (SameOperands ctx.dstack)
            (r >>= λ cstack. ok (record ctx { cstack = cstack; locals = none }))
    pushed (ok s) = refl
    pushed (panic _) = tt
    pushed (fault _) = tt
save_frame-dstack false ctx pc = tt

op_call-Leaves :
    (t : Target) (thunks : ℕ → Context → Result Context) (w : World) (ctx : Context) (pc : ℕ)
    → Returns (Leaves ctx.dstack 0) (op_call t thunks w ctx pc)
unfolding op_call
op_call-Leaves t thunks w ctx pc = after ctx.dstack 0 (fetch32_ua t ctx.memory pc) _ λ offset.
    Returns-bind (SameOperands ctx.dstack) (Leaves ctx.dstack 0) _ _
      (save_frame-dstack w.granted ctx (add32 pc 4)) λ c e. (e, refl)

op_icall-Leaves :
    (w : World) (ctx : Context) (a1 pc : ℕ) → Returns (Leaves ctx.dstack 0) (op_icall w ctx a1 pc)
unfolding op_icall
op_icall-Leaves w ctx a1 pc =
    Returns-bind (SameOperands ctx.dstack) (Leaves ctx.dstack 0) _ _
      (save_frame-dstack w.granted ctx pc) (λ c e. (e, refl))

abbrev SameOperandsPc : Stack ℕ → Context × ℕ → Type 0
SameOperandsPc s p = p.0.dstack ≡ s

restore_frame-dstack : (ctx : Context) → Returns (SameOperandsPc ctx.dstack) (restore_frame ctx)
unfolding restore_frame
restore_frame-dstack ctx = popped (Stack.pop ctx.cstack)
  where
    restored :
        (cell : Option Frame) (s : Stack (Option Frame))
        → Returns (SameOperandsPc ctx.dstack) (
            access cell >>= λ frame.
            ok (record ctx { cstack = s; locals = frame.locals }, frame.return_pc))
    restored none s = tt
    restored (some f) s = refl

    popped :
        (r : Result (Option Frame × Stack (Option Frame)))
        → Returns (SameOperandsPc ctx.dstack) (
            r >>= λ p. access p.0 >>= λ frame.
            ok (record ctx { cstack = p.1; locals = frame.locals }, frame.return_pc))
    popped (ok p) = restored p.0 p.1
    popped (panic _) = tt
    popped (fault _) = tt

op_ret-Leaves : (ctx : Context) → Returns (Leaves ctx.dstack 0) (op_ret ctx)
unfolding op_ret
op_ret-Leaves ctx =
    Returns-bind (SameOperandsPc ctx.dstack) (Leaves ctx.dstack 0) (restore_frame ctx) _
      (restore_frame-dstack ctx) (λ p e. (e, refl))

op_locals-Leaves :
    (w : World) (ctx : Context) (pc : ℕ) → Returns (Leaves ctx.dstack 0) (op_locals w ctx pc)
unfolding op_locals
op_locals-Leaves w ctx pc =
    after ctx.dstack 0 (load8 ctx.memory pc) _
      λ n. Returns-if (Leaves ctx.dstack 0) w.granted _ _ (refl, refl) tt

op_ldloc-Leaves : (ctx : Context) (pc : ℕ) → Returns (Leaves ctx.dstack 1) (op_ldloc ctx pc)
unfolding op_ldloc
op_ldloc-Leaves ctx pc = after ctx.dstack 1 (load8 ctx.memory pc) _ λ i.
    after ctx.dstack 1 (checked_locals ctx i) _
      λ l. after ctx.dstack 1 (access (get_elem? l.cells i)) _ (λ r0. (refl, refl))

op_stloc-Leaves : (ctx : Context) (a1 pc : ℕ) → Returns (Leaves ctx.dstack 0) (op_stloc ctx a1 pc)
unfolding op_stloc
op_stloc-Leaves ctx a1 pc =
    after ctx.dstack 0 (load8 ctx.memory pc) _
      λ i. after ctx.dstack 0 (checked_locals ctx i) _ (λ l. (refl, refl))

branch-Leaves :
    (ctx : Context) (taken : Bool) (pc : ℕ) → Returns (Leaves ctx.dstack 0) (branch ctx taken pc)
unfolding branch
branch-Leaves ctx taken pc = after ctx.dstack 0 (load8 ctx.memory pc) _ (λ o. (refl, refl))

module _ (t : Target) (thunks : ℕ → Context → Result Context) where
  pub exec-Leaves :
      (w : World) (op : Opcode) (ctx : Context) (a1 a2 pc : ℕ)
      → op ≢ Opcode.ncall
      → Returns (Leaves ctx.dstack (info op).stack_out) (exec t thunks w op ctx a1 a2 pc)
  unfolding exec info
  exec-Leaves w Opcode.add ctx a1 a2 pc ne = (refl, refl)
  exec-Leaves w Opcode.sub ctx a1 a2 pc ne = (refl, refl)
  exec-Leaves w Opcode.mulu ctx a1 a2 pc ne = (refl, refl)
  exec-Leaves w Opcode.muls ctx a1 a2 pc ne = (refl, refl)
  exec-Leaves w Opcode.divu ctx a1 a2 pc ne =
      after ctx.dstack 2 (Alu.divu a2 a1) _ (λ r. (refl, refl))
  exec-Leaves w Opcode.divs ctx a1 a2 pc ne =
      after ctx.dstack 2 (Alu.divs a2 a1) _ (λ r. (refl, refl))
  exec-Leaves w Opcode.and ctx a1 a2 pc ne = (refl, refl)
  exec-Leaves w Opcode.or ctx a1 a2 pc ne = (refl, refl)
  exec-Leaves w Opcode.xor ctx a1 a2 pc ne = (refl, refl)
  exec-Leaves w Opcode.not ctx a1 a2 pc ne = (refl, refl)
  exec-Leaves w Opcode.lsl ctx a1 a2 pc ne =
      after ctx.dstack 1 (Alu.lsl a2 a1) _ (λ r. (refl, refl))
  exec-Leaves w Opcode.lsr ctx a1 a2 pc ne =
      after ctx.dstack 1 (Alu.lsr a2 a1) _ (λ r. (refl, refl))
  exec-Leaves w Opcode.asr ctx a1 a2 pc ne =
      after ctx.dstack 1 (Alu.asr a2 a1) _ (λ r. (refl, refl))
  exec-Leaves w Opcode.cmp_lt ctx a1 a2 pc ne = (refl, refl)
  exec-Leaves w Opcode.cmp_gt ctx a1 a2 pc ne = (refl, refl)
  exec-Leaves w Opcode.cmp_b ctx a1 a2 pc ne = (refl, refl)
  exec-Leaves w Opcode.cmp_a ctx a1 a2 pc ne = (refl, refl)
  exec-Leaves w Opcode.cmp_eq ctx a1 a2 pc ne = (refl, refl)
  exec-Leaves w Opcode.ldc_0 ctx a1 a2 pc ne = (refl, refl)
  exec-Leaves w Opcode.ldc_1 ctx a1 a2 pc ne = (refl, refl)
  exec-Leaves w Opcode.ldc_2 ctx a1 a2 pc ne = (refl, refl)
  exec-Leaves w Opcode.ldc_ub ctx a1 a2 pc ne =
      after ctx.dstack 1 (load8 ctx.memory pc) _ (λ r. (refl, refl))
  exec-Leaves w Opcode.ldc_sb ctx a1 a2 pc ne =
      after ctx.dstack 1 (load8 ctx.memory pc) _ (λ r. (refl, refl))
  exec-Leaves w Opcode.ldc_w ctx a1 a2 pc ne =
      after ctx.dstack 1 (fetch32_ua t ctx.memory pc) _ (λ r. (refl, refl))
  exec-Leaves w Opcode.lea ctx a1 a2 pc ne =
      after ctx.dstack 1 (fetch32_ua t ctx.memory pc) _ (λ r. (refl, refl))
  exec-Leaves w Opcode.ldm_ub ctx a1 a2 pc ne =
      after ctx.dstack 1 (load8 ctx.memory a1) _ (λ r. (refl, refl))
  exec-Leaves w Opcode.ldm_sb ctx a1 a2 pc ne =
      after ctx.dstack 1 (load8 ctx.memory a1) _ (λ r. (refl, refl))
  exec-Leaves w Opcode.ldm_uh ctx a1 a2 pc ne =
      after ctx.dstack 1 (load16 t ctx.memory a1) _ (λ r. (refl, refl))
  exec-Leaves w Opcode.ldm_sh ctx a1 a2 pc ne =
      after ctx.dstack 1 (load16 t ctx.memory a1) _ (λ r. (refl, refl))
  exec-Leaves w Opcode.ldm_w ctx a1 a2 pc ne =
      after ctx.dstack 1 (load32 t ctx.memory a1) _ (λ r. (refl, refl))
  exec-Leaves w Opcode.stm_b ctx a1 a2 pc ne =
      after ctx.dstack 0 (store8 ctx.memory a1 a2) _ (λ r. (refl, refl))
  exec-Leaves w Opcode.stm_h ctx a1 a2 pc ne =
      after ctx.dstack 0 (store16 t ctx.memory a1 a2) _ (λ r. (refl, refl))
  exec-Leaves w Opcode.stm_w ctx a1 a2 pc ne =
      after ctx.dstack 0 (store32 t ctx.memory a1 a2) _ (λ r. (refl, refl))
  exec-Leaves w Opcode.locals ctx a1 a2 pc ne = op_locals-Leaves w ctx pc
  exec-Leaves w Opcode.ldloc ctx a1 a2 pc ne = op_ldloc-Leaves ctx pc
  exec-Leaves w Opcode.stloc ctx a1 a2 pc ne = op_stloc-Leaves ctx a1 pc
  exec-Leaves w Opcode.dup ctx a1 a2 pc ne = (refl, refl)
  exec-Leaves w Opcode.swap ctx a1 a2 pc ne = (refl, refl)
  exec-Leaves w Opcode.pop ctx a1 a2 pc ne = (refl, refl)
  exec-Leaves w Opcode.br ctx a1 a2 pc ne = branch-Leaves ctx _ pc
  exec-Leaves w Opcode.br_t ctx a1 a2 pc ne = branch-Leaves ctx _ pc
  exec-Leaves w Opcode.br_f ctx a1 a2 pc ne = branch-Leaves ctx _ pc
  exec-Leaves w Opcode.call ctx a1 a2 pc ne = op_call-Leaves t thunks w ctx pc
  exec-Leaves w Opcode.ret ctx a1 a2 pc ne = op_ret-Leaves ctx
  exec-Leaves w Opcode.icall ctx a1 a2 pc ne = op_icall-Leaves w ctx a1 pc
  exec-Leaves w Opcode.ijmp ctx a1 a2 pc ne = (refl, refl)
  exec-Leaves w Opcode.ncall ctx a1 a2 pc ne = absurd (ne refl)
