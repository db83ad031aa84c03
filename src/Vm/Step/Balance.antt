-- ===== src/Vm/Step/Balance.antt =====
-- The operand counts of the table src/vm_arch/vm_opcodes.in against what `vm_step` does.
use mette.Base.{ℕ, suc, ◌+◌, ◌<◌, ◌≡◌, ◌≢◌, refl, arith}
use mette.Base.{some, List, [], ◌∷◌, length, get_or}
use mette.Base.{Result, panic, Returns, Returns-bind, Returns_mono}
use mette.Base.{add32}
use mette.Arch.{Opcode, info}
use mette.Vm.Memory.{Target, load8}
use mette.Vm.Stack
use mette.Vm.Stack.{Stack}
use mette.Vm.Stack.Refine
use mette.Arch.{opcode_byte}
use mette.Arch.Laws.{offtab-opcode_byte, opcode_byte-stack_in}
use mette.Base.{stack_underflow, lt→ltb}
use mette.Vm.Stack.Refine.{depth, push3-IsValid, pop3-IsValid}
use mette.Vm.Context.{Context, World}
use mette.Vm.Step.{push_each, dispatch, vm_step}
use mette.Vm.Step.Leaves.{Leaves, exec-Leaves}

abbrev Deeper : Stack ℕ → ℕ → Stack ℕ → Type 0
Deeper s n s' = depth s' ≡ depth s + n

abbrev Grown : Stack ℕ → ℕ → Stack ℕ → Type 0
Grown s n s' = Refine.IsValid s' × (depth s' ≡ depth s + n)

push-Grown : (s : Stack ℕ) (r : ℕ) → Refine.IsValid s → Returns (Grown s 1) (Stack.push s r)
unfolding Stack.push
push-Grown s r v =
    Returns_mono _ (Grown s 1) (Stack.push3 s (r ∷ [])) (λ s' p. (p.0, p.1))
      (push3-IsValid s (r ∷ []) v)

push_each-depth :
    (s : Stack ℕ) (rs : List ℕ)
    → Refine.IsValid s
    → Returns (λ s'. depth s' ≡ depth s + length rs) (push_each s rs)
unfolding push_each
push_each-depth s [] v = omega arith
push_each-depth s (r ∷ rs) v =
    Returns-bind (Grown s 1) (Deeper s (suc (length rs))) (Stack.push s r) _ (push-Grown s r v)
      λ s' g.
        Returns_mono (Deeper s' (length rs)) (Deeper s (suc (length rs))) (push_each s' rs)
          (λ f e. omega (arith, e, g.1)) (push_each-depth s' rs g.0)

abbrev Popped : Stack ℕ → ℕ → List ℕ × Stack ℕ → Type 0
Popped s n p = Refine.IsValid p.1 × (depth s ≡ depth p.1 + n)

pop3-Popped : (s : Stack ℕ) (n : ℕ) → Refine.IsValid s → Returns (Popped s n) (Stack.pop3 s n)
pop3-Popped s n v =
    Returns_mono _ (Popped s n) (Stack.pop3 s n) (λ p k. (k.1, k.2)) (pop3-IsValid s n v)

-- The change of the depth that the instruction table states.
abbrev pub Balanced : Opcode → Context → Context → Type 0
Balanced op ctx c = depth c.dstack + (info op).stack_in ≡ depth ctx.dstack + (info op).stack_out

module _ (t : Target) (thunks : ℕ → Context → Result Context) where
  dispatch-Leaves :
      (w : World) (op : Opcode) (ctx : Context) (a1 a2 pc : ℕ)
      → op ≢ Opcode.ncall
      → Returns (Leaves ctx.dstack (info op).stack_out) (dispatch t thunks w (some op) ctx a1 a2 pc)
  unfolding dispatch
  dispatch-Leaves w op ctx a1 a2 pc ne = exec-Leaves t thunks w op ctx a1 a2 pc ne

  -- A step on the opcode byte of an instruction other than NCALL, on a valid data stack, takes, if it
  -- completes, from
  -- the data stack as many operands as the instruction table says and leaves as many as it says.
  pub vm_step-balance :
      (w : World) (op : Opcode) (ctx : Context)
      → op ≢ Opcode.ncall
      → Refine.IsValid ctx.dstack
      → ctx.memory ctx.pc ≡ some (opcode_byte op)
      → Returns (Balanced op ctx) (vm_step t thunks w ctx)
  unfolding vm_step load8
  vm_step-balance w op ctx ne v held =
      rw (held, offtab-opcode_byte op, (opcode_byte-stack_in op).0)
        (Returns-bind (Popped ctx.dstack (info op).stack_in) (Balanced op ctx) _ _
          (pop3-Popped ctx.dstack (info op).stack_in v)
          λ p k.
            Returns-bind (Leaves p.1 (info op).stack_out) (Balanced op ctx) _ _
              (dispatch-Leaves w op (record ctx { dstack = p.1 }) (get_or p.0 0 (w.junk 0))
                (get_or p.0 1 (w.junk 1)) (add32 ctx.pc 1) ne)
              λ d l.
                Returns-bind (Deeper p.1 (info op).stack_out) (Balanced op ctx)
                  (push_each d.ctx.dstack d.pushed) _
                  (rw (l.0) (
                    Returns_mono _ _ (push_each p.1 d.pushed) (λ f e. omega (arith, e, l.1))
                      (push_each-depth p.1 d.pushed k.0)))
                  λ final e. omega (arith, e, k.1))

  -- With fewer operands on a valid data stack than the table says, a step on the opcode byte of any
  -- instruction is a stack underflow panic.
  pub vm_step_underflow :
      (w : World) (op : Opcode) (ctx : Context)
      → Refine.IsValid ctx.dstack
      → ctx.memory ctx.pc ≡ some (opcode_byte op)
      → depth ctx.dstack < (info op).stack_in
      → vm_step t thunks w ctx ≡ panic stack_underflow
  unfolding vm_step load8 Stack.pop3
  vm_step_underflow w op ctx v held few =
      rw
        (
          held,
          (opcode_byte-stack_in op).0,
          lt→ltb ctx.dstack.bottom (ctx.dstack.top + (info op).stack_in) (omega arith),
        )
        refl
